-- ===== src/Examples/Snapshots.antt =====
-- The snapshots of the example shop.
use materials_management_sha.Prelude.{◌+◌, ◌≡◌, refl, none, true, [], ◌∷◌, arith, List}
use materials_management_sha.Text.{codes}
use materials_management_sha.Database.{ok}
use materials_management_sha.Database.Triples.{After}
use materials_management_sha.Reservation.Create.{create_reservation}
use materials_management_sha.Stock.{quantity_at}
use materials_management_sha.Snapshot.{past_state}
use materials_management_sha.Snapshot.Required.{Required}
use materials_management_sha.Snapshot.Query.{get_inventory_snapshot}
use materials_management_sha.Snapshot.Rewind.{Shows}
use materials_management_sha.Snapshot.Past.{quantities}
use materials_management_sha.Snapshot.Reserved.{past_state-create_reservation}
use materials_management_sha.Snapshot.Answers.{get_inventory_snapshot-Since}
use materials_management_sha.Shop.{shop, request, ledger-IsLedger}
use materials_management_sha.Shop.Moves.{spent_shop, spent_row, day_of, shop-Since}

get_inventory_snapshot-Since_example :
    (get_inventory_snapshot day_of [] 15 none none spent_shop
      ≡ ok (past_state day_of 15 spent_shop))
    × Shows (quantities shop) (past_state day_of 15 spent_shop)
get_inventory_snapshot-Since_example =
    get_inventory_snapshot-Since day_of [] 15 shop spent_shop (spent_row ∷ []) ledger-IsLedger tt
      shop-Since (omega arith)

-- A project that has started requires 4 of the item.
abbrev required : List Required
required = record { project_id = 1; item_id = 1; quantity = 4 } ∷ []

past_state-create_reservation_example :
    After
      (λ _ t.
        (t.stock ≡ shop.stock)
        × (quantity_at 1 (codes "STOCK") (past_state day_of 15 t)
            ≡ quantity_at 1 (codes "STOCK") shop.stock + 12))
      (create_reservation (λ a b. true) request shop)
past_state-create_reservation_example =
    past_state-create_reservation day_of 15 (λ a b. true) request 12 shop ledger-IsLedger tt tt
      (omega arith) refl
