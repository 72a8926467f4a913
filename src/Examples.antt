-- ===== src/Examples.antt =====
-- The theorems at the data of the shop.
mod Plans
mod Updates
mod Snapshots
mod Allocations
use materials_management_sha.Drain.Laws.{All}
use materials_management_sha.Orders.Landed.{Landed}
use materials_management_sha.Reservation.Updated.{Edited, update_reservation-Edited}
use materials_management_sha.Shop.Moves.{
  moved_shop, moved-not_consumption, spent_shop, shop-Reaches,
}
use materials_management_sha.Undo.Once.{Refuses, undo_transaction-undo_transaction}
use materials_management_sha.Integrity.Passes.{quantity_mismatches-active_leaks, IsMet, IsClear}
use materials_management_sha.Integrity.{quantity_mismatches, active_leaks}
use materials_management_sha.Orders.Marker.{without_arrival_markers}
use materials_management_sha.Supply.Shelves.{offered, available_inventory-available_at}
use materials_management_sha.Shop.Releases.{
  partly_released, partly_released-IsConsistent, wholly_released, wholly_released-IsConsistent,
}
use materials_management_sha.Undo.Release.{undo_release-IsConsistent, undo_release-breaks}
use materials_management_sha.Supply.{
  available_inventory, sort_stock, insert_stock, stands_before, is_shelf, list_available,
  available_at, reserved_at, reserves, open_supply, sort_orders, insert_order, supplies_before,
  date_before, may_supply, list_candidates, order_available, incoming_reserved, awaited,
}
use materials_management_sha.Movement.Flows.{Journals}
use materials_management_sha.Undo.History.{Reaches-Journals}
use materials_management_sha.Reservation.Accepted.{create_reservation-Returns}
use materials_management_sha.Undo.RoundTrip.{Restored, undo_transaction-move_inventory}
use materials_management_sha.Undo.Names.{event_name, creation_name, transaction_context-name}
use materials_management_sha.Undo.Context.{transaction_context, release_of, consume_of, creation_of}
use materials_management_sha.Reservation.Overbooking.{create_reservation-IsCovered}
use materials_management_sha.Reservation.Covered.{IsCovered}
use materials_management_sha.Undo.{undo_transaction, regain, undo_release}
use materials_management_sha.Reservation.Create.{create_reservation, update_reservation}
use materials_management_sha.Undo.Journal.{undo_transaction-Journals}
use materials_management_sha.Reservation.Created.{Created, IsSound, create_reservation-Created}
use materials_management_sha.Orders.Mergeable.{merge_open_orders-Returns}
use materials_management_sha.Orders.Success.{process_order_arrival-Returns}
use materials_management_sha.Reservation.Success.{release_reservation-Returns}
use materials_management_sha.Planning.Pool.{supply, consume_planning_sources-supply}
use materials_management_sha.Planning.{Source, consume_planning_sources, sum_planning_sources}
use materials_management_sha.Orders.Shares.{Shares, split_ordered-Shares}
use materials_management_sha.Orders.Merge.{Merged, merge_open_orders-Merged}
use materials_management_sha.Orders.Received.{Received, process_order_arrival-Received}
use materials_management_sha.Orders.Arrival.{process_order_arrival, target_location}
use materials_management_sha.Orders.{
  split_ordered, merge_open_orders, is_arrived, original_quantity, same_scope, same_id,
}
use materials_management_sha.Reservation.Consumption.{Spent, consume_reservation-Settled}
use materials_management_sha.Reservation.Release.{release_reservation-Settled}
use materials_management_sha.Reservation.{release_reservation, consume_reservation, is_active}
use materials_management_sha.Notes.RoundTrip.{
  event_note-ends_with, remove_tx_marker-append_tx_marker,
}
use materials_management_sha.Notes.{
  event_note, tx_marker, append_tx_marker, remove_tx_marker, or_none, or_empty,
}
use materials_management_sha.Movement.Journal.{Journaled, batch_inventory_operations-Journals}
use materials_management_sha.Movement.Transfer.{Transferred, move_inventory_lem}
use materials_management_sha.Movement.{move_inventory, batch_inventory_operations}
use materials_management_sha.Database.Triples.{After, Returns}
use materials_management_sha.Stock.Total.{Totals, apply_inventory_delta-Totals}
use materials_management_sha.Stock.Delta.{Applies, apply_delta-Applies}
use materials_management_sha.Stock.{apply_delta, apply_inventory_delta, has_item, quantity_at}
use materials_management_sha.Reservation.Settled.{Settled}
use materials_management_sha.Database.Table.{find}
use materials_management_sha.Prelude.{
  ◌≡◌, refl, pos, negsuc, true, none, some, arith, min, ◌+◌, inr, keep, sum_by, any_of, ◌↔◌,
}
use materials_management_sha.Text.{
  codes, strip, is_empty, text_eq, ends_with, lstrip, rstrip, is_space,
}
use materials_management_sha.Database.{move, released, consumed}
use materials_management_sha.Reservation.Holdings.{IsConsistent, held, reservation_key}
use materials_management_sha.Shop.{
  stock_room, lab, ledger, reservation, order, shop, operations, pool, ledger-IsLedger,
  shop-IsConsistent, request, shop-IsSound, shop-IsCovered, no_project,
}

apply_delta-Applies_example :
    Applies 1 (codes "STOCK") (negsuc 9) ledger (apply_delta 1 (codes "STOCK") (negsuc 9) ledger)
apply_delta-Applies_example =
    apply_delta-Applies 1 (codes "STOCK") (negsuc 9) ledger ledger-IsLedger

apply_inventory_delta-Totals_example :
    After
      (λ _ s'. Totals 1 (negsuc 3) ledger s'.stock)
      (apply_inventory_delta 1 (some stock_room) (negsuc 3) shop)
apply_inventory_delta-Totals_example =
    apply_inventory_delta-Totals 1 (some stock_room) (negsuc 3) shop

move_inventory_lem_example :
    Returns
      (Transferred move 1 10 stock_room lab shop)
      (move_inventory 1 (pos 10) (some stock_room) (some lab) none none move shop)
unfolding has_item is_empty text_eq strip lstrip rstrip is_space quantity_at
move_inventory_lem_example =
    move_inventory_lem move 1 10 stock_room lab none none shop ledger-IsLedger (omega arith) refl
      refl refl refl (omega arith)

batch_inventory_operations-Journals_example :
    After (Journaled shop) (batch_inventory_operations (codes "batch-1") operations none shop)
batch_inventory_operations-Journals_example =
    batch_inventory_operations-Journals (codes "batch-1") operations none shop ledger-IsLedger

event_note-ends_with_example :
    ends_with (tx_marker 12) (event_note none (some (codes "urgent [[tx:12]]")) 12) ≡ true
event_note-ends_with_example = event_note-ends_with none (some (codes "urgent [[tx:12]]")) 12

remove_tx_marker-append_tx_marker_example :
    remove_tx_marker (some (append_tx_marker (some (codes " urgent ")) 12)) 12
    ≡ or_none (strip (codes " urgent "))
unfolding or_empty
remove_tx_marker-append_tx_marker_example =
    remove_tx_marker-append_tx_marker (some (codes " urgent ")) 12

release_reservation-Settled_example :
    After
      (λ r' s'.
        Settled released 7 (some (pos 4)) shop r' s' × (s'.stock ≡ shop.stock) × IsConsistent s')
      (release_reservation 7 (some (pos 4)) none shop)
release_reservation-Settled_example =
    release_reservation-Settled 7 (some (pos 4)) none shop shop-IsConsistent

consume_reservation-Settled_example :
    After
      (λ r' s'. Settled consumed 7 (some (pos 2)) shop r' s' × Spent 7 shop r' s' × IsConsistent s')
      (consume_reservation 7 (some (pos 2)) none shop)
consume_reservation-Settled_example =
    consume_reservation-Settled 7 (some (pos 2)) none shop shop-IsConsistent

process_order_arrival-Received_example :
    After
      (λ r s'. (Received 4 (some (pos 3)) shop r s' × IsConsistent s') × Landed 4 none shop r s')
      (process_order_arrival 4 (some (pos 3)) none shop)
unfolding find
process_order_arrival-Received_example =
    process_order_arrival-Received 4 (some (pos 3)) none shop shop-IsConsistent ledger-IsLedger
      (refl, (refl, tt))

merge_open_orders-Merged_example : After (Merged 3 4 none shop) (merge_open_orders 3 4 none shop)
unfolding find
merge_open_orders-Merged_example = merge_open_orders-Merged 3 4 none shop (refl, (refl, tt))

split_ordered-Shares_example :
    After (λ r s'. Shares 12 3 6 r × (s' ≡ shop)) (split_ordered 12 3 6 shop)
split_ordered-Shares_example = split_ordered-Shares 12 3 6 shop (omega arith)

consume_planning_sources-supply_example :
    (sum_planning_sources (consume_planning_sources pool 7).0 ≡ min 7 (sum_planning_sources pool))
    × ((y : Source)
        → supply y (consume_planning_sources pool 7).0
            + supply y (consume_planning_sources pool 7).1
          ≡ supply y pool)
consume_planning_sources-supply_example = consume_planning_sources-supply pool 7

release_reservation-Returns_example :
    Returns
      (λ r' s'.
        Settled released 7 (some (pos 4)) shop r' s' × (s'.stock ≡ shop.stock) × IsConsistent s')
      (release_reservation 7 (some (pos 4)) none shop)
unfolding find is_active has_item
release_reservation-Returns_example =
    release_reservation-Returns 7 4 (some (pos 4)) none shop reservation shop-IsConsistent refl refl
      (refl, omega arith) (omega arith) (omega arith) refl

process_order_arrival-Returns_example :
    Returns
      (λ r s'. (Received 4 (some (pos 3)) shop r s' × IsConsistent s') × Landed 4 none shop r s')
      (process_order_arrival 4 (some (pos 3)) none shop)
unfolding find has_item is_arrived text_eq strip lstrip rstrip is_space original_quantity
    target_location
process_order_arrival-Returns_example =
    process_order_arrival-Returns 4 3 (some (pos 3)) none (codes "STOCK") shop order
      shop-IsConsistent ledger-IsLedger (refl, (refl, tt)) (refl, refl, refl, refl)
      (refl, omega arith) (omega arith) (omega arith)
      (inr (omega arith, refl, omega arith, omega arith)) refl

merge_open_orders-Returns_example : Returns (Merged 3 4 none shop) (merge_open_orders 3 4 none shop)
unfolding find text_eq strip lstrip rstrip is_space is_arrived same_scope same_id
merge_open_orders-Returns_example =
    merge_open_orders-Returns 3 4 none shop (record order { order_id = 3; order_amount = 2 }) order
      (refl, (refl, tt)) (λ e. omega (arith, e)) (refl, refl, refl, refl, refl, refl, refl)

create_reservation-Created_example :
    After
      (λ r' s'. Created request shop r' s' × IsSound s')
      (create_reservation (λ a b. true) request shop)
create_reservation-Created_example =
    create_reservation-Created (λ a b. true) request shop shop-IsSound

undo_transaction-Journals_example :
    After (Journaled moved_shop) (undo_transaction 1 none moved_shop)
undo_transaction-Journals_example =
    undo_transaction-Journals 1 none moved_shop ledger-IsLedger moved-not_consumption

create_reservation-IsCovered_example :
    After (λ _ s'. IsCovered s') (create_reservation (λ a b. true) request shop)
unfolding find
create_reservation-IsCovered_example =
    create_reservation-IsCovered (λ a b. true) request shop ledger-IsLedger (refl, (refl, tt))
      shop-IsCovered

transaction_context-name_example :
    (transaction_context (some (event_name (codes "release") 7 12)) ≡ release_of 7 12)
    × (transaction_context (some (event_name (codes "consume") 7 12)) ≡ consume_of 7 12)
    × (transaction_context (some (creation_name 7)) ≡ creation_of 7)
transaction_context-name_example = transaction_context-name 7 12

undo_transaction-move_inventory_example :
    Returns
      (λ row t. Returns (λ _ u. Restored shop u) (undo_transaction row.log_id none t))
      (move_inventory 1 (pos 10) (some stock_room) (some (codes "LAB")) none none move shop)
unfolding has_item is_empty text_eq strip lstrip rstrip is_space quantity_at
undo_transaction-move_inventory_example =
    undo_transaction-move_inventory 1 10 stock_room (codes "LAB") none none none shop
      ledger-IsLedger tt (omega arith) refl refl refl refl (omega arith) refl

create_reservation-Returns_example :
    Returns
      (λ r' s'. Created request shop r' s' × IsSound s')
      (create_reservation (λ a b. true) request shop)
unfolding has_item available_inventory sort_stock insert_stock stands_before keep is_shelf
    list_available available_at quantity_at reserved_at reserves sum_by is_active text_eq
    open_supply sort_orders insert_order supplies_before date_before may_supply list_candidates
    order_available incoming_reserved awaited same_id is_arrived any_of
create_reservation-Returns_example =
    create_reservation-Returns (λ a b. true) request 12 shop shop-IsSound refl (omega arith) refl
      (λ k e. absurd (no_project k e)) refl (omega arith)

Reaches-Journals_example : Journals shop spent_shop
Reaches-Journals_example = Reaches-Journals shop spent_shop ledger-IsLedger shop-Reaches

undo_release-IsConsistent_example :
    After
      (λ _ t.
        IsConsistent t
        × (held 7 t ≡ 5 + 2)
        × (find reservation_key 7 t.reservations ≡ some (regain (5 + 2) reservation))
        × (t.stock ≡ ledger))
      (undo_release 7 9 1 2 none partly_released)
unfolding find is_active
undo_release-IsConsistent_example =
    undo_release-IsConsistent 7 9 1 2 none partly_released reservation partly_released-IsConsistent
      refl refl

undo_release-breaks_example :
    After
      (λ _ t.
        (held 7 t ≡ 5)
        × (find reservation_key 7 t.reservations
            ≡ some
                (regain (5 + 5) (record reservation { status = released; released_at = some 95 })))
        × ¬ IsConsistent t)
      (undo_release 7 9 1 5 none wholly_released)
unfolding find is_active
undo_release-breaks_example =
    undo_release-breaks 7 9 1 5 none wholly_released
      (record reservation { status = released; released_at = some 95 }) wholly_released-IsConsistent
      refl refl (omega arith)

available_inventory-available_at_example :
    sum_by (offered (codes "STOCK")) (available_inventory (λ a b. true) 1 shop)
    ≡ available_at 1 (codes "STOCK") shop
unfolding text_eq
available_inventory-available_at_example =
    available_inventory-available_at 1 (codes "STOCK") shop (λ a b. true) ledger-IsLedger refl

quantity_mismatches-active_leaks_example :
    (quantity_mismatches shop ≡ 0 ↔ All (IsMet shop) shop.reservations)
    × (active_leaks shop ≡ 0 ↔ All (IsClear shop) shop.reservations)
quantity_mismatches-active_leaks_example =
    quantity_mismatches-active_leaks shop ((omega arith, tt), (omega arith, tt))

undo_transaction-undo_transaction_example :
    After (λ _ t. After Refuses (undo_transaction 1 none t)) (undo_transaction 1 none moved_shop)
undo_transaction-undo_transaction_example = undo_transaction-undo_transaction 1 none none moved_shop

update_reservation-Edited_example :
    After
      (λ r' t. Edited 7 (some (codes "bench")) none none shop r' t × IsConsistent t)
      (update_reservation 7 (some (codes "bench")) none none shop)
update_reservation-Edited_example =
    update_reservation-Edited 7 (some (codes "bench")) none none shop shop-IsConsistent
