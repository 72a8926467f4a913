-- ===== src/Snapshot/Required.antt =====
-- What `_build_started_project_snapshot_allocation_summary` of backend/app/service.py takes from a
-- snapshot's state.
use materials_management_sha.Prelude.{
  ℕ, ◌+◌, ◌-◌, neg_ℕ, Bool, true, false, ◌&&◌, not, Option, none, some, List, [], ◌∷◌, ◌==◌, ltb,
  if◌then◌else◌, sum_by, min, any_of,
}
use materials_management_sha.Text.{Text, codes, text_eq}
use materials_management_sha.Database.{Db, StockRow, Order}
use materials_management_sha.Stock.{quantity_at}
use materials_management_sha.Reservation.{is_active}
use materials_management_sha.Orders.{same_id, order_key}
use materials_management_sha.Snapshot.{state_apply, is_pending, is_by, find, coalesce}

-- What a committed project that has started by the day requires of an item
-- (`_aggregate_project_required_by_item`), in the order of the loop.
pub record Required : Type 0 where
  pub project_id : ℕ
  pub item_id : ℕ
  pub quantity : ℕ

-- JOIN reservations r … WHERE r.status = 'ACTIVE' AND r.project_id IN (…)
unfoldable pub is_for : ℕ → ℕ → Db → Bool
is_for project id s =
    any_of
      (λ r. r.reservation_id == id && is_active r.status && same_id r.project_id (some project))
      s.reservations

unfoldable pub stock_cover : ℕ → ℕ → Db → ℕ
stock_cover project item s =
    sum_by
      (λ a.
        if is_active a.status && a.item_id == item && is_for project a.reservation_id s
        then a.quantity
        else 0)
      s.allocations

-- LEFT JOIN orders o ON o.order_id = ria.order_id, and a column of it
abbrev column : (Order → Option ℕ) → Option Order → Option ℕ
column f none = none
column f (some o) = f o

unfoldable pub joined : (Order → Option ℕ) → Option ℕ → List Order → Option ℕ
joined f none orders = none
joined f (some id) orders = column f (find order_key id orders)

-- COALESCE(o.project_id, 0) = 0
abbrev is_unowned : Option ℕ → Bool
is_unowned none = true
is_unowned (some p) = p == 0

unfoldable pub incoming_cover : ℕ → ℕ → ℕ → Db → ℕ
incoming_cover target project item s =
    sum_by
      (λ a.
        if is_active a.status
          && a.item_id == item
          && is_for project a.reservation_id s
          && is_unowned (joined (λ o. o.project_id) a.order_id s.orders)
          && is_by target (
              coalesce a.expected_arrival_snapshot
                (joined (λ o. o.expected_arrival) a.order_id s.orders))
        then a.quantity
        else 0)
      s.incoming

unfoldable pub dedicated_cover : ℕ → ℕ → ℕ → Db → ℕ
dedicated_cover target project item s =
    sum_by
      (λ o.
        if same_id o.project_id (some project) && o.item_id == item && is_pending target o
        then o.order_amount
        else 0)
      s.orders

-- `remaining_to_allocate`, before the loop over the entries
unfoldable pub remaining : ℕ → Db → Required → ℕ
remaining target s r =
    r.quantity
    - (stock_cover r.project_id r.item_id s
        + incoming_cover target r.project_id r.item_id s
        + dedicated_cover target r.project_id r.item_id s)

-- Python's `<=` on strings, by code points
unfoldable pub text_leb : Text → Text → Bool
text_leb [] b = true
text_leb (c ∷ a) [] = false
text_leb (c ∷ a) (d ∷ b) = let rest = text_leb a b in if c == d then rest else ltb c d

unfoldable pub insert_name : Text → List Text → List Text
insert_name a [] = a ∷ []
insert_name a (b ∷ names) =
    let rest = insert_name a names in if text_leb a b then a ∷ b ∷ names else b ∷ rest

unfoldable pub sort_names : List Text → List Text
sort_names [] = []
sort_names (a ∷ names) = insert_name a (sort_names names)

-- The locations of an item's entries outside STOCK.
unfoldable pub names_of : ℕ → List StockRow → List Text
names_of item [] = []
names_of item (r ∷ state) =
    let rest = names_of item state in
    if r.item_id == item && not (r.quantity == 0) && not (text_eq r.location (codes "STOCK"))
    then r.location ∷ rest
    else rest

-- `_sorted_snapshot_state_keys_for_item`: STOCK first, where it has any, then by name.
unfoldable pub locations_of : ℕ → List StockRow → List Text
locations_of item state =
    let others = sort_names (names_of item state) in
    if quantity_at item (codes "STOCK") state == 0 then others else codes "STOCK" ∷ others

-- The loop over the entries of an item.
unfoldable pub take_locations : ℕ → List Text → ℕ → List StockRow → List StockRow
take_locations item [] need state = state
take_locations item (l ∷ locations) need state =
    let used = min (quantity_at item l state) need in
    let next = if used == 0 then state else state_apply item l (neg_ℕ used) state in
    let rest = take_locations item locations (need - used) next in if need == 0 then state else rest

-- `_build_started_project_snapshot_allocation_summary`, in what it takes from the state
unfoldable pub take_required : ℕ → Db → List Required → List StockRow → List StockRow
take_required target s [] state = state
take_required target s (r ∷ required) state =
    take_required target s required
      (take_locations r.item_id (locations_of r.item_id state) (remaining target s r) state)
