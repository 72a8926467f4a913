-- ===== src/Snapshot.antt =====
-- `get_inventory_snapshot` of backend/app/service.py, with `_build_inventory_state` and `_state_apply`:
-- the stock as it was at the end of a past day, and as it is expected at a coming one.
pub mod States
pub mod Rewind
pub mod Past
pub mod Required
pub mod Query
pub mod Started
pub mod Future
pub mod Reserved
pub mod Answers
use materials_management_sha.Reservation.Create.{coalesce}
use materials_management_sha.Database.Table.{find}
use materials_management_sha.Prelude.{
  ℕ, ◌+◌, ◌-◌, ℤ, pos, neg_ℕ, pos_part, neg_part, Bool, true, false, ◌&&◌, ◌||◌, not, Option, none,
  some, List, [], ◌∷◌, ◌==◌, ltb, leb, if◌then◌else◌, sum_by, keep, min, any_of,
}
use materials_management_sha.Text.{Text, codes, text_eq, is_empty}
use materials_management_sha.Database.{
  Db, StockRow, LogRow, Operation, move, consume, reserve, adjust, arrival, Order, Result, ok, err,
  invalid_snapshot_mode, invalid_snapshot_basis, snapshot_basis_mode_unsupported,
}
use materials_management_sha.Stock.{is_at, quantity_at, delete_row}
use materials_management_sha.Undo.{is_named}
use materials_management_sha.Reservation.{is_active}
use materials_management_sha.Orders.{is_arrived, same_id, order_key}
use materials_management_sha.Supply.{available_at, incoming_reserved}

-- state[(item, location)] = q, on the dict of `_build_inventory_state` as its entries
unfoldable pub put : ℕ → Text → ℕ → List StockRow → List StockRow
put item location q [] = record { item_id = item; location = location; quantity = q } ∷ []
put item location q (r ∷ state) =
    let rest = put item location q state in
    if is_at item location r then record r { quantity = q } ∷ state else r ∷ rest

-- `_state_apply`: an entry that is not positive is dropped.
unfoldable pub state_apply : ℕ → Text → ℤ → List StockRow → List StockRow
state_apply item location delta state =
    let current = quantity_at item location state in
    if leb (current + pos_part delta) (neg_part delta)
    then delete_row item location state
    else put item location (current + pos_part delta - neg_part delta) state

-- `if location: _state_apply(...)`
unfoldable pub apply_column : ℕ → Option Text → ℤ → List StockRow → List StockRow
apply_column item none delta state = state
apply_column item (some l) delta state =
    if is_empty l then state else state_apply item l delta state

-- The change of a row, taken back.
unfoldable pub rewind_row : LogRow → List StockRow → List StockRow
rewind_row row state = rewind row.operation_type
  where
    both : List StockRow
    both =
        apply_column row.item_id row.from_location (pos row.quantity)
          (apply_column row.item_id row.to_location (neg_ℕ row.quantity) state)

    rewind : Operation → List StockRow
    rewind move = both
    rewind consume = apply_column row.item_id row.from_location (pos row.quantity) state
    rewind reserve =
        state_apply row.item_id (codes "STOCK") (pos row.quantity)
          (state_apply row.item_id (codes "RESERVED") (neg_ℕ row.quantity) state)
    rewind arrival = state_apply row.item_id (codes "STOCK") (neg_ℕ row.quantity) state
    rewind adjust =
        if is_named row.to_location && not (is_named row.from_location)
        then apply_column row.item_id row.to_location (neg_ℕ row.quantity) state
        else if is_named row.from_location && not (is_named row.to_location)
        then apply_column row.item_id row.from_location (pos row.quantity) state
        else both

unfoldable pub rewind_all : List LogRow → List StockRow → List StockRow
rewind_all [] state = state
rewind_all (row ∷ rows) state = rewind_all rows (rewind_row row state)

-- ORDER BY timestamp DESC, log_id DESC
unfoldable pub is_newer : LogRow → LogRow → Bool
is_newer a b =
    if a.timestamp == b.timestamp then ltb b.log_id a.log_id else ltb b.timestamp a.timestamp

unfoldable pub insert_newest : LogRow → List LogRow → List LogRow
insert_newest a [] = a ∷ []
insert_newest a (b ∷ rows) =
    let rest = insert_newest a rows in if is_newer a b then a ∷ b ∷ rows else b ∷ rest

unfoldable pub newest_first : List LogRow → List LogRow
newest_first [] = []
newest_first (row ∷ rows) = insert_newest row (newest_first rows)

module _ (day_of : ℕ → ℕ) where
  -- WHERE date(timestamp) > date(?)
  unfoldable pub rows_after : ℕ → List LogRow → List LogRow
  rows_after target log = newest_first (keep (λ r. ltb target (day_of r.timestamp)) log)

  unfoldable pub past_state : ℕ → Db → List StockRow
  past_state target s = rewind_all (rows_after target s.log) s.stock

-- basis=net_available: what no reservation holds, of the entries outside RESERVED
unfoldable pub net_state : Db → List StockRow → List StockRow
net_state s [] = []
net_state s (r ∷ state) =
    let rest = net_state s state in
    let n = available_at r.item_id r.location s in
    if r.quantity == 0 || text_eq r.location (codes "RESERVED") || n == 0
    then rest
    else record r { quantity = n } ∷ rest

abbrev pub is_by : ℕ → Option ℕ → Bool
is_by target none = false
is_by target (some d) = leb d target

abbrev is_free : Option ℕ → Bool
is_free none = true
is_free (some p) = false

-- WHERE status <> 'Arrived' AND date(expected_arrival) <= date(?)
unfoldable pub is_pending : ℕ → Order → Bool
is_pending target o = not (is_arrived o.status) && is_by target o.expected_arrival

-- The pending orders of no project: what no reservation awaits of them comes to STOCK.
unfoldable pub add_pending : ℕ → Db → List Order → List StockRow → List StockRow
add_pending target s [] state = state
add_pending target s (o ∷ orders) state =
    let free = o.order_amount - incoming_reserved o.order_id s in
    let next =
      if is_pending target o && is_free o.project_id && not (free == 0)
      then state_apply o.item_id (codes "STOCK") (pos free) state
      else state in
    add_pending target s orders next

-- SUM(quantity) of the active reservations of an item that are due
unfoldable pub due_reserved : ℕ → ℕ → Db → ℕ
due_reserved target item s =
    sum_by
      (λ r.
        if is_active r.status && r.item_id == item && is_by target r.deadline
        then r.quantity
        else 0)
      s.reservations

-- basis=raw: the due reservations leave RESERVED.
unfoldable pub take_due : ℕ → Db → List ℕ → List StockRow → List StockRow
take_due target s [] state = state
take_due target s (item ∷ items) state =
    let n = due_reserved target item s in
    let next = if n == 0 then state else state_apply item (codes "RESERVED") (neg_ℕ n) state in
    take_due target s items next
