-- ===== src/Undo.antt =====
-- `undo_transaction` of backend/app/service.py, with `_undo_reservation_release` and
-- `_undo_reservation_consume`.
pub mod Context
pub mod Arrival
pub mod Books
pub mod Returns
pub mod Journal
pub mod Names
pub mod History
pub mod Reopened
pub mod Release
pub mod Once
pub mod RoundTrip
use materials_management_sha.Prelude.{
  ℕ, zero, suc, ◌+◌, ◌-◌, ℤ, pos, neg_ℕ, min, Bool, true, false, ◌&&◌, not, Option, none, some,
  List, [], ◌∷◌, ◌++◌, map, ◌==◌, if◌then◌else◌, sum_by, keep,
}
use materials_management_sha.Text.{Text, codes, decimal, text_eq, is_empty, ends_with}
use materials_management_sha.Notes.{tx_marker, remove_tx_marker}
use materials_management_sha.Database.{
  Db, LogRow, Operation, move, consume, reserve, adjust, arrival, Reservation, Allocation, Incoming,
  Status, active, released, consumed, converted, shortage, Action, ok, err, ◌>>=◌, ◌>>◌, pure,
  raise, gets, modify, raise_if, or_raise, transaction_not_found, already_undone, undo_not_possible,
}
use materials_management_sha.Database.Table.{find, update}
use materials_management_sha.Stock.{require_non_empty, quantity_at, apply_inventory_delta}
use materials_management_sha.Movement.{log_transaction, or_else}
use materials_management_sha.Reservation.{is_active, get_reservation, or_text}
use materials_management_sha.Orders.{same_id}
use materials_management_sha.Restore.{Revival, restore}
use materials_management_sha.Undo.Context.{
  ReservationContext, release_of, consume_of, creation_of, other, transaction_context,
}
use materials_management_sha.Undo.Arrival.{undo_arrival_conversions}

abbrev pub log_key : LogRow → ℕ
log_key r = r.log_id

-- `get_transaction`
unfoldable pub get_transaction : ℕ → Action LogRow
get_transaction id s = or_raise (find log_key id s.log) transaction_not_found s

-- f"undo-{log_id}"
unfoldable pub undo_batch : ℕ → Option Text
undo_batch id = some (codes "undo-" ++ decimal id)

-- The log row of an undo.
unfoldable pub log_undo :
    ℕ → Operation → ℕ → ℕ → Option Text → Option Text → Option Text → Action LogRow
log_undo id operation item n from_location to_location note =
    log_transaction operation item (pos n) from_location to_location note (undo_batch id) (some id)

-- `_get_inventory_quantity` at a column of the log; SQL's `=` holds for no row where it is NULL.
unfoldable pub quantity_of : ℕ → Option Text → Db → ℕ
quantity_of item none s = 0
quantity_of item (some l) s = quantity_at item l s.stock

-- `min(qty, available)`, where anything is available
unfoldable pub undoable : ℕ → ℕ → Option Text → Action ℕ
undoable item n location = do
  available ← gets (quantity_of item location)
  raise_if (available == 0) undo_not_possible
  pure (min n available)

-- Stock goes back from where it was moved to.
unfoldable pub undo_move : ℕ → LogRow → Option Text → Action LogRow
undo_move id row note = do
  n ← undoable row.item_id row.quantity row.to_location
  apply_inventory_delta row.item_id row.to_location (neg_ℕ n)
  apply_inventory_delta row.item_id row.from_location (pos n)
  log_undo id move row.item_id n row.to_location row.from_location note

unfoldable pub undo_arrival : ℕ → LogRow → Option Text → Action LogRow
undo_arrival id row note = do
  n ← undoable row.item_id row.quantity (or_else row.to_location (some (codes "STOCK")))
  apply_inventory_delta row.item_id (or_else row.to_location (some (codes "STOCK"))) (neg_ℕ n)
  undo_arrival_conversions id n
  log_undo id consume row.item_id n (or_else row.to_location (some (codes "STOCK"))) none note

unfoldable pub undo_consume : ℕ → LogRow → Option Text → Action LogRow
undo_consume id row note = do
  apply_inventory_delta row.item_id (or_else row.from_location (some (codes "STOCK")))
      (pos row.quantity)
  log_undo id adjust row.item_id row.quantity none
      (or_else row.from_location (some (codes "STOCK"))) note

-- Whether a column holds a text that is not empty.
unfoldable pub is_named : Option Text → Bool
is_named none = false
is_named (some t) = not (is_empty t)

unfoldable pub undo_increase : ℕ → LogRow → Option Text → Action LogRow
undo_increase id row note = do
  n ← undoable row.item_id row.quantity row.to_location
  apply_inventory_delta row.item_id row.to_location (neg_ℕ n)
  log_undo id adjust row.item_id n row.to_location none note

unfoldable pub undo_decrease : ℕ → LogRow → Option Text → Action LogRow
undo_decrease id row note = do
  apply_inventory_delta row.item_id row.from_location (pos row.quantity)
  log_undo id adjust row.item_id row.quantity none row.from_location note

unfoldable pub undo_adjust : ℕ → LogRow → Option Text → Action LogRow
undo_adjust id row note =
    if is_named row.to_location && not (is_named row.from_location)
    then undo_increase id row note
    else if is_named row.from_location && not (is_named row.to_location)
    then undo_decrease id row note
    else undo_move id row note

unfoldable pub status_code : Status → ℕ
status_code active = 0
status_code released = 1
status_code consumed = 2
status_code converted = 3
status_code shortage = 4

unfoldable pub has_marker : ℕ → Option Text → Bool
has_marker log_id none = false
has_marker log_id (some t) = ends_with (tx_marker log_id) t

-- `_get_reservation_undo_rows`
unfoldable pub undo_rows : ℕ → Status → ℕ → Db → List Allocation
undo_rows rid target log_id s =
    keep
      (λ a.
        a.reservation_id == rid
        && status_code a.status == status_code target
        && has_marker log_id a.note)
      s.allocations

-- `_get_reservation_incoming_undo_rows`
unfoldable pub undo_incoming_rows : ℕ → Status → ℕ → Db → List Incoming
undo_incoming_rows rid target log_id s =
    keep
      (λ a.
        a.reservation_id == rid
        && status_code a.status == status_code target
        && has_marker log_id a.note)
      s.incoming

-- How `_restore_reservation_allocation_rows` changes a row.
abbrev pub stock_revival : ℕ → ℕ → Revival Allocation
stock_revival rid log_id = record {
  key = λ a. a.allocation_id;
  quantity = λ a. a.quantity;
  matches = λ a r. r.reservation_id == rid && is_active r.status && text_eq r.location a.location;
  grow = λ n r. record r { quantity = n };
  revive = λ a r. record r {
    status = active;
    released_at = none;
    note = remove_tx_marker a.note log_id;
  };
}

-- How `_restore_reservation_incoming_allocation_rows` changes a row.
abbrev pub incoming_revival : ℕ → ℕ → ℕ → Revival Incoming
incoming_revival rid log_id now = record {
  key = λ a. a.incoming_allocation_id;
  quantity = λ a. a.quantity;
  matches = λ a r. r.reservation_id == rid && is_active r.status && same_id r.order_id a.order_id;
  grow = λ n r. record r { quantity = n; updated_at = now };
  revive = λ a r. record r {
    status = active;
    released_at = none;
    updated_at = now;
    note = remove_tx_marker a.note log_id;
  };
}

-- The UPDATE that gives a reservation its quantity back.
unfoldable pub regain : ℕ → Reservation → Reservation
regain n r = record r { quantity = n; status = active; released_at = none }

unfoldable pub regain_reservation : ℕ → ℕ → Db → Db
regain_reservation rid n s = record s {
  reservations = update (λ r. r.reservation_id) rid (regain n) s.reservations;
}

unfoldable pub restore_stock_rows : ℕ → ℕ → List Allocation → Db → Db
restore_stock_rows rid log_id rows s = record s {
  allocations = restore (stock_revival rid log_id) rows s.allocations;
}

unfoldable pub restore_incoming_rows : ℕ → ℕ → List Incoming → Db → Db
restore_incoming_rows rid log_id rows s = record s {
  incoming = restore (incoming_revival rid log_id s.now) rows s.incoming;
}

unfoldable pub is_consumed : Status → Bool
is_consumed status = status_code status == status_code consumed

-- `_undo_reservation_release`
unfoldable pub undo_release : ℕ → ℕ → ℕ → ℕ → Option Text → Action LogRow
undo_release rid log_id item n note = do
  r ← get_reservation rid
  raise_if (is_consumed r.status) undo_not_possible
  rows ← gets (undo_rows rid released log_id)
  incoming ← gets (undo_incoming_rows rid released log_id)
  raise_if (not (sum_by (λ a. a.quantity) rows + sum_by (λ a. a.quantity) incoming == n))
      undo_not_possible
  modify (restore_stock_rows rid log_id rows)
  modify (restore_incoming_rows rid log_id incoming)
  modify (regain_reservation rid (r.quantity + n))
  log_undo log_id reserve item n none none note

-- The loop that gives the stock back.
unfoldable pub return_stock : ℕ → List Allocation → Action (Unit {0})
return_stock item [] s = ok (tt, s)
return_stock item (a ∷ l) s =
    (apply_inventory_delta item (some a.location) (pos a.quantity) >> return_stock item l) s

-- `_undo_reservation_consume`
unfoldable pub undo_consumption : ℕ → ℕ → ℕ → ℕ → Option Text → Action LogRow
undo_consumption rid log_id item n note = do
  r ← get_reservation rid
  rows ← gets (undo_rows rid consumed log_id)
  raise_if (not (sum_by (λ a. a.quantity) rows == n)) undo_not_possible
  return_stock item rows
  modify (restore_stock_rows rid log_id rows)
  modify (regain_reservation rid (r.quantity + n))
  log_undo log_id consume item n none none note

-- The UPDATEs that end what an undone creation held.
unfoldable pub end_allocation : ℕ → ℕ → Option Text → Allocation → Allocation
end_allocation rid now note a =
    if a.reservation_id == rid && is_active a.status
    then record a { status = released; released_at = some now; note = note }
    else a

unfoldable pub end_incoming : ℕ → ℕ → Option Text → Incoming → Incoming
end_incoming rid now note a =
    if a.reservation_id == rid && is_active a.status
    then record a { status = released; released_at = some now; updated_at = now; note = note }
    else a

unfoldable pub end_reservation : ℕ → Reservation → Reservation
end_reservation now r = record r { status = released; released_at = some now }

unfoldable pub end_all : ℕ → Option Text → Db → Db
end_all rid note s = record s {
  allocations = map (end_allocation rid s.now note) s.allocations;
  incoming = map (end_incoming rid s.now note) s.incoming;
  reservations = update (λ r. r.reservation_id) rid (end_reservation s.now) s.reservations;
}

-- The branch of `undo_transaction` for the creation of a reservation.
unfoldable pub undo_creation : ℕ → ℕ → ℕ → ℕ → Option Text → Action LogRow
undo_creation id rid item n note = do
  r ← get_reservation rid
  raise_if (not (is_active r.status)) undo_not_possible
  modify (end_all rid note)
  log_undo id reserve item n none none note

unfoldable pub undo_reserve : ℕ → LogRow → ReservationContext → Option Text → Action LogRow
undo_reserve id row (release_of rid log_id) note =
    undo_release rid log_id row.item_id row.quantity note
undo_reserve id row (consume_of rid log_id) _ = raise undo_not_possible
undo_reserve id row (creation_of rid) note = undo_creation id rid row.item_id row.quantity note
undo_reserve id row other _ = raise undo_not_possible

unfoldable pub undo_consume_row : ℕ → LogRow → ReservationContext → Option Text → Action LogRow
undo_consume_row id row (release_of rid log_id) note = undo_consume id row note
undo_consume_row id row (consume_of rid log_id) note =
    undo_consumption rid log_id row.item_id row.quantity note
undo_consume_row id row (creation_of rid) note = undo_consume id row note
undo_consume_row id row other note = undo_consume id row note

-- The branches of `undo_transaction`, by the type of the transaction.
unfoldable pub undo_row : ℕ → LogRow → Option Text → Operation → Action LogRow
undo_row id row note move = undo_move id row note
undo_row id row note arrival = undo_arrival id row note
undo_row id row note consume = undo_consume_row id row (transaction_context row.batch_id) note
undo_row id row note adjust = undo_adjust id row note
undo_row id row note reserve = undo_reserve id row (transaction_context row.batch_id) note

unfoldable pub mark_undone : ℕ → Action (Unit {0})
mark_undone id =
    modify λ s. record s { log = update log_key id (λ r. record r { is_undone = true }) s.log }

-- `undo_transaction`
unfoldable pub undo_transaction : ℕ → Option Text → Action LogRow
undo_transaction id note = do
  row ← get_transaction id
  raise_if row.is_undone already_undone
  undone ← undo_row id row (or_text note (codes "undo log_id=" ++ decimal id)) row.operation_type
  mark_undone id
  pure undone
