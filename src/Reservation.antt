-- ===== src/Reservation.antt =====
-- Reservations in backend/app/service.py: what is held for them, and the release and consumption
-- of a reservation.
pub mod Holdings
pub mod Drained
pub mod Settled
pub mod Release
pub mod Consume
pub mod Consumption
pub mod Success
pub mod Kept
pub mod Create
pub mod Adds
pub mod Created
pub mod Covered
pub mod Draws
pub mod Overbooking
pub mod Accepted
pub mod Updated
use materials_management_sha.Prelude.{
  ℕ, zero, suc, ◌+◌, ◌-◌, ℤ, pos, neg_ℕ, min, Bool, true, false, ◌&&◌, not, Option, none, some,
  List, [], ◌∷◌, ◌++◌, ◌==◌, ltb, if◌then◌else◌, sum_by, keep,
}
use materials_management_sha.Text.{Text, codes, decimal, text_eq}
use materials_management_sha.Notes.{event_note}
use materials_management_sha.Database.{
  Db, LogRow, Reservation, Allocation, Incoming, Status, active, released, consumed, converted,
  shortage, Operation, reserve, consume, Action, Result, ok, err, ◌>>=◌, ◌>>◌, pure, gets, modify,
  raise_if, or_raise, reservation_not_found, reservation_not_active, invalid_reservation_quantity,
  reservation_allocation_inconsistent, reservation_not_ready_to_consume,
}
use materials_management_sha.Database.Table.{find, update}
use materials_management_sha.Stock.{apply_inventory_delta, quantity_at}
use materials_management_sha.Movement.{log_transaction, require_positive}
use materials_management_sha.Drain.{Kind, settle, drain}

unfoldable pub is_active : Status → Bool
is_active active = true
is_active released = false
is_active consumed = false
is_active converted = false
is_active shortage = false

-- WHERE reservation_id = ? AND status = 'ACTIVE'
unfoldable pub holds_stock : ℕ → Allocation → Bool
holds_stock rid a = a.reservation_id == rid && is_active a.status

unfoldable pub holds_incoming : ℕ → Incoming → Bool
holds_incoming rid a = a.reservation_id == rid && is_active a.status

-- Rows of a table stand in the order of their keys, which is the order that the loops ask for.
unfoldable pub active_allocations : ℕ → Db → List Allocation
active_allocations rid s = keep (holds_stock rid) s.allocations

unfoldable pub active_incoming : ℕ → Db → List Incoming
active_incoming rid s = keep (holds_incoming rid) s.incoming

-- The rows of the two allocation tables, as the loops change them. `kind_status` is what a closed
-- row becomes, `log_id` the transaction whose marker it gets.
abbrev pub stock_kind : Status → ℕ → Option Text → ℕ → Kind Allocation
stock_kind closed timestamp note log_id = record {
  key = λ a. a.allocation_id;
  quantity = λ a. a.quantity;
  close = λ a r. record r {
    status = closed;
    released_at = some timestamp;
    note = some (event_note note a.note log_id);
  };
  shrink = λ n r. record r { quantity = n };
  part = λ a next n r. record r {
    allocation_id = next;
    quantity = n;
    status = closed;
    created_at = timestamp;
    released_at = some timestamp;
    note = some (event_note note a.note log_id);
  };
}

abbrev pub incoming_kind : Status → ℕ → Option Text → ℕ → Kind Incoming
incoming_kind closed timestamp note log_id = record {
  key = λ a. a.incoming_allocation_id;
  quantity = λ a. a.quantity;
  close = λ a r. record r {
    status = closed;
    released_at = some timestamp;
    updated_at = timestamp;
    note = some (event_note note a.note log_id);
  };
  shrink = λ n r. record r { quantity = n; updated_at = timestamp };
  part = λ a next n r. record r {
    incoming_allocation_id = next;
    quantity = n;
    status = closed;
    created_at = timestamp;
    updated_at = timestamp;
    released_at = some timestamp;
    note = some (event_note note a.note log_id);
  };
}

-- `get_reservation`
unfoldable pub get_reservation : ℕ → Action Reservation
get_reservation rid s =
    or_raise (find (λ r. r.reservation_id) rid s.reservations) reservation_not_found s

-- `reserved_quantity if quantity is None else require_positive_int(int(quantity), "quantity")`
unfoldable pub requested : Option ℤ → ℕ → Action ℕ
requested none whole = pure whole
requested (some q) whole = require_positive q

-- `note or text`
unfoldable pub or_text : Option Text → Text → Option Text
or_text none d = some d
or_text (some []) d = some d
or_text (some (c ∷ t)) d = some (c ∷ t)

-- The note of the log row: `verb` is "release" or "consume".
unfoldable pub event_text : Text → ℕ → ℕ → ℕ → Text
event_text verb rid n whole =
    if whole == n
    then verb ++ (codes " reservation " ++ decimal rid)
    else codes "partial "
      ++ (verb
          ++ (codes " reservation "
              ++ (decimal rid
                  ++ (codes " (" ++ (decimal n ++ (codes "/" ++ (decimal whole ++ codes ")")))))))

-- f"reservation-{verb}-{reservation_id}"
unfoldable pub event_batch : Text → ℕ → Text
event_batch verb rid = codes "reservation-" ++ (verb ++ (codes "-" ++ decimal rid))

-- `_set_transaction_batch_id`
unfoldable pub set_batch_id : ℕ → Text → Action (Unit {0})
set_batch_id log_id batch = modify λ s. record s {
  log = update (λ r. r.log_id) log_id (λ r. record r { batch_id = some batch }) s.log;
}

-- `_log_transaction` and the `_set_transaction_batch_id` behind it, as release and consume call
-- them.
unfoldable pub log_event : Operation → Text → Reservation → ℕ → Option Text → Action LogRow
log_event operation verb r n note = do
  log ←
      log_transaction operation r.item_id (pos n) none none
        (or_text note (event_text verb r.reservation_id n r.quantity))
        (some (event_batch verb r.reservation_id)) none
  set_batch_id log.log_id
      (event_batch verb r.reservation_id ++ (codes "-log-" ++ decimal log.log_id))
  pure log

-- The loop over the stock allocations, and that over the incoming ones; each returns what is left.
unfoldable pub drain_stock : Kind Allocation → List Allocation → ℕ → Action ℕ
drain_stock kind l n s =
    let (rest, (next, rows)) = drain kind l n (s.next_allocation, s.allocations) in
    ok (rest, record s { allocations = rows; next_allocation = next })

unfoldable pub drain_incoming : Kind Incoming → List Incoming → ℕ → Action ℕ
drain_incoming kind l n s =
    let (rest, (next, rows)) = drain kind l n (s.next_incoming, s.incoming) in
    ok (rest, record s { incoming = rows; next_incoming = next })

-- The last UPDATE: the reservation ends when nothing remains, or shrinks.
unfoldable pub shrink_reservation : Status → ℕ → ℕ → Reservation → Reservation
shrink_reservation closed timestamp rest r =
    if rest == 0
    then record r { status = closed; released_at = some timestamp }
    else record r { quantity = rest }

unfoldable pub finish_reservation : Status → ℕ → ℕ → ℕ → Action (Unit {0})
finish_reservation closed timestamp rid rest = modify λ s. record s {
  reservations =
      update (λ r. r.reservation_id) rid (shrink_reservation closed timestamp rest) s.reservations;
}

-- `release_reservation`
unfoldable pub release_reservation : ℕ → Option ℤ → Option Text → Action Reservation
release_reservation rid quantity note = do
  r ← get_reservation rid
  raise_if (not (is_active r.status)) reservation_not_active
  n ← requested quantity r.quantity
  raise_if (ltb r.quantity n) invalid_reservation_quantity
  stock ← gets (active_allocations rid)
  incoming ← gets (active_incoming rid)
  raise_if (ltb (sum_by (λ a. a.quantity) stock + sum_by (λ a. a.quantity) incoming) n)
      reservation_allocation_inconsistent
  log ← log_event reserve (codes "release") r n note
  rest ← drain_stock (stock_kind released log.timestamp note log.log_id) stock n
  drain_incoming (incoming_kind released log.timestamp note log.log_id) incoming rest
  finish_reservation released log.timestamp rid (r.quantity - n)
  get_reservation rid

-- The loop of `consume_reservation`: each step takes the stock and then settles the row.
unfoldable pub consume_rows : ℕ → Kind Allocation → List Allocation → ℕ → Action ℕ
consume_rows item kind [] n s = ok (n, s)
consume_rows item kind (a ∷ l) n s =
    let used = min a.quantity n in
    let rest =
      (do
        apply_inventory_delta item (some a.location) (neg_ℕ used)
        modify λ t.
            let (next, rows) = settle kind a used (t.next_allocation, t.allocations) in
            record t { allocations = rows; next_allocation = next }
        consume_rows item kind l (n - used))
        s in
    if n == 0 then ok (n, s) else rest

-- `consume_reservation`
unfoldable pub consume_reservation : ℕ → Option ℤ → Option Text → Action Reservation
consume_reservation rid quantity note = do
  r ← get_reservation rid
  raise_if (not (is_active r.status)) reservation_not_active
  n ← requested quantity r.quantity
  raise_if (ltb r.quantity n) invalid_reservation_quantity
  stock ← gets (active_allocations rid)
  incoming ← gets (active_incoming rid)
  raise_if (ltb (sum_by (λ a. a.quantity) stock + sum_by (λ a. a.quantity) incoming) n)
      reservation_allocation_inconsistent
  raise_if (ltb (sum_by (λ a. a.quantity) stock) n) reservation_not_ready_to_consume
  log ← log_event consume (codes "consume") r n note
  consume_rows r.item_id (stock_kind consumed log.timestamp note log.log_id) stock n
  finish_reservation consumed log.timestamp rid (r.quantity - n)
  get_reservation rid
