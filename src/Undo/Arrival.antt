-- ===== src/Undo/Arrival.antt =====
-- The undo of an arrival in backend/app/service.py: `_restore_open_order_for_arrival_undo`, which
-- opens the order again, and `_undo_arrival_reservation_conversions`, which turns the stock that
-- reservations got back into incoming allocations.
use materials_management_sha.Prelude.{
  ℕ, ◌+◌, ◌-◌, ◌*◌, ◌/◌, ◌%◌, min, Bool, true, false, ◌&&◌, ◌||◌, not, Option, none, some, List, [],
  ◌∷◌, ◌++◌, ◌==◌, if◌then◌else◌, keep, any_of,
}
use materials_management_sha.Text.{Text, codes, decimal}
use materials_management_sha.Text.Scan.{is_like}
use materials_management_sha.Notes.{or_empty}
use materials_management_sha.Database.{
  Db, Order, ordered, Allocation, Incoming, Status, active, converted, Split, arrival_split, Action,
  ◌>>=◌, ◌>>◌, pure, gets, modify, raise_if, or_raise, undo_not_possible, transaction_not_found,
  LogRow,
}
use materials_management_sha.Database.Table.{find, update, delete}
use materials_management_sha.Reservation.{is_active}
use materials_management_sha.Orders.{
  order_key, get_order, is_arrived, original_quantity, same_id, record_order_lineage_event,
}
use materials_management_sha.Orders.Arrival.{root_order, record_local_order_split, insert_remaining}
use materials_management_sha.Orders.Marker.{remove_arrival_marker, first_marker}
use materials_management_sha.Restore.{first}
use materials_management_sha.Undo.Context.{find_order}

-- Whether an order was split from `root`: `los.root_order_id = ?`
unfoldable pub is_split_of : ℕ → List Split → Order → Bool
is_split_of root splits o =
    any_of (λ p. p.child_order_id == o.order_id && p.root_order_id == root) splits

-- `_find_open_order_for_arrival_undo`
unfoldable pub sibling_order : ℕ → ℕ → Db → Option Order
sibling_order root original s =
    first
      (λ o.
        not (is_arrived o.status)
        && not (o.order_id == original)
        && (o.order_id == root || is_split_of root s.splits o))
      s.orders

unfoldable pub reopen : Order → Order
reopen o = record o { status = ordered; arrival_date = none }

unfoldable pub resize : ℕ → ℕ → Order → Order
resize amount quantity o = record o { order_amount = amount; ordered_quantity = some quantity }

unfoldable pub update_order : ℕ → (Order → Order) → Action (Unit {0})
update_order id f = modify λ s. record s { orders = update order_key id f s.orders }

-- The open order that takes what is restored of a part: one of the same split, or a new one.
unfoldable pub restore_part : ℕ → ℕ → Order → ℕ → ℕ → Option Order → Action ℕ
restore_part id root o amount quantity none = do
  child ← insert_remaining o amount quantity
  record_order_lineage_event arrival_split id child amount o.expected_arrival o.expected_arrival
  record_local_order_split arrival_split root child amount o.expected_arrival o.expected_arrival
      false
  pure child
restore_part id root o amount quantity (some p) = do
  update_order p.order_id (resize (p.order_amount + amount) (original_quantity p + quantity))
  pure p.order_id

unfoldable pub restore_amount : ℕ → Order → ℕ → ℕ → ℕ → Action ℕ
restore_amount id o root amount quantity =
    if amount == o.order_amount then update_order id reopen >> pure id else (do
      update_order id (resize (o.order_amount - amount) (original_quantity o - quantity))
      p ← gets (sibling_order root id)
      restore_part id root o amount quantity p)

unfoldable pub restore_order : ℕ → Order → ℕ → Action ℕ
restore_order id o amount = do
  raise_if (not (original_quantity o * amount % o.order_amount == 0)) undo_not_possible
  root ← gets (λ s. root_order id s.splits)
  restore_amount id o root amount (original_quantity o * amount / o.order_amount)

-- `_restore_open_order_for_arrival_undo`
unfoldable pub restore_open_order : ℕ → ℕ → Action (Option ℕ)
restore_open_order id quantity = if quantity == 0 then pure none else (do
  o ← get_order id
  restored ←
      if is_arrived o.status
      then restore_order id o (min quantity o.order_amount)
      else pure o.order_id
  pure (some restored))

unfoldable pub is_converted : Status → Bool
is_converted active = false
is_converted converted = true
is_converted _ = false

-- `note LIKE ?`, which no row without a note satisfies
unfoldable pub note_like : Text → Option Text → Bool
note_like p none = false
note_like p (some t) = is_like p t

-- WHERE status = 'CONVERTED' AND note LIKE '%[[arrival_tx:N:%'
unfoldable pub converted_by : ℕ → Incoming → Bool
converted_by log_id a =
    is_converted a.status
    && note_like (codes "[[arrival_tx:" ++ (decimal log_id ++ codes ":")) a.note

-- The active stock allocation that the conversion made.
unfoldable pub made_by : Text → Allocation → Bool
made_by marker a = is_active a.status && note_like marker a.note

-- The active incoming allocation that takes what is restored.
unfoldable pub joins : ℕ → Option ℕ → Incoming → Bool
joins rid order a = a.reservation_id == rid && is_active a.status && same_id a.order_id order

unfoldable pub or_order : Option ℕ → Option ℕ → Option ℕ
or_order none o = o
or_order (some p) o = some p

-- `leftover_allocation_qty`: the stock allocation is deleted or shrunk.
unfoldable pub give_up_stock : Allocation → ℕ → Db → Db
give_up_stock x n s =
    if x.quantity - n == 0
    then record s { allocations = delete (λ a. a.allocation_id) x.allocation_id s.allocations }
    else record s {
      allocations =
          update (λ a. a.allocation_id) x.allocation_id
            (λ a. record a { quantity = x.quantity - n }) s.allocations;
    }

unfoldable pub coalesce_note : Option Text → Option Text → Option Text
coalesce_note none n = n
coalesce_note (some t) n = some t

-- `leftover_converted_qty`, where an active row took what is restored
unfoldable pub leave_converted : Incoming → ℕ → Db → Db
leave_converted a n s =
    if a.quantity - n == 0
    then record s {
      incoming = delete (λ r. r.incoming_allocation_id) a.incoming_allocation_id s.incoming;
    }
    else record s {
      incoming =
          update (λ r. r.incoming_allocation_id) a.incoming_allocation_id
            (λ r. record r { quantity = a.quantity - n; updated_at = s.now }) s.incoming;
    }

unfoldable pub grow_incoming : Incoming → Incoming → ℕ → Option ℕ → Db → Db
grow_incoming a b n order s = record s {
  incoming =
      update (λ r. r.incoming_allocation_id) b.incoming_allocation_id
        (λ r. record r {
          quantity = b.quantity + n;
          updated_at = s.now;
          note = coalesce_note r.note (remove_arrival_marker a.note);
          order_id = order;
        })
        s.incoming;
}

-- Without an active row: the converted row becomes active again, or is shrunk beside a new active row.
unfoldable pub revive_incoming : Incoming → ℕ → Option ℕ → Db → Db
revive_incoming a n order s =
    if a.quantity - n == 0
    then record s {
      incoming =
          update (λ r. r.incoming_allocation_id) a.incoming_allocation_id
            (λ r. record r {
              status = active;
              released_at = none;
              updated_at = s.now;
              note = remove_arrival_marker a.note;
              order_id = order;
            })
            s.incoming;
    }
    else record s {
      incoming =
          update (λ r. r.incoming_allocation_id) a.incoming_allocation_id
            (λ r. record r { quantity = a.quantity - n; updated_at = s.now }) s.incoming
          ++ record a {
            incoming_allocation_id = s.next_incoming;
            order_id = order;
            quantity = n;
            status = active;
            created_at = s.now;
            updated_at = s.now;
            released_at = none;
            note = remove_arrival_marker a.note;
          }
            ∷ [];
      next_incoming = s.next_incoming + 1;
    }

unfoldable pub restore_incoming : Incoming → ℕ → Option ℕ → Option Incoming → Db → Db
restore_incoming a n order none s = revive_incoming a n order s
restore_incoming a n order (some b) s = leave_converted a n (grow_incoming a b n order s)

-- The body of the loop, once the stock allocation is found: `n` units go back.
unfoldable pub unconvert : Option ℕ → Incoming → Allocation → ℕ → Db → Db
unconvert order a x n s =
    let t = give_up_stock x n s in
    let target = or_order order a.order_id in
    restore_incoming a n target (first (joins a.reservation_id target) t.incoming) t

unfoldable pub stock_made_by : Incoming → Db → Option Allocation
stock_made_by a s = elim (first_marker (or_empty a.note)) [
  | none ↦ none
  | some marker ↦ first (made_by marker) s.allocations
]

-- The body of the loop: what remains to be restored, and the database. A row without a marker, or
-- whose stock allocation is gone, is skipped.
unfoldable pub unconvert_step : Option ℕ → Incoming → Option Allocation → ℕ → Db → ℕ × Db
unconvert_step order a none remaining s = (remaining, s)
unconvert_step order a (some x) remaining s =
    let n = min (min remaining a.quantity) x.quantity in
    if n == 0 then (remaining, s) else (remaining - n, unconvert order a x n s)

-- The loop over the converted rows.
unfoldable pub unconvert_rows : Option ℕ → List Incoming → ℕ → Db → Db
unconvert_rows order [] remaining s = s
unconvert_rows order (a ∷ l) remaining s =
    let (left, t) = unconvert_step order a (stock_made_by a s) remaining s in
    let rest = unconvert_rows order l left t in if remaining == 0 then s else rest

-- The order that the log row names, opened again.
unfoldable pub restore_found_order : Option ℕ → ℕ → Action (Option ℕ)
restore_found_order none quantity = pure none
restore_found_order (some id) quantity = restore_open_order id quantity

unfoldable pub restore_named_order : LogRow → ℕ → Action (Option ℕ)
restore_named_order log quantity =
    restore_found_order (find_order false (or_empty log.note)) quantity

-- `_undo_arrival_reservation_conversions`
unfoldable pub undo_arrival_conversions : ℕ → ℕ → Action (Unit {0})
undo_arrival_conversions log_id quantity = if quantity == 0 then pure tt else (do
  found ← gets (λ s. find (λ (r : LogRow). r.log_id) log_id s.log)
  log ← or_raise found transaction_not_found
  order ← restore_named_order log quantity
  rows ← gets (λ s. keep (converted_by log_id) s.incoming)
  modify (unconvert_rows order rows quantity))
