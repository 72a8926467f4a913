-- ===== src/Orders/Arrival.antt =====
-- `process_order_arrival` of backend/app/service.py: an order, or a part of one, enters the stock,
-- and what reservations hold of it becomes stock that they hold.
use materials_management_sha.Prelude.{
  ℕ, ◌+◌, ◌-◌, ℤ, pos, min, Bool, false, Option, none, some, List, [], ◌∷◌, ◌++◌, map, ◌==◌, ltb,
  if◌then◌else◌, keep, any_of, ◌&&◌,
}
use materials_management_sha.Text.{Text, codes, decimal}
use materials_management_sha.Database.{
  Db, Order, ordered, arrived, Incoming, Allocation, active, converted, Split, LineageType,
  arrival_split, LogRow, arrival, Action, Result, ok, ◌>>=◌, ◌>>◌, pure, gets, modify, lift,
  raise_if, order_already_arrived, invalid_arrival_quantity,
}
use materials_management_sha.Database.Table.{update}
use materials_management_sha.Stock.{require_non_empty, apply_inventory_delta}
use materials_management_sha.Movement.{log_transaction, require_positive}
use materials_management_sha.Drain.{Kind, settle}
use materials_management_sha.Reservation.{is_active}
use materials_management_sha.Orders.{
  order_key, get_order, assert_order_is_locally_managed, is_arrived, original_quantity,
  split_ordered, same_id, record_order_lineage_event,
}
use materials_management_sha.Orders.Marker.{arrival_note}

-- `order_amount if quantity is None else int(quantity)`, which must be positive
unfoldable pub arrived_quantity : Option ℤ → ℕ → Action ℕ
arrived_quantity none amount = require_positive (pos amount)
arrived_quantity (some q) amount = require_positive q

-- `require_non_empty(location, "location") if location is not None else "STOCK"`
unfoldable pub target_location : Option Text → Result Text
target_location none = ok (codes "STOCK")
target_location (some l) = require_non_empty (some l)

-- `order.get("split_root_order_id") or order_id`: the root of the split that made this order.
unfoldable pub root_order : ℕ → List Split → ℕ
root_order id [] = id
root_order id (p ∷ splits) =
    let rest = root_order id splits in
    if p.child_order_id == id then (if p.root_order_id == 0 then id else p.root_order_id) else rest

-- `_record_local_order_split`
unfoldable pub record_local_order_split :
    LineageType → ℕ → ℕ → ℕ → Option ℕ → Option ℕ → Bool → Action (Unit {0})
record_local_order_split kind root child n root_date child_date manual = modify λ s. record s {
  splits =
      s.splits
      ++ record {
        split_type = kind;
        root_order_id = root;
        child_order_id = child;
        split_quantity = n;
        root_expected_arrival = root_date;
        child_expected_arrival = child_date;
        is_manual_override = manual;
      }
        ∷ [];
}

-- The order that is inserted for what has not arrived.
unfoldable pub remaining_order : Order → ℕ → ℕ → ℕ → Order
remaining_order o id amount quantity = record o {
  order_id = id;
  order_amount = amount;
  ordered_quantity = some quantity;
  arrival_date = none;
  status = ordered;
  source_system = codes "local";
}

unfoldable pub insert_remaining : Order → ℕ → ℕ → Action ℕ
insert_remaining o amount quantity s = ok (
  s.next_order,
  record s {
    orders = s.orders ++ remaining_order o s.next_order amount quantity ∷ [];
    next_order = s.next_order + 1;
  },
)

-- The UPDATEs of the order that arrives: the whole, or `n` of it.
unfoldable pub arrive_whole : ℕ → Order → Order
arrive_whole today o = record o { status = arrived; arrival_date = some today }

unfoldable pub arrive_part : ℕ → ℕ → ℕ → Order → Order
arrive_part n share today o = record o {
  order_amount = n;
  ordered_quantity = some share;
  status = arrived;
  arrival_date = some today;
}

unfoldable pub update_order_row : ℕ → (ℕ → Order → Order) → Action (Unit {0})
update_order_row id f = modify λ s. record s { orders = update order_key id (f s.today) s.orders }

unfoldable pub split_arrival : ℕ → Order → ℕ → Action (Option ℕ)
split_arrival id o n = do
  (share, rest) ← split_ordered (original_quantity o) n o.order_amount
  update_order_row id (arrive_part n share)
  child ← insert_remaining o (o.order_amount - n) rest
  record_order_lineage_event arrival_split id child n o.expected_arrival o.expected_arrival
  root ← gets (λ s. root_order id s.splits)
  record_local_order_split arrival_split root child (o.order_amount - n) o.expected_arrival
      o.expected_arrival false
  pure (some child)

unfoldable pub arrive_order : ℕ → Order → ℕ → Action (Option ℕ)
arrive_order id o n =
    if n == o.order_amount
    then update_order_row id arrive_whole >> pure none
    else split_arrival id o n

-- WHERE order_id = ? AND status = 'ACTIVE'
unfoldable pub awaits : ℕ → Incoming → Bool
awaits id a = same_id a.order_id (some id) && is_active a.status

-- ORDER BY created_at, on rows that stand in the order of their keys
unfoldable pub insert_by_age : Incoming → List Incoming → List Incoming
insert_by_age a [] = a ∷ []
insert_by_age a (b ∷ l) = if ltb b.created_at a.created_at then b ∷ insert_by_age a l else a ∷ b ∷ l

unfoldable pub by_age : List Incoming → List Incoming
by_age [] = []
by_age (a ∷ l) = insert_by_age a (by_age l)

-- How a conversion changes the rows of incoming allocations.
abbrev pub conversion_kind : Text → ℕ → ℕ → Kind Incoming
conversion_kind place timestamp log_id = record {
  key = λ a. a.incoming_allocation_id;
  quantity = λ a. a.quantity;
  close = λ a r. record r {
    status = converted;
    released_at = some timestamp;
    updated_at = timestamp;
    target_location = some place;
    note = some (arrival_note a.note log_id a.incoming_allocation_id);
  };
  shrink = λ n r. record r { quantity = n; updated_at = timestamp };
  part = λ a next n r. record r {
    incoming_allocation_id = next;
    quantity = n;
    status = converted;
    target_location = some place;
    created_at = timestamp;
    updated_at = timestamp;
    released_at = some timestamp;
    note = some (arrival_note a.note log_id a.incoming_allocation_id);
  };
}

-- The stock allocation that an incoming one becomes.
unfoldable pub stock_allocation : Text → ℕ → ℕ → Incoming → ℕ → ℕ → Allocation
stock_allocation place timestamp log_id a n id = record {
  allocation_id = id;
  reservation_id = a.reservation_id;
  item_id = a.item_id;
  location = place;
  quantity = n;
  status = active;
  created_at = timestamp;
  released_at = none;
  note = some (arrival_note a.note log_id a.incoming_allocation_id);
}

-- The statements for one row of which `n` is converted.
unfoldable pub convert_row : Text → ℕ → ℕ → Incoming → ℕ → Db → Db
convert_row place timestamp log_id a n s =
    let (next, rows) =
      settle (conversion_kind place timestamp log_id) a n (s.next_incoming, s.incoming) in
    record s {
      allocations =
          s.allocations ++ stock_allocation place timestamp log_id a n s.next_allocation ∷ [];
      next_allocation = s.next_allocation + 1;
      incoming = rows;
      next_incoming = next;
    }

-- The loop; it returns the keys of the rows that stay active.
unfoldable pub convert_rows : Text → ℕ → ℕ → List Incoming → ℕ → Db → List ℕ × Db
convert_rows place timestamp log_id [] n s = ([], s)
convert_rows place timestamp log_id (a ∷ l) n s =
    let used = min a.quantity n in
    let (skipped, t) = convert_rows place timestamp log_id l n s in
    let (others, u) =
      convert_rows place timestamp log_id l (n - used)
        (convert_row place timestamp log_id a used s) in
    if n == 0
    then (a.incoming_allocation_id ∷ skipped, t)
    else (if a.quantity - used == 0 then others else a.incoming_allocation_id ∷ others, u)

-- UPDATE … SET order_id = ? … WHERE incoming_allocation_id IN (…) AND status = 'ACTIVE'
unfoldable pub follow : ℕ → ℕ → List ℕ → Incoming → Incoming
follow child timestamp ids a =
    if any_of (λ i. i == a.incoming_allocation_id) ids && is_active a.status
    then record a { order_id = some child; updated_at = timestamp }
    else a

unfoldable pub follow_split : Option ℕ → ℕ → List ℕ → Db → Db
follow_split none timestamp ids s = s
follow_split (some child) timestamp ids s = record s {
  incoming = map (follow child timestamp ids) s.incoming;
}

pub record Arrived : Type 0 where
  pub arrived_amount : ℕ
  pub split_order_id : Option ℕ
  pub transaction : LogRow

-- `process_order_arrival`
unfoldable pub process_order_arrival : ℕ → Option ℤ → Option Text → Action Arrived
process_order_arrival id quantity location = do
  o ← get_order id
  assert_order_is_locally_managed o
  raise_if (is_arrived o.status) order_already_arrived
  n ← arrived_quantity quantity o.order_amount
  raise_if (ltb o.order_amount n) invalid_arrival_quantity
  place ← lift (target_location location)
  split ← arrive_order id o n
  log ←
      log_transaction arrival o.item_id (pos n) none (some place)
        (some (codes "order_id=" ++ decimal id)) (some (codes "arrival-" ++ decimal id)) none
  apply_inventory_delta o.item_id (some place) (pos n)
  rows ← gets (λ s. by_age (keep (awaits id) s.incoming))
  ids ← λ s. ok (convert_rows place log.timestamp log.log_id rows n s)
  modify (follow_split split log.timestamp ids)
  pure record { arrived_amount = n; split_order_id = split; transaction = log }
