-- ===== src/Orders.antt =====
-- Open orders in backend/app/service.py: `get_order`, the guard on externally managed orders, the
-- arithmetic of a split and `merge_open_orders`; `process_order_arrival` is in the module Arrival.
pub mod Shares
pub mod Marker
pub mod Arrival
pub mod Update
pub mod Checks
pub mod Parts
pub mod Updated
pub mod Conversion
pub mod Age
pub mod Frames
pub mod Opened
pub mod Waiting
pub mod Landed
pub mod Received
pub mod Success
pub mod Mergeable
pub mod Merge
use materials_management_sha.Prelude.{
  ℕ, ◌+◌, ◌-◌, ◌*◌, ◌/◌, ◌%◌, Bool, true, false, ◌&&◌, ◌||◌, not, Option, none, some, [], ◌∷◌, ◌++◌,
  map, ◌==◌, if◌then◌else◌, keep,
}
use materials_management_sha.Text.{codes, text_eq, is_empty, strip, Text}
use materials_management_sha.Database.{
  Order, OrderStatus, ordered, arrived, Incoming, ProcurementLine, RfqLine, LineageType, eta_merge,
  Action, ◌>>=◌, ◌>>◌, pure, raise_if, or_raise, modify, order_not_found, order_already_arrived,
  order_source_system_missing, order_managed_externally, partial_split_not_integer_safe,
  invalid_partial_split, invalid_merge_pair, order_merge_scope_mismatch,
}
use materials_management_sha.Database.Table.{find, update, delete}

abbrev pub order_key : Order → ℕ
order_key o = o.order_id

-- `get_order`
unfoldable pub get_order : ℕ → Action Order
get_order id s = or_raise (find order_key id s.orders) order_not_found s

-- `_assert_order_is_locally_managed`, with `_require_entity_source_system`
unfoldable pub assert_order_is_locally_managed : Order → Action (Unit {0})
unfolding is_empty text_eq
assert_order_is_locally_managed o = do
  raise_if (is_empty (strip o.source_system)) order_source_system_missing
  raise_if (not (text_eq (strip o.source_system) (codes "local"))) order_managed_externally

unfoldable pub is_arrived : OrderStatus → Bool
is_arrived ordered = false
is_arrived arrived = true

-- `int(order["ordered_quantity"] or order_amount)`
unfoldable pub original_quantity : Order → ℕ
original_quantity o = elim o.ordered_quantity [
  | none ↦ o.order_amount
  | some q ↦ if q == 0 then o.order_amount else q
]

-- The share of `original` that goes with `part` of an order of `amount`, and what remains.
unfoldable pub split_ordered : ℕ → ℕ → ℕ → Action (ℕ × ℕ)
split_ordered original part amount = do
  raise_if (not (original * part % amount == 0)) partial_split_not_integer_safe
  raise_if
      (original * part / amount == 0
        || original - original * part / amount == 0
        || amount - part == 0)
      invalid_partial_split
  pure (original * part / amount, original - original * part / amount)

-- `source[key] != target[key]` on a column that may be NULL
unfoldable pub same_id : Option ℕ → Option ℕ → Bool
same_id none none = true
same_id none (some b) = false
same_id (some a) none = false
same_id (some a) (some b) = a == b

unfoldable pub same_item_number : Option Text → Option Text → Bool
same_item_number none none = true
same_item_number none (some b) = false
same_item_number (some a) none = false
same_item_number (some a) (some b) = text_eq a b

-- The `merge_keys`
unfoldable pub same_scope : Order → Order → Bool
unfolding same_id same_item_number
same_scope a b =
    a.item_id == b.item_id
    && same_id a.quotation_id b.quotation_id
    && a.purchase_order_id == b.purchase_order_id
    && same_item_number a.ordered_item_number b.ordered_item_number
    && same_id a.project_id b.project_id

-- `a if a is not None else b`
unfoldable pub or_date : Option ℕ → Option ℕ → Option ℕ
or_date none b = b
or_date (some a) b = some a

-- The reference to an order, behind its ON DELETE SET NULL.
unfoldable pub unlink : ℕ → Option ℕ → Option ℕ
unfolding same_id
unlink id linked = if same_id linked (some id) then none else linked

unfoldable pub unlink_procurement : ℕ → ProcurementLine → ProcurementLine
unlink_procurement id l = record l { linked_order_id = unlink id l.linked_order_id }

unfoldable pub unlink_rfq : ℕ → RfqLine → RfqLine
unlink_rfq id l = record l { linked_order_id = unlink id l.linked_order_id }

-- DELETE FROM orders WHERE order_id = ?, with ON DELETE SET NULL of the incoming allocations and of
-- the lines of procurement, and ON DELETE CASCADE of the splits.
unfoldable pub forget_order : ℕ → Incoming → Incoming
unfolding same_id
forget_order id a = if same_id a.order_id (some id) then record a { order_id = none } else a

unfoldable pub delete_order_row : ℕ → Action (Unit {0})
delete_order_row id = modify λ s. record s {
  orders = delete order_key id s.orders;
  incoming = map (forget_order id) s.incoming;
  procurement_lines = map (unlink_procurement id) s.procurement_lines;
  rfq_lines = map (unlink_rfq id) s.rfq_lines;
  splits = keep (λ p. not (p.root_order_id == id || p.child_order_id == id)) s.splits;
}

-- `_record_order_lineage_event`
unfoldable pub record_order_lineage_event :
    LineageType → ℕ → ℕ → ℕ → Option ℕ → Option ℕ → Action (Unit {0})
record_order_lineage_event kind source target n previous new = modify λ s. record s {
  lineage =
      s.lineage
      ++ record {
        event_type = kind;
        source_order_id = source;
        target_order_id = target;
        quantity = n;
        previous_expected_arrival = previous;
        new_expected_arrival = new;
      }
        ∷ [];
}

-- What the UPDATE of a merge makes of the target: `a` is the source and `b` the target as read.
unfoldable pub absorb : Order → Order → Option ℕ → Order → Order
unfolding original_quantity
absorb a b eta o = record o {
  order_amount = b.order_amount + a.order_amount;
  ordered_quantity = some (original_quantity b + original_quantity a);
  expected_arrival = eta;
  status = ordered;
}

-- `merge_open_orders`; the date is already parsed.
unfoldable pub merge_open_orders : ℕ → ℕ → Option ℕ → Action Order
merge_open_orders source target expected_arrival = do
  raise_if (source == target) invalid_merge_pair
  a ← get_order source
  b ← get_order target
  assert_order_is_locally_managed a
  assert_order_is_locally_managed b
  raise_if (is_arrived a.status || is_arrived b.status) order_already_arrived
  raise_if (not (same_scope a b)) order_merge_scope_mismatch
  modify λ s. record s {
    orders =
        update order_key target
          (absorb a b (or_date expected_arrival (or_date b.expected_arrival a.expected_arrival)))
          s.orders;
  }
  delete_order_row source
  record_order_lineage_event eta_merge source target a.order_amount a.expected_arrival
      (or_date expected_arrival (or_date b.expected_arrival a.expected_arrival))
  get_order target
