-- ===== src/Movement.antt =====
-- The movements of stock in backend/app/service.py: `_log_transaction`, `move_inventory`,
-- `consume_inventory`, `adjust_inventory` and `batch_inventory_operations`.
pub mod Flows
pub mod Journal
pub mod Transfer
pub mod Made
use materials_management_sha.Prelude.{
  ℕ, zero, suc, ◌+◌, ℤ, pos, negsuc, pos_part, neg_part, neg_ℕ, Bool, true, false, ◌&&◌, ◌||◌, not,
  Option, none, some, List, [], ◌∷◌, ◌++◌, if◌then◌else◌,
}
use materials_management_sha.Text.{Text, codes, text_eq, is_empty}
use materials_management_sha.Database.{
  Db, LogRow, Operation, move, consume, reserve, adjust, arrival, Action, ◌>>=◌, ◌>>◌, pure, raise,
  gets, raise_if, invalid_quantity, invalid_location, invalid_operation, item_not_found,
  integrity_error, ok, err,
}
use materials_management_sha.Stock.{has_item, is_positive, apply_inventory_delta}

-- `int(quantity) <= 0` is the test of `require_positive_int`.
unfoldable pub require_positive : ℤ → Action ℕ
unfolding is_positive
require_positive quantity = do
  raise_if (not (is_positive quantity)) invalid_quantity
  pure (pos_part quantity)

-- `_get_entity_or_404` on `items_master`
unfoldable pub require_item : ℕ → Action (Unit {0})
unfolding has_item
require_item item s = if has_item item s.items then ok (tt, s) else err item_not_found

append_log :
    Operation
    → ℕ
    → ℕ
    → Option Text
    → Option Text
    → Option Text
    → Option Text
    → Option ℕ
    → Db
    → LogRow × Db
append_log operation item quantity from_location to_location note batch_id undo_of s =
    let row : LogRow = record {
      log_id = s.next_log;
      timestamp = s.now;
      operation_type = operation;
      item_id = item;
      quantity = quantity;
      from_location = from_location;
      to_location = to_location;
      note = note;
      is_undone = false;
      undo_of_log_id = undo_of;
      batch_id = batch_id;
    } in
    (row, record s { log = s.log ++ row ∷ []; next_log = s.next_log + 1 })

-- `_log_transaction`. The table requires an item of `items_master` and a positive quantity.
unfoldable pub log_transaction :
    Operation
    → ℕ
    → ℤ
    → Option Text
    → Option Text
    → Option Text
    → Option Text
    → Option ℕ
    → Action LogRow
unfolding append_log
log_transaction operation item quantity from_location to_location note batch_id undo_of s =
    if is_positive quantity && has_item item s.items
    then ok (
        append_log operation item (pos_part quantity) from_location to_location note batch_id
          undo_of s)
    else err integrity_error

unfoldable pub same_location : Option Text → Option Text → Bool
unfolding text_eq
same_location none none = true
same_location none (some m) = false
same_location (some l) none = false
same_location (some l) (some m) = text_eq l m

-- `move_inventory`
unfoldable pub move_inventory :
    ℕ → ℤ → Option Text → Option Text → Option Text → Option Text → Operation → Action LogRow
move_inventory item quantity from_location to_location note batch_id operation = do
  n ← require_positive quantity
  raise_if (same_location from_location to_location) invalid_location
  require_item item
  apply_inventory_delta item from_location (neg_ℕ n)
  apply_inventory_delta item to_location (pos n)
  log_transaction operation item (pos n) from_location to_location note batch_id none

-- `consume_inventory`
unfoldable pub consume_inventory : ℕ → ℤ → Option Text → Option Text → Option Text → Action LogRow
consume_inventory item quantity from_location note batch_id = do
  n ← require_positive quantity
  require_item item
  apply_inventory_delta item from_location (neg_ℕ n)
  log_transaction consume item (pos n) from_location none note batch_id none

unfoldable pub is_zero : ℤ → Bool
is_zero (pos zero) = true
is_zero (pos (suc n)) = false
is_zero (negsuc n) = false

-- The columns that an adjustment fills, by its sign.
unfoldable pub taken : ℤ → Option Text → Option Text
unfolding is_positive
taken delta location = if is_positive delta then none else location

unfoldable pub given : ℤ → Option Text → Option Text
unfolding is_positive
given delta location = if is_positive delta then location else none

-- `adjust_inventory`; one of `pos_part` and `neg_part` is 0, so their sum is `abs`.
unfoldable pub adjust_inventory : ℕ → ℤ → Option Text → Option Text → Option Text → Action LogRow
adjust_inventory item delta location note batch_id = do
  raise_if (is_zero delta) invalid_quantity
  require_item item
  apply_inventory_delta item location delta
  log_transaction adjust item (pos (pos_part delta + neg_part delta)) (taken delta location)
      (given delta location) note batch_id none

-- An operation of a batch; `none` is a type that is not supported.
pub record BatchOperation : Type 0 where
  pub operation_type : Option Operation
  pub item_id : ℕ
  pub quantity : ℤ
  pub quantity_delta : Option ℤ
  pub from_location : Option Text
  pub to_location : Option Text
  pub location : Option Text
  pub note : Option Text

-- `value or default`: an empty text is false.
unfoldable pub or_else : Option Text → Option Text → Option Text
unfolding is_empty
or_else none d = d
or_else (some t) d = if is_empty t then d else some t

abbrev pub or_quantity : Option ℤ → ℤ → ℤ
or_quantity none q = q
or_quantity (some d) q = d

-- The body of the loop of `batch_inventory_operations`, on the upper-cased type.
unfoldable pub batch_operation : Option Text → BatchOperation → Option Operation → Action LogRow
batch_operation batch op none = raise invalid_operation
batch_operation batch op (some move) =
    move_inventory op.item_id op.quantity op.from_location op.to_location op.note batch move
batch_operation batch op (some consume) =
    consume_inventory op.item_id op.quantity op.from_location op.note batch
batch_operation batch op (some reserve) =
    move_inventory op.item_id op.quantity (or_else op.from_location (some (codes "STOCK")))
      (or_else op.to_location (some (codes "RESERVED"))) op.note batch reserve
batch_operation batch op (some adjust) =
    adjust_inventory op.item_id (or_quantity op.quantity_delta op.quantity)
      (or_else op.location (or_else op.to_location op.from_location)) op.note batch
batch_operation batch op (some arrival) = do
  apply_inventory_delta op.item_id (or_else op.to_location (some (codes "STOCK"))) op.quantity
  log_transaction arrival op.item_id op.quantity none
      (or_else op.to_location (some (codes "STOCK"))) op.note batch none

unfoldable pub run_batch : Option Text → List BatchOperation → Action (List LogRow)
run_batch batch [] s = ok ([], s)
run_batch batch (op ∷ ops) s =
    (batch_operation batch op op.operation_type >>= λ row.
    run_batch batch ops >>= λ rows. pure (row ∷ rows))
      s

-- `batch_inventory_operations`; `fresh` is the `uuid4().hex` that names a batch without a name.
unfoldable pub batch_inventory_operations :
    Text → List BatchOperation → Option Text → Action (List LogRow)
batch_inventory_operations fresh operations batch_id =
    run_batch (or_else batch_id (some fresh)) operations
