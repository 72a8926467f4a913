-- ===== src/Supply.antt =====
-- What is left to reserve, in backend/app/service.py: the stock of an item that no reservation holds
-- (`_get_reserved_allocation_quantity`, `_get_available_inventory_quantity`,
-- `_list_item_available_inventory`), and the open orders that can back one
-- (`_get_active_incoming_reserved_quantity`, `_list_item_open_incoming_supply`,
-- `_select_incoming_order_candidates`).
pub mod Shelves
pub mod Lines
use materials_management_sha.Prelude.{
  ℕ, ◌-◌, min, Bool, true, false, ◌&&◌, ◌||◌, not, Option, none, some, List, [], ◌∷◌, ◌==◌, ltb,
  if◌then◌else◌, sum_by, keep, any_of,
}
use materials_management_sha.Text.{Text, codes, text_eq}
use materials_management_sha.Database.{
  Db, StockRow, Order, Allocation, Incoming, Action, ◌>>=◌, ◌>>◌, pure, gets, raise_if,
  invalid_preferred_order, preferred_order_fully_allocated, insufficient_stock,
}
use materials_management_sha.Stock.{quantity_at}
use materials_management_sha.Reservation.{is_active}
use materials_management_sha.Orders.{get_order, is_arrived, same_id}

-- `_get_reserved_allocation_quantity`
unfoldable pub reserves : ℕ → Text → Allocation → ℕ
reserves item location a =
    if a.item_id == item && text_eq a.location location && is_active a.status then a.quantity else 0

unfoldable pub reserved_at : ℕ → Text → Db → ℕ
reserved_at item location s = sum_by (reserves item location) s.allocations

-- `_get_available_inventory_quantity`
unfoldable pub available_at : ℕ → Text → Db → ℕ
available_at item location s = quantity_at item location s.stock - reserved_at item location s

-- A location and what is available there.
pub record Available : Type 0 where
  pub location : Text
  pub quantity : ℕ

-- ORDER BY CASE WHEN location = 'STOCK' THEN 0 ELSE 1 END, location; `collates` is the order of texts
-- that the database's collation gives.
unfoldable pub stands_before : (Text → Text → Bool) → StockRow → StockRow → Bool
stands_before collates a b =
    if text_eq a.location (codes "STOCK")
    then true
    else if text_eq b.location (codes "STOCK")
    then false
    else collates a.location b.location

unfoldable pub insert_stock : (Text → Text → Bool) → StockRow → List StockRow → List StockRow
insert_stock collates a [] = a ∷ []
insert_stock collates a (b ∷ l) =
    let rest = insert_stock collates a l in
    if stands_before collates a b then a ∷ b ∷ l else b ∷ rest

unfoldable pub sort_stock : (Text → Text → Bool) → List StockRow → List StockRow
sort_stock collates [] = []
sort_stock collates (a ∷ l) = insert_stock collates a (sort_stock collates l)

-- WHERE item_id = ? AND quantity > 0 AND location <> 'RESERVED'
unfoldable pub is_shelf : ℕ → StockRow → Bool
is_shelf item r =
    r.item_id == item && not (r.quantity == 0) && not (text_eq r.location (codes "RESERVED"))

unfoldable pub list_available : ℕ → Db → List StockRow → List Available
list_available item s [] = []
list_available item s (r ∷ rows) =
    let rest = list_available item s rows in
    let n = available_at item r.location s in
    if n == 0 then rest else record { location = r.location; quantity = n } ∷ rest

-- `_list_item_available_inventory`
unfoldable pub available_inventory : (Text → Text → Bool) → ℕ → Db → List Available
available_inventory collates item s =
    list_available item s (sort_stock collates (keep (is_shelf item) s.stock))

-- `_get_active_incoming_reserved_quantity`
unfoldable pub awaited : ℕ → Incoming → ℕ
awaited order a = if same_id a.order_id (some order) && is_active a.status then a.quantity else 0

unfoldable pub incoming_reserved : ℕ → Db → ℕ
incoming_reserved order s = sum_by (awaited order) s.incoming

-- `max(0, order_amount - reserved)`
unfoldable pub order_available : Order → Db → ℕ
order_available o s = o.order_amount - incoming_reserved o.order_id s

-- WHERE item_id = ? AND status = 'Ordered' AND (project_id IS NULL OR (? IS NOT NULL AND project_id = ?))
unfoldable pub may_supply : ℕ → Option ℕ → Order → Bool
may_supply item project o =
    o.item_id == item
    && not (is_arrived o.status)
    && (same_id o.project_id none || same_id o.project_id project)

-- ORDER BY: the project's own orders, then those with a date, then by date.
unfoldable pub date_before : Option ℕ → Option ℕ → Bool
date_before none none = true
date_before none (some b) = false
date_before (some a) none = true
date_before (some a) (some b) = not (ltb b a)

unfoldable pub supplies_before : Order → Order → Bool
supplies_before a b =
    if same_id a.project_id none
    then same_id b.project_id none && date_before a.expected_arrival b.expected_arrival
    else same_id b.project_id none || date_before a.expected_arrival b.expected_arrival

unfoldable pub insert_order : Order → List Order → List Order
insert_order a [] = a ∷ []
insert_order a (b ∷ l) =
    let rest = insert_order a l in if supplies_before a b then a ∷ b ∷ l else b ∷ rest

unfoldable pub sort_orders : List Order → List Order
sort_orders [] = []
sort_orders (a ∷ l) = insert_order a (sort_orders l)

-- An order that can supply, and how much of it is left.
pub record Candidate : Type 0 where
  pub order_id : ℕ
  pub project_id : Option ℕ
  pub expected_arrival : Option ℕ
  pub available_quantity : ℕ

-- The loop of `_list_item_open_incoming_supply`, whose callers here leave out orders without a date.
unfoldable pub list_candidates : List ℕ → Db → List Order → List Candidate
list_candidates excluded s [] = []
list_candidates excluded s (o ∷ orders) =
    let rest = list_candidates excluded s orders in
    let n = order_available o s in
    if any_of (λ i. i == o.order_id) excluded || same_id o.expected_arrival none || n == 0
    then rest
    else record {
      order_id = o.order_id;
      project_id = o.project_id;
      expected_arrival = o.expected_arrival;
      available_quantity = n;
    }
      ∷ rest

-- `_list_item_open_incoming_supply`
unfoldable pub open_supply : ℕ → Option ℕ → List ℕ → Db → List Candidate
open_supply item project excluded s =
    list_candidates excluded s (sort_orders (keep (may_supply item project) s.orders))

-- What is selected of an order. `warns` is the risk_status 'warning'.
pub record Selected : Type 0 where
  pub order_id : ℕ
  pub quantity : ℕ
  pub expected_arrival : Option ℕ
  pub warns : Bool

-- Whether an arrival is known to be after a deadline.
unfoldable pub is_late : Option ℕ → Option ℕ → Bool
is_late none deadline = false
is_late (some a) none = false
is_late (some a) (some d) = ltb d a

-- The loop over the candidates: what is selected, and what remains to be found.
unfoldable pub take_candidates : Option ℕ → List Candidate → ℕ → List Selected × ℕ
take_candidates deadline [] remaining = ([], remaining)
take_candidates deadline (c ∷ l) remaining =
    let n = min c.available_quantity remaining in
    let (rest, left) = take_candidates deadline l (remaining - n) in
    if remaining == 0 then ([], 0) else (
      record {
        order_id = c.order_id;
        quantity = n;
        expected_arrival = c.expected_arrival;
        warns = is_late c.expected_arrival deadline;
      }
          ∷ rest,
      left,
    )

-- The part of `_select_incoming_order_candidates` for a preferred order.
unfoldable pub select_preferred : ℕ → ℕ → Option ℕ → ℕ → Option ℕ → Action Selected
select_preferred item quantity project preferred deadline = do
  o ← get_order preferred
  raise_if (not (o.item_id == item)) invalid_preferred_order
  raise_if (is_arrived o.status) invalid_preferred_order
  raise_if (not (same_id o.project_id none) && not (same_id o.project_id project))
      invalid_preferred_order
  n ← gets (order_available o)
  raise_if (n == 0) preferred_order_fully_allocated
  pure record {
    order_id = preferred;
    quantity = min n quantity;
    expected_arrival = o.expected_arrival;
    warns = same_id o.expected_arrival none || is_late o.expected_arrival deadline;
  }

-- The part of `_select_incoming_order_candidates` that fills what remains from the open orders.
unfoldable pub fill_from_orders : ℕ → ℕ → Option ℕ → Option ℕ → List ℕ → Action (List Selected)
fill_from_orders item quantity project deadline excluded = do
  l ← gets (open_supply item project excluded)
  raise_if (not ((take_candidates deadline l quantity).1 == 0)) insufficient_stock
  pure (take_candidates deadline l quantity).0

-- `_select_incoming_order_candidates`; the deadline is already parsed.
unfoldable pub select_incoming_order_candidates :
    ℕ → ℕ → Option ℕ → Option ℕ → Option ℕ → List ℕ → Bool → Action (List Selected)
select_incoming_order_candidates item quantity project none deadline excluded auto_fill =
    if quantity == 0 || not auto_fill
    then pure []
    else fill_from_orders item quantity project deadline excluded
select_incoming_order_candidates item quantity project (some p) deadline excluded auto_fill = do
  x ← select_preferred item quantity project p deadline
  more ←
      if quantity - x.quantity == 0 || not auto_fill
      then pure []
      else fill_from_orders item (quantity - x.quantity) project deadline (p ∷ excluded)
  pure (x ∷ more)
