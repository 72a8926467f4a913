-- ===== src/Shop.antt =====
-- A small shop: one item in two locations, a reservation that holds stock and a part of an order that
-- has not arrived, and that order with another one of its item.
pub mod Releases
pub mod Moves
pub mod Plans
pub mod Allocations
use materials_management_sha.Undo.History.{Reaches, here, next, spent}
use materials_management_sha.Reservation.Covered.{IsCovered}
use materials_management_sha.Orders.{order_key, same_id}
use materials_management_sha.Reservation.{is_active}
use materials_management_sha.Supply.{reserved_at, reserves, incoming_reserved, awaited}
use materials_management_sha.Undo.{log_key}
use materials_management_sha.Undo.Journal.{undoes_consumption, consumes_in}
use materials_management_sha.Reservation.Created.{IsSound}
use materials_management_sha.Reservation.Create.{NewReservation}
use materials_management_sha.Planning.{Source}
use materials_management_sha.Orders.Update.{OrderUpdate}
use mathlib.Core.Path.{subst}
use materials_management_sha.Movement.{
  BatchOperation, consume_inventory, require_positive, require_item, log_transaction,
}
use materials_management_sha.Stock.{
  find_quantity, quantity_at, is_positive, has_item, apply_inventory_delta, require_non_empty,
  apply_delta, put_stock, lower, set_quantity,
}
use materials_management_sha.Reservation.Settled.{some_inj}
use materials_management_sha.Database.Table.{find}
use materials_management_sha.Prelude.{
  ℕ, ◌≡◌, refl, pos, negsuc, none, some, List, [], ◌∷◌, arith, ap, sum_by, false, ◌≤◌,
}
use materials_management_sha.Text.{Text, codes, text_eq, is_empty, strip, lstrip, rstrip, is_space}
use materials_management_sha.Database.{
  Db, StockRow, Reservation, Allocation, Incoming, active, move, adjust, Order, ordered, LogRow,
  consume, ok,
}
use materials_management_sha.Stock.Laws.{IsLedger}
use materials_management_sha.Reservation.Holdings.{
  IsConsistent, reservation_key, held, backed, stock_weight, incoming_weight,
}

abbrev pub stock_room : Text
stock_room = codes "STOCK"

abbrev pub lab : Text
lab = codes " LAB "

abbrev pub ledger : List StockRow
ledger =
    record { item_id = 1; location = codes "STOCK"; quantity = 10 }
    ∷ record { item_id = 1; location = codes "LAB"; quantity = 2 }
    ∷ []

abbrev pub reservation : Reservation
reservation = record {
  reservation_id = 7;
  item_id = 1;
  quantity = 5;
  purpose = none;
  deadline = none;
  status = active;
  released_at = none;
  note = none;
  project_id = none;
}

abbrev pub allocation : Allocation
allocation = record {
  allocation_id = 1;
  reservation_id = 7;
  item_id = 1;
  location = codes "STOCK";
  quantity = 3;
  status = active;
  created_at = 90;
  released_at = none;
  note = none;
}

abbrev pub incoming_allocation : Incoming
incoming_allocation = record {
  incoming_allocation_id = 1;
  reservation_id = 7;
  item_id = 1;
  order_id = some 4;
  quantity = 2;
  status = active;
  expected_arrival_snapshot = none;
  target_location = none;
  created_at = 90;
  updated_at = 90;
  released_at = none;
  note = none;
}

abbrev pub order : Order
order = record {
  order_id = 4;
  item_id = 1;
  quotation_id = none;
  purchase_order_id = 1;
  project_id = none;
  project_id_manual = 0;
  order_amount = 6;
  ordered_quantity = some 12;
  ordered_item_number = some (codes "BOLT");
  order_date = 10;
  expected_arrival = some 30;
  arrival_date = none;
  status = ordered;
  source_system = codes "local";
}

abbrev pub shop : Db
shop = record {
  now = 100;
  today = 20;
  items = 1 ∷ [];
  projects = [];
  stock = ledger;
  log = [];
  next_log = 1;
  reservations = reservation ∷ [];
  next_reservation = 8;
  allocations = allocation ∷ [];
  next_allocation = 2;
  incoming = incoming_allocation ∷ [];
  next_incoming = 2;
  orders = order ∷ record order { order_id = 3; order_amount = 2 } ∷ [];
  next_order = 5;
  lineage = [];
  splits = [];
  procurement_lines = [];
  rfq_lines = [];
}

pub ledger-IsLedger : IsLedger ledger
unfolding find_quantity text_eq
ledger-IsLedger = (omega arith, refl, (omega arith, refl, tt))

found_is : (k : ℕ) (r : Reservation) → find reservation_key k shop.reservations ≡ some r → k ≡ 7
unfolding find
found_is k r e = ground arith

backed_by :
    (r : Reservation) → find reservation_key 7 shop.reservations ≡ some r → held 7 shop ≡ backed r
unfolding find held backed sum_by stock_weight incoming_weight
backed_by r e = ap backed (some_inj e)

pub shop-IsConsistent : IsConsistent shop
unfolding find
shop-IsConsistent = (
  (((refl, tt), (omega arith, tt)), ((refl, tt), (omega arith, tt)), (refl, tt)),
  λ k r e.
      let k_is = found_is k r e in
      rw k_is
        (backed_by r (subst (λ (i : ℕ). find reservation_key i shop.reservations ≡ some r) k_is e)),
)

abbrev pub operations : List BatchOperation
operations =
    record {
      operation_type = some move;
      item_id = 1;
      quantity = pos 4;
      quantity_delta = none;
      from_location = some stock_room;
      to_location = some lab;
      location = none;
      note = none;
    }
    ∷ record {
      operation_type = some adjust;
      item_id = 1;
      quantity = pos 0;
      quantity_delta = some (negsuc 5);
      from_location = none;
      to_location = none;
      location = some lab;
      note = some (codes "count");
    }
    ∷ []

abbrev pub pool : List Source
pool =
    record {
      source_type = codes "stock";
      quantity = 4;
      label = codes "Stock";
      ref_id = none;
      project_id = none;
      date = none;
      status = none;
    }
    ∷ record {
      source_type = codes "order";
      quantity = 6;
      label = codes "Order 4";
      ref_id = some 4;
      project_id = none;
      date = some 30;
      status = none;
    }
    ∷ []

-- A reservation of more than the shelves have: the rest is held of the open orders.
abbrev pub request : NewReservation
request = record {
  item_id = 1;
  quantity = pos 12;
  project_id = none;
  preferred_order_id = none;
  deadline = some 40;
  purpose = some (codes "bench");
  note = none;
}

held_by_none : (k : ℕ) → find reservation_key k shop.reservations ≡ none → held k shop ≡ 0
unfolding find held sum_by stock_weight incoming_weight
held_by_none k e = ground arith

pub shop-IsSound : IsSound shop
shop-IsSound = (shop-IsConsistent, (omega arith, tt), held_by_none)

shop-shelves : (i : ℕ) (l : Text) → reserved_at i l shop ≤ quantity_at i l shop.stock
unfolding reserved_at sum_by reserves quantity_at find_quantity is_active
shop-shelves i l = ground arith

shop-lines :
    (k : ℕ) (o : Order)
    → find order_key k shop.orders ≡ some o
    → incoming_reserved k shop ≤ o.order_amount
unfolding incoming_reserved sum_by awaited find is_active same_id
shop-lines k o e = ground (arith, e)

pub shop-IsCovered : IsCovered shop
shop-IsCovered = (shop-shelves, shop-lines)

pub no_project : (k : ℕ) → request.project_id ≡ some k → ⊥
no_project k e = cc

-- A part of order 4 comes later.
abbrev pub postponement : OrderUpdate
postponement = record {
  expected_arrival = some (some 40);
  status = none;
  split_quantity = some (pos 2);
  project_id = none;
}
