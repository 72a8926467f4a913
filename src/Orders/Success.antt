-- ===== src/Orders/Success.antt =====
-- The conditions of `process_order_arrival` of backend/app/service.py.
use materials_management_sha.Stock.Laws.{IsLedger}
use materials_management_sha.Orders.Landed.{Landed}
use materials_management_sha.Prelude.{
  ℕ, ◌-◌, ◌*◌, ◌/◌, ◌%◌, ◌≤◌, ◌<◌, ◌≡◌, ◌⊎◌, refl, true, false, not, ◌||◌, Option, none, some, ◌++◌,
  arith, ◌==◌, ltb, ℤ, pos, Bool-cases, inl, inr, ==_refl,
}
use materials_management_sha.Text.{
  Text, codes, decimal, text_eq, is_empty, strip, lstrip, rstrip, is_space,
}
use materials_management_sha.Text.Strip.{strip-strip}
use materials_management_sha.Database.{Db, Order, arrival, Operation, ok}
use materials_management_sha.Database.Triples.{Returns, Returns-continue, Returns-raise_if}
use materials_management_sha.Database.Table.{find, IsKeyed}
use materials_management_sha.Stock.{has_item, require_non_empty, apply_inventory_delta}
use materials_management_sha.Movement.{log_transaction, require_positive}
use materials_management_sha.Movement.Transfer.{give_succeeds}
use materials_management_sha.Reservation.Success.{Succeeds, both, positive}
use materials_management_sha.Reservation.Holdings.{IsConsistent}
use materials_management_sha.Orders.{
  order_key, get_order, assert_order_is_locally_managed, is_arrived, original_quantity,
  split_ordered, record_order_lineage_event,
}
use materials_management_sha.Orders.Arrival.{
  Arrived, arrived_quantity, target_location, arrive_order, split_arrival, update_order_row,
  insert_remaining, record_local_order_split, process_order_arrival,
}
use materials_management_sha.Orders.Received.{
  Received, process_order_arrival-Received, AskedArrival,
}

-- The order is managed here, and can be divided where only a part of it arrives.
abbrev pub IsLocal : Order → Type 0
IsLocal o = text_eq (strip o.source_system) (codes "local") ≡ true

abbrev pub IsDivisible : Order → ℕ → Type 0
IsDivisible o n =
    (n ≡ o.order_amount)
    ⊎ ((n < o.order_amount)
        × (original_quantity o * n % o.order_amount ≡ 0)
        × (0 < original_quantity o * n / o.order_amount)
        × (original_quantity o * n / o.order_amount < original_quantity o))

pub local-Returns :
    (o : Order) (s : Db)
    → IsLocal o
    → Returns (λ _ s'. s' ≡ s) (assert_order_is_locally_managed o s)
unfolding assert_order_is_locally_managed is_empty text_eq
local-Returns o s h = ground arith

asked-Returns :
    (quantity : Option ℤ) (amount n : ℕ) (s : Db)
    → AskedArrival quantity amount n
    → Returns (λ m s'. (s' ≡ s) × (m ≡ n)) (arrived_quantity quantity amount s)
unfolding arrived_quantity require_positive
asked-Returns none amount n s h = rw (← h.0) (rw (positive n h.1) (refl, refl))
asked-Returns (some q) amount n s h = rw h.0 (rw (positive n h.1) (refl, refl))

stock_full : is_empty (strip (codes "STOCK")) ≡ false
unfolding strip lstrip rstrip is_space is_empty
stock_full = refl

ok_inj : {a b : Text} → ok a ≡ ok b → a ≡ b
ok_inj h = cc

place_full :
    (location : Option Text) (place : Text)
    → target_location location ≡ ok place
    → is_empty (strip place) ≡ false
unfolding target_location require_non_empty
place_full none place h = rw (← ok_inj h) stock_full
place_full (some l) place h = elim (Bool-cases (is_empty (strip l))) [
  | inl e ↦ ground arith
  | inr e ↦ ground (arith, strip-strip l)
]

unequal : (a b : ℕ) → a < b → (a == b) ≡ false
unequal a b h = ground arith

arrive_order-Returns :
    (id : ℕ) (o : Order) (n : ℕ) (s : Db)
    → IsDivisible o n
    → Returns (λ _ t. t.items ≡ s.items) (arrive_order id o n s)
unfolding arrive_order split_arrival split_ordered update_order_row insert_remaining
    record_order_lineage_event record_local_order_split
arrive_order-Returns id o n s (inl whole) = rw whole (rw (==_refl o.order_amount) refl)
arrive_order-Returns id o n s (inr part) =
    let exact : not (original_quantity o * n % o.order_amount == 0) ≡ false = rw part.1 refl in
    let whole_shares : (original_quantity o * n / o.order_amount == 0
          || original_quantity o - original_quantity o * n / o.order_amount == 0
          || o.order_amount - n == 0)
        ≡ false =
      ground arith in
    rw (unequal n o.order_amount part.0, exact, whole_shares) refl

log-Returns :
    (op : Operation) (i n : ℕ) (a b note batch : Option Text) (u : Option ℕ) (s : Db)
    → 0 < n
    → has_item i s.items ≡ true
    → Returns (λ _ t. t.items ≡ s.items) (log_transaction op i (pos n) a b note batch u s)
unfolding log_transaction
log-Returns op i n _ _ _ _ _ s some_asked known = rw (positive n some_asked, known) refl

give_Succeeds :
    (i n : ℕ) (l : Text) (s : Db)
    → is_empty (strip l) ≡ false
    → has_item i s.items ≡ true
    → 0 < n
    → Succeeds (apply_inventory_delta i (some l) (pos n) s)
give_Succeeds i n l s full known some_asked =
    let (r, e) = give_succeeds i n l s full known some_asked in rw e tt

-- An open order that is managed here.
abbrev pub IsOpen : ℕ → Order → Db → Type 0
IsOpen id o s =
    (find order_key id s.orders ≡ some o)
    × IsLocal o
    × (is_arrived o.status ≡ false)
    × (has_item o.item_id s.items ≡ true)

arrival_Succeeds :
    (id n : ℕ) (quantity : Option ℤ) (location : Option Text) (place : Text) (s : Db) (o : Order)
    → IsOpen id o s
    → AskedArrival quantity o.order_amount n
    → 0 < n
    → n ≤ o.order_amount
    → IsDivisible o n
    → target_location location ≡ ok place
    → Succeeds (process_order_arrival id quantity location s)
unfolding process_order_arrival get_order
arrival_Succeeds id n quantity location place s o opens asked some_asked le divides at =
    let Q : Arrived → Db → Type 0 = λ _ _. Unit {0} in
    rw opens.0 (
      Returns-continue (λ _ s'. s' ≡ s) Q _ _ (local-Returns o s opens.1)
        λ _ s' same.
          rw (same, opens.2)
            (Returns-continue (λ m s'. (s' ≡ s) × (m ≡ n)) Q _ _
              (asked-Returns quantity o.order_amount n s asked)
              λ m s' same.
                rw (same.0, same.1)
                  (Returns-raise_if Q (ltb o.order_amount n) _ _ s (ground arith) (
                    rw at (
                      Returns-continue (λ _ t. t.items ≡ s.items) Q _ _
                        (arrive_order-Returns id o n s divides)
                        λ split t first.
                          Returns-continue (λ _ u. u.items ≡ t.items) Q _ _
                            (log-Returns arrival o.item_id n none (some place)
                              (some (codes "order_id=" ++ decimal id))
                              (some (codes "arrival-" ++ decimal id)) none t some_asked
                              (rw first opens.3))
                            λ log u second.
                              Returns-continue (λ _ _. Unit {0}) Q _ _
                                (give_Succeeds o.item_id n place u (place_full location place at)
                                  (rw (second, first) opens.3) some_asked)
                                λ _ v _. tt)))))

-- From a consistent database with a well-formed ledger where no key of the orders stands twice, the
-- arrival of an open order of a known item that is managed here
-- succeeds at a named location, or at the default one, for all of the order, or for a positive part
-- with which the ordered quantity can be divided. The quantity at the location grows by it and no
-- other quantity changes; the order has arrived with that amount, and the open amount of its item is
-- that much less. Of what reservations await of the order, as much as has arrived is then held at the
-- location, while all that each of them holds, as stock or as incoming, adds up to what it was, and
-- the database is consistent.
pub process_order_arrival-Returns :
    (id n : ℕ) (quantity : Option ℤ) (location : Option Text) (place : Text) (s : Db) (o : Order)
    → IsConsistent s
    → IsLedger s.stock
    → IsKeyed order_key s.orders
    → IsOpen id o s
    → AskedArrival quantity o.order_amount n
    → 0 < n
    → n ≤ o.order_amount
    → IsDivisible o n
    → target_location location ≡ ok place
    → Returns
        (λ r s'. (Received id quantity s r s' × IsConsistent s') × Landed id location s r s')
        (process_order_arrival id quantity location s)
process_order_arrival-Returns id n quantity location place s o h ledger keyed opens asked some_asked
      le divides at =
    both _ _ (process_order_arrival-Received id quantity location s h ledger keyed)
      (arrival_Succeeds id n quantity location place s o opens asked some_asked le divides at)
