-- ===== src/Orders/Received.antt =====
-- `process_order_arrival` of backend/app/service.py as a whole, where it returns.
use materials_management_sha.Stock.Laws.{IsLedger}
use materials_management_sha.Orders.Landed.{Landed, process_order_arrival-Landed}
use materials_management_sha.Orders.Merge.{get_order-After, local-After}
use materials_management_sha.Prelude.{
  ℕ, ◌≤◌, ◌<◌, ◌≡◌, ◌∙◌, ap, ℤ, pos, false, Option, none, some, arith, keep, sym, ltb, ◌++◌,
}
use materials_management_sha.Text.{Text, codes, decimal}
use materials_management_sha.Database.{Db, Order, arrival}
use materials_management_sha.Database.Triples.{
  After, After-reader, After-map, After-raise_if, After-lift, After-continue, After-both,
}
use materials_management_sha.Database.Table.{find, IsKeyed}
use materials_management_sha.Stock.Total.{Totals, apply_inventory_delta-Totals}
use materials_management_sha.Movement.Journal.{require_positive-After}
use materials_management_sha.Reservation.Holdings.{held, Tables, IsConsistent, reservation_key}
use materials_management_sha.Reservation.Drained.{SameHoldings}
use materials_management_sha.Reservation.Consume.{Frame, delta-Frame}
use materials_management_sha.Orders.{order_key, is_arrived}
use materials_management_sha.Orders.Arrival.{
  Arrived, arrived_quantity, follow_split, convert_rows, awaits, by_age, process_order_arrival,
  target_location,
}
use materials_management_sha.Orders.Conversion.{convert_rows-Converts}
use materials_management_sha.Orders.Age.{waiting-Open}
use materials_management_sha.Orders.Frames.{
  arrive_order-SameHoldings, log-SameHoldings, follow_split-Converts,
}

-- `n` units of the item of `o` have arrived: what is held for each reservation is what it was.
abbrev Arrives : ℕ → ℕ → Db → Db → Type 0
Arrives item n s s' =
    Tables s'
    × ((k : ℕ) → held k s' ≡ held k s)
    × Totals item (pos n) s.stock s'.stock
    × (s'.reservations ≡ s.reservations)

-- What `arrived_quantity` returns: all of the order where no quantity is given.
abbrev pub AskedArrival : Option ℤ → ℕ → ℕ → Type 0
AskedArrival none amount n = (n ≡ amount) × (0 < n)
AskedArrival (some q) amount n = (q ≡ pos n) × (0 < n)

-- What an arrival has done: of the open order `o`, `n` units have entered the stock of its item and
-- no other; what is held for each reservation is what it was.
abbrev pub Received : ℕ → Option ℤ → Db → Arrived → Db → Type 0
Received id quantity s r s' =
    (o : Order) × (find order_key id s.orders ≡ some o)
    × (is_arrived o.status ≡ false)
    × AskedArrival quantity o.order_amount r.arrived_amount
    × (r.arrived_amount ≤ o.order_amount)
    × Totals o.item_id (pos r.arrived_amount) s.stock s'.stock
    × ((k : ℕ) → held k s' ≡ held k s)
    × (s'.reservations ≡ s.reservations)

arrived_quantity-After :
    (quantity : Option ℤ) (amount : ℕ) (s : Db)
    → After (λ n s'. (s' ≡ s) × AskedArrival quantity amount n) (arrived_quantity quantity amount s)
unfolding arrived_quantity
arrived_quantity-After none amount s =
    After-map (λ n s'. (s' ≡ s) × ((pos amount ≡ pos n) × (0 < n)))
      (λ n s'. (s' ≡ s) × ((n ≡ amount) × (0 < n))) _ (require_positive-After (pos amount) s)
      λ n s' h. (h.0, (cc, h.1.1))
arrived_quantity-After (some q) amount s = require_positive-After q s

-- From the stock on: the conversions and the last UPDATE.
converted_all :
    (place : Text) (ts log_id id item n : ℕ) (split : Option ℕ) (s u : Db)
    → Arrives item n s u
    → let t = convert_rows place ts log_id (by_age (keep (awaits id) u.incoming)) n u in
      Arrives item n s (follow_split split ts t.0 t.1)
converted_all place ts log_id id item n split s u h =
    let l = by_age (keep (awaits id) u.incoming) in
    let t = convert_rows place ts log_id l n u in
    let step =
      convert_rows-Converts place ts log_id l n u h.0 (waiting-Open place ts log_id id u h.0) in
    let last = follow_split-Converts split ts t.0 t.1 step.0 in
    (last.0, λ k. last.1 k ∙ (step.1 k ∙ h.1 k), rw (last.2, step.2) h.2, last.3 ∙ (step.3 ∙ h.3))

framed :
    (item n : ℕ) (s t u : Db)
    → Tables s
    → SameHoldings s t
    → Frame t u
    → Totals item (pos n) t.stock u.stock
    → Arrives item n s u
unfolding held
framed item n s t u h same frame totals = (
  rw (frame.0, frame.1, frame.2, frame.3, frame.4, same.0, same.1, same.2, same.3, same.4) h,
  λ k. rw (frame.0, frame.2, same.0, same.2),
  rw (← same.5) totals,
  frame.4 ∙ same.4,
)

SameHoldings-trans : (s t u : Db) → SameHoldings s t → SameHoldings t u → SameHoldings s u
SameHoldings-trans s t u h k =
    (k.0 ∙ h.0, k.1 ∙ h.1, k.2 ∙ h.2, k.3 ∙ h.3, k.4 ∙ h.4, k.5 ∙ h.5, k.6 ∙ h.6)

Received-IsConsistent :
    (id : ℕ) (quantity : Option ℤ) (s s' : Db) (r : Arrived)
    → IsConsistent s
    → Tables s'
    → Received id quantity s r s'
    → IsConsistent s'
Received-IsConsistent id quantity s s' r h tables
      (o, found, live, some_arrived, le, totals, same, rows) =
    (tables, λ k x e. same k ∙ h.1 k x (sym (ap (find reservation_key k) rows) ∙ e))

-- An arrival is consistent where it started so.
received :
    (id : ℕ) (quantity : Option ℤ) (s s' : Db) (r : Arrived) (o : Order)
    → IsConsistent s
    → find order_key id s.orders ≡ some o
    → is_arrived o.status ≡ false
    → AskedArrival quantity o.order_amount r.arrived_amount
    → r.arrived_amount ≤ o.order_amount
    → Arrives o.item_id r.arrived_amount s s'
    → Received id quantity s r s' × IsConsistent s'
received id quantity s s' r o h here live positive le last =
    let done : Received id quantity s r s' =
      (o, here, live, positive, le, last.2, last.1, last.3) in
    (done, Received-IsConsistent id quantity s s' r h last.0 done)

-- What is held and the totals, of a whole arrival.
arrival-kept :
    (id : ℕ) (quantity : Option ℤ) (location : Option Text) (s : Db)
    → IsConsistent s
    → After
        (λ r s'. Received id quantity s r s' × IsConsistent s')
        (process_order_arrival id quantity location s)
unfolding process_order_arrival
arrival-kept id quantity location s h =
    let Q : Arrived → Db → Type 0 = λ r s'. Received id quantity s r s' × IsConsistent s' in
    After-reader (λ o. find order_key id s.orders ≡ some o) Q _ _ s (get_order-After id s)
      λ o here.
        After-reader (λ _. Unit) Q _ _ s (local-After o s)
          λ _ _. After-raise_if Q (is_arrived o.status) _ _ s λ live.
            After-reader (λ n. AskedArrival quantity o.order_amount n) Q _ _ s
              (arrived_quantity-After quantity o.order_amount s)
              λ n asked. After-raise_if Q (ltb o.order_amount n) _ _ s λ fits.
                After-lift Q (target_location location) _ s λ place _.
                  After-continue (λ _ t. SameHoldings s t) Q _ _
                    (arrive_order-SameHoldings id o n s)
                    λ split t first.
                      After-continue (λ _ u. SameHoldings t u) Q _ _
                        (log-SameHoldings arrival o.item_id (pos n) none (some place)
                          (some (codes "order_id=" ++ decimal id))
                          (some (codes "arrival-" ++ decimal id)) none t)
                        λ log u second.
                          After-continue
                            (λ _ v. Frame u v × Totals o.item_id (pos n) u.stock v.stock) Q _ _
                            (After-both (λ _ v. Frame u v)
                              (λ _ v. Totals o.item_id (pos n) u.stock v.stock) _
                              (delta-Frame o.item_id (some place) (pos n) u)
                              (apply_inventory_delta-Totals o.item_id (some place) (pos n) u))
                            λ _ v third.
                              received id quantity s _
                                (record {
                                  arrived_amount = n;
                                  split_order_id = split;
                                  transaction = log;
                                })
                                o h here live asked (ground arith)
                                (converted_all place log.timestamp log.log_id id o.item_id n split s
                                  v
                                  (framed o.item_id n s u v h.0
                                    (SameHoldings-trans s t u first second) third.0 third.1))

-- From a consistent database with a well-formed ledger where no key of the orders stands twice, an
-- arrival that returns has brought the positive quantity that was asked for, or all of the open
-- order, and no more than it had, to the location that was asked for, or to STOCK: the quantity there
-- has grown by it and no other quantity has changed. The order has arrived with that amount, and the
-- open amount of its item is that much less. Of what reservations await of the order, as much as has
-- arrived is now held at the location, while all that each of them holds, as stock or as incoming,
-- adds up to what it was, and the database is consistent.
pub process_order_arrival-Received :
    (id : ℕ) (quantity : Option ℤ) (location : Option Text) (s : Db)
    → IsConsistent s
    → IsLedger s.stock
    → IsKeyed order_key s.orders
    → After
        (λ r s'. (Received id quantity s r s' × IsConsistent s') × Landed id location s r s')
        (process_order_arrival id quantity location s)
process_order_arrival-Received id quantity location s h ledger keyed =
    After-both (λ r s'. Received id quantity s r s' × IsConsistent s')
      (λ r s'. Landed id location s r s') _ (arrival-kept id quantity location s h)
      (process_order_arrival-Landed id quantity location s ledger keyed)
