-- ===== src/Orders/Landed.antt =====
-- Where an arrival of backend/app/service.py lands: in the order, on the shelf, and in the stock that
-- reservations hold.
use materials_management_sha.Reservation.Drained.{SameHoldings}
use materials_management_sha.Movement.Flows.{touches, Moved, apply_inventory_delta-Moved}
use materials_management_sha.Stock.Laws.{IsLedger, same}
use materials_management_sha.Reservation.Consume.{Frame, delta-Frame}
use materials_management_sha.Prelude.{
  ℕ, ◌+◌, ◌≡◌, refl, ℤ, min, ◌&&◌, not, Option, some, List, ◌++◌, arith, if◌then◌else◌, keep,
  Bool-cases, inl, inr, sym, none, pos, ◌∙◌, ap, ltb,
}
use materials_management_sha.Text.{Text, codes, decimal, strip}
use materials_management_sha.Database.{Db, Order, Operation, Result, ok, err, StockRow, arrival}
use materials_management_sha.Database.Triples.{
  After, After-reader, After-raise_if, After-lift, After-continue, After-both,
}
use materials_management_sha.Database.Table.{find, IsKeyed}
use materials_management_sha.Stock.{
  is_positive, has_item, apply_inventory_delta, put_stock, apply_delta, require_non_empty,
  quantity_at,
}
use materials_management_sha.Movement.{log_transaction, require_positive}
use materials_management_sha.Supply.{incoming_reserved}
use materials_management_sha.Orders.{order_key, is_arrived, strip}
use materials_management_sha.Orders.Merge.{local-After, get_order-After}
use materials_management_sha.Orders.Frames.{arrive_order-SameHoldings, log-SameHoldings}
use materials_management_sha.Orders.Arrival.{
  awaits, by_age, convert_rows, Arrived, arrived_quantity, follow_split, target_location,
  process_order_arrival,
}
use materials_management_sha.Orders.Opened.{ArrivedOf, arrive_order-Arrived}
use materials_management_sha.Orders.Waiting.{
  held_at, waiting-by_age, waiting-keep, convert_rows-lands, convert_rows-orders,
}

-- The log and the shelf leave the orders alone.
log-orders :
    (op : Operation) (i : ℕ) (d : ℤ) (a b note batch : Option Text) (u : Option ℕ) (s : Db)
    → After (λ _ t. t.orders ≡ s.orders) (log_transaction op i d a b note batch u s)
unfolding log_transaction
log-orders op i d _ _ _ _ _ s = elim (Bool-cases (is_positive d && has_item i s.items)) [
  | inl fine ↦ rw fine refl
  | inr bad ↦ rw bad tt
]

put_stock-orders :
    (s : Db) (x : Result (ℕ × List StockRow)) → After (λ _ t. t.orders ≡ s.orders) (put_stock x s)
unfolding put_stock
put_stock-orders s (ok (q, rows)) = refl
put_stock-orders s (err e) = tt

delta-orders :
    (i : ℕ) (l : Option Text) (d : ℤ) (s : Db)
    → After (λ _ t. t.orders ≡ s.orders) (apply_inventory_delta i l d s)
unfolding apply_inventory_delta
delta-orders i l d s =
    After-lift (λ _ t. t.orders ≡ s.orders) (require_non_empty l) _ s
      λ n _.
        After-raise_if (λ _ t. t.orders ≡ s.orders) (is_positive d && not (has_item i s.items)) _ _
          s λ _. put_stock-orders s (apply_delta i n d s.stock)

-- Of the order `o`, `n` has arrived; it stands at `place`, where reservations hold as much of it as
-- they waited for; no other quantity has changed.
abbrev pub LandsAt : ℕ → Order → ℕ → Text → Db → Db → Type 0
LandsAt id o n place s s' =
    ArrivedOf id o n s.orders s'.orders
    × IsLedger s'.stock
    × ((j : ℕ) (m : Text)
        → quantity_at j m s'.stock
          ≡ quantity_at j m s.stock + (if same o.item_id (strip place) j m then n else 0))
    × (held_at place s' ≡ held_at place s + min n (incoming_reserved id s))

-- The location that a request is for: the one that is named, stripped, or STOCK.
unfoldable pub IsTarget : Option Text → Text → Type 0
IsTarget none place = (place ≡ codes "STOCK")
IsTarget (some l) place = (place ≡ strip l)

target_location-IsTarget :
    (location : Option Text) (place : Text)
    → target_location location ≡ ok place
    → IsTarget location place
unfolding IsTarget target_location require_non_empty
target_location-IsTarget none place h = ground (arith, h)
target_location-IsTarget (some l) place h = ground (arith, h)

-- An arrival of the order `id` has landed at the location that was asked for.
abbrev pub Landed : ℕ → Option Text → Db → Arrived → Db → Type 0
Landed id location s r s' =
    (o : Order) × (place : Text) × (find order_key id s.orders ≡ some o)
    × IsTarget location place
    × LandsAt id o r.arrived_amount place s s'

asked-same :
    (quantity : Option ℤ) (amount : ℕ) (s : Db)
    → After (λ n s'. (s' ≡ s) × Unit {0}) (arrived_quantity quantity amount s)
unfolding arrived_quantity require_positive
asked-same none amount s = ground arith
asked-same (some q) amount s = ground arith

-- From the stock on: the conversions.
converted-Lands :
    (place : Text) (ts log_id id n : ℕ) (o : Order) (s u v : Db)
    → ArrivedOf id o n s.orders u.orders
    → s.stock ≡ u.stock
    → s.allocations ≡ u.allocations
    → s.incoming ≡ u.incoming
    → Moved o.item_id (some place) (pos n) u v
    → v.orders ≡ u.orders
    → Frame u v
    → LandsAt id o n place s
        (convert_rows place ts log_id (by_age (keep (awaits id) v.incoming)) n v).1
unfolding incoming_reserved touches
converted-Lands place ts log_id id n o s u v arrives stock allocations incoming moved orders frame =
    let l = by_age (keep (awaits id) v.incoming) in
    let kept = convert_rows-orders place ts log_id l n v in
    (
      rw (kept.0, orders) arrives,
      rw kept.1 moved.1,
      λ j m. rw (kept.1, stock) (ground (arith, moved.2 j m)),
      convert_rows-lands place ts log_id l n v
          ∙ rw (frame.0, allocations, incoming, ← frame.2)
              (ap (λ x. held_at place u + min n x)
                (waiting-by_age (keep (awaits id) v.incoming) ∙ waiting-keep id v.incoming)),
    )

-- The last UPDATE writes none of this.
follow_split-Lands :
    (split : Option ℕ) (ts : ℕ) (ids : List ℕ) (id n : ℕ) (o : Order) (place : Text) (s t : Db)
    → LandsAt id o n place s t
    → LandsAt id o n place s (follow_split split ts ids t)
unfolding follow_split
follow_split-Lands none ts ids id n o place s t h = h
follow_split-Lands (some child) ts ids id n o place s t h = h

-- What the shelf's change is, and what it leaves.
abbrev KeepsOrders : Db → Db → Type 0
KeepsOrders u v = (v.orders ≡ u.orders) × Frame u v

abbrev OnShelf : ℕ → Text → ℕ → Db → Db → Type 0
OnShelf item place n u v = Moved item (some place) (pos n) u v × KeepsOrders u v

on_shelf :
    (item : ℕ) (place : Text) (n : ℕ) (u : Db)
    → IsLedger u.stock
    → After (λ _ v. OnShelf item place n u v) (apply_inventory_delta item (some place) (pos n) u)
on_shelf item place n u ledger =
    After-both (λ _ v. Moved item (some place) (pos n) u v) (λ _ v. KeepsOrders u v) _
      (apply_inventory_delta-Moved item (some place) (pos n) u ledger)
      (After-both (λ _ v. v.orders ≡ u.orders) (λ _ v. Frame u v) _
        (delta-orders item (some place) (pos n) u) (delta-Frame item (some place) (pos n) u))

-- From a well-formed ledger where no key of the orders stands twice, an arrival that returns has
-- landed.
pub process_order_arrival-Landed :
    (id : ℕ) (quantity : Option ℤ) (location : Option Text) (s : Db)
    → IsLedger s.stock
    → IsKeyed order_key s.orders
    → After (Landed id location s) (process_order_arrival id quantity location s)
unfolding process_order_arrival
process_order_arrival-Landed id quantity location s ledger keyed =
    let Q = Landed id location s in
    After-reader (λ o. find order_key id s.orders ≡ some o) Q _ _ s (get_order-After id s)
      λ o here.
        After-reader (λ _. Unit) Q _ _ s (local-After o s)
          λ _ _. After-raise_if Q (is_arrived o.status) _ _ s λ live.
            After-reader (λ _. Unit) Q _ _ s (asked-same quantity o.order_amount s)
              λ n _. After-raise_if Q (ltb o.order_amount n) _ _ s λ fits.
                After-lift Q (target_location location) _ s λ place at.
                  After-continue (λ _ t. SameHoldings s t × ArrivedOf id o n s.orders t.orders) Q _
                    _
                    (After-both (λ _ t. SameHoldings s t)
                      (λ _ t. ArrivedOf id o n s.orders t.orders) _
                      (arrive_order-SameHoldings id o n s)
                      (arrive_order-Arrived id o n s keyed here live (ground arith)))
                    λ split t first.
                      After-continue (λ _ u. SameHoldings t u × (u.orders ≡ t.orders)) Q _ _
                        (After-both (λ _ u. SameHoldings t u) (λ _ u. u.orders ≡ t.orders) _
                          (log-SameHoldings arrival o.item_id (pos n) none (some place)
                            (some (codes "order_id=" ++ decimal id))
                            (some (codes "arrival-" ++ decimal id)) none t)
                          (log-orders arrival o.item_id (pos n) none (some place)
                            (some (codes "order_id=" ++ decimal id))
                            (some (codes "arrival-" ++ decimal id)) none t))
                        λ log u second.
                          let same_stock = second.0.5 ∙ first.0.5 in
                          After-continue (λ _ v. OnShelf o.item_id place n u v) Q _ _
                            (on_shelf o.item_id place n u (rw same_stock ledger))
                            λ _ v third. (
                              o,
                              place,
                              here,
                              target_location-IsTarget location place at,
                              follow_split-Lands split log.timestamp _ id n o place s _ (
                                  converted-Lands place log.timestamp log.log_id id n o s u v
                                    (rw second.1 first.1) (sym same_stock)
                                    (sym (second.0.0 ∙ first.0.0)) (sym (second.0.2 ∙ first.0.2))
                                    third.0 third.1.0 third.1.1),
                            )
