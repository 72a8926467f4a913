-- ===== src/Orders/Frames.antt =====
-- The statements of `process_order_arrival` of backend/app/service.py besides the loop.
use materials_management_sha.Prelude.{
  ℕ, ◌+◌, ◌≡◌, refl, ap, ℤ, Option, none, some, List, ◌&&◌, ◌==◌, arith, sum_by, Bool-cases, inl,
  inr,
}
use materials_management_sha.Text.{Text}
use materials_management_sha.Database.{Db, Order, Incoming, Operation}
use materials_management_sha.Database.Triples.{After, After-reader}
use materials_management_sha.Database.Table.Maps.{sum_by-map, Below-map, IsKeyed-map}
use materials_management_sha.Stock.{is_positive, has_item}
use materials_management_sha.Movement.{log_transaction}
use materials_management_sha.Reservation.{holds_incoming}
use materials_management_sha.Reservation.Holdings.{
  held, incoming_weight, incoming_key, Tables, stock_weight,
}
use materials_management_sha.Reservation.Drained.{SameHoldings}
use materials_management_sha.Orders.{split_ordered, record_order_lineage_event}
use materials_management_sha.Orders.Arrival.{
  arrive_order, split_arrival, update_order_row, insert_remaining, record_local_order_split, follow,
  follow_split,
}
use materials_management_sha.Orders.Conversion.{Converts}

pub split_ordered-same :
    (original part amount : ℕ) (s : Db)
    → After (λ _ s'. (s' ≡ s) × Unit {0}) (split_ordered original part amount s)
unfolding split_ordered
split_ordered-same original part amount s = ground arith

split_arrival-SameHoldings :
    (id : ℕ) (o : Order) (n : ℕ) (s : Db)
    → After (λ _ s'. SameHoldings s s') (split_arrival id o n s)
unfolding split_arrival update_order_row insert_remaining record_order_lineage_event
    record_local_order_split
split_arrival-SameHoldings id o n s =
    After-reader (λ _. Unit {0}) (λ _ s'. SameHoldings s s') _ _ s
      (split_ordered-same _ n o.order_amount s)
      λ shares _. (refl, refl, refl, refl, refl, refl, refl)

pub arrive_order-SameHoldings :
    (id : ℕ) (o : Order) (n : ℕ) (s : Db)
    → After (λ _ s'. SameHoldings s s') (arrive_order id o n s)
unfolding arrive_order update_order_row
arrive_order-SameHoldings id o n s = elim (Bool-cases (n == o.order_amount)) [
  | inl e ↦ rw e (refl, refl, refl, refl, refl, refl, refl)
  | inr e ↦ rw e (split_arrival-SameHoldings id o n s)
]

pub log-SameHoldings :
    (op : Operation) (i : ℕ) (d : ℤ) (a b note batch : Option Text) (u : Option ℕ) (s : Db)
    → After (λ _ s'. SameHoldings s s') (log_transaction op i d a b note batch u s)
unfolding log_transaction
log-SameHoldings op i d _ _ _ _ _ s = elim (Bool-cases (is_positive d && has_item i s.items)) [
  | inl fine ↦ rw fine (refl, refl, refl, refl, refl, refl, refl)
  | inr bad ↦ rw bad tt
]

follow-weight :
    (child ts : ℕ) (ids : List ℕ) (k : ℕ) (a : Incoming)
    → incoming_weight k (follow child ts ids a) ≡ incoming_weight k a
unfolding follow incoming_weight holds_incoming
follow-weight child ts ids k a = ground arith

follow-key :
    (child ts : ℕ) (ids : List ℕ) (a : Incoming)
    → incoming_key (follow child ts ids a) ≡ incoming_key a
unfolding follow
follow-key child ts ids a = ground arith

pub follow_split-Converts :
    (split : Option ℕ) (ts : ℕ) (ids : List ℕ) (s : Db)
    → Tables s
    → Converts s (follow_split split ts ids s)
unfolding follow_split held
follow_split-Converts none ts ids s h = (h, λ k. refl, refl, refl)
follow_split-Converts (some child) ts ids s h =
    let f = follow child ts ids in
    let keeps = follow-key child ts ids in
    (
      (
        h.0,
        (
          IsKeyed-map f incoming_key keeps s.incoming h.1.0,
          Below-map f incoming_key keeps s.next_incoming s.incoming h.1.1,
        ),
        h.2,
      ),
      λ k.
          ap (λ (x : ℕ). sum_by (stock_weight k) s.allocations + x)
            (sum_by-map f (incoming_weight k) (follow-weight child ts ids k) s.incoming),
      refl,
      refl,
    )
