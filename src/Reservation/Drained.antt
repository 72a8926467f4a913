-- ===== src/Reservation/Drained.antt =====
-- The two loops of `release_reservation` over the allocations of a reservation.
use mathlib.Core.Path.{ap₂}
use materials_management_sha.Stock.{has_item, is_positive}
use materials_management_sha.Prelude.{
  ℕ, ◌+◌, ◌≤◌, ◌≡◌, ◌≢◌, refl, true, false, ◌&&◌, Option, sum_by, arith, Bool-cases, inl, inr, pos,
}
use materials_management_sha.Text.{Text}
use materials_management_sha.Database.{Db, Operation, Reservation, Status, ◌>>=◌}
use materials_management_sha.Database.Triples.{After}
use materials_management_sha.Database.Table.Laws.{IsKeyed-keep, Stands-keep}
use materials_management_sha.Drain.{drain}
use materials_management_sha.Drain.Laws.{IsTable, drain-Ready, Ready}
use materials_management_sha.Drain.Others.{drain-other}
use materials_management_sha.Movement.{log_transaction}
use materials_management_sha.Reservation.{
  is_active, holds_stock, holds_incoming, active_allocations, active_incoming, stock_kind,
  incoming_kind, log_event, set_batch_id, drain_stock, drain_incoming,
}
use materials_management_sha.Reservation.Holdings.{
  stock_weight, incoming_weight, held, allocation_key, incoming_key, Tables, keep-All, stock_IsKind,
  incoming_IsKind, stock_IsOther, incoming_IsOther,
}

-- The tables of the reservations, their allocations and the stock are as they were.
abbrev pub SameHoldings : Db → Db → Type 0
SameHoldings s s' =
    (s'.allocations ≡ s.allocations)
    × (s'.next_allocation ≡ s.next_allocation)
    × (s'.incoming ≡ s.incoming)
    × (s'.next_incoming ≡ s.next_incoming)
    × (s'.reservations ≡ s.reservations)
    × (s'.stock ≡ s.stock)
    × (s'.next_reservation ≡ s.next_reservation)

pub log_event-SameHoldings :
    (op : Operation) (verb : Text) (r : Reservation) (n : ℕ) (note : Option Text) (s : Db)
    → After (λ _ s'. SameHoldings s s') (log_event op verb r n note s)
unfolding log_event log_transaction set_batch_id
log_event-SameHoldings op verb r n _ s =
    elim (Bool-cases (is_positive (pos n) && has_item r.item_id s.items)) [
      | inl fine ↦ rw fine (refl, refl, refl, refl, refl, refl, refl)
      | inr bad ↦ rw bad tt
    ]

-- The holdings after both loops: `n` less for the reservation, the same for the others.
abbrev pub Drained : ℕ → ℕ → Db → Db → Type 0
Drained rid n s s' =
    IsTable allocation_key (s'.next_allocation, s'.allocations)
    × IsTable incoming_key (s'.next_incoming, s'.incoming)
    × (held rid s' + n ≡ held rid s)
    × ((k : ℕ) → k ≢ rid → held k s' ≡ held k s)
    × (s'.reservations ≡ s.reservations)

-- A status that ends a row.
module _ (closed : Status) (ended : is_active closed ≡ false) (rid ts : ℕ) (note : Option Text)
    (log_id : ℕ) where
  pub stock_Ready :
      (s : Db)
      → Tables s
      → Ready
          (stock_kind closed ts note log_id)
          (stock_weight rid)
          (λ a. holds_stock rid a ≡ true)
          (stock_IsKind rid closed ended ts note log_id)
          (active_allocations rid s)
          (s.next_allocation, s.allocations)
  unfolding active_allocations
  stock_Ready s tables = (
    tables.0,
    IsKeyed-keep allocation_key (holds_stock rid) s.allocations tables.0.0,
    Stands-keep allocation_key (holds_stock rid) s.allocations tables.0.0,
    keep-All (holds_stock rid) s.allocations,
  )

  pub incoming_Ready :
      (s : Db)
      → Tables s
      → Ready
          (incoming_kind closed ts note log_id)
          (incoming_weight rid)
          (λ a. holds_incoming rid a ≡ true)
          (incoming_IsKind rid closed ended ts note log_id)
          (active_incoming rid s)
          (s.next_incoming, s.incoming)
  unfolding active_incoming
  incoming_Ready s tables = (
    tables.1,
    IsKeyed-keep incoming_key (holds_incoming rid) s.incoming tables.1.0,
    Stands-keep incoming_key (holds_incoming rid) s.incoming tables.1.0,
    keep-All (holds_incoming rid) s.incoming,
  )

  -- Both loops together, where the active rows hold enough.
  pub drains-Drained :
      (n : ℕ) (s : Db)
      → Tables s
      → n
        ≤ sum_by (λ a. a.quantity) (active_allocations rid s)
          + sum_by (λ a. a.quantity) (active_incoming rid s)
      → After
          (λ _ s'. Drained rid n s s' × (s'.stock ≡ s.stock))
          ((drain_stock (stock_kind closed ts note log_id) (active_allocations rid s) n >>= λ rest.
              drain_incoming (incoming_kind closed ts note log_id) (active_incoming rid s) rest)
            s)
  unfolding drain_stock drain_incoming held
  drains-Drained n s tables enough =
      let kind = stock_kind closed ts note log_id in
      let ikind = incoming_kind closed ts note log_id in
      let stock_is = stock_IsKind rid closed ended ts note log_id in
      let incoming_is = incoming_IsKind rid closed ended ts note log_id in
      let l = active_allocations rid s in
      let m = active_incoming rid s in
      let first =
        drain-Ready kind (stock_weight rid) (λ a. holds_stock rid a ≡ true) stock_is l n
          (s.next_allocation, s.allocations) (stock_Ready s tables) in
      let rest = (drain kind l n (s.next_allocation, s.allocations)).0 in
      let second =
        drain-Ready ikind (incoming_weight rid) (λ a. holds_incoming rid a ≡ true) incoming_is m
          rest (s.next_incoming, s.incoming) (incoming_Ready s tables) in
      (
        (
          first.0,
          second.0,
          omega (arith, first.1, first.2, second.1, second.2),
          λ k ne.
              ap₂ (λ (a b : ℕ). a + b)
                (drain-other kind (stock_weight rid) (λ a. holds_stock rid a ≡ true) stock_is
                  (stock_weight k) (stock_IsOther rid closed ended ts note log_id k ne) l n
                  (s.next_allocation, s.allocations) (stock_Ready s tables))
                (drain-other ikind (incoming_weight rid) (λ a. holds_incoming rid a ≡ true)
                  incoming_is (incoming_weight k)
                  (incoming_IsOther rid closed ended ts note log_id k ne) m rest
                  (s.next_incoming, s.incoming) (incoming_Ready s tables)),
          refl,
        ),
        refl,
      )
