-- ===== src/Orders/Conversion.antt =====
-- The loop of `process_order_arrival` over the incoming allocations of an order.
use materials_management_sha.Prelude.{
  ℕ, ◌+◌, ◌-◌, ◌≤◌, ◌≡◌, ◌≢◌, refl, ◌∙◌, min, true, false, List, [], ◌∷◌, arith, ◌==◌,
  if◌then◌else◌, sum_by, sum_by-snoc, Bool-cases, inl, inr, ==_iff,
}
use materials_management_sha.Text.{Text}
use materials_management_sha.Database.{Db, Incoming}
use materials_management_sha.Database.Table.{find}
use materials_management_sha.Database.Table.Laws.{find-above, Below-mono, Below-snoc, IsKeyed-snoc}
use materials_management_sha.Drain.{Kind, settle}
use materials_management_sha.Drain.Laws.{IsKind, Ready, settle-Ready}
use materials_management_sha.Drain.Others.{IsOther, settle-other}
use materials_management_sha.Reservation.{is_active, holds_incoming, holds_stock}
use materials_management_sha.Reservation.Holdings.{
  stock_weight, incoming_weight, held, allocation_key, Tables,
}
use materials_management_sha.Orders.Arrival.{
  conversion_kind, stock_allocation, convert_row, convert_rows,
}

-- The quantity of a row that is active, whatever its reservation.
unfoldable pub live_weight : Incoming → ℕ
unfolding is_active
live_weight a = if is_active a.status then a.quantity else 0

abbrev pub IsLive : Incoming → Type 0
IsLive a = is_active a.status ≡ true

differ : (k rid : ℕ) → (rid == k) ≡ false → k ≢ rid
differ k rid h p = ground arith

-- What a step keeps: the tables, what is held for every reservation, and all that it does not write.
abbrev pub Converts : Db → Db → Type 0
Converts s s' =
    Tables s'
    × ((k : ℕ) → held k s' ≡ held k s)
    × (s'.stock ≡ s.stock)
    × (s'.reservations ≡ s.reservations)

module _ (place : Text) (ts log_id : ℕ) where
  abbrev pub kind : Kind Incoming
  kind = conversion_kind place ts log_id

  pub IsLive-IsKind : IsKind kind live_weight IsLive
  unfolding live_weight is_active
  IsLive-IsKind = record {
    close_key = λ a r. refl;
    shrink_key = λ n r. refl;
    part_key = λ a n used r. refl;
    close_weight = λ a r. refl;
    part_weight = λ a n used r. refl;
    weight = λ r h. rw h;
    shrink_weight = λ n r h. rw h;
  }

  module _ (rid : ℕ) where
    abbrev Held : Incoming → Type 0
    Held a = holds_incoming rid a ≡ true

    Held-IsKind : IsKind kind (incoming_weight rid) Held
    unfolding incoming_weight holds_incoming is_active
    Held-IsKind = record {
      close_key = λ a r. refl;
      shrink_key = λ n r. refl;
      part_key = λ a n used r. refl;
      close_weight = λ a r. ground arith;
      part_weight = λ a n used r. ground arith;
      weight = λ r h. rw h;
      shrink_weight = λ n r h. rw h;
    }

    Held-IsOther : (k : ℕ) → k ≢ rid → IsOther kind (incoming_weight k) Held
    unfolding incoming_weight holds_incoming is_active
    Held-IsOther k ne = record {
      held = λ r h. ground arith;
      closed = λ a r h. ground arith;
      shrunk = λ n r h. ground arith;
      parted = λ a n used m r h. ground arith;
    }

  abbrev pub Open : List Incoming → Db → Type 0
  Open l s = Ready kind live_weight IsLive IsLive-IsKind l (s.next_incoming, s.incoming)

  live_held : (a : Incoming) → IsLive a → holds_incoming a.reservation_id a ≡ true
  unfolding holds_incoming
  live_held a h = ground arith

  -- Of the row `a`, `used` units are no longer held as incoming.
  incoming_less :
      (a : Incoming) (l : List Incoming) (used : ℕ) (s : Db) (k : ℕ)
      → Open (a ∷ l) s
      → used ≤ a.quantity
      → sum_by (incoming_weight k) (settle kind a used (s.next_incoming, s.incoming)).1
          + (if a.reservation_id == k then used else 0)
        ≡ sum_by (incoming_weight k) s.incoming
  unfolding find
  incoming_less a l used s k h le =
      let rid = a.reservation_id in
      let one : Ready kind (incoming_weight rid) (Held rid) (Held-IsKind rid) (a ∷ [])
          (s.next_incoming, s.incoming) =
        (h.0, (refl, tt), (h.2.0, tt), (live_held a h.3.0, tt)) in
      elim (Bool-cases (rid == k)) [
        | inl e ↦
            rw (e, ← (==_iff rid k).0 e)
              (settle-Ready kind (incoming_weight rid) (Held rid) (Held-IsKind rid) a [] used
                (s.next_incoming, s.incoming) one le).1
        | inr e ↦ rw e (
            omega (
              arith,
              settle-other kind (incoming_weight rid) (Held rid) (Held-IsKind rid)
                  (incoming_weight k) (Held-IsOther rid k (differ k rid e)) a [] used
                  (s.next_incoming, s.incoming) one,
            ))
      ]

  converted_weight :
      (a : Incoming) (n id k : ℕ)
      → stock_weight k (stock_allocation place ts log_id a n id)
        ≡ (if a.reservation_id == k then n else 0)
  unfolding stock_weight holds_stock is_active stock_allocation
  converted_weight a n id k = ground arith

  convert_row-Converts :
      (a : Incoming) (l : List Incoming) (used : ℕ) (s : Db)
      → Tables s
      → Open (a ∷ l) s
      → used ≤ a.quantity
      → Converts s (convert_row place ts log_id a used s)
        × Open l (convert_row place ts log_id a used s)
  unfolding convert_row held stock_allocation
  convert_row-Converts a l used s h opens le =
      let new = stock_allocation place ts log_id a used s.next_allocation in
      let settled =
        settle-Ready kind live_weight IsLive IsLive-IsKind a l used (s.next_incoming, s.incoming)
          opens le in
      (
        (
          (
            (
              IsKeyed-snoc allocation_key s.allocations new h.0.0 (
                  find-above allocation_key s.next_allocation s.next_allocation s.allocations h.0.1
                    (omega arith)),
              Below-snoc allocation_key (s.next_allocation + 1) s.allocations new
                  (Below-mono allocation_key s.next_allocation (s.next_allocation + 1) s.allocations
                    (omega arith) h.0.1)
                  (omega arith),
            ),
            settled.0.0,
            h.2,
          ),
          λ k. omega (
            arith,
            sum_by-snoc (stock_weight k) s.allocations new,
            converted_weight a used s.next_allocation k,
            incoming_less a l used s k opens le,
          ),
          refl,
          refl,
        ),
        settled.0,
      )

  pub convert_rows-Converts :
      (l : List Incoming) (n : ℕ) (s : Db)
      → Tables s
      → Open l s
      → Converts s (convert_rows place ts log_id l n s).1
  unfolding convert_rows
  convert_rows-Converts [] n s h opens = (h, λ k. refl, refl, refl)
  convert_rows-Converts (a ∷ l) n s h opens = elim (Bool-cases (n == 0)) [
    | inl e ↦ rw e (convert_rows-Converts l n s h (opens.0, opens.1.1, opens.2.1, opens.3.1))
    | inr e ↦
        let used = min a.quantity n in
        let step = convert_row-Converts a l used s h opens (omega arith) in
        let rest =
          convert_rows-Converts l (n - used) (convert_row place ts log_id a used s) step.0.0
            step.1 in
        rw e (rest.0, λ k. rest.1 k ∙ step.0.1 k, rest.2 ∙ step.0.2, rest.3 ∙ step.0.3)
  ]
