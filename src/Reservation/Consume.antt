-- ===== src/Reservation/Consume.antt =====
-- The loop of `consume_reservation`: each step takes the stock of a row and settles the row.
use materials_management_sha.Prelude.{
  ℕ, ◌+◌, ◌-◌, ◌≡◌, ◌≢◌, refl, ◌∙◌, min, true, false, not, Option, some, List, [], ◌∷◌, arith, ◌==◌,
  Bool-cases, inl, inr, if◌then◌else◌, ℤ, pos_part, neg_part, neg_ℕ, sum_by, ◌&&◌,
}
use materials_management_sha.Text.{Text}
use materials_management_sha.Database.{Db, Allocation, StockRow, consumed, Result, ok, err}
use materials_management_sha.Database.Triples.{
  After, After-continue, After-raise_if, After-map, After-both, After-lift,
}
use materials_management_sha.Stock.{
  apply_inventory_delta, put_stock, apply_delta, require_non_empty, is_positive, has_item,
}
use materials_management_sha.Stock.Total.{on_hand, Totals, apply_inventory_delta-Totals}
use materials_management_sha.Drain.{Kind, settle}
use materials_management_sha.Drain.Laws.{IsTable, Ready, settle-Ready, IsKind}
use materials_management_sha.Drain.Others.{settle-other}
use materials_management_sha.Reservation.{is_active, holds_stock, stock_kind, consume_rows}
use materials_management_sha.Reservation.Holdings.{
  stock_weight, allocation_key, stock_IsKind, stock_IsOther,
}

-- Only the stock changes.
abbrev pub Frame : Db → Db → Type 0
Frame s s' =
    (s'.allocations ≡ s.allocations)
    × (s'.next_allocation ≡ s.next_allocation)
    × (s'.incoming ≡ s.incoming)
    × (s'.next_incoming ≡ s.next_incoming)
    × (s'.reservations ≡ s.reservations)

put_stock-Frame :
    (s : Db) (x : Result (ℕ × List StockRow)) → After (λ _ s'. Frame s s') (put_stock x s)
unfolding put_stock
put_stock-Frame s (ok (q, rows)) = (refl, refl, refl, refl, refl)
put_stock-Frame s (err e) = tt

pub delta-Frame :
    (i : ℕ) (l : Option Text) (d : ℤ) (s : Db)
    → After (λ _ s'. Frame s s') (apply_inventory_delta i l d s)
unfolding apply_inventory_delta
delta-Frame i l d s =
    After-lift (λ _ s'. Frame s s') (require_non_empty l) _ s
      λ n _.
        After-raise_if (λ _ s'. Frame s s') (is_positive d && not (has_item i s.items)) _ _ s
          λ _. put_stock-Frame s (apply_delta i n d s.stock)

neg_ℕ_parts : (n : ℕ) → (pos_part (neg_ℕ n) ≡ 0) × (neg_part (neg_ℕ n) ≡ n)
neg_ℕ_parts n = ground arith

module _ (item rid ts : ℕ) (note : Option Text) (log_id : ℕ)
    (ended : is_active consumed ≡ false) where
  abbrev kind : Kind Allocation
  kind = stock_kind consumed ts note log_id

  abbrev Holds : Allocation → Type 0
  Holds a = holds_stock rid a ≡ true

  abbrev is_kind : IsKind kind (stock_weight rid) Holds
  is_kind = stock_IsKind rid consumed ended ts note log_id

  -- What the loop over `l` does to take `n`: `rest` is left to take.
  abbrev pub Consumed : List Allocation → ℕ → Db → ℕ → Db → Type 0
  Consumed l n s rest s' =
      IsTable allocation_key (s'.next_allocation, s'.allocations)
      × (rest ≡ n - sum_by (λ a. a.quantity) l)
      × (sum_by (stock_weight rid) s'.allocations + n
          ≡ sum_by (stock_weight rid) s.allocations + rest)
      × ((k : ℕ)
          → k ≢ rid
          → sum_by (stock_weight k) s'.allocations ≡ sum_by (stock_weight k) s.allocations)
      × (s'.incoming ≡ s.incoming)
      × (s'.next_incoming ≡ s.next_incoming)
      × (s'.reservations ≡ s.reservations)
      × ((j : ℕ)
          → on_hand j s'.stock + (if item == j then n else 0)
            ≡ on_hand j s.stock + (if item == j then rest else 0))

  -- The database after the two statements for a row.
  after_step : Allocation → ℕ → Db → Db
  after_step a n t =
      let (next, rows) = settle kind a (min a.quantity n) (t.next_allocation, t.allocations) in
      record t { allocations = rows; next_allocation = next }

  step-Ready :
      (a : Allocation) (l : List Allocation) (n : ℕ) (s t : Db)
      → Ready kind (stock_weight rid) Holds is_kind (a ∷ l) (s.next_allocation, s.allocations)
      → Frame s t
      → Ready kind
          (stock_weight rid)
          Holds
          is_kind
          l
          ((after_step a n t).next_allocation, (after_step a n t).allocations)
        × (sum_by (stock_weight rid) (after_step a n t).allocations + min a.quantity n
            ≡ sum_by (stock_weight rid) s.allocations)
        × ((k : ℕ)
            → k ≢ rid
            → sum_by (stock_weight k) (after_step a n t).allocations
              ≡ sum_by (stock_weight k) s.allocations)
  unfolding after_step
  step-Ready a l n s t h frame =
      let used = min a.quantity n in
      let same =
        settle-Ready kind (stock_weight rid) Holds is_kind a l used
          (s.next_allocation, s.allocations) h (omega arith) in
      rw (frame.0, frame.1)
        (
          same.0,
          same.1,
          λ k ne.
              settle-other kind (stock_weight rid) Holds is_kind (stock_weight k)
                (stock_IsOther rid consumed ended ts note log_id k ne) a l used
                (s.next_allocation, s.allocations) h,
        )

  step :
      (a : Allocation) (l : List Allocation) (n : ℕ) (s t : Db)
      → Ready kind (stock_weight rid) Holds is_kind (a ∷ l) (s.next_allocation, s.allocations)
      → Frame s t × Totals item (neg_ℕ (min a.quantity n)) s.stock t.stock
      → (x : Result (ℕ × Db)) → After (Consumed l (n - min a.quantity n) (after_step a n t)) x
      → After (Consumed (a ∷ l) n s) x
  unfolding after_step sum_by
  step a l n s t h out x done =
      let used = min a.quantity n in
      let now = step-Ready a l n s t h out.0 in
      let parts = neg_ℕ_parts used in
      After-map (Consumed l (n - used) (after_step a n t)) (Consumed (a ∷ l) n s) x done
        λ rest s' c. (
          c.0,
          omega (arith, c.1),
          omega (arith, c.2, now.1),
          λ k ne. c.3 k ne ∙ now.2 k ne,
          c.4 ∙ out.0.2,
          c.5 ∙ out.0.3,
          c.6 ∙ out.0.4,
          λ j. ground (arith, c.7 j, out.1 j, parts.0, parts.1),
        )

  pub consume_rows-Consumed :
      (l : List Allocation) (n : ℕ) (s : Db)
      → Ready kind (stock_weight rid) Holds is_kind l (s.next_allocation, s.allocations)
      → After (Consumed l n s) (consume_rows item kind l n s)
  unfolding consume_rows sum_by after_step
  consume_rows-Consumed [] n s h =
      (h.0, omega arith, refl, λ k ne. refl, refl, refl, refl, λ j. refl)
  consume_rows-Consumed (a ∷ l) n s h = elim (Bool-cases (n == 0)) [
    | inl e ↦ rw e (h.0, ground arith, refl, λ k ne. refl, refl, refl, refl, λ j. refl)
    | inr e ↦
        let used = min a.quantity n in
        rw e (
          After-continue (λ _ t. Frame s t × Totals item (neg_ℕ used) s.stock t.stock)
            (Consumed (a ∷ l) n s) _ _
            (After-both (λ _ t. Frame s t) (λ _ t. Totals item (neg_ℕ used) s.stock t.stock) _
              (delta-Frame item (some a.location) (neg_ℕ used) s)
              (apply_inventory_delta-Totals item (some a.location) (neg_ℕ used) s))
            λ _ t out. step a l n s t h out _ (
              consume_rows-Consumed l (n - used) (after_step a n t)
                (step-Ready a l n s t h out.0).0))
  ]
