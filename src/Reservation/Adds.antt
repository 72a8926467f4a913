-- ===== src/Reservation/Adds.antt =====
-- The two loops of `create_reservation` that insert allocations, and the selections before them.
use materials_management_sha.Prelude.{
  ℕ, ◌+◌, ◌-◌, ◌≤◌, ◌≡◌, ◌≢◌, refl, ◌∙◌, min, List, [], ◌∷◌, ◌++◌, arith, ◌==◌, sum_by, sum_by-snoc,
  Bool-cases, inl, inr,
}
use materials_management_sha.Database.{Db}
use materials_management_sha.Database.Table.Laws.{find-above, Below-mono, Below-snoc, IsKeyed-snoc}
use materials_management_sha.Drain.Laws.{IsTable}
use materials_management_sha.Reservation.{is_active, holds_stock, holds_incoming}
use materials_management_sha.Reservation.Holdings.{
  held, stock_weight, incoming_weight, allocation_key, incoming_key, Tables,
}
use materials_management_sha.Reservation.Create.{
  NewReservation, insert_allocation, allocate_stock, insert_incoming, allocate_incoming,
  selected_quantity, new_allocation, new_incoming,
}
use materials_management_sha.Supply.{Available, Selected}

-- `n` more units are held for `rid`, and nothing else has changed.
abbrev pub Adds : ℕ → ℕ → Db → Db → Type 0
Adds rid n s s' =
    Tables s'
    × (held rid s' ≡ held rid s + n)
    × ((k : ℕ) → k ≢ rid → held k s' ≡ held k s)
    × (s'.reservations ≡ s.reservations)
    × (s'.next_reservation ≡ s.next_reservation)
    × (s'.stock ≡ s.stock)

pub Adds-trans : (rid n m : ℕ) (s t u : Db) → Adds rid n s t → Adds rid m t u → Adds rid (n + m) s u
Adds-trans rid n m s t u h k =
    (k.0, omega (arith, h.1, k.1), λ j ne. k.2 j ne ∙ h.2 j ne, k.3 ∙ h.3, k.4 ∙ h.4, k.5 ∙ h.5)

-- A row with the next key of its table.
snoc-IsTable :
    {Row : Type 0} (key : Row → ℕ) (next : ℕ) (rows : List Row) (r : Row)
    → IsTable key (next, rows)
    → key r ≡ next
    → IsTable key (next + 1, rows ++ r ∷ [])
snoc-IsTable key next rows r h e = (
  IsKeyed-snoc key rows r h.0 (find-above key next (key r) rows h.1 (omega (arith, e))),
  Below-snoc key (next + 1) rows r (Below-mono key next (next + 1) rows (omega arith) h.1)
      (omega (arith, e)),
)

module _ (payload : NewReservation) (rid : ℕ) where
  insert_allocation-Adds :
      (a : Available) (n : ℕ) (s : Db)
      → Tables s
      → Adds rid n s (insert_allocation payload rid a n s)
  unfolding insert_allocation new_allocation held stock_weight holds_stock is_active
  insert_allocation-Adds a n s h = (
    (
      snoc-IsTable allocation_key s.next_allocation s.allocations (new_allocation payload rid a n s)
          h.0 refl,
      h.1,
      h.2,
    ),
    ground (arith, sum_by-snoc (stock_weight rid) s.allocations (new_allocation payload rid a n s)),
    λ k ne.
        ground
          (arith, sum_by-snoc (stock_weight k) s.allocations (new_allocation payload rid a n s)),
    refl,
    refl,
    refl,
  )

  pub allocate_stock-Adds :
      (l : List Available) (n : ℕ) (s : Db)
      → Tables s
      → n ≤ sum_by (λ a. a.quantity) l
      → Adds rid n s (allocate_stock payload rid l n s)
  unfolding allocate_stock sum_by
  allocate_stock-Adds [] n s h le = (h, omega (arith, le), λ k ne. refl, refl, refl, refl)
  allocate_stock-Adds (a ∷ l) n s h le = elim (Bool-cases (n == 0)) [
    | inl e ↦ rw e (h, ground arith, λ k ne. refl, refl, refl, refl)
    | inr e ↦
        let used = min a.quantity n in
        let step = insert_allocation-Adds a used s h in
        let rest =
          allocate_stock-Adds l (n - used) (insert_allocation payload rid a used s) step.0
            (omega (arith, le)) in
        rw e (
          let all = Adds-trans rid used (n - used) s _ _ step rest in
          (all.0, omega (arith, all.1), all.2, all.3, all.4, all.5))
  ]

  insert_incoming-Adds :
      (x : Selected) (s : Db) → Tables s → Adds rid x.quantity s (insert_incoming payload rid x s)
  unfolding insert_incoming new_incoming held incoming_weight holds_incoming is_active
  insert_incoming-Adds x s h = (
    (
      h.0,
      snoc-IsTable incoming_key s.next_incoming s.incoming (new_incoming payload rid x s) h.1 refl,
      h.2,
    ),
    ground (arith, sum_by-snoc (incoming_weight rid) s.incoming (new_incoming payload rid x s)),
    λ k ne.
        ground (arith, sum_by-snoc (incoming_weight k) s.incoming (new_incoming payload rid x s)),
    refl,
    refl,
    refl,
  )

  pub allocate_incoming-Adds :
      (l : List Selected) (s : Db)
      → Tables s
      → Adds rid (selected_quantity l) s (allocate_incoming payload rid l s)
  unfolding allocate_incoming selected_quantity sum_by
  allocate_incoming-Adds [] s h = (h, omega arith, λ k ne. refl, refl, refl, refl)
  allocate_incoming-Adds (x ∷ l) s h =
      let step = insert_incoming-Adds x s h in
      Adds-trans rid x.quantity (selected_quantity l) s _ _ step
        (allocate_incoming-Adds l (insert_incoming payload rid x s) step.0)
