-- ===== src/Integrity/Passes.antt =====
-- When the checks of reservations in backend/app/service.py count nothing.
use materials_management_sha.Prelude.{
  ℕ, ◌<◌, ◌≡◌, refl, Bool, true, false, List, [], ◌∷◌, keep, length, any_of, arith, sum_by,
  Bool-cases, inl, inr, ◌⊎◌, ◌↔◌,
}
use materials_management_sha.Database.{
  Db, Reservation, Allocation, Incoming, Status, active, released, consumed,
}
use materials_management_sha.Drain.Laws.{All}
use materials_management_sha.Reservation.{is_active, holds_stock, holds_incoming}
use materials_management_sha.Reservation.Holdings.{held, stock_weight, incoming_weight}
use materials_management_sha.Integrity.{
  is_mismatch, quantity_mismatches, is_terminal, is_leak, active_leaks,
}

none_kept :
    {A : Type 0} (p : A → Bool) (l : List A) → All (λ a. p a ≡ false) l → length (keep p l) ≡ 0
unfolding keep
none_kept p [] h = refl
none_kept p (a ∷ l) h = rw h.0 (none_kept p l h.1)

counted :
    {A : Type 0} (p : A → Bool) (a : A) (l : List A) → p a ≡ true → length (keep p (a ∷ l)) ≡ 0 → ⊥
unfolding keep
counted p a l e h = ground (arith, e, h)

uncounted :
    {A : Type 0} (p : A → Bool) (a : A) (l : List A)
    → p a ≡ false
    → length (keep p (a ∷ l)) ≡ 0
    → length (keep p l) ≡ 0
unfolding keep
uncounted p a l e h = ground (arith, e, h)

kept_none :
    {A : Type 0} (p : A → Bool) (l : List A) → length (keep p l) ≡ 0 → All (λ a. p a ≡ false) l
unfolding keep
kept_none p [] h = tt
kept_none p (a ∷ l) h = elim (Bool-cases (p a)) [
  | inl e ↦ absurd (counted p a l e h)
  | inr e ↦ (e, kept_none p l (uncounted p a l e h))
]

All-map : {A : Type 0} (P Q : A → Type 0) → ((a : A) → P a → Q a) → (l : List A) → All P l → All Q l
All-map P Q f [] h = tt
All-map P Q f (a ∷ l) h = (f a h.0, All-map P Q f l h.1)

-- The CHECK of both allocation tables.
abbrev pub IsPositive : Db → Type 0
IsPositive s = All (λ a. 0 < a.quantity) s.allocations × All (λ a. 0 < a.quantity) s.incoming

no_stock :
    (k : ℕ) (l : List Allocation)
    → All (λ a. 0 < a.quantity) l
    → sum_by (stock_weight k) l ≡ 0
    → any_of (holds_stock k) l ≡ false
unfolding sum_by any_of stock_weight
no_stock k [] p h = refl
no_stock k (a ∷ l) p h = ground (arith, p.0, h, no_stock k l p.1)

no_incoming :
    (k : ℕ) (l : List Incoming)
    → All (λ a. 0 < a.quantity) l
    → sum_by (incoming_weight k) l ≡ 0
    → any_of (holds_incoming k) l ≡ false
unfolding sum_by any_of incoming_weight
no_incoming k [] p h = refl
no_incoming k (a ∷ l) p h = ground (arith, p.0, h, no_incoming k l p.1)

any_stock :
    (k : ℕ) (l : List Allocation) → any_of (holds_stock k) l ≡ false → sum_by (stock_weight k) l ≡ 0
unfolding sum_by any_of stock_weight
any_stock k [] h = refl
any_stock k (a ∷ l) h = ground (arith, h, any_stock k l)

any_incoming :
    (k : ℕ) (l : List Incoming)
    → any_of (holds_incoming k) l ≡ false
    → sum_by (incoming_weight k) l ≡ 0
unfolding sum_by any_of incoming_weight
any_incoming k [] h = refl
any_incoming k (a ∷ l) h = ground (arith, h, any_incoming k l)

-- What an active reservation should hold, and what a released or consumed one should.
abbrev pub IsMet : Db → Reservation → Type 0
IsMet s r = r.status ≡ active → held r.reservation_id s ≡ r.quantity

abbrev pub IsClear : Db → Reservation → Type 0
IsClear s r = (r.status ≡ released) ⊎ (r.status ≡ consumed) → held r.reservation_id s ≡ 0

module _ (s : Db) where
  IsMet-mismatch : (r : Reservation) → IsMet s r → is_mismatch s r ≡ false
  unfolding is_mismatch is_active
  IsMet-mismatch r h = ground (arith, h)

  mismatch-IsMet : (r : Reservation) → is_mismatch s r ≡ false → IsMet s r
  unfolding is_mismatch is_active
  mismatch-IsMet r h e = ground (arith, h, e)

  terminal_is : (x : Status) → is_terminal x ≡ true → (x ≡ released) ⊎ (x ≡ consumed)
  unfolding is_terminal
  terminal_is x h = ground (arith, h)

  is_ended : (x : Status) → (x ≡ released) ⊎ (x ≡ consumed) → is_terminal x ≡ true
  unfolding is_terminal
  is_ended x h = ground (arith, h)

  IsClear-leak : IsPositive s → (r : Reservation) → IsClear s r → is_leak s r ≡ false
  unfolding is_leak held
  IsClear-leak p r h = elim (Bool-cases (is_terminal r.status)) [
    | inl t ↦
        let none_held = h (terminal_is r.status t) in
        rw
          (
            t,
            no_stock r.reservation_id s.allocations p.0 (omega (arith, none_held)),
            no_incoming r.reservation_id s.incoming p.1 (omega (arith, none_held)),
          )
          refl
    | inr t ↦ rw t refl
  ]

  no_leak-IsClear : (r : Reservation) → is_leak s r ≡ false → IsClear s r
  unfolding is_leak held
  no_leak-IsClear r h e = ground (
    arith,
    h,
    is_ended r.status e,
    any_stock r.reservation_id s.allocations,
    any_incoming r.reservation_id s.incoming,
  )

-- The summary counts no mismatch exactly where the active allocations of every active reservation,
-- of stock and of orders, add up to its quantity. Where all allocations are positive, it counts no
-- leak exactly where those of every released or consumed reservation add up to nothing.
pub quantity_mismatches-active_leaks :
    (s : Db)
    → IsPositive s
    → (quantity_mismatches s ≡ 0 ↔ All (IsMet s) s.reservations)
      × (active_leaks s ≡ 0 ↔ All (IsClear s) s.reservations)
unfolding quantity_mismatches active_leaks
quantity_mismatches-active_leaks s p =
    let mismatch = is_mismatch s in
    let leak = is_leak s in
    let rows = s.reservations in
    (
      (
        λ h.
            All-map (λ r. mismatch r ≡ false) (IsMet s) (mismatch-IsMet s) rows
              (kept_none mismatch rows h),
        λ h.
            none_kept mismatch rows
              (All-map (IsMet s) (λ r. mismatch r ≡ false) (IsMet-mismatch s) rows h),
      ),
      (
        λ h.
            All-map (λ r. leak r ≡ false) (IsClear s) (no_leak-IsClear s) rows
              (kept_none leak rows h),
        λ h.
            none_kept leak rows
              (All-map (IsClear s) (λ r. leak r ≡ false) (IsClear-leak s p) rows h),
      ),
    )
