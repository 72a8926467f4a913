-- ===== src/Reservation/Draws.antt =====
-- What the two selections of `create_reservation` of backend/app/service.py draw on each order.
use materials_management_sha.Prelude.{
  ℕ, ◌-◌, ◌≤◌, ◌≡◌, refl, some, List, [], ◌∷◌, ◌==◌, if◌then◌else◌, sum_by, arith, Bool-cases, inl,
  inr, ◌||◌, Option-cases, true, any_of, Bool, false, ◌++◌, sum_by-append,
}
use materials_management_sha.Database.{Db, Order, Result, ok, err}
use materials_management_sha.Database.Triples.{After, After-reader, After-map, After-both}
use materials_management_sha.Database.Table.{find, IsKeyed}
use materials_management_sha.Orders.{order_key}
use materials_management_sha.Supply.{Selected, order_available, select_incoming_order_candidates}
use materials_management_sha.Supply.Lines.{drawn, fill-drawn, select_preferred-drawn}
use materials_management_sha.Reservation.Create.{
  NewReservation, preferred_incoming, excluded_orders, shortfall_incoming,
}

or_true : (b : Bool) → (b || true) ≡ true
or_true b = ground arith

single_false : (b : Bool) → (if b then true else false) ≡ false → b ≡ false
single_false b h = ground (arith, h)

-- Whether an order is the preferred one.
abbrev pub is_preferred : NewReservation → ℕ → Bool
is_preferred payload k = any_of (λ j. j == k) (excluded_orders payload.preferred_order_id)

module _ (payload : NewReservation) (k : ℕ) (s : Db) (o : Order) where
  abbrev DrawsFirst : List Selected → Db → Type 0
  DrawsFirst l s' =
      (s' ≡ s)
      × (sum_by (drawn k) l ≤ order_available o s)
      × (is_preferred payload k ≡ false → sum_by (drawn k) l ≡ 0)

  abbrev DrawsThen : List Selected → Db → Type 0
  DrawsThen l s' =
      (s' ≡ s)
      × (sum_by (drawn k) l ≤ order_available o s)
      × (is_preferred payload k ≡ true → sum_by (drawn k) l ≡ 0)

  pub preferred-drawn :
      (n : ℕ)
      → find order_key k s.orders ≡ some o
      → After DrawsFirst (preferred_incoming payload n s)
  unfolding preferred_incoming select_incoming_order_candidates sum_by excluded_orders any_of
  preferred-drawn n e = elim (Option-cases payload.preferred_order_id) [
    | inl none_given ↦ rw none_given (refl, omega arith, λ out. refl)
    | inr (p, given) ↦ rw given (
        After-reader (λ x. (drawn k x ≤ order_available o s) × ((p == k) ≡ false → drawn k x ≡ 0))
          (λ l s'.
            (s' ≡ s)
            × (sum_by (drawn k) l ≤ order_available o s)
            × (any_of (λ j. j == k) (p ∷ []) ≡ false → sum_by (drawn k) l ≡ 0))
          _ _ s
          (select_preferred-drawn k s payload.item_id n payload.project_id p payload.deadline o e)
          λ x h.
            rw (or_true (n - x.quantity == 0))
              (refl, omega (arith, h.0), λ out. ground (arith, h.1 (single_false (p == k) out))))
  ]

  pub shortfall-drawn :
      (n : ℕ)
      → IsKeyed order_key s.orders
      → find order_key k s.orders ≡ some o
      → After DrawsThen (shortfall_incoming payload n s)
  unfolding shortfall_incoming select_incoming_order_candidates sum_by
  shortfall-drawn n h e = elim (Bool-cases (n == 0)) [
    | inl z ↦ rw z (refl, omega arith, λ out. refl)
    | inr z ↦ rw z (
        fill-drawn k s payload.item_id n payload.project_id payload.deadline
          (excluded_orders payload.preferred_order_id) o h e)
  ]

-- An order that is looked up.
abbrev pub Lookup : Db → Type 0
Lookup s = (k : ℕ) × ((o : Order) × (find order_key k s.orders ≡ some o))

-- A selection draws on no order beyond what is available of it, and on none, or only on the preferred
-- one.
abbrev pub Draws : NewReservation → Db → Bool → List Selected → Type 0
Draws payload s b l =
    (x : Lookup s)
    → (sum_by (drawn x.0) l ≤ order_available x.1.0 s)
      × (is_preferred payload x.0 ≡ b → sum_by (drawn x.0) l ≡ 0)

After-all :
    {A I : Type 0}
    → (P : I → A → Db → Type 0) (x : Result (A × Db)) → ((i : I) → After (P i) x)
    → After (λ a s. (i : I) → P i a s) x
After-all P (ok (a, s)) h = h
After-all P (err e) h = tt

pub each-Draws :
    (payload : NewReservation) (s : Db) (b : Bool) (R : List Selected → Db → Type 0)
    (x : Result (List Selected × Db))
    → After (λ l s'. (s' ≡ s) × R l s') x
    → ((i : Lookup s)
        → After
            (λ l s'.
              (s' ≡ s)
              × (sum_by (drawn i.0) l ≤ order_available i.1.0 s)
              × (is_preferred payload i.0 ≡ b → sum_by (drawn i.0) l ≡ 0))
            x)
    → After (λ l s'. (s' ≡ s) × Draws payload s b l) x
each-Draws payload s b R x reads each =
    let P : Lookup s → List Selected → Db → Type 0 = λ i l s'.
      (s' ≡ s)
      × (sum_by (drawn i.0) l ≤ order_available i.1.0 s)
      × (is_preferred payload i.0 ≡ b → sum_by (drawn i.0) l ≡ 0) in
    After-map (λ l s'. ((s' ≡ s) × R l s') × ((i : Lookup s) → P i l s'))
      (λ l s'. (s' ≡ s) × Draws payload s b l) x
      (After-both (λ l s'. (s' ≡ s) × R l s') (λ l s'. (i : Lookup s) → P i l s') x reads
        (After-all P x each))
      λ l s' h. (h.0.0, λ i. ((h.1 i).1, (h.1 i).2))

pub both-Draws :
    (payload : NewReservation) (s : Db) (l m : List Selected)
    → Draws payload s false l
    → Draws payload s true m
    → (k : ℕ) (o : Order) → find order_key k s.orders ≡ some o
    → sum_by (drawn k) (l ++ m) ≤ order_available o s
both-Draws payload s l m h j k o e = elim (Bool-cases (is_preferred payload k)) [
  | inl own ↦ omega (arith, sum_by-append (drawn k) l m, (h (k, (o, e))).0, (j (k, (o, e))).1 own)
  | inr other ↦
      omega (arith, sum_by-append (drawn k) l m, (h (k, (o, e))).1 other, (j (k, (o, e))).0)
]
