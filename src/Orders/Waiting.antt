-- ===== src/Orders/Waiting.antt =====
-- What reservations await of an order, and what an arrival of backend/app/service.py makes stock of.
use materials_management_sha.Prelude.{
  ℕ, ◌+◌, ◌-◌, ◌≡◌, refl, min, ◌&&◌, List, [], ◌∷◌, arith, ◌==◌, if◌then◌else◌, sum_by, sum_by-snoc,
  keep, Bool-cases, inl, inr,
}
use materials_management_sha.Text.{Text, text_eq, text_eq_iff}
use materials_management_sha.Database.{Db, Incoming, Allocation}
use materials_management_sha.Reservation.{is_active}
use materials_management_sha.Supply.{awaited}
use materials_management_sha.Orders.Arrival.{
  awaits, insert_by_age, by_age, stock_allocation, convert_row, convert_rows,
}

-- What active allocations hold at a location.
abbrev lands_at : Text → Allocation → ℕ
lands_at place a = if is_active a.status && text_eq a.location place then a.quantity else 0

abbrev pub held_at : Text → Db → ℕ
held_at place s = sum_by (lands_at place) s.allocations

-- The rows that wait for an order add up to what is reserved of it.
unfoldable pub waiting : List Incoming → ℕ
waiting l = sum_by (λ a. a.quantity) l

waiting-insert :
    (a : Incoming) (l : List Incoming) → waiting (insert_by_age a l) ≡ a.quantity + waiting l
unfolding waiting insert_by_age sum_by
waiting-insert a [] = refl
waiting-insert a (b ∷ l) = ground (arith, waiting-insert a l)

pub waiting-by_age : (l : List Incoming) → waiting (by_age l) ≡ waiting l
unfolding waiting by_age sum_by
waiting-by_age [] = refl
waiting-by_age (a ∷ l) = omega (arith, waiting-insert a (by_age l), waiting-by_age l)

pub waiting-keep :
    (id : ℕ) (l : List Incoming) → waiting (keep (awaits id) l) ≡ sum_by (awaited id) l
unfolding waiting keep sum_by awaits awaited
waiting-keep id [] = refl
waiting-keep id (a ∷ l) = ground (arith, waiting-keep id l)

-- The conversions put as much on hold at the location as arrived, or as waited where that is less.
module _ (place : Text) (ts log_id : ℕ) where
  convert_row-lands :
      (a : Incoming) (used : ℕ) (s : Db)
      → held_at place (convert_row place ts log_id a used s) ≡ held_at place s + used
  unfolding convert_row stock_allocation is_active
  convert_row-lands a used s = ground (
    arith,
    sum_by-snoc (lands_at place) s.allocations
        (stock_allocation place ts log_id a used s.next_allocation),
    text_eq_iff place place,
  )

  pub convert_rows-lands :
      (l : List Incoming) (n : ℕ) (s : Db)
      → held_at place (convert_rows place ts log_id l n s).1 ≡ held_at place s + min n (waiting l)
  unfolding convert_rows waiting sum_by
  convert_rows-lands [] n s = omega arith
  convert_rows-lands (a ∷ l) n s =
      let used = min a.quantity n in
      elim (Bool-cases (n == 0)) [
        | inl e ↦ rw e (ground (arith, convert_rows-lands l n s))
        | inr e ↦ rw e (
            omega (
              arith,
              convert_rows-lands l (n - used) (convert_row place ts log_id a used s),
              convert_row-lands a used s,
            ))
      ]

  pub convert_rows-orders :
      (l : List Incoming) (n : ℕ) (s : Db)
      → ((convert_rows place ts log_id l n s).1.orders ≡ s.orders)
        × ((convert_rows place ts log_id l n s).1.stock ≡ s.stock)
  unfolding convert_rows convert_row
  convert_rows-orders [] n s = (refl, refl)
  convert_rows-orders (a ∷ l) n s = elim (Bool-cases (n == 0)) [
    | inl e ↦ rw e (convert_rows-orders l n s)
    | inr e ↦ rw e (
        convert_rows-orders l (n - min a.quantity n)
          (convert_row place ts log_id a (min a.quantity n) s))
  ]
