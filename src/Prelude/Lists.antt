-- ===== src/Prelude/Lists.antt =====
-- Lists of records: sums of a measure, as Python's `sum(f(r) for r in rows)` takes them.
use Prim.Native.Nat.{ℕ, suc, ◌+◌}
use mathlib.Core.Path.{◌≡◌, refl}
use mathlib.Core.Bool.{Bool, true, false}
use mathlib.Core.List.{List, [], ◌∷◌, ◌++◌}
use native.Mathlib.Omega.{arith}
use materials_management_sha.Prelude.Tests.{if◌then◌else◌}

module _ {ℓ} {A : Type ℓ} where
  abbrev pub length : List A → ℕ
  length [] = 0
  length (x ∷ xs) = suc (length xs)

  pub length-append : (xs ys : List A) → length (xs ++ ys) ≡ length xs + length ys
  length-append [] ys = omega arith
  length-append (x ∷ xs) ys = omega (arith, length-append xs ys)

  -- The rows that pass a test, in their order.
  unfoldable pub keep : (A → Bool) → List A → List A
  keep p [] = []
  keep p (x ∷ xs) = let rest = keep p xs in if p x then x ∷ rest else rest

  unfoldable pub sum_by : (A → ℕ) → List A → ℕ
  sum_by w [] = 0
  sum_by w (x ∷ xs) = w x + sum_by w xs

  pub sum_by-append : (w : A → ℕ) (xs ys : List A) → sum_by w (xs ++ ys) ≡ sum_by w xs + sum_by w ys
  unfolding sum_by
  sum_by-append w [] ys = omega arith
  sum_by-append w (x ∷ xs) ys = omega (arith, sum_by-append w xs ys)

  pub sum_by-snoc : (w : A → ℕ) (xs : List A) (x : A) → sum_by w (xs ++ x ∷ []) ≡ sum_by w xs + w x
  unfolding sum_by
  sum_by-snoc w xs x = omega (arith, sum_by-append w xs (x ∷ []))

  -- The sum over the rows that pass a test is the sum of a measure that is 0 on the others.
  pub sum_by-keep :
      (w : A → ℕ) (p : A → Bool) (xs : List A)
      → sum_by w (keep p xs) ≡ sum_by (λ x. if p x then w x else 0) xs
  unfolding sum_by keep
  sum_by-keep w p [] = refl
  sum_by-keep w p (x ∷ xs) = ground (arith, sum_by-keep w p xs)

  unfoldable pub any_of : (A → Bool) → List A → Bool
  any_of p [] = false
  any_of p (x ∷ xs) = let rest = any_of p xs in if p x then true else rest
