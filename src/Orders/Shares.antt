-- ===== src/Orders/Shares.antt =====
-- The shares of a split, as `process_order_arrival` and `update_order` compute them.
use native.Mathlib.Omega.{div_any}
use materials_management_sha.Prelude.{
  ℕ, ◌+◌, ◌*◌, ◌<◌, ◌≡◌, arith, ◌/◌, ◌%◌, ◌-◌, not, ◌==◌, ◌||◌, refl,
}
use materials_management_sha.Database.{Db}
use materials_management_sha.Database.Triples.{After, After-raise_if}
use materials_management_sha.Orders.{split_ordered}

-- The share `x` of `original` is to it as `part` to `amount`, and `y` is the rest.
abbrev pub Shares : ℕ → ℕ → ℕ → ℕ × ℕ → Type 0
Shares original part amount (x, y) =
    (x * amount ≡ original * part) × (x + y ≡ original) × (0 < x) × (0 < y)

exact : (n m : ℕ) → 0 < m → n % m ≡ 0 → n / m * m ≡ n
exact n m p h = omega (arith, div_any n m)

-- A split of an order with a positive amount, if it returns, gives the part its exact share of the ordered quantity, in the proportion of
-- the amounts, and the rest to what remains; both shares are positive and neither is rounded.
pub split_ordered-Shares :
    (original part amount : ℕ) (s : Db)
    → 0 < amount
    → After
        (λ r s'. Shares original part amount r × (s' ≡ s))
        (split_ordered original part amount s)
unfolding split_ordered
split_ordered-Shares original part amount s positive =
    let Q : ℕ × ℕ → Db → Type 0 = λ r s'. Shares original part amount r × (s' ≡ s) in
    After-raise_if Q (not (original * part % amount == 0)) _ _ s λ divides.
      After-raise_if Q
        (original * part / amount == 0
          || original - original * part / amount == 0
          || amount - part == 0)
        _ _ s
        λ full. (
          (
            exact (original * part) amount positive (ground arith),
            ground arith,
            ground arith,
            ground arith,
          ),
          refl,
        )
