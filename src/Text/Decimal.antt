-- ===== src/Text/Decimal.antt =====
-- Python's `str(n)`, and reading it back by `int` of a match of `\d+`.
use materials_management_sha.Prelude.{
  ℕ, zero, suc, ◌+◌, ◌*◌, ◌/◌, ◌%◌, ◌<◌, ◌≡◌, refl, ◌∙◌, ap, true, false, ltb, some, [], ◌∷◌, ◌++◌,
  arith, Bool-cases, inl, inr,
}
use materials_management_sha.Text.{Text, decimal, digits_fuel, is_space, is_empty, rstrip}
use materials_management_sha.Text.Scan.{is_digit, read_digits, read_number}

-- A text that begins with a digit.
abbrev Begins : Text → Type 0
Begins t = (c : ℕ) × ((s : Text) × ((t ≡ c ∷ s) × (is_digit c ≡ true)))

-- Every character is a digit.
abbrev Digits : Text → Type 0
Digits [] = Unit {0}
Digits (c ∷ s) = (is_digit c ≡ true) × Digits s

digit_code : (n : ℕ) → n < 10 → is_digit (48 + n) ≡ true
digit_code n h = ground (arith, h)

last_digit : (n : ℕ) → n % 10 < 10
last_digit n = omega arith

digits_fuel-Begins : (f n : ℕ) (rest : Text) → n < f → Begins (digits_fuel f n rest)
unfolding digits_fuel
digits_fuel-Begins zero n rest h = absurd (omega (arith, h))
digits_fuel-Begins (suc f) n rest h = elim (Bool-cases (ltb n 10)) [
  | inl small ↦ rw small (48 + n, (rest, (refl, digit_code n (ground (arith, small)))))
  | inr large ↦
      rw large (digits_fuel-Begins f (n / 10) ((48 + n % 10) ∷ rest) (ground (arith, h, large)))
]

digits_fuel-Digits : (f n : ℕ) (rest : Text) → n < f → Digits rest → Digits (digits_fuel f n rest)
unfolding digits_fuel
digits_fuel-Digits zero n rest h d = absurd (omega (arith, h))
digits_fuel-Digits (suc f) n rest h d = elim (Bool-cases (ltb n 10)) [
  | inl small ↦ rw small (digit_code n (ground (arith, small)), d)
  | inr large ↦ rw large (
      digits_fuel-Digits f (n / 10) ((48 + n % 10) ∷ rest) (ground (arith, h, large))
        (digit_code (n % 10) (last_digit n), d))
]

digits_fuel-append : (f n : ℕ) (s t : Text) → digits_fuel f n s ++ t ≡ digits_fuel f n (s ++ t)
unfolding digits_fuel
digits_fuel-append zero n s t = refl
digits_fuel-append (suc f) n s t = elim (Bool-cases (ltb n 10)) [
  | inl small ↦ rw small refl
  | inr large ↦ rw large (digits_fuel-append f (n / 10) ((48 + n % 10) ∷ s) t)
]

read_digit :
    (a n m : ℕ) (rest : Text)
    → n < 10
    → a * 10 + n ≡ m
    → read_digits a ((48 + n) ∷ rest) ≡ read_digits m rest
unfolding read_digits
read_digit a n m rest h e = rw (digit_code n h) (ap (λ k. read_digits k rest) (omega (arith, e)))

read_digits-digits_fuel :
    (f n : ℕ) (rest : Text) → n < f → read_digits 0 (digits_fuel f n rest) ≡ read_digits n rest
unfolding digits_fuel
read_digits-digits_fuel zero n rest h = absurd (omega (arith, h))
read_digits-digits_fuel (suc f) n rest h = elim (Bool-cases (ltb n 10)) [
  | inl small ↦ rw small (read_digit 0 n n rest (ground (arith, small)) (omega arith))
  | inr large ↦ rw large (
      read_digits-digits_fuel f (n / 10) ((48 + n % 10) ∷ rest) (ground (arith, h, large))
      ∙ read_digit (n / 10) (n % 10) n rest (last_digit n) (omega arith))
]

read_number-Begins : (t : Text) → Begins t → read_number t ≡ some (read_digits 0 t)
unfolding read_number
read_number-Begins t (c, (s, (t_is, digit))) = rw t_is (rw digit refl)

-- What does not go on with a digit.
abbrev pub Stops : Text → Type 0
Stops rest = (n : ℕ) → read_digits n rest ≡ (n, rest)

pub decimal-Begins : (n : ℕ) → Begins (decimal n)
unfolding decimal
decimal-Begins n = digits_fuel-Begins (n + 1) n [] (omega arith)

-- A number that was written is read back, with what follows it.
pub read_number-decimal :
    (n : ℕ) (rest : Text) → Stops rest → read_number (decimal n ++ rest) ≡ some (n, rest)
unfolding decimal
read_number-decimal n rest h = rw (digits_fuel-append (n + 1) n [] rest) (
    read_number-Begins (digits_fuel (n + 1) n rest)
      (digits_fuel-Begins (n + 1) n rest (omega arith))
    ∙ ap some (read_digits-digits_fuel (n + 1) n rest (omega arith) ∙ h n))

digit_not_space : (c : ℕ) → is_digit c ≡ true → is_space c ≡ false
unfolding is_space
digit_not_space c h = ground (arith, h)

rstrip-Digits : (t : Text) → Digits t → rstrip t ≡ t
unfolding rstrip
rstrip-Digits [] h = refl
rstrip-Digits (c ∷ t) h = rw (digit_not_space c h.0, rstrip-Digits t h.1) refl

pub rstrip-decimal : (n : ℕ) → rstrip (decimal n) ≡ decimal n
unfolding decimal
rstrip-decimal n =
    rstrip-Digits (digits_fuel (n + 1) n []) (digits_fuel-Digits (n + 1) n [] (omega arith) tt)

full_head : (t : Text) → Begins t → is_empty t ≡ false
unfolding is_empty
full_head t (c, (s, (t_is, digit))) = rw t_is refl

pub decimal_full : (n : ℕ) → is_empty (decimal n) ≡ false
decimal_full n = full_head (decimal n) (decimal-Begins n)
