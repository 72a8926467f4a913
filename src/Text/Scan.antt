-- ===== src/Text/Scan.antt =====
-- The parts of Python's regular expressions, and of SQL's LIKE, that backend/app/service.py uses:
-- literals, `\d+` on the digits 0 to 9, and searching.
use materials_management_sha.Prelude.{
  ℕ, ◌+◌, ◌-◌, ◌*◌, Bool, true, false, ◌&&◌, ◌||◌, leb, Option, none, some, [], ◌∷◌, if◌then◌else◌,
  ◌==◌,
}
use materials_management_sha.Text.{Text}

abbrev pub is_digit : ℕ → Bool
is_digit c = leb 48 c && leb c 57

abbrev pub then_match : {A B : Type 0} → Option A → (A → Option B) → Option B
then_match none f = none
then_match (some t) f = f t

-- What follows a literal, if the text begins with it.
unfoldable pub after_literal : Text → Text → Option Text
after_literal [] s = some s
after_literal (c ∷ p) [] = none
after_literal (c ∷ p) (d ∷ s) = let rest = after_literal p s in if c == d then rest else none

-- The same for a piece of a LIKE pattern, in which `_` stands for any character.
unfoldable pub after_like : Text → Text → Option Text
after_like [] s = some s
after_like (c ∷ p) [] = none
after_like (c ∷ p) (d ∷ s) = let rest = after_like p s in if c == d || c == 95 then rest else none

-- SQL's `LIKE '%' || p || '%'`.
unfoldable pub is_like : Text → Text → Bool
is_like p [] = elim (after_like p []) [ none ↦ false | some t ↦ true ]
is_like p (c ∷ s) =
    let rest = is_like p s in elim (after_like p (c ∷ s)) [ none ↦ rest | some t ↦ true ]

-- The digits at the beginning, read as a number after the digits that were read before, and the rest.
unfoldable pub read_digits : ℕ → Text → ℕ × Text
read_digits n [] = (n, [])
read_digits n (c ∷ s) =
    let more = read_digits (n * 10 + (c - 48)) s in if is_digit c then more else (n, c ∷ s)

-- `(\d+)`: the number and the rest.
unfoldable pub read_number : Text → Option (ℕ × Text)
read_number [] = none
read_number (c ∷ s) = if is_digit c then some (read_digits 0 (c ∷ s)) else none

-- `\d+`: the digits and the rest.
unfoldable pub take_digits : Text → Text × Text
take_digits [] = ([], [])
take_digits (c ∷ s) =
    let (digits, rest) = take_digits s in if is_digit c then (c ∷ digits, rest) else ([], c ∷ s)
