-- ===== src/Text.antt =====
-- Python text, as a list of code points, with the string methods that backend/app/utils.py and
-- the note helpers of backend/app/service.py call.
pub mod Strip
pub mod Affix
pub mod Scan
pub mod Decimal
use Prim.Native.Char.{code}
use Prim.Native.String.{String}
use materials_management_sha.Prelude.{
  ℕ, ◌+◌, ◌-◌, ◌/◌, ◌%◌, suc, zero, Bool, true, false, ◌&&◌, ◌||◌, not, List, [], ◌∷◌, ◌++◌, ◌==◌,
  leb, ltb, Option, none, some, if◌then◌else◌, length, ◌≡◌, refl, ◌↔◌, arith,
}

abbrev pub Text : Type 0
Text = List ℕ

-- A text literal.
abbrev pub codes : String → Text
codes String.[] = []
codes (String.◌∷◌ c s) = code c ∷ codes s

unfoldable pub text_eq : Text → Text → Bool
text_eq [] [] = true
text_eq [] (d ∷ t) = false
text_eq (c ∷ s) [] = false
text_eq (c ∷ s) (d ∷ t) = c == d && text_eq s t

unfoldable pub is_empty : Text → Bool
is_empty [] = true
is_empty (c ∷ s) = false

-- `str.isspace` of one character.
unfoldable pub is_space : ℕ → Bool
is_space c =
    (leb 9 c && leb c 13)
    || (leb 28 c && leb c 32)
    || c == 133
    || c == 160
    || c == 5760
    || (leb 8192 c && leb c 8202)
    || c == 8232
    || c == 8233
    || c == 8239
    || c == 8287
    || c == 12288

unfoldable pub lstrip : Text → Text
lstrip [] = []
lstrip (c ∷ s) = let rest = lstrip s in if is_space c then rest else c ∷ s

unfoldable pub rstrip : Text → Text
unfolding is_empty
rstrip [] = []
rstrip (c ∷ s) = let rest = rstrip s in if is_space c && is_empty rest then [] else c ∷ rest

unfoldable pub strip : Text → Text
strip s = lstrip (rstrip s)

with_head : ℕ → Option Text → Option Text
with_head c none = none
with_head c (some t) = some (c ∷ t)

-- The text before a suffix, if it ends with that suffix.
unfoldable pub without_suffix : Text → Text → Option Text
unfolding text_eq with_head
without_suffix suffix [] = if text_eq [] suffix then some [] else none
without_suffix suffix (c ∷ s) =
    let rest = with_head c (without_suffix suffix s) in
    if text_eq (c ∷ s) suffix then some [] else rest

-- SQL's `LIKE '%' || suffix`.
unfoldable pub ends_with : Text → Text → Bool
ends_with suffix s = elim (without_suffix suffix s) [ none ↦ false | some t ↦ true ]

digits_fuel : ℕ → ℕ → Text → Text
digits_fuel zero n rest = rest
digits_fuel (suc f) n rest =
    let more = digits_fuel f (n / 10) ((48 + n % 10) ∷ rest) in
    if ltb n 10 then (48 + n) ∷ rest else more

-- `str(n)`.
unfoldable pub decimal : ℕ → Text
unfolding digits_fuel
decimal n = digits_fuel (n + 1) n []

eq_iff : (s t : Text) → (text_eq s t ≡ true) ↔ (s ≡ t)
unfolding text_eq
eq_iff [] [] = ground arith
eq_iff [] (d ∷ t) = ground arith
eq_iff (c ∷ s) [] = ground arith
eq_iff (c ∷ s) (d ∷ t) = ground (arith, eq_iff s t)

pub text_eq_iff : (s t : Text) → (text_eq s t ≡ true) ↔ (s ≡ t)
text_eq_iff s t = eq_iff s t

pub text_eq_refl : (s : Text) → text_eq s s ≡ true
text_eq_refl s = (eq_iff s s).1 refl
