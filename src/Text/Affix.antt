-- ===== src/Text/Affix.antt =====
-- The suffix of a text, as `without_suffix` and `ends_with` find it.
use materials_management_sha.Prelude.{
  ℕ, ◌≡◌, refl, ap, true, [], ◌∷◌, ◌++◌, some, arith, length, length-append,
}
use materials_management_sha.Text.{
  Text, text_eq, text_eq_iff, text_eq_refl, without_suffix, ends_with,
}

longer_ne : (c : ℕ) (base suffix : Text) → text_eq (c ∷ (base ++ suffix)) suffix ≡ true → ⊥
longer_ne c base suffix h =
    omega (
      arith,
      ap length ((text_eq_iff (c ∷ (base ++ suffix)) suffix).0 h),
      length-append base suffix,
    )

pub without_suffix-append :
    (base suffix : Text) → without_suffix suffix (base ++ suffix) ≡ some base
unfolding without_suffix
without_suffix-append [] [] = refl
without_suffix-append [] (c ∷ s) = ground (arith, text_eq_refl (c ∷ s))
without_suffix-append (c ∷ base) suffix =
    ground (arith, longer_ne c base suffix, without_suffix-append base suffix)

pub ends_with-append : (base suffix : Text) → ends_with suffix (base ++ suffix) ≡ true
unfolding ends_with
ends_with-append base suffix = ground (arith, without_suffix-append base suffix)
