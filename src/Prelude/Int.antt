-- ===== src/Prelude/Int.antt =====
-- Signed integers over the native numbers: Python's `int`, for quantities that a caller supplies.
use Prim.Native.Nat.{ℕ, suc, ◌-◌}
use materials_management_sha.Prelude.Tests.{leb, if◌then◌else◌}

-- `negsuc n` is -(n + 1).
pub data ℤ : Type 0 where
  pos : ℕ → ℤ
  negsuc : ℕ → ℤ

abbrev pub pos_part : ℤ → ℕ
pos_part (pos n) = n
pos_part (negsuc n) = 0

abbrev pub neg_part : ℤ → ℕ
neg_part (pos n) = 0
neg_part (negsuc n) = suc n

-- a - b, as an integer.
abbrev pub sub_ℕ : ℕ → ℕ → ℤ
sub_ℕ a b = if leb b a then pos (a - b) else negsuc (b - a - 1)

-- -a, for a natural number.
abbrev pub neg_ℕ : ℕ → ℤ
neg_ℕ a = sub_ℕ 0 a
