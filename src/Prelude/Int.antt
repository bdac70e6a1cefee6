-- ===== src/Prelude/Int.antt =====
-- Signed integers over the native numbers: Python's unbounded `int`.
use Prim.Native.Nat.{ℕ, suc, ◌+◌, ◌*◌}
use mathlib.Core.Bool.{Bool}
use dispatcher_for_codex_age.Prelude.Tests.{ltb}

-- `negsuc n` is -(n + 1).
pub data ℤ : Type 0 where
  pos : ℕ → ℤ
  negsuc : ℕ → ℤ

abbrev pub pos_part : ℤ → ℕ
pos_part (pos n) = n
pos_part (negsuc n) = 0

abbrev pub neg_part : ℤ → ℕ
neg_part (pos n) = 0
neg_part (negsuc n) = suc n

-- a < b
abbrev pub ltb_ℤ : ℤ → ℤ → Bool
ltb_ℤ a b = ltb (pos_part a + neg_part b) (pos_part b + neg_part a)

-- a * m < b * n, for the scales of two fractions.
abbrev pub ltb_scaled : ℤ → ℕ → ℤ → ℕ → Bool
ltb_scaled a m b n = ltb (pos_part a * m + neg_part b * n) (pos_part b * n + neg_part a * m)
