-- ===== src/Prelude/Int.antt =====
-- Signed integers over the native numbers, as far as the program's i64 arguments need them.
use Prim.Native.Nat.{ℕ, max}

-- `negsuc n` is -(n + 1).
pub data ℤ : Type 0 where
  pos : ℕ → ℤ
  negsuc : ℕ → ℤ

abbrev pub pos_part : ℤ → ℕ
pos_part (pos n) = n
pos_part (negsuc n) = 0

-- `value.max(low)` for a bound that is not negative.
abbrev pub at_least : ℕ → ℤ → ℕ
at_least low a = max low (pos_part a)
