-- ===== src/Prelude/Integers.antt =====
-- Signed numbers over the native numbers.
use Prim.Native.Nat.{ℕ}

pub data ℤ : Type 0 where
  pos negsuc : ℕ → ℤ

-- `Math.max(0, x)`
abbrev pub positive_part : ℤ → ℕ
positive_part (pos n) = n
positive_part (negsuc n) = 0
