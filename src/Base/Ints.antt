-- ===== src/Base/Ints.antt =====
-- Signed integers over the native numbers, as far as return values need them.
use Prim.Native.Nat.{ℕ}

-- `negsuc n` is -(n + 1).
pub data ℤ : Type 0 where
  pos : ℕ → ℤ
  negsuc : ℕ → ℤ
