-- ===== src/Prelude/Int.antt =====
-- Signed integers, as exit codes and signal numbers carry them.
use Prim.Native.Nat.{ℕ}

-- `negsuc n` is -(n + 1).
pub data ℤ : Type 0 where
  pos : ℕ → ℤ
  negsuc : ℕ → ℤ
