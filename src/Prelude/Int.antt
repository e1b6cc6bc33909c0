-- ===== src/Prelude/Int.antt =====
-- Python's `int`, for the numbers that a JSON document may hold.
use Prim.Native.Nat.{ℕ}

-- `negsuc n` is -(n + 1).
pub data ℤ : Type 0 where
  pos : ℕ → ℤ
  negsuc : ℕ → ℤ
