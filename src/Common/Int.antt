-- ===== src/Common/Int.antt =====
-- The C++ `int` values of the program. It stores them and prints them, and never computes with them.
use Prim.Native.Nat.{ℕ}

-- `negsuc n` is -(n + 1).
pub data ℤ : Type 0 where
  pos : ℕ → ℤ
  negsuc : ℕ → ℤ
