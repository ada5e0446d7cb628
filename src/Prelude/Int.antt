-- ===== src/Prelude/Int.antt =====
-- `i64` where the code only copies and compares it: an integer, `negsuc n` being -(n + 1).
use Prim.Native.Nat.{ℕ}

pub data ℤ : Type 0 where
  pos : ℕ → ℤ
  negsuc : ℕ → ℤ
