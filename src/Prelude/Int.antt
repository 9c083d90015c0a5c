-- ===== src/Prelude/Int.antt =====
-- Signed numbers as the C functions take them; `negsuc n` is -(n + 1).
use Prim.Native.Nat.{ℕ}

pub data ℤ : Type 0 where
  pos : ℕ → ℤ
  negsuc : ℕ → ℤ
