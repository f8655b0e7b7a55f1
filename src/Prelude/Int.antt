-- ===== src/Prelude/Int.antt =====
-- The integers that the program computes with where a value may fall below zero.
use Prim.Native.Nat.{ℕ, zero, suc}

-- `negsuc n` is -(n + 1).
pub data ℤ : Type 0 where
  pos : ℕ → ℤ
  negsuc : ℕ → ℤ

-- `n - 1` for a number `n`.
abbrev pub pred_ℤ : ℕ → ℤ
pred_ℤ zero = negsuc 0
pred_ℤ (suc n) = pos n
