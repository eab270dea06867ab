-- ===== src/Prelude/Ints.antt =====
-- Go's int, where the program only hands it on or tests it for zero.
use Prim.Native.Nat.{ℕ}
use mathlib.Core.Bool.{Bool, false}
use uni_chat_sdk.Prelude.Tests.{eqb}

pub data ℤ : Type 0 where
  pos : ℕ → ℤ
  negsuc : ℕ → ℤ

abbrev pub is_zero_int : ℤ → Bool
is_zero_int (pos n) = eqb n 0
is_zero_int (negsuc n) = false
