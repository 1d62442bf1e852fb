-- ===== src/Shared/Int.antt =====
-- Signed integers, as far as the code compares and converts them.
use Prim.Native.Nat.{ℕ}
use mathlib.Core.Bool.{Bool, false}
use open_arm_ik.Shared.Tests.{◌==◌}

-- `negsuc n` is -(n + 1).
pub data ℤ : Type 0 where
  pos : ℕ → ℤ
  negsuc : ℕ → ℤ

abbrev pub same_int : ℤ → ℤ → Bool
same_int (pos a) (pos b) = a == b
same_int (negsuc a) (negsuc b) = a == b
same_int _ _ = false
