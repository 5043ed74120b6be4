-- ===== src/Common/Int.antt =====
-- The C integers that may be negative.
use Prim.Native.Nat.{ℕ}
use mathlib.Core.Bool.{Bool, false}
use ustc_26spring.Common.Tests.{◌==◌}

-- `negsuc n` is -(n + 1).
pub data ℤ : Type 0 where
  pos : ℕ → ℤ
  negsuc : ℕ → ℤ

abbrev pub int_eq : ℤ → ℤ → Bool
int_eq (pos a) (pos b) = a == b
int_eq (pos a) (negsuc b) = false
int_eq (negsuc a) (pos b) = false
int_eq (negsuc a) (negsuc b) = a == b

abbrev pub minus_one : ℤ
minus_one = negsuc 0
