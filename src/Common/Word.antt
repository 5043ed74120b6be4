-- ===== src/Common/Word.antt =====
-- Machine words as native numbers: a w-bit value is a number below 2 ^ w.
use Prim.Native.Nat.{ℕ, ◌+◌, ◌-◌, ◌%◌, ◌^◌}

abbrev pub u32_mod : ℕ
u32_mod = 2 ^ 32

-- uint addition and subtraction.
abbrev pub add32 : ℕ → ℕ → ℕ
add32 a b = (a + b) % u32_mod

abbrev pub sub32 : ℕ → ℕ → ℕ
sub32 a b = (a + u32_mod - b) % u32_mod

abbrev pub u64_mod : ℕ
u64_mod = 2 ^ 64

-- uint64 addition.
abbrev pub add64 : ℕ → ℕ → ℕ
add64 a b = (a + b) % u64_mod
