-- ===== src/Common/Result.antt =====
-- Kernel code that may panic: `panic` is a call of the kernel's `panic`, which does not return.
pub data Result {ℓ} (A : Type ℓ) : Type ℓ where
  panic : Result A
  ok : A → Result A

infixl 5 ◌>>=◌
abbrev pub ◌>>=◌ {ℓ κ} : {A : Type ℓ} {B : Type κ} → Result A → (A → Result B) → Result B
panic >>= next = panic
ok x >>= next = next x
