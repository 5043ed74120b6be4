-- ===== src/Fs/Bits.antt =====
-- The bits of a byte, as kernel/fs/fs.c tests and sets them with a mask.
use ustc_26spring.Common.{
  ℕ, zero, suc, ◌+◌, ◌*◌, ◌/◌, ◌%◌, ◌≡◌, ◌≢◌, Bool, true, false, ◌==◌, arith,
}

-- x & (1 << j)
unfoldable pub has_bit : ℕ → ℕ → Bool
has_bit x zero = x % 2 == 1
has_bit x (suc j) = has_bit (x / 2) j

-- x | (1 << j)
pub or_bit : ℕ → ℕ → ℕ
or_bit x zero = x / 2 * 2 + 1
or_bit x (suc j) = 2 * or_bit (x / 2) j + x % 2

-- x & ~(1 << j)
pub clear_bit : ℕ → ℕ → ℕ
clear_bit x zero = x / 2 * 2
clear_bit x (suc j) = 2 * clear_bit (x / 2) j + x % 2

half_of : (x y : ℕ) → (2 * y + x % 2) / 2 ≡ y
half_of x y = omega arith

pub has_bit-or_bit_self : (x j : ℕ) → has_bit (or_bit x j) j ≡ true
unfolding has_bit or_bit
has_bit-or_bit_self x zero = ground arith
has_bit-or_bit_self x (suc j) = rw half_of (has_bit-or_bit_self (x / 2) j)

pub has_bit-or_bit_ne : (x j k : ℕ) → k ≢ j → has_bit (or_bit x j) k ≡ has_bit x k
unfolding has_bit or_bit
has_bit-or_bit_ne x zero zero h = absurd (omega arith)
has_bit-or_bit_ne x zero (suc k) h = let e : (x / 2 * 2 + 1) / 2 ≡ x / 2 = omega arith in rw e
has_bit-or_bit_ne x (suc j) zero h =
    let e : (2 * or_bit (x / 2) j + x % 2) % 2 ≡ x % 2 = omega arith in rw e
has_bit-or_bit_ne x (suc j) (suc k) h = rw half_of (has_bit-or_bit_ne (x / 2) j k (omega arith))

pub has_bit-clear_bit_self : (x j : ℕ) → has_bit (clear_bit x j) j ≡ false
unfolding has_bit clear_bit
has_bit-clear_bit_self x zero = ground arith
has_bit-clear_bit_self x (suc j) = rw half_of (has_bit-clear_bit_self (x / 2) j)

pub has_bit-clear_bit_ne : (x j k : ℕ) → k ≢ j → has_bit (clear_bit x j) k ≡ has_bit x k
unfolding has_bit clear_bit
has_bit-clear_bit_ne x zero zero h = absurd (omega arith)
has_bit-clear_bit_ne x zero (suc k) h = let e : x / 2 * 2 / 2 ≡ x / 2 = omega arith in rw e
has_bit-clear_bit_ne x (suc j) zero h =
    let e : (2 * clear_bit (x / 2) j + x % 2) % 2 ≡ x % 2 = omega arith in rw e
has_bit-clear_bit_ne x (suc j) (suc k) h =
    rw half_of (has_bit-clear_bit_ne (x / 2) j k (omega arith))

-- Setting and then clearing a bit that is not set gives the byte back.
pub clear_bit-or_bit : (x j : ℕ) → has_bit x j ≡ false → clear_bit (or_bit x j) j ≡ x
unfolding has_bit or_bit clear_bit
clear_bit-or_bit x zero h = ground arith
clear_bit-or_bit x (suc j) h =
    let e : (2 * or_bit (x / 2) j + x % 2) % 2 ≡ x % 2 = omega arith in
    rw (half_of, e) (let ih = clear_bit-or_bit (x / 2) j h in omega arith)
