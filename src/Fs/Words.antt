-- ===== src/Fs/Words.antt =====
-- The numbers in a disk block, low byte first, as kernel/fs/fs.c reads and writes them through its
-- structures.
use ustc_26spring.Common.{
  ℕ, ◌+◌, ◌*◌, ◌/◌, ◌%◌, ◌^◌, ◌≤◌, ◌<◌, ◌≡◌, ◌⊎◌, ◌==◌, if◌then◌else◌, arith,
}
use ustc_26spring.Bio.{Block}

-- A ushort or short, as a 16-bit pattern.
unfoldable pub load16 : Block → ℕ → ℕ
load16 b o = b o + 256 * b (o + 1)

unfoldable pub store16 : Block → ℕ → ℕ → Block
store16 b o v k = if k == o then v % 256 else if k == o + 1 then v / 256 % 256 else b k

-- A uint.
unfoldable pub load32 : Block → ℕ → ℕ
load32 b o = b o + 256 * (b (o + 1) + 256 * (b (o + 2) + 256 * b (o + 3)))

unfoldable pub store32 : Block → ℕ → ℕ → Block
store32 b o v k =
    if k == o
    then v % 256
    else if k == o + 1
    then v / 256 % 256
    else if k == o + 2
    then v / 256 / 256 % 256
    else if k == o + 3
    then v / 256 / 256 / 256 % 256
    else b k

pub load16-store16_self : (b : Block) (o v : ℕ) → v < 2 ^ 16 → load16 (store16 b o v) o ≡ v
unfolding load16 store16
load16-store16_self b o v h = ground arith

pub store16_out : (b : Block) (o v k : ℕ) → (k < o) ⊎ (o + 2 ≤ k) → store16 b o v k ≡ b k
unfolding store16
store16_out b o v k h = ground arith

pub load32-store32_self : (b : Block) (o v : ℕ) → v < 2 ^ 32 → load32 (store32 b o v) o ≡ v
unfolding load32 store32
load32-store32_self b o v h = ground arith

pub store32_out : (b : Block) (o v k : ℕ) → (k < o) ⊎ (o + 4 ≤ k) → store32 b o v k ≡ b k
unfolding store32
store32_out b o v k h = ground arith

-- Loads that do not meet a changed byte.
pub load16_eq : (b c : Block) (o : ℕ) → b o ≡ c o → b (o + 1) ≡ c (o + 1) → load16 b o ≡ load16 c o
unfolding load16
load16_eq b c o h h1 = rw (h, h1)

pub load32_eq :
    (b c : Block) (o : ℕ)
    → b o ≡ c o
    → b (o + 1) ≡ c (o + 1)
    → b (o + 2) ≡ c (o + 2)
    → b (o + 3) ≡ c (o + 3)
    → load32 b o ≡ load32 c o
unfolding load32
load32_eq b c o h h1 h2 h3 = rw (h, h1, h2, h3)
