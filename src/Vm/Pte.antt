-- ===== src/Vm/Pte.antt =====
-- The page-table entries and indices of kernel/include/riscv.h. An entry is a 64-bit number: ten
-- flag bits, and above them the number of the page.
use ustc_26spring.Common.{
  ℕ, ◌+◌, ◌-◌, ◌*◌, ◌/◌, ◌%◌, ◌^◌, ◌<◌, ◌≡◌, Bool, true, false, ◌||◌, ◌==◌, arith,
}
use ustc_26spring.Kalloc.{page_size}

-- Bit i of x.
abbrev pub bit : ℕ → ℕ → Bool
bit x i = x / 2 ^ i % 2 == 1

-- PTE_V, PTE_R, PTE_W, PTE_X, PTE_U as tests of an entry.
abbrev pub pte_v : ℕ → Bool
pte_v pte = bit pte 0

abbrev pub pte_r : ℕ → Bool
pte_r pte = bit pte 1

abbrev pub pte_w : ℕ → Bool
pte_w pte = bit pte 2

abbrev pub pte_x : ℕ → Bool
pte_x pte = bit pte 3

abbrev pub pte_u : ℕ → Bool
pte_u pte = bit pte 4

-- A level above the leaves: the entry has none of R, W and X.
abbrev pub is_leaf : ℕ → Bool
is_leaf pte = pte_r pte || pte_w pte || pte_x pte

-- PTE_R, PTE_W, PTE_X and PTE_U as numbers.
abbrev pub flag_r : ℕ
flag_r = 2

abbrev pub flag_w : ℕ
flag_w = 4

abbrev pub flag_x : ℕ
flag_x = 8

abbrev pub flag_u : ℕ
flag_u = 16

abbrev pub pa2pte : ℕ → ℕ
pa2pte pa = pa / 2 ^ 12 * 2 ^ 10

-- The shift to the left drops what stands above bit 63.
abbrev pub pte2pa : ℕ → ℕ
pte2pa pte = (pte / 2 ^ 10 * 2 ^ 12) % 2 ^ 64

abbrev pub pte_flags : ℕ → ℕ
pte_flags pte = pte % 2 ^ 10

-- PA2PTE(pa) | perm | PTE_V, for a perm of ten bits: the low bits of PA2PTE are 0, and bit 0 is set.
abbrev pub make_pte : ℕ → ℕ → ℕ
make_pte pa perm = pa2pte pa + (perm / 2 * 2 + 1)

-- pte & ~PTE_U
abbrev pub clear_u : ℕ → ℕ
clear_u pte = pte - pte / 16 % 2 * 16

-- PX(level, va)
abbrev pub px : ℕ → ℕ → ℕ
px level va = va / 2 ^ (12 + 9 * level) % 512

abbrev pub max_va : ℕ
max_va = 2 ^ 38

abbrev pub trampoline : ℕ
trampoline = max_va - page_size

abbrev pub trapframe : ℕ
trapframe = trampoline - page_size

-- An entry that `mappages` writes for an aligned page of 64 bits gives back the page and the flags, with V set.
make_pte_lem :
    (pa perm : ℕ)
    → pa < 2 ^ 64
    → pa % page_size ≡ 0
    → perm < 2 ^ 10
    → (pte2pa (make_pte pa perm) ≡ pa)
      × (pte_flags (make_pte pa perm) ≡ perm / 2 * 2 + 1)
      × (pte_v (make_pte pa perm) ≡ true)
make_pte_lem pa perm w h p = (omega arith, omega arith, ground arith)

-- Below MAXVA the three indices and the offset determine the address.
pub px_inj :
    (a b : ℕ)
    → a < max_va
    → b < max_va
    → px 2 a ≡ px 2 b
    → px 1 a ≡ px 1 b
    → px 0 a ≡ px 0 b
    → a % page_size ≡ b % page_size
    → a ≡ b
px_inj a b ha hb h2 h1 h0 h = omega arith

-- Clearing the user bit leaves the page, the valid bit and the write bit of any entry.
pub clear_u_lem :
    (pte : ℕ)
    → (pte_u (clear_u pte) ≡ false)
      × (pte2pa (clear_u pte) ≡ pte2pa pte)
      × (pte_v (clear_u pte) ≡ pte_v pte)
      × (pte_w (clear_u pte) ≡ pte_w pte)
clear_u_lem pte = (ground arith, omega arith, ground arith, ground arith)
