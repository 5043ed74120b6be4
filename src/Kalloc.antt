-- ===== src/Kalloc.antt =====
-- The physical page allocator of kernel/core/kalloc.c. A free page holds the address of the next
-- one in its first eight bytes.
pub mod Free
pub mod Init
pub mod Tests
use ustc_26spring.Common.{
  ℕ, zero, suc, ◌+◌, ◌-◌, ◌*◌, ◌/◌, ◌%◌, ◌^◌, Bool, true, false, ◌||◌, ltb, leb, ◌==◌,
  if◌then◌else◌, not,
}
use ustc_26spring.Common.Result.{Result, ok, panic, ◌>>=◌}
use ustc_26spring.Memory.{Mem, memset, load64, store64}

abbrev pub page_size : ℕ
page_size = 4096

-- KERNBASE + 128 * 1024 * 1024
abbrev pub phys_top : ℕ
phys_top = 0x88000000

abbrev pub page_round_up : ℕ → ℕ
page_round_up sz = (sz + page_size - 1) / page_size * page_size

abbrev pub page_round_down : ℕ → ℕ
page_round_down a = a / page_size * page_size

-- The bytes of memory and the head of the list, 0 for an empty one.
pub record Kmem : Type 0 where
  pub mem : Mem
  pub freelist : ℕ

-- `kernel_end` is the address `end` of kernel.ld, where the kernel's image ends.
unfoldable pub kfree : ℕ → ℕ → Kmem → Result Kmem
kfree kernel_end pa k =
    if not (pa % page_size == 0)
    then panic
    else if ltb pa kernel_end || leb phys_top pa
    then panic
    else ok (record { mem = store64 (memset k.mem pa 1 page_size) pa k.freelist; freelist = pa })

-- The page's address, or 0.
unfoldable pub kalloc : Kmem → ℕ × Kmem
kalloc k = if k.freelist == 0 then (0, k) else (
  k.freelist,
  record { mem = memset k.mem k.freelist 5 page_size; freelist = load64 k.mem k.freelist },
)

-- The loop of `kinit` from page p on. The fuel counts its rounds.
free_from : ℕ → ℕ → ℕ → Kmem → Result Kmem
unfolding kfree
free_from kernel_end zero p k = ok k
free_from kernel_end (suc fuel) p k = elim (leb (p + page_size) phys_top) [
  | true ↦ kfree kernel_end p k >>= free_from kernel_end fuel (p + page_size)
  | false ↦ ok k
]

-- There are fewer pages below `phys_top` than rounds.
abbrev pub page_count : ℕ
page_count = phys_top / page_size

pub kinit : ℕ → Mem → Result Kmem
unfolding free_from
kinit kernel_end mem =
    free_from kernel_end page_count (page_round_up kernel_end) (record { mem = mem; freelist = 0 })
