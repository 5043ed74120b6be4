-- ===== src/Vm/Free.antt =====
-- `freewalk` and `uvmfree` of kernel/core/vm.c, which take down a page table.
use ustc_26spring.Common.{ℕ, zero, suc, ◌+◌, ◌*◌, ◌/◌, true, false, ltb, if◌then◌else◌}
use ustc_26spring.Common.Result.{Result, ok, panic, ◌>>=◌}
use ustc_26spring.Memory.{load64, store64}
use ustc_26spring.Kalloc.{Kmem, page_size, page_round_up, kfree}
use ustc_26spring.Vm.Pte.{pte_v, pte2pa, is_leaf}
use ustc_26spring.Vm.User.{uvmunmap}

-- The loop of `freewalk` over the entries of table pt, from entry i on, n of them left. `free` is
-- the call for the table below.
unfoldable pub free_entries : (ℕ → Kmem → Result Kmem) → ℕ → ℕ → ℕ → Kmem → Result Kmem
free_entries free zero i pt k = ok k
free_entries free (suc n) i pt k = elim (pte_v (load64 k.mem (pt + 8 * i))) [
  | false ↦ free_entries free n (i + 1) pt k
  | true ↦ elim (is_leaf (load64 k.mem (pt + 8 * i))) [
    | true ↦ panic
    | false ↦ free (pte2pa (load64 k.mem (pt + 8 * i))) k >>= λ k'.
        free_entries free n (i + 1) pt (record k' { mem = store64 k'.mem (pt + 8 * i) 0 })
  ]
]

-- `freewalk` to a depth: a page table has three levels. What lies deeper counts as a panic.
unfoldable pub freewalk : ℕ → ℕ → ℕ → Kmem → Result Kmem
unfolding free_entries
freewalk kernel_end zero pt k = panic
freewalk kernel_end (suc depth) pt k =
    free_entries (freewalk kernel_end depth) 512 0 pt k >>= kfree kernel_end pt

abbrev pub levels : ℕ
levels = 3

unfoldable pub uvmfree : ℕ → ℕ → ℕ → Kmem → Result Kmem
unfolding freewalk
uvmfree kernel_end pt sz k =
    if ltb 0 sz
    then uvmunmap kernel_end pt 0 (page_round_up sz / page_size) true k
      >>= freewalk kernel_end levels pt
    else freewalk kernel_end levels pt k
