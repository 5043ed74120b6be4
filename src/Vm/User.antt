-- ===== src/Vm/User.antt =====
-- User memory in kernel/core/vm.c: mapping and unmapping pages, growing, shrinking and copying.
-- A loop over pages counts the pages that are left; its range does not run past 2 ^ 64.
use ustc_26spring.Common.{
  ℕ, zero, suc, ◌+◌, ◌-◌, ◌/◌, ◌%◌, Bool, true, false, not, leb, ltb, ◌==◌, if◌then◌else◌,
}
use ustc_26spring.Common.Result.{Result, ok, panic, ◌>>=◌}
use ustc_26spring.Memory.{memset, memmove, load64, store64}
use ustc_26spring.Kalloc.{Kmem, page_size, page_round_up, kalloc, kfree}
use ustc_26spring.Vm.Pte.{pte_v, pte2pa, pte_flags, clear_u, flag_r, flag_u}
use ustc_26spring.Vm.Walk.{walk, mappages}

unfoldable pub uvmcreate : Kmem → ℕ × Kmem
uvmcreate k =
    let (pt, k') = kalloc k in
    elim (pt == 0) [
      | true ↦ (0, k')
      | false ↦ (pt, record k' { mem = memset k'.mem pt 0 page_size })
    ]

-- The pages that a range of n bytes from page a on touches: the rounds of `a < a + n`.
abbrev pub pages_of : ℕ → ℕ
pages_of n = (n + page_size - 1) / page_size

module _ (kernel_end : ℕ) where
  -- One round of `uvmunmap`.
  unfoldable pub unmap_page : ℕ → ℕ → Bool → Kmem → Result Kmem
  unmap_page pt a do_free k = walk pt a false k >>= λ (pte, k1). elim (pte == 0) [
    | true ↦ ok k1
    | false ↦ elim (pte_v (load64 k1.mem pte)) [
      | false ↦ ok k1
      | true ↦ elim do_free [
        | false ↦ ok (record k1 { mem = store64 k1.mem pte 0 })
        | true ↦ kfree kernel_end (pte2pa (load64 k1.mem pte)) k1 >>= λ k2.
            ok (record k2 { mem = store64 k2.mem pte 0 })
      ]
    ]
  ]

  unfoldable pub unmap_from : ℕ → ℕ → ℕ → Bool → Kmem → Result Kmem
  unfolding unmap_page
  unmap_from zero pt a do_free k = ok k
  unmap_from (suc n) pt a do_free k =
      unmap_page pt a do_free k >>= unmap_from n pt (a + page_size) do_free

  unfoldable pub uvmunmap : ℕ → ℕ → ℕ → Bool → Kmem → Result Kmem
  unfolding unmap_from
  uvmunmap pt va npages do_free k =
      if not (va % page_size == 0) then panic else unmap_from npages pt va do_free k

  -- The new size, and the memory.
  unfoldable pub uvmdealloc : ℕ → ℕ → ℕ → Kmem → Result (ℕ × Kmem)
  unfolding uvmunmap
  uvmdealloc pt oldsz newsz k =
      if leb oldsz newsz
      then ok (oldsz, k)
      else if ltb (page_round_up newsz) (page_round_up oldsz)
      then (uvmunmap pt (page_round_up newsz)
            ((page_round_up oldsz - page_round_up newsz) / page_size) true k
          >>= (λ k'. ok (newsz, k')))
      else ok (newsz, k)

  -- The loop of `uvmalloc` from page a on; the size is 0 on failure.
  unfoldable pub alloc_from : ℕ → ℕ → ℕ → ℕ → ℕ → ℕ → Kmem → Result (ℕ × Kmem)
  unfolding uvmdealloc
  alloc_from zero pt a oldsz newsz xperm k = ok (newsz, k)
  alloc_from (suc n) pt a oldsz newsz xperm k =
      let (page, k1) = kalloc k in
      elim (page == 0) [
        | true ↦ uvmdealloc pt a oldsz k1 >>= λ (_, k2). ok (0, k2)
        | false ↦
            mappages pt a page_size page (flag_r + flag_u + xperm)
              (record k1 { mem = memset k1.mem page 0 page_size })
            >>= λ (mapped, k2). elim mapped [
              | true ↦ alloc_from n pt (a + page_size) oldsz newsz xperm k2
              | false ↦ kfree kernel_end page k2 >>= λ k3.
                  uvmdealloc pt a oldsz k3 >>= λ (_, k4). ok (0, k4)
            ]
      ]

  -- `xperm` is 0, PTE_W, PTE_X or both, so that the flags add up.
  unfoldable pub uvmalloc : ℕ → ℕ → ℕ → ℕ → Kmem → Result (ℕ × Kmem)
  unfolding alloc_from
  uvmalloc pt oldsz newsz xperm k =
      if ltb newsz oldsz
      then ok (oldsz, k)
      else alloc_from (pages_of (newsz - page_round_up oldsz)) pt (page_round_up oldsz) oldsz newsz
          xperm k

  -- The loop of `uvmcopy` from page i on, up to `copy_error` at the label `err`.
  unfoldable pub copy_from : ℕ → ℕ → ℕ → ℕ → ℕ → Kmem → Result (Bool × Kmem)
  unfolding uvmunmap
  copy_from zero old new i sz k = ok (true, k)
  copy_from (suc n) old new i sz k = walk old i false k >>= λ (pte, k1). elim (pte == 0) [
    | true ↦ copy_from n old new (i + page_size) sz k1
    | false ↦ elim (pte_v (load64 k1.mem pte)) [
      | false ↦ copy_from n old new (i + page_size) sz k1
      | true ↦
          let pa = pte2pa (load64 k1.mem pte) in
          let flags = pte_flags (load64 k1.mem pte) in
          let (page, k2) = kalloc k1 in
          elim (page == 0) [
            | true ↦ copy_error k2
            | false ↦
                mappages new i page_size page flags
                  (record k2 { mem = memmove k2.mem page pa page_size })
                >>= λ (mapped, k3). elim mapped [
                  | true ↦ copy_from n old new (i + page_size) sz k3
                  | false ↦ kfree kernel_end page k3 >>= copy_error
                ]
          ]
    ]
  ]
    where
      copy_error : Kmem → Result (Bool × Kmem)
      copy_error k' =
          uvmunmap new 0 (page_round_up sz / page_size) true k' >>= λ k''. ok (false, k'')

  unfoldable pub uvmcopy : ℕ → ℕ → ℕ → Kmem → Result (Bool × Kmem)
  unfolding copy_from
  uvmcopy old new sz k = copy_from (pages_of sz) old new 0 sz k

unfoldable pub uvmclear : ℕ → ℕ → Kmem → Result Kmem
uvmclear pt va k = walk pt va false k >>= λ (pte, k').
    if pte == 0
    then panic
    else ok (record k' { mem = store64 k'.mem pte (clear_u (load64 k'.mem pte)) })
