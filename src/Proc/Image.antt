-- ===== src/Proc/Image.antt =====
-- The memory of a process in kernel/core/proc.c: its page table, its stack and its growth. The
-- address `trampoline_page` of the trampoline's code is that of kernel.ld.
use ustc_26spring.Common.{
  ℕ, zero, suc, ◌+◌, ◌-◌, ◌*◌, ◌/◌, ◌%◌, Bool, true, false, ◌||◌, not, leb, ltb, ◌==◌,
  if◌then◌else◌, Option, none, some,
}
use ustc_26spring.Common.Int.{ℤ, pos, negsuc}
use ustc_26spring.Common.Word.{add64}
use ustc_26spring.Common.Result.{Result, ok, panic, ◌>>=◌}
use ustc_26spring.Memory.{memset}
use ustc_26spring.Kalloc.{Kmem, page_size, page_round_up, kalloc, kfree}
use ustc_26spring.Vm.Pte.{bit, flag_r, flag_w, flag_x, flag_u, trampoline, trapframe}
use ustc_26spring.Vm.Walk.{mappages}
use ustc_26spring.Vm.User.{uvmcreate, uvmunmap, uvmalloc, uvmdealloc, uvmclear}
use ustc_26spring.Vm.Free.{uvmfree}

abbrev pub kstack_pages : ℕ
kstack_pages = 4

abbrev pub kstack_size : ℕ
kstack_size = kstack_pages * page_size

-- The top of the kernel stack of a slot.
unfoldable pub kstack_top : ℕ → ℕ
kstack_top idx = trampoline - (idx * (kstack_pages + 1) + 1) * page_size

-- The kernel stack's base, as `proc_init` sets it.
unfoldable pub kstack_base : ℕ → ℕ
unfolding kstack_top
kstack_base idx = kstack_top idx - kstack_size

-- PF_X, PF_W and PF_R are the bits 0, 1 and 2 of a segment's flags.
unfoldable pub flags2perm : ℕ → ℕ
flags2perm flags =
    flag_u
    + (if bit flags 2 then flag_r else 0)
    + (if bit flags 1 then flag_w else 0)
    + (if bit flags 0 then flag_x else 0)

module _ (kernel_end : ℕ) where
  -- The loop of `uvmmaprange` from page a on, with n pages left.
  unfoldable pub maprange_from : ℕ → ℕ → ℕ → ℕ → ℕ → Kmem → Result (Bool × Kmem)
  maprange_from zero pt va a perm k = ok (true, k)
  maprange_from (suc n) pt va a perm k =
      let (page, k1) = kalloc k in
      elim (page == 0) [
        | true ↦ give_up k1
        | false ↦
            mappages pt a page_size page perm (record k1 { mem = memset k1.mem page 0 page_size })
            >>= λ (mapped, k2). elim mapped [
              | true ↦ maprange_from n pt va (a + page_size) perm k2
              | false ↦ kfree kernel_end page k2 >>= give_up
            ]
      ]
    where
      give_up : Kmem → Result (Bool × Kmem)
      give_up k' =
          if ltb va a
          then (uvmunmap kernel_end pt va ((a - va) / page_size) true k' >>= λ k''. ok (false, k''))
          else ok (false, k')

  unfoldable pub uvmmaprange : ℕ → ℕ → ℕ → ℕ → Kmem → Result (Bool × Kmem)
  unfolding maprange_from
  uvmmaprange pt va sz perm k =
      if not (va % page_size == 0)
      then panic
      else if not (sz % page_size == 0)
      then panic
      else maprange_from (sz / page_size) pt va va perm k

  -- The page table of a process whose trapframe page is `frame`; 0 on failure.
  unfoldable pub proc_pagetable : ℕ → ℕ → Kmem → Result (ℕ × Kmem)
  proc_pagetable trampoline_page frame k =
      let (pt, k1) = uvmcreate k in
      elim (pt == 0) [
        | true ↦ ok (0, k1)
        | false ↦
            mappages pt trampoline page_size trampoline_page (flag_r + flag_x) k1
            >>= λ (mapped, k2). elim mapped [
              | false ↦ uvmunmap kernel_end pt trampoline 1 false k2 >>= λ k3.
                  uvmfree kernel_end pt 0 k3 >>= λ k4. ok (0, k4)
              | true ↦
                  mappages pt trapframe page_size frame (flag_r + flag_w) k2 >>= λ (framed, k3).
                  elim framed [
                    | true ↦ ok (pt, k3)
                    | false ↦ uvmunmap kernel_end pt trapframe 1 false k3 >>= λ k4.
                        uvmunmap kernel_end pt trampoline 1 false k4 >>= λ k5.
                        uvmfree kernel_end pt 0 k5 >>= λ k6. ok (0, k6)
                  ]
            ]
      ]

  unfoldable pub proc_freepagetable : ℕ → ℕ → Kmem → Result Kmem
  proc_freepagetable pt sz k = uvmunmap kernel_end pt trapframe 1 false k >>= λ k1.
      uvmunmap kernel_end pt trampoline 1 false k1 >>= uvmfree kernel_end pt sz

  -- The guard page and the user stack: the new size, which is also the stack pointer, or -1.
  unfoldable pub setup_user_stack : ℕ → ℕ → Kmem → Result (Option ℕ × Kmem)
  setup_user_stack pt oldsz k =
      let sz = page_round_up oldsz in
      let top = add64 sz (2 * page_size) in
      if ltb top sz || ltb trapframe top
      then ok (none, k)
      else (uvmalloc kernel_end pt sz top flag_w k >>= λ (newsz, k1).
          if newsz == 0
          then ok (none, k1)
          else (uvmclear pt (newsz - 2 * page_size) k1 >>= λ k2. ok (some newsz, k2)))

  -- `growproc(n)` for a process of size sz: the new size, or -1.
  unfoldable pub growproc : ℕ → ℕ → ℤ → Kmem → Result (Option ℕ × Kmem)
  growproc pt sz (pos zero) k = ok (some sz, k)
  growproc pt sz (pos (suc n)) k =
      let newsz = add64 sz (suc n) in
      if ltb newsz sz || ltb trapframe newsz
      then ok (none, k)
      else (uvmalloc kernel_end pt sz newsz flag_w k >>= λ (allocsz, k1).
          if allocsz == 0 then ok (none, k1) else ok (some allocsz, k1))
  growproc pt sz (negsuc n) k =
      if leb sz n
      then ok (none, k)
      else (uvmdealloc kernel_end pt sz (sz - suc n) k >>= λ (newsz, k1). ok (some newsz, k1))
