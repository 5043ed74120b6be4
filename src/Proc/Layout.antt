-- ===== src/Proc/Layout.antt =====
-- Where `proc_init` of kernel/core/proc.c puts the kernel stacks.
use ustc_26spring.Common.{ℕ, ◌+◌, ◌%◌, ◌≤◌, ◌<◌, ◌≡◌, arith}
use ustc_26spring.Kalloc.{page_size}
use ustc_26spring.Vm.Pte.{trampoline}
use ustc_26spring.Proc.Table.{nproc}
use ustc_26spring.Proc.Image.{kstack_top, kstack_base, kstack_size}

-- Kernel stacks of different slots do not overlap: a page lies between one and the next, they are
-- aligned, and a page lies between the highest and the trampoline.
pub kstack_apart :
    (i j : ℕ)
    → i < j
    → j < nproc
    → (kstack_top j + page_size ≤ kstack_base i)
      × (kstack_base i + kstack_size ≡ kstack_top i)
      × (kstack_top i + page_size ≤ trampoline)
      × (kstack_base j % page_size ≡ 0)
unfolding kstack_base kstack_top
kstack_apart i j h hj = omega arith
