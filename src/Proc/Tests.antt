-- ===== src/Proc/Tests.antt =====
-- The process table of kernel/core/proc.c with three processes.
use ustc_26spring.Common.{◌+◌, ◌%◌, ◌≤◌, ◌≡◌, true, some, List, [], ◌∷◌, arith}
use ustc_26spring.Common.Int.{pos}
use ustc_26spring.Common.Result.{ok}
use ustc_26spring.Kalloc.{page_size}
use ustc_26spring.Vm.Pte.{trampoline}
use ustc_26spring.Proc.Table.{
  Proc, Table, empty_proc, runnable, running, sleeping, zombie, slot_chan,
}
use ustc_26spring.Proc.Sched.{kill, Kills, kill-Kills}
use ustc_26spring.Proc.Exit.{Exited, proc_exit}
use ustc_26spring.Proc.Wait.{wait_segment}
use ustc_26spring.Proc.Reaping.{Waits, wait_segment-Waits}
use ustc_26spring.Proc.Parents.{Leaves, proc_exit-Leaves}
use ustc_26spring.Proc.Image.{kstack_top, kstack_base, kstack_size}
use ustc_26spring.Proc.Layout.{kstack_apart}

abbrev init_proc : Proc
init_proc = record empty_proc { pid = 1; state = runnable }

-- The parent sleeps in `wait`, and its child runs.
abbrev parent_proc : Proc
parent_proc = record empty_proc {
  pid = 2;
  state = sleeping;
  chan = some (slot_chan 1);
  parent = some 0;
}

abbrev child_proc : Proc
child_proc = record empty_proc { pid = 3; state = running; parent = some 1 }

abbrev procs : List Proc
procs = init_proc ∷ parent_proc ∷ child_proc ∷ []

abbrev table : Table
table = record { procs = procs; next_pid = 4; initproc = 0 }

proc_exit-Leaves_example :
    (e : Exited) × (proc_exit 2 (pos 5) table ≡ ok e) × Leaves 2 (pos 5) table e
proc_exit-Leaves_example = proc_exit-Leaves 2 (pos 5) table (omega arith) (λ e. omega arith)

-- The child is a zombie.
abbrev procs_after : List Proc
procs_after =
    init_proc
    ∷ record parent_proc { state = running }
    ∷ record child_proc { state = zombie; xstate = pos 5 }
    ∷ []

wait_segment-Waits_example :
    Waits (λ status. true) 1 procs_after (wait_segment (λ status. true) 1 procs_after)
wait_segment-Waits_example = wait_segment-Waits (λ status. true) 1 procs_after

kill-Kills_example : Kills 2 procs (kill 2 procs)
kill-Kills_example = kill-Kills 2 procs

kstack_apart_example :
    (kstack_top 1 + page_size ≤ kstack_base 0)
    × (kstack_base 0 + kstack_size ≡ kstack_top 0)
    × (kstack_top 0 + page_size ≤ trampoline)
    × (kstack_base 1 % page_size ≡ 0)
kstack_apart_example = kstack_apart 0 1 (omega arith) (omega arith)
