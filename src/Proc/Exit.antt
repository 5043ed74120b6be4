-- ===== src/Proc/Exit.antt =====
-- `proc_exit` of kernel/core/proc.c: the end of a process, with what it leaves to its parent and
-- to init.
use ustc_26spring.Common.{
  ℕ, zero, suc, ◌+◌, Bool, true, false, ◌==◌, if◌then◌else◌, Option, none, some, List, [], ◌∷◌,
  get_or, length, replicate,
}
use ustc_26spring.Common.Int.{ℤ}
use ustc_26spring.Common.Result.{Result, ok, panic}
use ustc_26spring.Proc.Table.{Proc, Table, zombie, empty_proc, update, slot_chan, nofile}
use ustc_26spring.Proc.Sched.{wakeup}

-- The process of a slot.
abbrev pub proc_at : ℕ → List Proc → Proc
proc_at i ps = get_or ps i empty_proc

abbrev pub is_parent : Option ℕ → ℕ → Bool
is_parent none i = false
is_parent (some j) i = j == i

abbrev pub adopt : ℕ → Proc → Proc
adopt init p = record p { parent = some init }

-- The loop that gives the children of process i to init, from slot j on, with k slots left.
unfoldable pub reparent : ℕ → ℕ → ℕ → ℕ → List Proc → List Proc
unfolding wakeup update
reparent i init zero j ps = ps
reparent i init (suc k) j ps = elim (is_parent (proc_at j ps).parent i) [
  | true ↦ reparent i init k (j + 1) (wakeup (slot_chan init) (update j (adopt init) ps))
  | false ↦ reparent i init k (j + 1) ps
]

-- if (p->parent) wakeup(p->parent);
unfoldable pub wake_parent : Option ℕ → List Proc → List Proc
unfolding wakeup
wake_parent none ps = ps
wake_parent (some j) ps = wakeup (slot_chan j) ps

-- The open files in the order of their descriptors.
abbrev pub open_files : List (Option ℕ) → List ℕ
open_files [] = []
open_files (none ∷ fs) = open_files fs
open_files (some f ∷ fs) = f ∷ open_files fs

abbrev pub close_all : Proc → Proc
close_all p = record p { ofile = replicate nofile none; cwd = none }

abbrev pub dead_proc : ℤ → Proc → Proc
dead_proc status p = record p { xstate = status; state = zombie }

-- What `proc_exit` leaves: the table, the files that it closes and the inode that it puts.
pub record Exited : Type 0 where
  pub procs : List Proc
  pub closes : List ℕ
  pub puts : Option ℕ

-- The table once the files are closed: the children go to init, the parent is woken, and the
-- process is a zombie.
unfoldable pub bury : ℕ → ℕ → ℤ → List Proc → List Proc
unfolding reparent wake_parent update
bury i init status ps =
    let qs = reparent i init (length ps) 0 ps in
    update i (dead_proc status) (wake_parent (proc_at i qs).parent qs)

-- `proc_exit(status)` of the process in slot i, up to `sched`.
unfoldable pub proc_exit : ℕ → ℤ → Table → Result Exited
unfolding bury
proc_exit i status t =
    if i == t.initproc
    then panic
    else ok (record {
      procs = bury i t.initproc status (update i close_all t.procs);
      closes = open_files (proc_at i t.procs).ofile;
      puts = (proc_at i t.procs).cwd;
    })
