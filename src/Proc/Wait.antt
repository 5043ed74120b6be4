-- ===== src/Proc/Wait.antt =====
-- `wait` and `fork` of kernel/core/proc.c as far as the process table goes.
use ustc_26spring.Common.{
  ℕ, ◌+◌, Bool, true, false, ◌||◌, not, if◌then◌else◌, Option, none, some, List, [], ◌∷◌,
}
use ustc_26spring.Common.Int.{ℤ}
use ustc_26spring.Proc.Table.{
  Proc, Table, runnable, is_zombie, empty_proc, update, Chan, slot_chan, allocproc,
}
use ustc_26spring.Proc.Exit.{proc_at, is_parent}

-- The loop of `wait` over the table, from slot j on: the first zombie child, and whether there is
-- a child.
unfoldable pub scan_children : ℕ → ℕ → Bool → List Proc → Option ℕ × Bool
scan_children i j havekids [] = (none, havekids)
scan_children i j havekids (p ∷ ps) = elim (is_parent p.parent i) [
  | false ↦ scan_children i (j + 1) havekids ps
  | true ↦ elim (is_zombie p.state) [
    | true ↦ (some j, true)
    | false ↦ scan_children i (j + 1) true ps
  ]
]

-- How a segment of `wait` ends: it returns a pid (`none` is -1), or sleeps.
pub data Waited : Type 0 where
  returned : Option ℕ → Waited
  asleep : Chan → Waited

-- `freeproc` of a process that has no working directory, as every zombie.
abbrev pub freed : Proc → Proc
freed p = empty_proc

-- A segment of `wait` of the process in slot i. `copyout` is the copy of the status to the caller,
-- which always succeeds if the address is 0.
unfoldable pub wait_segment : (ℤ → Bool) → ℕ → List Proc → Waited × List Proc
unfolding scan_children update
wait_segment copyout i ps =
    let (child, havekids) = scan_children i 0 false ps in
    elim child [
      | some j ↦
          if copyout (proc_at j ps).xstate
          then (returned (some (proc_at j ps).pid), update j freed ps)
          else (returned none, ps)
      | none ↦
          if not havekids || (proc_at i ps).killed
          then (returned none, ps)
          else (asleep (slot_chan i), ps)
    ]

-- The child of `fork` of process p in slot i: its own references of the open files and the working
-- directory, p as the parent, and ready to run.
abbrev pub child_of : ℕ → Proc → Proc → Proc
child_of i p c = record c { ofile = p.ofile; cwd = p.cwd; parent = some i; state = runnable }

-- `fork` of the process in slot i, where `memory` and `copied` say whether the pages of
-- `allocproc` and of the copy of the memory are there: the child's pid (`none` is -1), and the
-- table. The duplicates of the files and of the directory are counted in their own tables.
unfoldable pub fork : Bool → Bool → ℕ → Table → Option ℕ × Table
unfolding allocproc update
fork memory copied i t =
    let (slot, u) = allocproc memory t in
    elim slot [
      | none ↦ (none, u)
      | some j ↦ if not copied then (none, record u { procs = update j freed u.procs }) else (
        some t.next_pid,
        record u { procs = update j (child_of i (proc_at i t.procs)) u.procs },
      )
    ]
