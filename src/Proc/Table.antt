-- ===== src/Proc/Table.antt =====
-- The process table of kernel/core/proc.c. A process is named by its slot in `procs`. The address
-- space and the registers of a process are in `Proc.Image`.
use ustc_26spring.Common.{
  ℕ, zero, suc, ◌+◌, Bool, true, false, ◌==◌, Option, none, some, List, [], ◌∷◌, replicate,
}
use ustc_26spring.Common.Int.{ℤ, pos}

-- `enum procstate`
pub data State : Type 0 where
  unused used sleeping runnable running zombie : State

abbrev pub is_unused : State → Bool
is_unused unused = true
is_unused used = false
is_unused sleeping = false
is_unused runnable = false
is_unused running = false
is_unused zombie = false

abbrev pub is_sleeping : State → Bool
is_sleeping unused = false
is_sleeping used = false
is_sleeping sleeping = true
is_sleeping runnable = false
is_sleeping running = false
is_sleeping zombie = false

abbrev pub is_zombie : State → Bool
is_zombie unused = false
is_zombie used = false
is_zombie sleeping = false
is_zombie runnable = false
is_zombie running = false
is_zombie zombie = true

abbrev pub is_runnable : State → Bool
is_runnable unused = false
is_runnable used = false
is_runnable sleeping = false
is_runnable runnable = true
is_runnable running = false
is_runnable zombie = false

-- A channel is an address: that of a process's slot, or any other.
pub data Chan : Type 0 where
  slot_chan : ℕ → Chan
  addr_chan : ℕ → Chan

abbrev pub chan_eq : Chan → Chan → Bool
chan_eq (slot_chan a) (slot_chan b) = a == b
chan_eq (slot_chan a) (addr_chan b) = false
chan_eq (addr_chan a) (slot_chan b) = false
chan_eq (addr_chan a) (addr_chan b) = a == b

abbrev pub is_chan : Option Chan → Chan → Bool
is_chan none c = false
is_chan (some d) c = chan_eq d c

abbrev pub nofile : ℕ
nofile = 16

abbrev pub nproc : ℕ
nproc = 16

-- `struct proc`: the fields that the operations on the table read. A file or an inode is a handle.
pub record Proc : Type 0 where
  pub pid : ℕ
  pub state : State
  pub chan : Option Chan
  pub killed : Bool
  pub xstate : ℤ
  pub parent : Option ℕ
  pub cwd : Option ℕ
  pub ofile : List (Option ℕ)

-- What `freeproc` leaves, and `proc_init` sets up.
abbrev pub empty_proc : Proc
empty_proc = record {
  pid = 0;
  state = unused;
  chan = none;
  killed = false;
  xstate = pos 0;
  parent = none;
  cwd = none;
  ofile = replicate nofile none;
}

-- `procs`, `next_pid` and the slot of `initproc`.
pub record Table : Type 0 where
  pub procs : List Proc
  pub next_pid : ℕ
  pub initproc : ℕ

-- `proc_init`
unfoldable pub proc_init : Table
proc_init = record { procs = replicate nproc empty_proc; next_pid = 1; initproc = 0 }

-- A change of the process in a slot.
unfoldable pub update : ℕ → (Proc → Proc) → List Proc → List Proc
update i f [] = []
update zero f (p ∷ ps) = f p ∷ ps
update (suc i) f (p ∷ ps) = p ∷ update i f ps

-- What `allocproc` makes of an unused slot.
abbrev pub used_proc : ℕ → Proc
used_proc pid = record empty_proc { pid = pid; state = used }

-- What `proc_create` makes of an unused slot.
abbrev pub task_proc : ℕ → Proc
task_proc pid = record empty_proc { pid = pid; state = runnable }

-- The search for the first unused slot, from slot i on, which gets the process p.
unfoldable pub take_slot : Proc → ℕ → List Proc → Option (ℕ × List Proc)
take_slot p i [] = none
take_slot p i (q ∷ qs) = elim (is_unused q.state) [
  | true ↦ some (i, p ∷ qs)
  | false ↦ elim (take_slot p (i + 1) qs) [ none ↦ none | some (j, rs) ↦ some (j, q ∷ rs) ]
]

-- `allocproc` as far as the table goes: the slot (`none` is 0), and the table. `memory` tells
-- whether there are pages for the trapframe and the page table; without them the slot is freed
-- again, but its pid is used up.
unfoldable pub allocproc : Bool → Table → Option ℕ × Table
unfolding take_slot update
allocproc memory t = elim (take_slot (used_proc t.next_pid) 0 t.procs) [
  | none ↦ (none, t)
  | some (i, ps) ↦ elim memory [
    | true ↦ (some i, record t { procs = ps; next_pid = t.next_pid + 1 })
    | false ↦ (none, record t { procs = update i (λ p. empty_proc) ps; next_pid = t.next_pid + 1 })
  ]
]

-- `proc_create` of a kernel task; `none` is -1.
unfoldable pub proc_create : Table → Option ℕ × Table
unfolding take_slot
proc_create t = elim (take_slot (task_proc t.next_pid) 0 t.procs) [
  | none ↦ (none, t)
  | some (i, ps) ↦ (some t.next_pid, record t { procs = ps; next_pid = t.next_pid + 1 })
]
