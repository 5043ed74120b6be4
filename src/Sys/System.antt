-- ===== src/Sys/System.antt =====
-- The processes with their tables of descriptors and the one table of open files, as the calls of
-- kernel/core/syscall.c change them one after the other, in any order of the processes.
use ustc_26spring.Common.{ℕ, suc, Bool, Option, none, some, List, [], ◌∷◌, get_or, set, replicate}
use ustc_26spring.Common.Int.{ℤ}
use ustc_26spring.File.{File, fileinit}
use ustc_26spring.Proc.Exit.{open_files}
use ustc_26spring.Proc.Table.{nofile}
use ustc_26spring.Sys.Fd.{Fds, sys_dup, sys_close, sys_pipe, close_each, dup_each}
use ustc_26spring.Sys.Open.{sys_open}

-- The calls, with what they are told from elsewhere. Calls that fail without a change are left out.
pub data Call : Type 0 where
  dup_fd : ℤ → Call
  close_fd : ℤ → Call
  make_pipe : Option ℕ → Bool → Call
  open_fd : ℕ → Bool → Bool → Option (ℕ × ℕ) → Call
  fork_proc : Call
  exit_proc : Call

-- A slot of the process table is unused or has a table of descriptors.
pub record System : Type 0 where
  pub procs : List (Option Fds)
  pub files : List File

-- The first unused slot.
unfoldable pub unused : List (Option Fds) → Option ℕ
unused [] = none
unused (none ∷ ps) = some 0
unused (some t ∷ ps) = elim (unused ps) [ none ↦ none | some i ↦ some (suc i) ]

-- The process in slot p has the table of what a call returns.
abbrev pub after_call : {X : Type 0} → ℕ → List (Option Fds) → X × Fds × List File → System
after_call p ps (x, t, files) = record { procs = set ps p (some t); files = files }

-- A call of the process in slot p with table t.
unfoldable pub run_call : Call → ℕ → Fds → System → System
run_call (dup_fd fd) p t s = after_call p s.procs (sys_dup fd t s.files)
run_call (close_fd fd) p t s = after_call p s.procs (sys_close fd t s.files)
run_call (make_pipe page copied) p t s = after_call p s.procs (sys_pipe page copied t s.files)
run_call (open_fd omode copied console found) p t s =
    after_call p s.procs (sys_open omode copied console found t s.files)
run_call fork_proc p t s = elim (unused s.procs) [
  | none ↦ s
  | some c ↦ record { procs = set s.procs c (some t); files = dup_each (open_files t) s.files }
]
run_call exit_proc p t s = record {
  procs = set s.procs p none;
  files = close_each (open_files t) s.files;
}

-- Any process calls; a slot that is unused makes no call.
unfoldable pub run_step : ℕ → Call → System → System
run_step p call s = elim (get_or s.procs p none) [ none ↦ s | some t ↦ run_call call p t s ]

unfoldable pub run : List (ℕ × Call) → System → System
run [] s = s
run ((p, call) ∷ calls) s = run calls (run_step p call s)

-- The first process, with n more slots and no open file.
abbrev pub start : ℕ → System
start n = record { procs = some (replicate nofile none) ∷ replicate n none; files = fileinit }
