-- ===== src/Sys/Fd.antt =====
-- Descriptors: `fdalloc`, `sys_dup`, `sys_close` and `sys_pipe` of kernel/core/syscall.c with
-- `pipealloc` of kernel/core/pipe.c, and what `fork` and `proc_exit` of kernel/core/proc.c do to the
-- open files. A process is its table `ofile`; -1 is `none`.
use ustc_26spring.Common.{
  ℕ, ◌+◌, Bool, true, false, ltb, if◌then◌else◌, Option, none, some, List, [], ◌∷◌, get_or, set,
}
use ustc_26spring.Common.Int.{ℤ, pos, negsuc}
use ustc_26spring.File.{File, fd_pipe, file_at, filealloc, filedup, fileclose, Release}
use ustc_26spring.Proc.Table.{nofile}

abbrev pub Fds : Type 0
Fds = List (Option ℕ)

-- The file of a descriptor that is in range and in use.
abbrev pub file_of : ℤ → Fds → Option ℕ
file_of (pos fd) t = if ltb fd nofile then get_or t fd none else none
file_of (negsuc n) t = none

-- The first free descriptor from i on.
unfoldable pub free_fd : ℕ → Fds → Option ℕ
free_fd i [] = none
free_fd i (none ∷ t) = some i
free_fd i (some f ∷ t) = free_fd (i + 1) t

unfoldable pub fdalloc : ℕ → Fds → Option (ℕ × Fds)
unfolding free_fd
fdalloc f t = elim (free_fd 0 t) [ none ↦ none | some i ↦ some (i, set t i (some f)) ]

unfoldable pub sys_dup : ℤ → Fds → List File → Option ℕ × Fds × List File
unfolding free_fd
sys_dup fd t files = elim (file_of fd t) [
  | none ↦ (none, t, files)
  | some f ↦ elim (free_fd 0 t) [
    | none ↦ (none, t, files)
    | some i ↦
        let (found, files') = filedup f files in
        elim found [ true ↦ (some i, set t i (some f), files') | false ↦ (none, t, files') ]
  ]
]

-- The index of a descriptor of type int that is in range.
abbrev pub fd_index : ℤ → ℕ
fd_index (pos fd) = fd
fd_index (negsuc n) = 0

-- What `sys_close` returns and hands on, the table and the files.
unfoldable pub sys_close : ℤ → Fds → List File → Option Release × Fds × List File
sys_close fd t files = elim (file_of fd t) [
  | none ↦ (none, t, files)
  | some f ↦ let (r, files') = fileclose f files in (some r, set t (fd_index fd) none, files')
]

-- The ends of the pipe with handle p.
abbrev pub pipe_end : Bool → ℕ → File → File
pipe_end writable p f = record f {
  kind = fd_pipe;
  readable = if writable then false else true;
  writable = writable;
  pipe = some p;
}

abbrev pub set_end : Bool → ℕ → ℕ → List File → List File
set_end writable p i files = set files i (pipe_end writable p (file_at i files))

-- `pipealloc`, where `page` is the page that `kalloc` has for the pipe: the two files.
unfoldable pub pipealloc : Option ℕ → List File → Option (ℕ × ℕ) × List File
pipealloc page files = elim (filealloc 0 files) [
  | none ↦ (none, files)
  | some (f0, files0) ↦ elim (filealloc 0 files0) [
    | none ↦ (none, (fileclose f0 files0).1)
    | some (f1, files1) ↦ elim page [
      | none ↦ (none, (fileclose f1 (fileclose f0 files1).1).1)
      | some p ↦ (some (f0, f1), set_end true p f1 (set_end false p f0 files1))
    ]
  ]
]

-- `sys_pipe` after its call of `pipealloc`; `copied` is whether both copies to the caller succeed.
unfoldable pub pipe_fds : Bool → Fds → Option (ℕ × ℕ) × List File → Option (ℕ × ℕ) × Fds × List File
unfolding fdalloc
pipe_fds copied t (none, files) = (none, t, files)
pipe_fds copied t (some (rf, wf), files) = elim (fdalloc rf t) [
  | none ↦ (none, t, (fileclose wf (fileclose rf files).1).1)
  | some (fd0, t0) ↦ elim (fdalloc wf t0) [
    | none ↦ (none, set t0 fd0 none, (fileclose wf (fileclose rf files).1).1)
    | some (fd1, t1) ↦ elim copied [
      | true ↦ (some (fd0, fd1), t1, files)
      | false ↦ (none, set (set t1 fd0 none) fd1 none, (fileclose wf (fileclose rf files).1).1)
    ]
  ]
]

abbrev pub sys_pipe : Option ℕ → Bool → Fds → List File → Option (ℕ × ℕ) × Fds × List File
sys_pipe page copied t files = pipe_fds copied t (pipealloc page files)

-- The loop of `proc_exit` over the open files, and that of `fork`.
unfoldable pub close_each : List ℕ → List File → List File
close_each [] files = files
close_each (f ∷ fs) files = close_each fs (fileclose f files).1

unfoldable pub dup_each : List ℕ → List File → List File
dup_each [] files = files
dup_each (f ∷ fs) files = dup_each fs (filedup f files).1
