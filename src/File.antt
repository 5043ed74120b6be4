-- ===== src/File.antt =====
-- The table of open files of kernel/core/file.c. Each function holds the table's lock, but for the
-- close of the object behind a file, which `fileclose` hands on. A file is named by its slot.
pub mod Refs
pub mod Tests
use ustc_26spring.Common.{
  ℕ, zero, suc, ◌+◌, ◌-◌, Bool, true, false, ltb, ◌==◌, if◌then◌else◌, Option, none, some, List, [],
  ◌∷◌, get_or, set, replicate,
}

-- `enum filetype`
pub data Kind : Type 0 where
  fd_none fd_pipe fd_console fd_inode : Kind

-- `struct file`; a pipe or an inode is a handle.
pub record File : Type 0 where
  pub kind : Kind
  pub ref : ℕ
  pub readable : Bool
  pub writable : Bool
  pub pipe : Option ℕ
  pub ip : Option ℕ
  pub off : ℕ

abbrev pub nfile : ℕ
nfile = 64

abbrev pub no_file : File
no_file = record {
  kind = fd_none;
  ref = 0;
  readable = false;
  writable = false;
  pipe = none;
  ip = none;
  off = 0;
}

unfoldable pub fileinit : List File
fileinit = replicate nfile no_file

abbrev pub file_at : ℕ → List File → File
file_at i t = get_or t i no_file

-- The loop of `filealloc` from slot i on: the slot, and the table.
unfoldable pub filealloc : ℕ → List File → Option (ℕ × List File)
filealloc i [] = none
filealloc i (f ∷ t) = elim (f.ref == 0) [
  | true ↦ some (i, record no_file { ref = 1 } ∷ t)
  | false ↦ elim (filealloc (i + 1) t) [ none ↦ none | some (j, u) ↦ some (j, f ∷ u) ]
]

-- `filedup`: whether it returns the file.
unfoldable pub filedup : ℕ → List File → Bool × List File
filedup i t =
    if ltb (file_at i t).ref 1
    then (false, t)
    else (true, set t i (record (file_at i t) { ref = (file_at i t).ref + 1 }))

-- What `fileclose` calls at its end: nothing, `pipeclose` or `iput`.
pub data Release : Type 0 where
  nothing : Release
  close_pipe : ℕ → Bool → Release
  put_inode : ℕ → Release

abbrev pub release_pipe : Option ℕ → Bool → Release
release_pipe none writable = nothing
release_pipe (some p) writable = close_pipe p writable

abbrev pub release_inode : Option ℕ → Release
release_inode none = nothing
release_inode (some ip) = put_inode ip

-- The end of `fileclose`, for the last reference to a file of a kind.
abbrev pub release_of : Kind → File → Release
release_of fd_none f = nothing
release_of fd_pipe f = release_pipe f.pipe f.writable
release_of fd_console f = nothing
release_of fd_inode f = release_inode f.ip

unfoldable pub fileclose : ℕ → List File → Release × List File
fileclose i t =
    if ltb (file_at i t).ref 1
    then (nothing, t)
    else if ltb 0 ((file_at i t).ref - 1)
    then (nothing, set t i (record (file_at i t) { ref = (file_at i t).ref - 1 }))
    else (release_of (file_at i t).kind (file_at i t), set t i no_file)
