-- ===== src/Sys/Open.antt =====
-- `sys_open` of kernel/core/syscall.c. What it is told from elsewhere are arguments: whether the path
-- could be copied, whether it is "console", and the inode with its type that `create` or `namei` has
-- for it. What it does to the inode is handed on, `iput` or `itrunc`.
use ustc_26spring.Common.{
  ℕ, Bool, true, false, ◌==◌, ◌&&◌, ◌||◌, not, if◌then◌else◌, Option, none, some, List, set,
}
use ustc_26spring.File.{File, fd_console, fd_inode, file_at, filealloc, fileclose}
use ustc_26spring.Fs.Bits.{has_bit}
use ustc_26spring.Sys.Fd.{Fds, fdalloc}

-- The flags of an opening mode: the bits of O_WRONLY, O_RDWR and O_TRUNC.
abbrev pub may_read : ℕ → Bool
may_read omode = not (has_bit omode 0)

abbrev pub may_write : ℕ → Bool
may_write omode = has_bit omode 0 || has_bit omode 1

abbrev pub truncates : ℕ → Bool
truncates omode = has_bit omode 10

abbrev pub t_dir : ℕ
t_dir = 1

abbrev pub t_file : ℕ
t_file = 2

-- What is left to do to an inode.
pub data Effect : Type 0 where
  leave : Effect
  put : ℕ → Effect
  trunc : ℕ → Effect

abbrev pub Opened : Type 0
Opened = (Option ℕ × Effect) × Fds × List File

-- The descriptor and the file are given back.
abbrev pub give_back : Effect → ℕ → ℕ → Fds → List File → Opened
give_back effect fd f t files = ((none, effect), set t fd none, (fileclose f files).1)

-- The console and an inode, as a file.
abbrev pub console_file : ℕ → File → File
console_file omode f = record f {
  kind = fd_console;
  readable = may_read omode;
  writable = may_write omode;
}

abbrev pub inode_file : ℕ → ℕ → File → File
inode_file ip omode f = record f {
  kind = fd_inode;
  ip = some ip;
  off = 0;
  readable = may_read omode;
  writable = may_write omode;
}

-- The file is set up as x, and given back when it could be neither read nor written.
unfoldable pub open_as : Effect → File → ℕ → ℕ → Fds → List File → Opened
open_as effect x fd f t files =
    if x.readable || x.writable
    then ((some fd, effect), t, set files f x)
    else give_back effect fd f t (set files f x)

-- An inode with its type is opened.
unfoldable pub open_inode : ℕ → Option (ℕ × ℕ) → ℕ → ℕ → Fds → List File → Opened
open_inode omode none fd f t files = give_back leave fd f t files
open_inode omode (some (ip, kind)) fd f t files =
    if kind == t_dir && may_write omode
    then give_back (put ip) fd f t files
    else open_as (if truncates omode && kind == t_file then trunc ip else leave)
        (inode_file ip omode (file_at f files)) fd f t files

unfoldable pub sys_open : ℕ → Bool → Bool → Option (ℕ × ℕ) → Fds → List File → Opened
sys_open omode false console found t files = ((none, leave), t, files)
sys_open omode true console found t files = elim (filealloc 0 files) [
  | none ↦ ((none, leave), t, files)
  | some (f, files0) ↦ elim (fdalloc f t) [
    | none ↦ ((none, leave), t, (fileclose f files0).1)
    | some (fd, t0) ↦
        if console
        then open_as leave (console_file omode (file_at f files0)) fd f t0 files0
        else open_inode omode found fd f t0 files0
  ]
]
