-- ===== src/Sys/Opening.antt =====
-- `sys_open` of kernel/core/syscall.c, for the counts of references.
use ustc_26spring.Common.{
  ℕ, ◌≤◌, ◌≡◌, refl, ◌∙◌, inl, inr, Bool, true, false, ◌==◌, ◌&&◌, ◌||◌, Option, none, some, List,
  get_or, set, arith, Bool-cases, Option-cases, get_or-set_self,
}
use ustc_26spring.File.{File, file_at, filealloc}
use ustc_26spring.Sys.Fd.{Fds, free_fd, fdalloc}
use ustc_26spring.Sys.Counts.{refs, occurs_at, inside_of, refs-set, fileclose-refs}
use ustc_26spring.Sys.Refs.{Matches, Keeps, one_more, taken_up, given_up}
use ustc_26spring.Sys.Ends.{inside_and_free}
use ustc_26spring.Sys.Open.{
  may_write, t_dir, Effect, leave, put, console_file, inode_file, give_back, open_as, open_inode,
  sys_open,
}

-- A file that is replaced by one with as many references.
replaced :
    (f : ℕ) (x : File) (files : List File)
    → 1 ≤ refs files f
    → x.ref ≡ refs files f
    → (g : ℕ) → refs (set files f x) g ≡ refs files g
replaced f x files h e g = refs-set files f g x (inside_of f files h) ∙ ground arith

-- Descriptor fd is of the file f.
module _ (others : ℕ → ℕ) (t : Fds) (fd f : ℕ) (at : get_or t fd none ≡ some f) where
  give_back-Keeps :
      (effect : Effect) (files : List File)
      → Matches others t files
      → Keeps others (give_back effect fd f t files)
  give_back-Keeps effect files h g =
      let live : 1 ≤ refs files f = omega (arith, h f, (occurs_at t fd f at).1) in
      omega (arith, h g, fileclose-refs files f live g, given_up t fd f at g)

  open_as-Keeps :
      (effect : Effect) (x : File) (files : List File)
      → x.ref ≡ refs files f
      → Matches others t files
      → Keeps others (open_as effect x fd f t files)
  unfolding open_as
  open_as-Keeps effect x files e h =
      let live : 1 ≤ refs files f = omega (arith, h f, (occurs_at t fd f at).1) in
      let same : Matches others t (set files f x) = λ g. replaced f x files live e g ∙ h g in
      elim (Bool-cases (x.readable || x.writable)) [
        | inl q ↦ rw (q, open_as) same
        | inr q ↦ rw (q, open_as) (give_back-Keeps effect (set files f x) same)
      ]

  open_inode-Keeps :
      (omode : ℕ) (found : Option (ℕ × ℕ)) (files : List File)
      → Matches others t files
      → Keeps others (open_inode omode found fd f t files)
  unfolding open_inode
  open_inode-Keeps omode none files h = give_back-Keeps leave files h
  open_inode-Keeps omode (some (ip, kind)) files h =
      elim (Bool-cases (kind == t_dir && may_write omode)) [
        | inl q ↦ rw (q, open_inode) (give_back-Keeps (put ip) files h)
        | inr q ↦
            rw (q, open_inode)
              (open_as-Keeps _ (inode_file ip omode (file_at f files)) files refl h)
      ]

pub sys_open-Keeps :
    (others : ℕ → ℕ) (t : Fds) (files : List File)
    → Matches others t files
    → (omode : ℕ) (copied console : Bool) (found : Option (ℕ × ℕ))
    → Keeps others (sys_open omode copied console found t files)
unfolding sys_open fdalloc
sys_open-Keeps others t files h omode false console found = h
sys_open-Keeps others t files h omode true console found = elim (Option-cases (filealloc 0 files)) [
  | inl n ↦ rw (n, sys_open) h
  | inr ((f, u), e) ↦ elim (Option-cases (free_fd 0 t)) [
    | inl n ↦
        rw (e, n, sys_open, fdalloc)
          (λ g. omega (
            arith,
            h g,
            one_more files e g,
            fileclose-refs u f (ground (arith, one_more files e f)) g,
          ))
    | inr (fd, e') ↦
        let (lt, unused) = inside_and_free t e' in
        let at = get_or-set_self t fd (some f) none lt in
        let m : Matches others (set t fd (some f)) u =
          λ g. omega (arith, h g, one_more files e g, taken_up t fd f e' g) in
        elim (Bool-cases console) [
          | inl q ↦
              rw (e, e', q, sys_open, fdalloc)
                (open_as-Keeps others (set t fd (some f)) fd f at leave
                  (console_file omode (file_at f u)) u refl m)
          | inr q ↦
              rw (e, e', q, sys_open, fdalloc)
                (open_inode-Keeps others (set t fd (some f)) fd f at omode found u m)
        ]
  ]
]
