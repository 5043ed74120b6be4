-- ===== src/Sys/Refs.antt =====
-- The steps of the calls of kernel/core/syscall.c on the descriptors of one process, for the counts of
-- references in the table of kernel/core/file.c.
use ustc_26spring.Common.{
  ℕ, ◌+◌, ◌≤◌, ◌≡◌, refl, ap, ◌∙◌, inl, inr, Bool, true, false, Option, none, some, List, get_or,
  set, arith, Option-cases,
}
use ustc_26spring.Common.Int.{ℤ, pos, negsuc}
use ustc_26spring.File.{File, file_at, fileclose, filealloc}
use ustc_26spring.Sys.Fd.{
  Fds, file_of, free_fd, fd_index, sys_dup, sys_close, pipe_end, set_end, pipealloc,
}
use ustc_26spring.Sys.Counts.{
  one, occurs, refs, occurs-set, occurs_at, free_fd-some, inside_of, refs-set, filedup-refs,
  fileclose-refs, filealloc-refs,
}

-- A table of files in which each reference is a descriptor of the table t, or one of the others.
abbrev pub Matches : (ℕ → ℕ) → Fds → List File → Type 0
Matches others t files = (g : ℕ) → refs files g ≡ others g + occurs g t

file_of-some :
    (fd : ℤ) (t : Fds) {f : ℕ} → file_of fd t ≡ some f → get_or t (fd_index fd) none ≡ some f
file_of-some (pos fd) t e = ground arith
file_of-some (negsuc n) t e = cc

-- The table with the file f in the free descriptor i.
pub taken_up :
    (t : Fds) (i f : ℕ)
    → free_fd 0 t ≡ some i
    → (g : ℕ) → occurs g (set t i (some f)) ≡ occurs g t + one g (some f)
taken_up t i f e g =
    let (m, q, lt, h) = free_fd-some 0 t e in
    let q' : i ≡ m = omega arith in rw q' (let s = occurs-set g t m (some f) lt in ground arith)

-- The table without the file f of descriptor i.
pub given_up :
    (t : Fds) (i f : ℕ)
    → get_or t i none ≡ some f
    → (g : ℕ) → occurs g (set t i none) + one g (some f) ≡ occurs g t
given_up t i f e g =
    let (lt, h) = occurs_at t i f e in
    let s = occurs-set g t i none lt in omega (arith, s, ap (one g) e)

abbrev pub Keeps : {X : Type 0} → (ℕ → ℕ) → X × Fds × List File → Type 0
Keeps others (x, t, files) = Matches others t files

module _ (others : ℕ → ℕ) (t : Fds) (files : List File) (h : Matches others t files) where
  live : (i f : ℕ) → get_or t i none ≡ some f → 1 ≤ refs files f
  live i f e = omega (arith, h f, (occurs_at t i f e).1)

  pub sys_dup-Keeps : (fd : ℤ) → Keeps others (sys_dup fd t files)
  unfolding sys_dup
  sys_dup-Keeps fd = elim (Option-cases (file_of fd t)) [
    | inl n ↦ rw (n, sys_dup) h
    | inr (f, e) ↦ elim (Option-cases (free_fd 0 t)) [
      | inl n ↦ rw (e, n, sys_dup) h
      | inr (i, free) ↦
          let d = filedup-refs files f (live (fd_index fd) f (file_of-some fd t e)) in
          rw (e, free, d.0, sys_dup) (λ g. omega (arith, h g, d.1 g, taken_up t i f free g))
    ]
  ]

  pub sys_close-Keeps : (fd : ℤ) → Keeps others (sys_close fd t files)
  unfolding sys_close
  sys_close-Keeps fd = elim (Option-cases (file_of fd t)) [
    | inl n ↦ rw (n, sys_close) h
    | inr (f, e) ↦
        let at = file_of-some fd t e in
        rw (e, sys_close)
          (λ g. omega (
            arith,
            h g,
            fileclose-refs files f (live (fd_index fd) f at) g,
            given_up t (fd_index fd) f at g,
          ))
  ]

set_end-refs :
    (w : Bool) (p i : ℕ) (files : List File)
    → 1 ≤ refs files i
    → (g : ℕ) → refs (set_end w p i files) g ≡ refs files g
set_end-refs w p i files h g =
    let s = refs-set files i g (pipe_end w p (file_at i files)) (inside_of i files h) in
    s ∙ ground arith

-- The table with one more reference, to the new file.
pub one_more :
    (files : List File) {f : ℕ} {u : List File}
    → filealloc 0 files ≡ some (f, u)
    → (g : ℕ) → refs u g ≡ refs files g + one g (some f)
one_more files {f} {u} e g =
    let (m, p, z, k) = filealloc-refs 0 files e in let p' : f ≡ m = omega arith in rw p' (k g)

-- The table with one reference less to each of two files.
pub two_fewer :
    (files v : List File) (a b : ℕ)
    → ((g : ℕ) → refs v g ≡ refs files g + one g (some a) + one g (some b))
    → (g : ℕ) → refs (fileclose b (fileclose a v).1).1 g ≡ refs files g
two_fewer files v a b h g =
    let ca = fileclose-refs v a (ground (arith, h a)) in
    let cb = fileclose-refs (fileclose a v).1 b (grind (arith, h b, ca b)) in
    omega (arith, h g, ca g, cb g)

-- The references after `pipealloc`, which gains both ends or nothing.
abbrev pub PipeRefs : List File → Option (ℕ × ℕ) × List File → Type 0
PipeRefs files (none, u) = (g : ℕ) → refs u g ≡ refs files g
PipeRefs files (some (a, b), u) =
    (g : ℕ) → refs u g ≡ refs files g + one g (some a) + one g (some b)

both_ends :
    (p a b : ℕ) (files v : List File)
    → ((g : ℕ) → refs v g ≡ refs files g + one g (some a) + one g (some b))
    → PipeRefs files (some (a, b), set_end true p b (set_end false p a v))
both_ends p a b files v h g =
    let sa = set_end-refs false p a v (ground (arith, h a)) in
    let sb = set_end-refs true p b (set_end false p a v) (grind (arith, h b, sa b)) in
    sb g ∙ sa g ∙ h g

pub pipealloc-PipeRefs :
    (page : Option ℕ) (files : List File) → PipeRefs files (pipealloc page files)
unfolding pipealloc
pipealloc-PipeRefs page files = elim (Option-cases (filealloc 0 files)) [
  | inl n ↦ rw (n, pipealloc) (λ g. refl)
  | inr ((a, u), e) ↦ elim (Option-cases (filealloc 0 u)) [
    | inl n ↦
        rw (e, n, pipealloc)
          (λ g.
            omega (
              arith,
              one_more files e g,
              fileclose-refs u a (ground (arith, one_more files e a)) g,
            ))
    | inr ((b, v), e') ↦
        let both : (g : ℕ) → refs v g ≡ refs files g + one g (some a) + one g (some b) =
          λ g. omega (arith, one_more files e g, one_more u e' g) in
        elim (Option-cases page) [
          | inl n ↦ rw (e, e', n, pipealloc) (two_fewer files v a b both)
          | inr (p, e'') ↦ rw (e, e', e'', pipealloc) (both_ends p a b files v both)
        ]
  ]
]
