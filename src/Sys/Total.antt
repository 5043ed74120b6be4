-- ===== src/Sys/Total.antt =====
-- The references in the table of kernel/core/file.c against the descriptors of all processes.
use ustc_26spring.Common.{
  ℕ, zero, suc, ◌+◌, ◌-◌, ◌≤◌, ◌<◌, ◌≡◌, ◌≢◌, refl, sym, ap, inl, inr, Option, none, some, List, [],
  ◌∷◌, get_or, set, replicate, length, arith, Option-cases,
}
use ustc_26spring.File.{File, no_file, fileinit, filealloc}
use ustc_26spring.Proc.Exit.{open_files}
use ustc_26spring.Sys.Fd.{Fds, sys_dup, sys_close, sys_pipe}
use ustc_26spring.Sys.Open.{sys_open}
use ustc_26spring.Sys.Counts.{
  occurs, refs, occurs_at, filealloc-refs, count, count-open_files, close_each-refs, dup_each-refs,
}
use ustc_26spring.Sys.Refs.{Matches, Keeps, sys_dup-Keeps, sys_close-Keeps}
use ustc_26spring.Sys.Ends.{sys_pipe-Keeps}
use ustc_26spring.Sys.Opening.{sys_open-Keeps}
use ustc_26spring.Sys.System.{
  Call, dup_fd, close_fd, make_pipe, open_fd, fork_proc, exit_proc, System, unused, after_call,
  run_call, run_step, run, start,
}

-- How many descriptors of all processes are of the file g.
abbrev pub held : ℕ → Option Fds → ℕ
held g none = 0
held g (some t) = occurs g t

abbrev pub total : ℕ → List (Option Fds) → ℕ
total g [] = 0
total g (o ∷ ps) = held g o + total g ps

total-set :
    (g : ℕ) (ps : List (Option Fds)) (p : ℕ) (o : Option Fds)
    → p < length ps
    → total g (set ps p o) + held g (get_or ps p none) ≡ total g ps + held g o
total-set g [] p o h = absurd (omega arith)
total-set g (q ∷ ps) zero o h = omega arith
total-set g (q ∷ ps) (suc p) o h = omega (arith, total-set g ps p o (omega arith))

present :
    (ps : List (Option Fds)) (p : ℕ) (t : Fds)
    → get_or ps p none ≡ some t
    → (p < length ps) × ((g : ℕ) → occurs g t ≤ total g ps)
present [] p t e = cc
present (o ∷ ps) zero t e = (omega arith, rw e (λ g. omega arith))
present (o ∷ ps) (suc p) t e =
    let (lt, h) = present ps p t e in (omega arith, λ g. omega (arith, h g))

unused-some :
    (ps : List (Option Fds)) {c : ℕ}
    → unused ps ≡ some c
    → (c < length ps) × (get_or ps c none ≡ none)
unfolding unused
unused-some [] e = cc
unused-some (none ∷ ps) {c = zero} e = (omega arith, refl)
unused-some (none ∷ ps) {c = suc c} e = absurd (ground arith)
unused-some (some t ∷ ps) {c} e = elim (Option-cases (unused ps)) [
  | inl n ↦ cc (rw (n, unused) at e)
  | inr (i, f) ↦
      let (lt, h) = unused-some ps f in
      let q : suc i ≡ c = ground arith in rw (sym q) (omega arith, h)
]

abbrev pub Consistent : System → Type 0
Consistent s = (g : ℕ) → refs s.files g ≡ total g s.procs

-- The process in slot p has the table t.
module _ (ps : List (Option Fds)) (p : ℕ) (t : Fds) (at : get_or ps p none ≡ some t) where
  elsewhere : ℕ → ℕ
  elsewhere g = total g ps - occurs g t

  replaced : (g : ℕ) (o : Option Fds) → total g (set ps p o) ≡ total g ps - occurs g t + held g o
  replaced g o =
      let (lt, h) = present ps p t at in omega (arith, total-set g ps p o lt, ap (held g) at, h g)

  split_off :
      (files : List File)
      → ((g : ℕ) → refs files g ≡ total g ps)
      → Matches (λ g. total g ps - occurs g t) t files
  split_off files h g = omega (arith, h g, (present ps p t at).1 g)

  after_call-Consistent :
      {X : Type 0} (r : X × Fds × List File)
      → Keeps (λ g. total g ps - occurs g t) r
      → Consistent (after_call p ps r)
  after_call-Consistent (x, u, files) k g = omega (arith, k g, replaced g (some u))

run_call-Consistent :
    (call : Call) (p : ℕ) (t : Fds) (s : System)
    → get_or s.procs p none ≡ some t
    → Consistent s
    → Consistent (run_call call p t s)
unfolding run_call
run_call-Consistent (dup_fd fd) p t s at h =
    after_call-Consistent s.procs p t at (sys_dup fd t s.files)
      (sys_dup-Keeps _ t s.files (split_off s.procs p t at s.files h) fd)
run_call-Consistent (close_fd fd) p t s at h =
    after_call-Consistent s.procs p t at (sys_close fd t s.files)
      (sys_close-Keeps _ t s.files (split_off s.procs p t at s.files h) fd)
run_call-Consistent (make_pipe page copied) p t s at h =
    after_call-Consistent s.procs p t at (sys_pipe page copied t s.files)
      (sys_pipe-Keeps _ t s.files (split_off s.procs p t at s.files h) copied page)
run_call-Consistent (open_fd omode copied console found) p t s at h =
    after_call-Consistent s.procs p t at (sys_open omode copied console found t s.files)
      (sys_open-Keeps _ t s.files (split_off s.procs p t at s.files h) omode copied console found)
run_call-Consistent fork_proc p t s at h = elim (Option-cases (unused s.procs)) [
  | inl n ↦ rw (n, run_call) h
  | inr (c, e) ↦
      let (lt, free) = unused-some s.procs e in
      let within : (g : ℕ) → count g (open_files t) ≤ refs s.files g =
        λ g. omega (arith, h g, (present s.procs p t at).1 g, count-open_files g t) in
      rw (e, run_call)
        (λ g. omega (
          arith,
          dup_each-refs (open_files t) s.files within g,
          h g,
          count-open_files g t,
          total-set g s.procs c (some t) lt,
          ap (held g) free,
        ))
]
run_call-Consistent exit_proc p t s at h = λ g. omega (
  arith,
  replaced s.procs p t at g none,
  close_each-refs (open_files t) s.files (λ k. total k s.procs - occurs k t)
      (λ k. omega (arith, split_off s.procs p t at s.files h k, count-open_files k t)) g,
)

pub run-Consistent :
    (calls : List (ℕ × Call)) (s : System) → Consistent s → Consistent (run calls s)
unfolding run run_step
run-Consistent [] s h = h
run-Consistent ((p, call) ∷ calls) s h = elim (Option-cases (get_or s.procs p none)) [
  | inl n ↦ rw (n, run, run_step) (run-Consistent calls s h)
  | inr (t, e) ↦
      rw (e, run, run_step)
        (run-Consistent calls (run_call call p t s) (run_call-Consistent call p t s e h))
]

none_held : (g n : ℕ) → total g (replicate n none) ≡ 0
none_held g zero = refl
none_held g (suc n) = omega (arith, none_held g n)

no_refs : (g n : ℕ) → refs (replicate n no_file) g ≡ 0
no_refs zero zero = refl
no_refs (suc g) zero = refl
no_refs zero (suc n) = refl
no_refs (suc g) (suc n) = no_refs g n

start-Consistent : (n : ℕ) → Consistent (start n)
unfolding fileinit
start-Consistent n g = omega (arith, none_held g n, no_refs g 64)

-- Whatever calls the processes make in whatever order, each file has as many references as there are
-- descriptors of it in all processes together.
pub run-refs :
    (n : ℕ) (calls : List (ℕ × Call)) (g : ℕ)
    → refs (run calls (start n)).files g ≡ total g (run calls (start n)).procs
run-refs n calls g = run-Consistent calls (start n) (start-Consistent n) g

-- Whatever calls the processes make in whatever order, the file that `filealloc` then finds is the
-- file of no descriptor of any process.
pub run-filealloc :
    (n : ℕ) (calls : List (ℕ × Call)) {f : ℕ} {u : List File}
    → filealloc 0 (run calls (start n)).files ≡ some (f, u)
    → (p : ℕ) (t : Fds) → get_or (run calls (start n)).procs p none ≡ some t
    → (fd : ℕ) → get_or t fd none ≢ some f
run-filealloc n calls {f} {u} e p t at fd at' =
    let (m, q, z, k) = filealloc-refs 0 (run calls (start n)).files e in
    let q' : m ≡ f = omega arith in
    let z' : refs (run calls (start n)).files f ≡ 0 = rw (sym q') z in
    omega (
      arith,
      z',
      run-refs n calls f,
      (present (run calls (start n)).procs p t at).1 f,
      (occurs_at t fd f at').1,
    )
