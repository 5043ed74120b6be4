-- ===== src/Sys/Ends.antt =====
-- `sys_pipe` of kernel/core/syscall.c, for the counts of references.
use ustc_26spring.Common.{
  ℕ, ◌+◌, ◌<◌, ◌≡◌, ◌≢◌, sym, ◌∙◌, inl, inr, Bool, true, false, Option, none, some, List, get_or,
  set, length, arith, Option-cases, get_or-set_self, get_or-set_ne,
}
use ustc_26spring.File.{File, fileclose}
use ustc_26spring.Sys.Fd.{Fds, free_fd, fdalloc, pipealloc, pipe_fds, sys_pipe}
use ustc_26spring.Sys.Counts.{one, occurs, refs, free_fd-some}
use ustc_26spring.Sys.Refs.{
  Matches, Keeps, PipeRefs, pipealloc-PipeRefs, two_fewer, taken_up, given_up,
}

-- A descriptor that `free_fd` finds is in range and unused.
pub inside_and_free :
    (t : Fds) {i : ℕ} → free_fd 0 t ≡ some i → (i < length t) × (get_or t i none ≡ none)
inside_and_free t {i} e =
    let (m, q, lt, h) = free_fd-some 0 t e in let q' : i ≡ m = omega arith in rw q' (lt, h)

first_back :
    (t : Fds) (a : ℕ) {i : ℕ}
    → free_fd 0 t ≡ some i
    → (g : ℕ) → occurs g (set (set t i (some a)) i none) ≡ occurs g t
first_back t a {i} e g =
    let (lt, n) = inside_and_free t e in
    omega (
      arith,
      taken_up t i a e g,
      given_up (set t i (some a)) i a (get_or-set_self t i (some a) none lt) g,
    )

-- Two descriptors that are taken and given back.
module _ (t : Fds) (a b : ℕ) {i j : ℕ} (e : free_fd 0 t ≡ some i)
    (e' : free_fd 0 (set t i (some a)) ≡ some j) where
  apart : j ≢ i
  apart q =
      let (lt, n) = inside_and_free t e in
      let n' = (inside_and_free (set t i (some a)) e').1 in
      cc (rw (q, get_or-set_self t i (some a) none lt) at n')

  both_back :
      (g : ℕ) → occurs g (set (set (set (set t i (some a)) j (some b)) i none) j none) ≡ occurs g t
  both_back g =
      let (lt, n) = inside_and_free t e in
      let (lt', n') = inside_and_free (set t i (some a)) e' in
      let t1 = set (set t i (some a)) j (some b) in
      let at_i : get_or t1 i none ≡ some a =
        get_or-set_ne (set t i (some a)) j i (some b) none apart
        ∙ get_or-set_self t i (some a) none lt in
      let at_j : get_or (set t1 i none) j none ≡ some b =
        get_or-set_ne t1 i j none none (λ q. apart (sym q))
        ∙ get_or-set_self (set t i (some a)) j (some b) none lt' in
      omega (
        arith,
        taken_up t i a e g,
        taken_up (set t i (some a)) j b e' g,
        given_up t1 i a at_i g,
        given_up (set t1 i none) j b at_j g,
      )

module _ (others : ℕ → ℕ) (t : Fds) (files : List File) (h : Matches others t files)
    (copied : Bool) where
  -- `sys_pipe` with the files of the pipe.
  both_taken :
      (a b : ℕ) (v : List File)
      → ((g : ℕ) → refs v g ≡ refs files g + one g (some a) + one g (some b))
      → Keeps others (pipe_fds copied t (some (a, b), v))
  unfolding pipe_fds fdalloc
  both_taken a b v k =
      let closed = two_fewer files v a b k in
      elim (Option-cases (free_fd 0 t)) [
        | inl n ↦ rw (n, pipe_fds, fdalloc) (λ g. closed g ∙ h g)
        | inr (i, e) ↦ elim (Option-cases (free_fd 0 (set t i (some a)))) [
          | inl n ↦
              rw (e, n, pipe_fds, fdalloc) (λ g. omega (arith, h g, closed g, first_back t a e g))
          | inr (j, e') ↦ go copied i j e e' closed
        ]
      ]
    where
      go :
          (copied : Bool) (i j : ℕ)
          → free_fd 0 t ≡ some i
          → free_fd 0 (set t i (some a)) ≡ some j
          → ((g : ℕ) → refs (fileclose b (fileclose a v).1).1 g ≡ refs files g)
          → Keeps others (pipe_fds copied t (some (a, b), v))
      go true i j e e' closed =
          rw (e, e', pipe_fds, fdalloc)
            (λ g. omega (arith, h g, k g, taken_up t i a e g, taken_up (set t i (some a)) j b e' g))
      go false i j e e' closed =
          rw (e, e', pipe_fds, fdalloc) (λ g. omega (arith, h g, closed g, both_back t a b e e' g))

  pub sys_pipe-Keeps : (page : Option ℕ) → Keeps others (sys_pipe page copied t files)
  unfolding pipe_fds
  sys_pipe-Keeps page = go (pipealloc page files) (pipealloc-PipeRefs page files)
    where
      go : (r : Option (ℕ × ℕ) × List File) → PipeRefs files r → Keeps others (pipe_fds copied t r)
      go (none, v) k = λ g. k g ∙ h g
      go (some (a, b), v) k = both_taken a b v k
