-- ===== src/Sys/Counts.antt =====
-- How often a file stands in the descriptors of a process, and what the steps of the system calls do
-- to these counts and to the references of kernel/core/file.c.
use ustc_26spring.Common.{
  ℕ, zero, suc, ◌+◌, ◌-◌, ◌≤◌, ◌<◌, ◌≡◌, refl, ap, inl, inr, true, false, ltb, ◌==◌, if◌then◌else◌,
  Option, none, some, List, [], ◌∷◌, get_or, set, length, arith, Bool-cases, Option-cases,
  get_or-set_self, get_or-set_ne,
}
use ustc_26spring.File.{File, no_file, file_at, filedup, fileclose, filealloc}
use ustc_26spring.Proc.Exit.{open_files}
use ustc_26spring.Sys.Fd.{Fds, free_fd, close_each, dup_each}

-- One for the file of a descriptor.
abbrev pub one : ℕ → Option ℕ → ℕ
one g none = 0
one g (some f) = if g == f then 1 else 0

abbrev pub occurs : ℕ → Fds → ℕ
occurs g [] = 0
occurs g (o ∷ t) = one g o + occurs g t

abbrev pub refs : List File → ℕ → ℕ
refs files g = (file_at g files).ref

pub occurs-set :
    (g : ℕ) (t : Fds) (i : ℕ) (o : Option ℕ)
    → i < length t
    → occurs g (set t i o) + one g (get_or t i none) ≡ occurs g t + one g o
occurs-set g [] i o h = absurd (omega arith)
occurs-set g (p ∷ t) zero o h = omega arith
occurs-set g (p ∷ t) (suc i) o h = omega (arith, occurs-set g t i o (omega arith))

pub occurs_at : (t : Fds) (i f : ℕ) → get_or t i none ≡ some f → (i < length t) × (1 ≤ occurs f t)
occurs_at [] i f e = cc
occurs_at (o ∷ t) zero f e = (omega arith, rw e (ground arith))
occurs_at (o ∷ t) (suc i) f e = let (lt, h) = occurs_at t i f e in (omega arith, omega arith)

-- The free descriptor that is found.
pub free_fd-some :
    (i : ℕ) (t : Fds) {j : ℕ}
    → free_fd i t ≡ some j
    → (m : ℕ) × (j ≡ i + m) × (m < length t) × (get_or t m none ≡ none)
unfolding free_fd
free_fd-some i [] e = cc
free_fd-some i (none ∷ t) e = (0, ground arith, omega arith, refl)
free_fd-some i (some f ∷ t) e =
    let (m, q, lt, h) = free_fd-some (i + 1) t e in (suc m, omega arith, omega arith, h)

-- A file with references is in the table.
pub inside_of : (g : ℕ) (files : List File) → 1 ≤ refs files g → g < length files
inside_of g [] h = absurd (omega arith)
inside_of zero (f ∷ files) h = omega arith
inside_of (suc g) (f ∷ files) h = omega (arith, inside_of g files h)

pub refs-set :
    (files : List File) (f g : ℕ) (x : File)
    → f < length files
    → refs (set files f x) g ≡ (if g == f then x.ref else refs files g)
refs-set files f g x lt = elim (Bool-cases (g == f)) [
  | inl e ↦
      let q : g ≡ f = ground arith in
      rw (e, q) (ap (λ (y : File). y.ref) (get_or-set_self files f x no_file lt))
  | inr ne ↦
      rw ne (ap (λ (y : File). y.ref) (get_or-set_ne files f g x no_file (λ q. ground arith)))
]

module _ (files : List File) (f : ℕ) (h : 1 ≤ refs files f) where
  pub filedup-refs :
      ((filedup f files).0 ≡ true)
      × ((g : ℕ) → refs (filedup f files).1 g ≡ refs files g + one g (some f))
  unfolding filedup
  filedup-refs =
      let live : ltb (file_at f files).ref 1 ≡ false = ground arith in
      rw live (
        refl,
        λ g. ground (
          arith,
          refs-set files f g (record (file_at f files) { ref = (file_at f files).ref + 1 })
              (inside_of f files h),
        ),
      )

  pub fileclose-refs : (g : ℕ) → refs (fileclose f files).1 g + one g (some f) ≡ refs files g
  unfolding fileclose
  fileclose-refs g =
      let live : ltb (file_at f files).ref 1 ≡ false = ground arith in
      let lt = inside_of f files h in
      rw live (elim (Bool-cases (ltb 0 ((file_at f files).ref - 1))) [
        | inl more ↦ rw more (
            ground (
              arith,
              refs-set files f g (record (file_at f files) { ref = (file_at f files).ref - 1 }) lt,
            ))
        | inr last ↦ rw last (ground (arith, refs-set files f g no_file lt))
      ])

filealloc-free :
    (i : ℕ) (f : File) (files : List File) {r : ℕ × List File}
    → filealloc i (f ∷ files) ≡ some r
    → f.ref == 0 ≡ true
    → r ≡ (i, record no_file { ref = 1 } ∷ files)
unfolding filealloc
filealloc-free i f files e free = ground arith

filealloc-used :
    (i : ℕ) (f : File) (files : List File) {r : ℕ × List File}
    → filealloc i (f ∷ files) ≡ some r
    → f.ref == 0 ≡ false
    → (q : ℕ × List File) × (filealloc (i + 1) files ≡ some q) × (r ≡ (q.0, f ∷ q.1))
unfolding filealloc
filealloc-used i f files {r} e used = elim (Option-cases (filealloc (i + 1) files)) [
  | inl n ↦ cc (rw (used, n, filealloc) at e)
  | inr (q, h) ↦ (q, h, ground arith)
]

-- The file that `filealloc` finds, and the references then.
abbrev pub FirstFree : ℕ → List File → ℕ × List File → Type 0
FirstFree i files r =
    (m : ℕ) × (r.0 ≡ i + m)
    × (refs files m ≡ 0)
    × ((g : ℕ) → refs r.1 g ≡ refs files g + one g (some m))

free_head :
    (f : File) (files : List File)
    → f.ref ≡ 0
    → (g : ℕ) → refs (record no_file { ref = 1 } ∷ files) g ≡ refs (f ∷ files) g + one g (some 0)
free_head f files z zero = grind arith
free_head f files z (suc g) = grind arith

used_head :
    (f : File) (files us : List File) (m : ℕ)
    → ((g : ℕ) → refs us g ≡ refs files g + one g (some m))
    → (g : ℕ) → refs (f ∷ us) g ≡ refs (f ∷ files) g + one g (some (suc m))
used_head f files us m h zero = grind arith
used_head f files us m h (suc g) = grind (arith, h g)

pub filealloc-refs :
    (i : ℕ) (files : List File) {r : ℕ × List File}
    → filealloc i files ≡ some r
    → FirstFree i files r
unfolding filealloc
filealloc-refs i [] e = cc
filealloc-refs i (f ∷ files) {r} e = elim (Bool-cases (f.ref == 0)) [
  | inl free ↦
      rw (filealloc-free i f files e free)
        (0, omega arith, ground arith, free_head f files (ground arith))
  | inr used ↦
      let (q, h, eq) = filealloc-used i f files e used in
      let (m, p, z, k) = filealloc-refs (i + 1) files h in
      rw eq (suc m, omega arith, z, used_head f files q.1 m k)
]

-- A list of files that are closed one by one, and duplicated one by one.
abbrev pub count : ℕ → List ℕ → ℕ
count g [] = 0
count g (f ∷ fs) = one g (some f) + count g fs

pub count-open_files : (g : ℕ) (t : Fds) → count g (open_files t) ≡ occurs g t
count-open_files g [] = refl
count-open_files g (none ∷ t) = omega (arith, count-open_files g t)
count-open_files g (some f ∷ t) = omega (arith, count-open_files g t)

pub close_each-refs :
    (fs : List ℕ) (files : List File) (others : ℕ → ℕ)
    → ((g : ℕ) → refs files g ≡ others g + count g fs)
    → (g : ℕ) → refs (close_each fs files) g ≡ others g
unfolding close_each
close_each-refs [] files others h g = omega (arith, h g)
close_each-refs (f ∷ fs) files others h g =
    close_each-refs fs (fileclose f files).1 others
      (λ k. omega (arith, h k, fileclose-refs files f (ground (arith, h f)) k)) g

pub dup_each-refs :
    (fs : List ℕ) (files : List File)
    → ((g : ℕ) → count g fs ≤ refs files g)
    → (g : ℕ) → refs (dup_each fs files) g ≡ refs files g + count g fs
unfolding dup_each
dup_each-refs [] files h g = omega arith
dup_each-refs (f ∷ fs) files h g =
    let d = filedup-refs files f (ground (arith, h f)) in
    omega (arith, dup_each-refs fs (filedup f files).1 (λ k. omega (arith, h k, d.1 k)) g, d.1 g)
