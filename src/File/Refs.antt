-- ===== src/File/Refs.antt =====
-- The references of the open files of kernel/core/file.c.
use ustc_26spring.Common.{
  ℕ, zero, suc, ◌+◌, ◌≡◌, ◌≢◌, refl, ap, inl, inr, Bool, true, false, ◌==◌, Option, none, some,
  List, [], ◌∷◌, ◌++◌, length, replicate, All, arith, Bool-cases,
}
use ustc_26spring.File.{File, no_file, file_at, filedup, fileclose, filealloc, Release, nothing}

-- A run of `filedup` (true) and `fileclose` (false) of one file, and what each hands on.
unfoldable pub holders : List Bool → ℕ → List File → List Release × List File
unfolding filedup fileclose
holders [] i t = ([], t)
holders (true ∷ ops) i t = let (rs, u) = holders ops i (filedup i t).1 in (nothing ∷ rs, u)
holders (false ∷ ops) i t =
    let (r, t') = fileclose i t in let (rs, u) = holders ops i t' in (r ∷ rs, u)

-- The number of holders after such a run, if it does not reach 0 on the way.
unfoldable pub balance : ℕ → List Bool → Option ℕ
balance n [] = some n
balance n (true ∷ ops) = balance (n + 1) ops
balance zero (false ∷ ops) = none
balance (suc zero) (false ∷ ops) = none
balance (suc (suc n)) (false ∷ ops) = balance (suc n) ops

-- What a run that does not drop the last reference leaves: every close hands on nothing, the slot
-- has the count of the holders, and no other slot changes.
pub record Held (i m count : ℕ) (t : List File) (r : List Release × List File) : Type 0 where
  pub quiet : r.0 ≡ replicate count nothing
  pub slot : file_at i r.1 ≡ record (file_at i t) { ref = m }
  pub size : length r.1 ≡ length t
  pub others : (j : ℕ) → j ≢ i → file_at j r.1 ≡ file_at j t

-- What `filealloc` from slot i on finds: the first free slot, which is the only one to change.
pub data Allocs (i : ℕ) (t : List File) (r : Option (ℕ × List File)) : Type 0 where
  fresh :
      (before : List File) (f : File) (after : List File)
      → All (λ g. g.ref ≢ 0) before
      → f.ref ≡ 0
      → t ≡ before ++ f ∷ after
      → r ≡ some (i + length before, before ++ record no_file { ref = 1 } ∷ after)
      → Allocs i t r
  exhausted : All (λ g. g.ref ≢ 0) t → r ≡ none → Allocs i t r

Allocs-cons :
    (i : ℕ) (g : File) (t : List File) (o : Option (ℕ × List File))
    → g.ref ≢ 0
    → Allocs (i + 1) t o
    → Allocs i (g ∷ t) (elim o [ none ↦ none | some (j, u) ↦ some (j, g ∷ u) ])
Allocs-cons i g t o used (fresh before f after all z e q) =
    fresh (g ∷ before) f after (used, all) z (ap (λ l. g ∷ l) e)
      (rw q (ap (λ k. some (k, g ∷ before ++ record no_file { ref = 1 } ∷ after)) (omega arith)))
Allocs-cons i g t o used (exhausted all q) = exhausted (used, all) (rw q refl)

-- `filealloc` returns the first file without references, as a file with one reference and nothing
-- behind it, and changes no other; it fails only if every file has a reference.
filealloc-Allocs : (i : ℕ) (t : List File) → Allocs i t (filealloc i t)
unfolding filealloc
filealloc-Allocs i [] = exhausted tt refl
filealloc-Allocs i (g ∷ t) = elim (Bool-cases (g.ref == 0)) [
  | inl free ↦
      rw (free, filealloc)
        (fresh [] g t tt (ground arith) refl
          (ap (λ k. some (k, record no_file { ref = 1 } ∷ t)) (omega arith)))
  | inr used ↦
      rw (used, filealloc)
        (Allocs-cons i g t (filealloc (i + 1) t) (λ e. ground arith) (filealloc-Allocs (i + 1) t))
]
