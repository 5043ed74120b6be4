-- ===== src/Kalloc/Init.antt =====
-- `kinit` of kernel/core/kalloc.c and the free list that it sets up.
use ustc_26spring.Common.{
  ℕ, zero, suc, ◌+◌, ◌-◌, ◌*◌, ◌%◌, ◌≤◌, ◌<◌, ◌≡◌, ◌≢◌, refl, ◌⊎◌, inl, inr, List, [], ◌∷◌, All,
  leb, arith, Bool-cases,
}
use ustc_26spring.Common.Result.{ok}
use ustc_26spring.Memory.{Mem}
use ustc_26spring.Kalloc.{Kmem, page_size, phys_top, page_round_up, page_count, free_from, kinit}
use ustc_26spring.Kalloc.Free.{Holds, IsPage, kfree_push}

-- The pages lo, lo + 4096, ... below hi, the last first; n of them lie below p.
abbrev pub pages_down : ℕ → ℕ → List ℕ
pages_down lo zero = []
pages_down lo (suc n) = (lo + page_size * n) ∷ pages_down lo n

pages_down-apart : (lo x n : ℕ) → lo + page_size * n ≤ x → All (λ y. x ≢ y) (pages_down lo n)
pages_down-apart lo x zero h = tt
pages_down-apart lo x (suc n) h = ((λ e. omega arith), pages_down-apart lo x n (omega arith))

free_from-Holds :
    (e lo fuel n : ℕ) (k : Kmem)
    → e ≤ lo
    → lo % page_size ≡ 0
    → phys_top < lo + page_size * (n + fuel) + page_size
    → Holds e k (pages_down lo n)
    → (k' : Kmem) × (m : ℕ) × (free_from e fuel (lo + page_size * n) k ≡ ok k')
      × Holds e k' (pages_down lo m)
      × (phys_top < lo + page_size * m + page_size)
unfolding free_from
free_from-Holds e lo zero n k low al top h = (k, n, refl, h, omega arith)
free_from-Holds e lo (suc fuel) n k low al top h =
    elim (Bool-cases (leb (lo + page_size * n + page_size) phys_top)) [
      | inr out ↦ rw (out, free_from) (k, n, refl, h, ground arith)
      | inl more ↦
          rw (more, free_from)
            (let (k1, freed, h1) =
                kfree_push e k (lo + page_size * n) (pages_down lo n)
                  (record { aligned = omega arith; above = omega arith; below = ground arith })
                  (pages_down-apart lo (lo + page_size * n) n (omega arith)) h in
              let next : lo + page_size * n + page_size ≡ lo + page_size * suc n = omega arith in
              rw freed (rw next (free_from-Holds e lo fuel (suc n) k1 low al (omega arith) h1)))
    ]

-- Being an entry of a list.
abbrev pub In : ℕ → List ℕ → Type 0
In x [] = ⊥
In x (y ∷ l) = (x ≡ y) ⊎ In x l

In-pages_down :
    (lo x n : ℕ)
    → lo ≤ x
    → (x - lo) % page_size ≡ 0
    → x < lo + page_size * n
    → In x (pages_down lo n)
In-pages_down lo x zero low al h = absurd (omega arith)
In-pages_down lo x (suc n) low al h = elim (Bool-cases (leb (lo + page_size * n) x)) [
  | inl last ↦ inl (ground arith)
  | inr before ↦ inr (In-pages_down lo x n low al (ground arith))
]

-- `kinit` does not panic, and afterwards the free list holds, each once, exactly the pages from
-- the end of the kernel to the top of memory.
pub kinit_lem :
    (kernel_end : ℕ) (mem : Mem)
    → (k : Kmem) × (l : List ℕ) × (kinit kernel_end mem ≡ ok k)
      × Holds kernel_end k l
      × ((x : ℕ) → IsPage kernel_end x → In x l)
unfolding kinit
kinit_lem e mem =
    let lo : ℕ = page_round_up e in
    let start : lo + page_size * 0 ≡ lo = omega arith in
    let (k, n, run, h, top) =
      free_from-Holds e lo page_count 0 (record { mem = mem; freelist = 0 }) (omega arith)
        (omega arith) (omega arith) (record { chain = refl; pages = tt; distinct = tt }) in
    (
      k,
      pages_down lo n,
      rw start at run,
      h,
      λ x p. In-pages_down lo x n (omega arith) (omega arith) (omega arith),
    )
