-- ===== src/Kalloc/Free.antt =====
-- The free list of kernel/core/kalloc.c as a list of pages.
use ustc_26spring.Common.{
  ℕ, ◌+◌, ◌%◌, ◌≤◌, ◌<◌, ◌≡◌, ◌≢◌, refl, ◌∙◌, ◌⊎◌, inl, inr, List, [], ◌∷◌, All, leb, ltb, ◌==◌,
  arith, ◌||◌, false, ◌^◌, ◌↔◌, Bool-cases,
}
use ustc_26spring.Common.Result.{ok, panic}
use ustc_26spring.Memory.{Mem, memset, load64, store64}
use ustc_26spring.Memory.Ranges.{memset_lem}
use ustc_26spring.Memory.Words.{load64-store64_self, load64-store64_ne, load64_eq}
use ustc_26spring.Kalloc.{Kmem, page_size, phys_top, kfree, kalloc}

-- The list in memory from address r on.
abbrev pub Chain : Mem → ℕ → List ℕ → Type 0
Chain m r [] = r ≡ 0
Chain m r (x ∷ l) = (r ≡ x) × Chain m (load64 m x) l

abbrev pub Distinct : List ℕ → Type 0
Distinct [] = Unit
Distinct (x ∷ l) = All (λ y. x ≢ y) l × Distinct l

pub record IsPage (kernel_end x : ℕ) : Type 0 where
  pub aligned : x % page_size ≡ 0
  pub above : kernel_end ≤ x
  pub below : x < phys_top

-- The allocator holds exactly the pages of the list, in this order.
pub record Holds (kernel_end : ℕ) (k : Kmem) (l : List ℕ) : Type 0 where
  pub chain : Chain k.mem k.freelist l
  pub pages : All (IsPage kernel_end) l
  pub distinct : Distinct l

load64-memset_ne :
    (m : Mem) (x c y : ℕ)
    → x % page_size ≡ 0
    → y % page_size ≡ 0
    → x ≢ y
    → load64 (memset m x c page_size) y ≡ load64 m y
load64-memset_ne m x c y hx hy ne =
    load64_eq (memset m x c page_size) m y
      (λ i lt. ground (arith, memset_lem m x c page_size (y + i)))

-- Two pages do not share a word.
apart : (x y : ℕ) → x % page_size ≡ 0 → y % page_size ≡ 0 → x ≢ y → (y + 8 ≤ x) ⊎ (x + 8 ≤ y)
apart x y hx hy ne = ground arith

head_word : (kernel_end : ℕ) (k : Kmem) (l : List ℕ) → Holds kernel_end k l → k.freelist < 2 ^ 64
head_word e k [] h = omega (arith, h.chain)
head_word e k (x ∷ l) h = omega (arith, h.chain.0, h.pages.0)

-- A list is not touched by writes to another page.
pub Chain-frame :
    (m n : Mem) (x e : ℕ) (l : List ℕ) (r : ℕ)
    → ((y : ℕ) → y % page_size ≡ 0 → x ≢ y → load64 n y ≡ load64 m y)
    → All (λ y. x ≢ y) l
    → All (IsPage e) l
    → Chain m r l
    → Chain n r l
Chain-frame m n x e [] r same ne ps c = c
Chain-frame m n x e (y ∷ l) r same ne ps c =
    (c.0, rw (same y ps.0.aligned ne.0) (Chain-frame m n x e l (load64 m y) same ne.1 ps.1 c.1))

module _ (kernel_end : ℕ) (k : Kmem) where
  -- With no free page `kalloc` returns 0 and changes nothing.
  pub kalloc_empty : Holds kernel_end k [] → kalloc k ≡ (0, k)
  unfolding kalloc
  kalloc_empty h = ground (arith, h.chain)

  -- With a free page, and a kernel that ends above address 0, `kalloc` returns the first, keeps exactly the others, in order, and fills the
  -- page with the byte 5.
  pub kalloc_pop :
      (x : ℕ) (l : List ℕ)
      → 0 < kernel_end
      → Holds kernel_end k (x ∷ l)
      → ((kalloc k).0 ≡ x)
        × Holds kernel_end (kalloc k).1 l
        × ((a : ℕ) → x ≤ a → a < x + page_size → (kalloc k).1.mem a ≡ 5)
  unfolding kalloc
  kalloc_pop x l pos h =
      let head : k.freelist ≡ x = h.chain.0 in
      let some_page : k.freelist ≢ 0 = omega (arith, h.pages.0) in
      let test : (k.freelist == 0) ≡ false = ground arith in
      rw test (
        rw head (
          refl,
          record {
            chain =
                Chain-frame k.mem _ x kernel_end l (load64 k.mem x)
                  (λ y al ne. load64-memset_ne k.mem x 5 y h.pages.0.aligned al ne) h.distinct.0
                  h.pages.1 h.chain.1;
            pages = h.pages.1;
            distinct = h.distinct.1;
          },
          λ a lo hi. ground (arith, memset_lem k.mem x 5 page_size a),
        ))

  -- `kfree` of a page of the range that is not free does not panic and puts it in front.
  pub kfree_push :
      (x : ℕ) (l : List ℕ)
      → IsPage kernel_end x
      → All (λ y. x ≢ y) l
      → Holds kernel_end k l
      → (k' : Kmem) × (kfree kernel_end x k ≡ ok k') × Holds kernel_end k' (x ∷ l)
  unfolding kfree
  kfree_push x l p fresh h = (
    record { mem = store64 (memset k.mem x 1 page_size) x k.freelist; freelist = x },
    ground arith,
    record {
      chain = (
        refl,
        rw (load64-store64_self _ x k.freelist (head_word kernel_end k l h)) (
            Chain-frame k.mem _ x kernel_end l k.freelist
              (λ y al ne.
                load64-store64_ne _ x k.freelist y (apart x y p.aligned al ne)
                ∙ load64-memset_ne k.mem x 1 y p.aligned al ne)
              fresh h.pages h.chain),
      );
      pages = (p, h.pages);
      distinct = (fresh, h.distinct);
    },
  )

  -- `kfree` panics exactly on an address that is no page of the allocator's range.
  pub kfree_panics : (x : ℕ) → (kfree kernel_end x k ≡ panic) ↔ (¬ IsPage kernel_end x)
  unfolding kfree
  kfree_panics x = (λ e p. ground arith, λ out. refused out)
    where
      refused : ¬ IsPage kernel_end x → kfree kernel_end x k ≡ panic
      refused out = elim (Bool-cases (x % page_size == 0)) [
        | inr odd ↦ ground arith
        | inl even ↦ elim (Bool-cases (ltb x kernel_end || leb phys_top x)) [
          | inl bad ↦ ground arith
          | inr good ↦
              absurd (
                out (record { aligned = ground arith; above = ground arith; below = ground arith }))
        ]
      ]
