-- ===== src/Vm/Bytes.antt =====
-- A copy byte by byte, each byte through its own translation, beside `copyin` of kernel/core/vm.c,
-- which works by pages.
use ustc_26spring.Common.{
  ℕ, zero, suc, ◌+◌, ◌-◌, ◌%◌, ◌≤◌, ◌<◌, ◌≡◌, ◌≢◌, refl, sym, ap, ◌∙◌, inl, inr, true, false, ◌==◌,
  Option, none, some, List, [], ◌∷◌, ◌++◌, arith, Bool-cases, ltb,
}
use mathlib.Core.Option
use ustc_26spring.Kalloc.{Kmem, page_size, page_round_down}
use ustc_26spring.Vm.Walk.{walkaddr}
use ustc_26spring.Vm.Copy.{read_bytes, chunk, copyin_from, copyin}

-- The physical address of a user byte, by the page that maps it.
pub translate : ℕ → ℕ → Kmem → Option ℕ
translate pt va k = elim (walkaddr pt (page_round_down va) k == 0) [
  | true ↦ none
  | false ↦ some (walkaddr pt (page_round_down va) k + (va - page_round_down va))
]

abbrev pub cons_byte : ℕ → Option (List ℕ) → Option (List ℕ)
cons_byte x o = Option.map (λ xs. x ∷ xs) o

-- The n bytes from va on, if all of them are mapped.
pub fetch : ℕ → ℕ → ℕ → Kmem → Option (List ℕ)
fetch pt va zero k = some []
fetch pt va (suc n) k = elim (translate pt va k) [
  | none ↦ none
  | some pa ↦ cons_byte (k.mem pa) (fetch pt (va + 1) n k)
]

map_nothing : (o : Option (List ℕ)) → o ≡ Option.map (λ rest. [] ++ rest) o
map_nothing none = refl
map_nothing (some x) = refl

cons_byte-map :
    (x : ℕ) (xs : List ℕ) (o : Option (List ℕ))
    → cons_byte x (Option.map (λ rest. xs ++ rest) o) ≡ Option.map (λ rest. (x ∷ xs) ++ rest) o
cons_byte-map x xs none = refl
cons_byte-map x xs (some r) = refl

fetch-mapped :
    (pt va n base : ℕ) (k : Kmem)
    → page_round_down va ≡ base
    → walkaddr pt base k ≢ 0
    → fetch pt va (suc n) k
      ≡ cons_byte (k.mem (walkaddr pt base k + (va - base))) (fetch pt (va + 1) n k)
unfolding fetch translate
fetch-mapped pt va n base k hb mapped = ground arith

-- Within a page the bytes come from the page.
fetch-page :
    (pt va base n r : ℕ) (k : Kmem)
    → base % page_size ≡ 0
    → base ≤ va
    → va + n ≤ base + page_size
    → walkaddr pt base k ≢ 0
    → fetch pt va (n + r) k
      ≡ Option.map
          (λ rest. read_bytes k.mem (walkaddr pt base k + (va - base)) n ++ rest)
          (fetch pt (va + n) r k)
unfolding read_bytes
fetch-page pt va base zero r k al lo hn mapped =
    let e : va + 0 ≡ va = omega arith in
    let e' : 0 + r ≡ r = omega arith in rw (e, e') (map_nothing (fetch pt va r k))
fetch-page pt va base (suc n) r k al lo hn mapped =
    let next = fetch-page pt (va + 1) base n r k al (omega arith) (omega arith) mapped in
    let e : suc n + r ≡ suc (n + r) = omega arith in
    let e1 : va + suc n ≡ va + 1 + n = omega arith in
    let e2 : walkaddr pt base k + (va + 1 - base) ≡ walkaddr pt base k + (va - base) + 1 =
      omega arith in
    rw (e, e1)
      (fetch-mapped pt va (n + r) base k (omega arith) mapped
        ∙ rw next (rw e2 (cons_byte-map _ _ (fetch pt (va + 1 + n) r k))))

fetch_unmapped :
    (pt va n : ℕ) (k : Kmem)
    → 0 < n
    → walkaddr pt (page_round_down va) k ≡ 0
    → fetch pt va n k ≡ none
unfolding fetch translate
fetch_unmapped pt va zero k pos e = absurd (omega arith)
fetch_unmapped pt va (suc n) k pos e = ground arith

-- The next round starts at the next page, unless none is left.
next_round :
    (pt va len : ℕ) (k : Kmem)
    → fetch pt (page_round_down va + page_size) (len - chunk va len) k
      ≡ fetch pt (va + chunk va len) (len - chunk va len) k
unfolding fetch
next_round pt va len k = elim (Bool-cases (ltb len (page_size - (va - page_round_down va)))) [
  | inl short ↦ let z : len - chunk va len ≡ 0 = ground arith in rw z refl
  | inr whole ↦
      let e : page_round_down va + page_size ≡ va + chunk va len = ground arith in
      ap (λ a. fetch pt a (len - chunk va len) k) e
]

-- One round, when the rest is as it should be.
copyin_round :
    (fuel pt va len : ℕ) (k : Kmem)
    → 0 < len
    → walkaddr pt (page_round_down va) k ≢ 0
    → copyin_from fuel pt (page_round_down va + page_size) (len - chunk va len) k
      ≡ fetch pt (page_round_down va + page_size) (len - chunk va len) k
    → Option.map
        (λ rest.
          read_bytes k.mem
            (walkaddr pt (page_round_down va) k + (va - page_round_down va))
            (chunk va len)
          ++ rest)
        (copyin_from fuel pt (page_round_down va + page_size) (len - chunk va len) k)
      ≡ fetch pt va len k
copyin_round fuel pt va len k pos mapped ih =
    rw (ih, next_round pt va len k)
      (sym (
          fetch-page pt va (page_round_down va) (chunk va len) (len - chunk va len) k (omega arith)
            (omega arith) (omega arith) mapped)
        ∙ ap (λ n. fetch pt va n k) total)
  where
    total : chunk va len + (len - chunk va len) ≡ len
    total = omega arith

copyin_from-fetch :
    (fuel pt va len : ℕ) (k : Kmem) → len ≤ fuel → copyin_from fuel pt va len k ≡ fetch pt va len k
unfolding copyin_from fetch
copyin_from-fetch zero pt va len k h = let e : len ≡ 0 = omega arith in rw e refl
copyin_from-fetch (suc fuel) pt va len k h = elim (Bool-cases (len == 0)) [
  | inl e ↦ let z : len ≡ 0 = ground arith in rw z refl
  | inr more ↦
      rw (more, copyin_from)
        (elim (Bool-cases (walkaddr pt (page_round_down va) k == 0)) [
          | inl e ↦ rw e (sym (fetch_unmapped pt va len k (ground arith) (ground arith)))
          | inr mapped ↦ rw mapped (
              copyin_round fuel pt va len k (ground arith) (ground arith) (
                copyin_from-fetch fuel pt (page_round_down va + page_size) (len - chunk va len) k
                  (ground arith)))
        ])
]

-- `copyin` returns the bytes exactly if each of them is mapped to a user page, and then each byte
-- is the one that its own address translates to.
pub copyin-fetch : (pt va len : ℕ) (k : Kmem) → copyin pt va len k ≡ fetch pt va len k
unfolding copyin
copyin-fetch pt va len k = copyin_from-fetch len pt va len k (omega arith)
