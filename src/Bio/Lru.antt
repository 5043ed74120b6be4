-- ===== src/Bio/Lru.antt =====
-- Which buffer the loops of kernel/core/bio.c pick out of the list, and what they change.
use ustc_26spring.Common.{
  ℕ, ◌≡◌, ◌≢◌, refl, ap, ◌∙◌, true, false, ◌==◌, none, some, ◌⊎◌, List, [], ◌∷◌, ◌++◌, All, arith,
  Bool-cases, Option-cases, inl, inr,
}
use ustc_26spring.Common.Word.{add32}
use ustc_26spring.Bio.{Buf, is_block, find_cached, recycle, reset_buf, take_out, put_buf, bget}
use ustc_26spring.Common.Result.{ok}

-- No buffer of the block in the list, live or not.
abbrev pub Absent : ℕ → ℕ → List Buf → Type 0
Absent dev blockno bs = All (λ b. is_block dev blockno b ≡ false) bs

abbrev pub Busy : List Buf → Type 0
Busy bs = All (λ b. b.refcnt ≢ 0) bs

abbrev pub more_ref : Buf → Buf
more_ref b = record b { refcnt = add32 b.refcnt 1 }

-- The list taken apart at the buffer b, and the outcome r with c for b.
pub record Picked (bs : List Buf) (r : ℕ × List Buf) (before : List Buf) (b c : Buf)
    (after : List Buf) : Type 0 where
  pub list : bs ≡ before ++ b ∷ after
  pub slot : r.0 ≡ b.slot
  pub changed : r.1 ≡ before ++ c ∷ after

pub Picked-cons :
    (a : Buf) {bs before after : List Buf} {r : ℕ × List Buf} {b c : Buf}
    → Picked bs r before b c after
    → Picked (a ∷ bs) (r.0, a ∷ r.1) (a ∷ before) b c after
Picked-cons a p = record {
  list = ap (λ l. a ∷ l) p.list;
  slot = p.slot;
  changed = ap (λ l. a ∷ l) p.changed;
}

abbrev pub Hit : ℕ → ℕ → List Buf → ℕ × List Buf → Type 0
Hit dev blockno bs r =
    (before : List Buf) × (b : Buf) × (after : List Buf) × Picked bs r before b (more_ref b) after
    × Absent dev blockno before
    × (is_block dev blockno b ≡ true)

find_cached_step :
    (dev blockno : ℕ) (b : Buf) (bs : List Buf) {r : ℕ × List Buf}
    → find_cached dev blockno (b ∷ bs) ≡ some r
    → is_block dev blockno b ≡ false
    → (q : ℕ × List Buf) × (find_cached dev blockno bs ≡ some q) × (r ≡ (q.0, b ∷ q.1))
unfolding find_cached
find_cached_step dev blockno b bs {r} e miss = elim (Option-cases (find_cached dev blockno bs)) [
  | inl n ↦ cc (rw (miss, n, find_cached) at e)
  | inr (q, f) ↦ (q, f, ground arith)
]

-- A hit is the first buffer of the block.
pub find_cached-some :
    (dev blockno : ℕ) (bs : List Buf) {r : ℕ × List Buf}
    → find_cached dev blockno bs ≡ some r
    → Hit dev blockno bs r
unfolding find_cached
find_cached-some dev blockno [] e = absurd (ground arith)
find_cached-some dev blockno (b ∷ bs) {r} e = elim (Bool-cases (is_block dev blockno b)) [
  | inl hit ↦
      ([], b, bs, record { list = refl; slot = ground arith; changed = ground arith }, tt, hit)
  | inr miss ↦
      let (q, f, eq) = find_cached_step dev blockno b bs e miss in
      let (before, c, after, p, a, h) = find_cached-some dev blockno bs f in
      rw eq (b ∷ before, c, after, Picked-cons b p, (miss, a), h)
]

pub find_cached-none :
    (dev blockno : ℕ) (bs : List Buf) → find_cached dev blockno bs ≡ none → Absent dev blockno bs
unfolding find_cached
find_cached-none dev blockno [] e = tt
find_cached-none dev blockno (b ∷ bs) e = elim (Bool-cases (is_block dev blockno b)) [
  | inl hit ↦ absurd (ground arith)
  | inr miss ↦ (miss, find_cached-none dev blockno bs (ground arith))
]

pub recycle-none : (dev blockno : ℕ) (bs : List Buf) → recycle dev blockno bs ≡ none → Busy bs
unfolding recycle
recycle-none dev blockno [] e = tt
recycle-none dev blockno (b ∷ bs) e = elim (Option-cases (recycle dev blockno bs)) [
  | inl n ↦ ((λ z. ground arith), recycle-none dev blockno bs n)
  | inr (q, f) ↦ absurd (ground arith)
]

-- A buffer that block blockno of device dev takes over, with one reference: its bytes are not valid.
abbrev pub TakenOver : ℕ → ℕ → Buf → Buf → Type 0
TakenOver dev blockno b c =
    (c.dev ≡ dev)
    × (c.blockno ≡ blockno)
    × (c.valid ≡ false)
    × (c.refcnt ≡ 1)
    × (c.slot ≡ b.slot)
    × (c.lock ≡ b.lock)

abbrev pub Evicted : ℕ → ℕ → List Buf → ℕ × List Buf → Type 0
Evicted dev blockno bs r =
    (before : List Buf) × (b : Buf) × (c : Buf) × (after : List Buf) × Picked bs r before b c after
    × TakenOver dev blockno b c
    × Busy after
    × (b.refcnt ≡ 0)

-- A recycled buffer is the last one without references, the least recently released.
pub recycle-some :
    (dev blockno : ℕ) (bs : List Buf) {r : ℕ × List Buf}
    → recycle dev blockno bs ≡ some r
    → Evicted dev blockno bs r
unfolding recycle
recycle-some dev blockno [] e = absurd (ground arith)
recycle-some dev blockno (b ∷ bs) {r} e = elim (Option-cases (recycle dev blockno bs)) [
  | inl n ↦ (
    [],
    b,
    reset_buf dev blockno b,
    bs,
    record { list = refl; slot = ground arith; changed = ground arith },
    (refl, refl, refl, refl, refl, refl),
    recycle-none dev blockno bs n,
    ground arith,
  )
  | inr (q, f) ↦
      let (before, c, c2, after, p, t, a, h) = recycle-some dev blockno bs f in
      let eq : r ≡ (q.0, b ∷ q.1) = ground arith in
      rw eq (b ∷ before, c, c2, after, Picked-cons b p, t, a, h)
]

take_out_step :
    (i : ℕ) (b : Buf) (bs : List Buf) {c : Buf} {rest : List Buf}
    → take_out i (b ∷ bs) ≡ some (c, rest)
    → (b.slot == i) ≡ false
    → (tail : List Buf) × (take_out i bs ≡ some (c, tail)) × (rest ≡ b ∷ tail)
unfolding take_out
take_out_step i b bs {c} {rest} e miss = elim (Option-cases (take_out i bs)) [
  | inl n ↦ absurd (ground arith)
  | inr ((d, ds), f) ↦ (ds, ground arith, ground arith)
]

-- The list around the first buffer of slot i.
abbrev pub Found : ℕ → List Buf → Buf → List Buf → Type 0
Found i bs c rest =
    (before : List Buf) × (after : List Buf) × (bs ≡ before ++ c ∷ after)
    × (rest ≡ before ++ after)
    × (c.slot ≡ i)
    × All (λ b. b.slot ≢ i) before

pub take_out-some :
    (i : ℕ) (bs : List Buf) {c : Buf} {rest : List Buf}
    → take_out i bs ≡ some (c, rest)
    → Found i bs c rest
unfolding take_out
take_out-some i [] e = absurd (ground arith)
take_out-some i (b ∷ bs) {c} {rest} e = elim (Bool-cases (b.slot == i)) [
  | inl hit ↦ ([], bs, ground arith, ground arith, ground arith, tt)
  | inr miss ↦
      let (tail, f, eq) = take_out_step i b bs e miss in
      let (before, after, whole, part, at, none_before) = take_out-some i bs f in
      (
        b ∷ before,
        after,
        ap (λ l. b ∷ l) whole,
        eq ∙ ap (λ l. b ∷ l) part,
        at,
        ((λ z. ground arith), none_before),
      )
]

pub put_buf-split :
    (i : ℕ) (c b : Buf) (before after : List Buf)
    → b.slot ≡ i
    → All (λ a. a.slot ≢ i) before
    → put_buf i c (before ++ b ∷ after) ≡ before ++ c ∷ after
unfolding put_buf
put_buf-split i c b [] after at ne = ground arith
put_buf-split i c b (a ∷ before) after at ne =
    let miss : (a.slot == i) ≡ false = ground arith in
    rw miss (ap (λ l. a ∷ l) (put_buf-split i c b before after at ne.1))

-- A `bget` that succeeds does so in one of two ways. A block that is cached is found at its first buffer, which
-- gets one more reference and stays where it is. A block that is not cached takes over the last
-- buffer of the list that has no reference, the least recently released one: that buffer is of the
-- block and not valid, with one reference. No other buffer changes, and the slot returned is that buffer's.
pub bget-ok :
    (dev blockno : ℕ) (bs : List Buf) {r : ℕ × List Buf}
    → bget dev blockno bs ≡ ok r
    → Hit dev blockno bs r ⊎ (Absent dev blockno bs × Evicted dev blockno bs r)
unfolding bget
bget-ok dev blockno bs {r} e = elim (Option-cases (find_cached dev blockno bs)) [
  | inr (q, f) ↦ let eq : r ≡ q = ground arith in rw eq (inl (find_cached-some dev blockno bs f))
  | inl n ↦ elim (Option-cases (recycle dev blockno bs)) [
    | inr (q, f) ↦
        let eq : r ≡ q = ground arith in
        rw eq (inr (find_cached-none dev blockno bs n, recycle-some dev blockno bs f))
    | inl m ↦ absurd (ground arith)
  ]
]
