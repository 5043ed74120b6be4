-- ===== src/Bio/Unique.antt =====
-- The blocks that the buffers of kernel/core/bio.c hold, and what the operations do to them.
use ustc_26spring.Common.{
  ℕ, zero, suc, ◌≡◌, ◌≢◌, refl, Bool, true, false, ◌||◌, ltb, ◌==◌, some, List, [], ◌∷◌, ◌++◌, All,
  All-split, All-join, All-append, All-map, arith, Bool-cases, Option-cases, inl, inr,
}
use ustc_26spring.Common.Word.{sub32}
use ustc_26spring.Common.Result.{ok, panic}
use ustc_26spring.Bio.Lru.{
  Absent, Busy, more_ref, Hit, Evicted, Found, find_cached-some, find_cached-none, recycle-none,
  recycle-some, take_out-some, put_buf-split,
}
use ustc_26spring.Bio.{
  Buf, is_block, find_cached, recycle, bget, binit, take_out, drop_ref, less_ref,
}

-- A buffer in use, or with a block's bytes in it.
abbrev pub is_live : Buf → Bool
is_live b = b.valid || ltb 0 b.refcnt

-- No live buffer of c's block in the list.
abbrev pub Other : Buf → List Buf → Type 0
Other c bs = All (λ b. is_live b ≡ true → is_block c.dev c.blockno b ≡ false) bs

-- No live buffer stands behind another buffer of its block.
abbrev pub IsUnique : List Buf → Type 0
IsUnique [] = Unit
IsUnique (b ∷ bs) = Other b bs × IsUnique bs

abbrev pub Apart : Buf → List Buf → Type 0
Apart c xs = All (λ a. is_live c ≡ true → is_block a.dev a.blockno c ≡ false) xs

replace-IsUnique :
    (before : List Buf) (b c : Buf) (after : List Buf)
    → Apart c before
    → Other c after
    → IsUnique (before ++ b ∷ after)
    → IsUnique (before ++ c ∷ after)
replace-IsUnique [] b c after h o u = (o, u.1)
replace-IsUnique (a ∷ before) b c after h o u =
    let (ob, _, oa) =
      All-split (λ x. is_live x ≡ true → is_block a.dev a.blockno x ≡ false) before b after u.0 in
    (
      All-join (λ x. is_live x ≡ true → is_block a.dev a.blockno x ≡ false) before c after ob h.0
          oa,
      replace-IsUnique before b c after h.1 o u.1,
    )

remove-IsUnique :
    (before : List Buf) (b : Buf) (after : List Buf)
    → IsUnique (before ++ b ∷ after)
    → IsUnique (before ++ after)
remove-IsUnique [] b after u = u.1
remove-IsUnique (a ∷ before) b after u =
    let (ob, _, oa) =
      All-split (λ x. is_live x ≡ true → is_block a.dev a.blockno x ≡ false) before b after u.0 in
    (
      All-append (λ x. is_live x ≡ true → is_block a.dev a.blockno x ≡ false) before after ob oa,
      remove-IsUnique before b after u.1,
    )

-- What uniqueness says of a buffer and of those around it.
around :
    (before : List Buf) (b : Buf) (after : List Buf)
    → IsUnique (before ++ b ∷ after)
    → Apart b before × Other b after
around [] b after u = (tt, u.0)
around (a ∷ before) b after u =
    let (_, hb, _) =
      All-split (λ x. is_live x ≡ true → is_block a.dev a.blockno x ≡ false) before b after u.0 in
    let (rest, o) = around before b after u.1 in ((hb, rest), o)

Absent-Apart :
    (dev blockno : ℕ) (c : Buf) (xs : List Buf)
    → c.dev ≡ dev
    → c.blockno ≡ blockno
    → Absent dev blockno xs
    → Apart c xs
Absent-Apart dev blockno c xs e f = All-map _ _ xs (λ a h live. ground arith)

Absent-Other :
    (dev blockno : ℕ) (c : Buf) (xs : List Buf)
    → c.dev ≡ dev
    → c.blockno ≡ blockno
    → Absent dev blockno xs
    → Other c xs
Absent-Other dev blockno c xs e f = All-map _ _ xs (λ a h live. ground arith)

binit_stale : (n : ℕ) → All (λ b. is_live b ≡ false) (binit n)
unfolding binit
binit_stale zero = tt
binit_stale (suc n) = (refl, binit_stale n)

-- After `binit` the cache is unique, though all its buffers name the same block.
pub binit-IsUnique : (n : ℕ) → IsUnique (binit n)
unfolding binit
binit-IsUnique zero = tt
binit-IsUnique (suc n) =
    (All-map _ _ (binit n) (λ a h live. ground arith) (binit_stale n), binit-IsUnique n)

Hit-IsUnique :
    (dev blockno : ℕ) (bs : List Buf) {r : ℕ × List Buf}
    → IsUnique bs
    → Hit dev blockno bs r
    → IsUnique r.1
Hit-IsUnique dev blockno bs u (before, b, after, p, absent, hit) =
    let v = rw p.list at u in
    rw p.changed (
      replace-IsUnique before b (more_ref b) after
        (Absent-Apart dev blockno (more_ref b) before (ground arith) (ground arith) absent)
        (around before b after v).1 v)

evict-IsUnique :
    (dev blockno : ℕ) (bs : List Buf) {r : ℕ × List Buf}
    → IsUnique bs
    → Absent dev blockno bs
    → Evicted dev blockno bs r
    → IsUnique r.1
evict-IsUnique dev blockno bs u absent (before, b, c, after, p, t, _, _) =
    let (ab, _, aa) =
      All-split (λ x. is_block dev blockno x ≡ false) before b after (rw p.list at absent) in
    rw p.changed (
      replace-IsUnique before b c after (Absent-Apart dev blockno c before t.0 t.1 ab)
        (Absent-Other dev blockno c after t.0 t.1 aa) (rw p.list at u))

-- From a cache with each block in at most one live buffer, a `bget` that succeeds leaves such a
-- cache. A live buffer is one that is valid or has a reference.
pub bget-IsUnique :
    (dev blockno : ℕ) (bs : List Buf) {r : ℕ × List Buf}
    → IsUnique bs
    → bget dev blockno bs ≡ ok r
    → IsUnique r.1
unfolding bget
bget-IsUnique dev blockno bs {r} u e = elim (Option-cases (find_cached dev blockno bs)) [
  | inr (q, f) ↦
      let eq : r ≡ q = ground arith in
      rw eq (Hit-IsUnique dev blockno bs u (find_cached-some dev blockno bs f))
  | inl n ↦ elim (Option-cases (recycle dev blockno bs)) [
    | inr (q, f) ↦
        let eq : r ≡ q = ground arith in
        rw eq (
          evict-IsUnique dev blockno bs u (find_cached-none dev blockno bs n)
            (recycle-some dev blockno bs f))
    | inl m ↦ absurd (ground arith)
  ]
]

-- `bget` panics only if the block is in no buffer and every buffer has a reference.
bget-panic :
    (dev blockno : ℕ) (bs : List Buf)
    → bget dev blockno bs ≡ panic
    → Absent dev blockno bs × Busy bs
unfolding bget
bget-panic dev blockno bs e = elim (Option-cases (find_cached dev blockno bs)) [
  | inr (q, f) ↦ absurd (ground arith)
  | inl n ↦ elim (Option-cases (recycle dev blockno bs)) [
    | inr (q, f) ↦ absurd (ground arith)
    | inl m ↦ (find_cached-none dev blockno bs n, recycle-none dev blockno bs m)
  ]
]

front-IsUnique :
    (before : List Buf) (b c : Buf) (after : List Buf)
    → is_live b ≡ true
    → c.dev ≡ b.dev
    → c.blockno ≡ b.blockno
    → IsUnique (before ++ b ∷ after)
    → IsUnique (c ∷ (before ++ after))
front-IsUnique before b c after live e f u =
    let (ap', o) = around before b after u in
    (
      All-append _ before after (All-map _ _ before (λ a h l. ground arith) ap')
          (All-map _ _ after (λ a h l. ground arith) o),
      remove-IsUnique before b after u,
    )

still-IsUnique :
    (before : List Buf) (b c : Buf) (after : List Buf)
    → is_live b ≡ true
    → c.dev ≡ b.dev
    → c.blockno ≡ b.blockno
    → IsUnique (before ++ b ∷ after)
    → IsUnique (before ++ c ∷ after)
still-IsUnique before b c after live e f u =
    let (ap', o) = around before b after u in
    replace-IsUnique before b c after (All-map _ _ before (λ a h l. ground arith) ap')
      (All-map _ _ after (λ a h l. ground arith) o) u

Found-IsUnique :
    (i : ℕ) (bs : List Buf) {b : Buf} {rest : List Buf}
    → take_out i bs ≡ some (b, rest)
    → is_live b ≡ true
    → Found i bs b rest
    → IsUnique bs
    → IsUnique (drop_ref i bs)
unfolding drop_ref
Found-IsUnique i bs {b} {rest} e live (before, after, whole, part, at, ne) u =
    rw (e, drop_ref)
      (elim (Bool-cases (sub32 b.refcnt 1 == 0)) [
        | inl last ↦
            rw (last, part)
              (front-IsUnique before b (less_ref b) after live refl refl (rw whole at u))
        | inr more ↦
            rw (more, whole, put_buf-split i (less_ref b) b before after at ne)
              (still-IsUnique before b (less_ref b) after live refl refl (rw whole at u))
      ])

-- From a cache with each block in at most one live buffer, the release of a reference to a buffer
-- of the list that has one leaves such a cache, with the buffer in place or at the front.
pub drop_ref-IsUnique :
    (i : ℕ) (bs : List Buf) {b : Buf} {rest : List Buf}
    → take_out i bs ≡ some (b, rest)
    → b.refcnt ≢ 0
    → IsUnique bs
    → IsUnique (drop_ref i bs)
drop_ref-IsUnique i bs e used u = Found-IsUnique i bs e (ground arith) (take_out-some i bs e) u
