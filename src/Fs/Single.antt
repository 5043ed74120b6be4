-- ===== src/Fs/Single.antt =====
-- The slots in use of the table of inodes of kernel/fs/fs.c.
use ustc_26spring.Common.{
  ℕ, zero, suc, ◌+◌, ◌<◌, ◌≡◌, ◌≢◌, refl, sym, ap, ◌∙◌, ◌⊎◌, inl, inr, true, false, ◌==◌, Option,
  none, some, List, [], ◌∷◌, length, arith, Bool-cases, get_or-set_self, get_or-set_ne,
}
use ustc_26spring.Common.Result.{Result, ok, panic}
use ustc_26spring.Fs.Inode.{
  Inode, no_inode, inode_at, is_inode, first_empty, scan, more_ref, reset_inode, update, iget,
}

-- No slot in use has the inode; every slot is in use.
abbrev pub Missing : ℕ → ℕ → List Inode → Type 0
Missing dev inum t = (m : ℕ) → is_inode dev inum (inode_at m t) ≡ false

abbrev pub AllUsed : List Inode → Type 0
AllUsed t = (m : ℕ) → m < length t → (inode_at m t).ref ≢ 0

-- What the scan from slot i on says of the first free slot, given what was seen before.
abbrev pub Empties : ℕ → List Inode → Option ℕ → Option ℕ → Type 0
Empties i t (some j) r = r ≡ some j
Empties i t none r =
    ((m : ℕ) × (m < length t) × ((inode_at m t).ref ≡ 0) × (r ≡ some (i + m)))
    ⊎ (AllUsed t × (r ≡ none))

pub data Scans (dev inum i : ℕ) (empty : Option ℕ) (t : List Inode) (r : Option ℕ × Option ℕ)
    : Type 0 where
  hit :
      (m : ℕ)
      → m < length t
      → r.0 ≡ some (i + m)
      → is_inode dev inum (inode_at m t) ≡ true
      → Scans dev inum i empty t r
  miss : r.0 ≡ none → Missing dev inum t → Empties i t empty r.1 → Scans dev inum i empty t r

Missing-cons :
    (dev inum : ℕ) (ip : Inode) (t : List Inode)
    → is_inode dev inum ip ≡ false
    → Missing dev inum t
    → Missing dev inum (ip ∷ t)
Missing-cons dev inum ip t h rest zero = h
Missing-cons dev inum ip t h rest (suc m) = rest m

AllUsed-cons : (ip : Inode) (t : List Inode) → ip.ref ≢ 0 → AllUsed t → AllUsed (ip ∷ t)
AllUsed-cons ip t h rest zero lt = h
AllUsed-cons ip t h rest (suc m) lt = rest m (omega arith)

Empties-cons :
    (i : ℕ) (ip : Inode) (t : List Inode) (empty r : Option ℕ)
    → Empties (i + 1) t (first_empty empty i ip) r
    → Empties i (ip ∷ t) empty r
Empties-cons i ip t (some j) r e = e
Empties-cons i ip t none r e = elim (Bool-cases (ip.ref == 0)) [
  | inl free ↦ inl (0, omega arith, ground arith, rw free at e ∙ ap some (omega arith))
  | inr used ↦ elim (rw used at e) [
    | inl (m, lt, z, f) ↦ inl (suc m, omega arith, z, f ∙ ap some (omega arith))
    | inr (all, f) ↦ inr (AllUsed-cons ip t (λ z. ground arith) all, f)
  ]
]

scan-Scans :
    (dev inum i : ℕ) (empty : Option ℕ) (t : List Inode)
    → Scans dev inum i empty t (scan dev inum i empty t)
unfolding scan
scan-Scans dev inum i none [] = miss refl (λ m. refl) (inr (λ m lt. absurd (omega arith), refl))
scan-Scans dev inum i (some j) [] = miss refl (λ m. refl) refl
scan-Scans dev inum i empty (ip ∷ t) = elim (Bool-cases (is_inode dev inum ip)) [
  | inl found ↦ rw (found, scan) (hit 0 (omega arith) (ap some (omega arith)) found)
  | inr other ↦
      rw (other, scan)
        (elim (scan-Scans dev inum (i + 1) (first_empty empty i ip) t) [
          | hit m lt e h ↦ hit (suc m) (omega arith) (e ∙ ap some (omega arith)) h
          | miss e h es ↦
              miss e (Missing-cons dev inum ip t other h) (Empties-cons i ip t empty _ es)
        ])
]

-- What a successful `iget` does: only the slot returned changes. It either was in use for the
-- inode and has one more reference, or was free, with no slot in use for the inode.
pub record Gets (dev inum : ℕ) (t : List Inode) (r : ℕ × List Inode) : Type 0 where
  pub inside : r.0 < length t
  pub others : (m : ℕ) → m ≢ r.0 → inode_at m r.1 ≡ inode_at m t
  pub named : is_inode dev inum (inode_at r.0 r.1) ≡ true
  pub kind :
      ((is_inode dev inum (inode_at r.0 t) ≡ true) × (inode_at r.0 r.1 ≡ more_ref (inode_at r.0 t)))
      ⊎ (Missing dev inum t
          × ((inode_at r.0 t).ref ≡ 0)
          × (inode_at r.0 r.1 ≡ reset_inode dev inum (inode_at r.0 t)))

-- The two outcomes of `iget`: a panic only if no slot is in use for the inode and none is free.
pub data Outcome (dev inum : ℕ) (t : List Inode) : Result (ℕ × List Inode) → Type 0 where
  got : {r : ℕ × List Inode} → Gets dev inum t r → Outcome dev inum t (ok r)
  none_free : Missing dev inum t → AllUsed t → Outcome dev inum t panic

update_self :
    (i : ℕ) (f : Inode → Inode) (t : List Inode)
    → i < length t
    → inode_at i (update i f t) ≡ f (inode_at i t)
update_self i f t lt = get_or-set_self t i (f (inode_at i t)) no_inode lt

update_ne :
    (i m : ℕ) (f : Inode → Inode) (t : List Inode)
    → m ≢ i
    → inode_at m (update i f t) ≡ inode_at m t
update_ne i m f t ne = get_or-set_ne t i m (f (inode_at i t)) no_inode (λ e. ne (omega arith))

hit-Gets :
    (dev inum m : ℕ) (t : List Inode)
    → m < length t
    → is_inode dev inum (inode_at m t) ≡ true
    → Gets dev inum t (m, update m more_ref t)
hit-Gets dev inum m t lt h = record {
  inside = lt;
  others = λ n ne. update_ne m n more_ref t ne;
  named = rw (update_self m more_ref t lt) (ground arith);
  kind = inl (h, update_self m more_ref t lt);
}

free-Gets :
    (dev inum m : ℕ) (t : List Inode)
    → m < length t
    → Missing dev inum t
    → (inode_at m t).ref ≡ 0
    → Gets dev inum t (m, update m (reset_inode dev inum) t)
free-Gets dev inum m t lt h z = record {
  inside = lt;
  others = λ n ne. update_ne m n (reset_inode dev inum) t ne;
  named = rw (update_self m (reset_inode dev inum) t lt) (ground arith);
  kind = inr (h, z, update_self m (reset_inode dev inum) t lt);
}

iget_by :
    (dev inum : ℕ) (t : List Inode) (r : Option ℕ × Option ℕ)
    → scan dev inum 0 none t ≡ r
    → Scans dev inum 0 none t r
    → Outcome dev inum t (iget dev inum t)
unfolding iget
iget_by dev inum t r e (hit m lt at h) =
    let here : (scan dev inum 0 none t).0 ≡ some m =
      ap (λ (x : Option ℕ × Option ℕ). x.0) e ∙ at ∙ ap some (omega arith) in
    rw (here, iget) (got (hit-Gets dev inum m t lt h))
iget_by dev inum t r e (miss at h (inl (m, lt, z, f))) =
    let none_here : (scan dev inum 0 none t).0 ≡ none =
      ap (λ (x : Option ℕ × Option ℕ). x.0) e ∙ at in
    let free : (scan dev inum 0 none t).1 ≡ some m =
      ap (λ (x : Option ℕ × Option ℕ). x.1) e ∙ f ∙ ap some (omega arith) in
    rw (none_here, free, iget) (got (free-Gets dev inum m t lt h z))
iget_by dev inum t r e (miss at h (inr (all, f))) =
    let none_here : (scan dev inum 0 none t).0 ≡ none =
      ap (λ (x : Option ℕ × Option ℕ). x.0) e ∙ at in
    let no_slot : (scan dev inum 0 none t).1 ≡ none = ap (λ (x : Option ℕ × Option ℕ). x.1) e ∙ f in
    rw (none_here, no_slot, iget) (none_free h all)

-- `iget` returns a slot in use for the inode, the one that was in use for it if there is one, and
-- changes no other slot; it panics only if no slot is in use for the inode and none is free.
pub iget-Outcome : (dev inum : ℕ) (t : List Inode) → Outcome dev inum t (iget dev inum t)
iget-Outcome dev inum t =
    iget_by dev inum t (scan dev inum 0 none t) refl (scan-Scans dev inum 0 none t)

-- At most one slot is in use for an inode.
abbrev pub IsSingle : List Inode → Type 0
IsSingle t =
    (dev inum i j : ℕ)
    → is_inode dev inum (inode_at i t) ≡ true
    → is_inode dev inum (inode_at j t) ≡ true
    → i ≡ j

-- The slot that `iget` returns is the only one in use for its inode.
only :
    (dev inum d n j : ℕ) (t : List Inode) (r : ℕ × List Inode)
    → Gets dev inum t r
    → IsSingle t
    → j ≢ r.0
    → is_inode d n (inode_at r.0 r.1) ≡ true
    → is_inode d n (inode_at j r.1) ≡ true
    → r.0 ≡ j
only dev inum d n j t r g u ne h hj =
    let (same_dev, same_inum) : (d ≡ dev) × (n ≡ inum) =
      (ground (arith, g.named), ground (arith, g.named)) in
    let old : is_inode dev inum (inode_at j t) ≡ true =
      rw (g.others j ne, same_dev, same_inum) at hj in
    elim g.kind [ inl (was, _) ↦ u dev inum r.0 j was old | inr (missing, _, _) ↦ cc (missing j) ]

Gets-IsSingle :
    (dev inum : ℕ) (t : List Inode) (r : ℕ × List Inode)
    → Gets dev inum t r
    → IsSingle t
    → IsSingle r.1
Gets-IsSingle dev inum t r g u d n i j hi hj = elim (Bool-cases (i == r.0)) [
  | inl a ↦ elim (Bool-cases (j == r.0)) [
    | inl b ↦ ground arith
    | inr b ↦
        let e : i ≡ r.0 = ground arith in
        e ∙ only dev inum d n j t r g u (λ f. ground arith) (rw e at hi) hj
  ]
  | inr a ↦ elim (Bool-cases (j == r.0)) [
    | inl b ↦
        let e : j ≡ r.0 = ground arith in
        sym (e ∙ only dev inum d n i t r g u (λ f. ground arith) (rw e at hj) hi)
    | inr b ↦
        u d n i j (rw (g.others i (λ f. ground arith)) at hi)
          (rw (g.others j (λ f. ground arith)) at hj)
  ]
]

-- From a table with at most one slot in use for each inode, an `iget` that succeeds leaves such a
-- table.
pub iget-IsSingle :
    (dev inum : ℕ) (t : List Inode) {r : ℕ × List Inode}
    → IsSingle t
    → iget dev inum t ≡ ok r
    → IsSingle r.1
iget-IsSingle dev inum t {r} u e = elim (rw e at (iget-Outcome dev inum t)) [
  | got g ↦ Gets-IsSingle dev inum t r g u
]
