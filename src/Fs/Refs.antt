-- ===== src/Fs/Refs.antt =====
-- The references of the slots of the table of inodes through the operations of kernel/fs/fs.c: which of them
-- take a reference and which give one back.
use ustc_26spring.Common.{
  ℕ, zero, suc, ◌+◌, ◌-◌, ◌/◌, ◌≤◌, ◌<◌, ◌≡◌, ◌≢◌, refl, sym, ap, ◌∙◌, inl, inr, Bool, true, false,
  not, ◌&&◌, ltb, ◌==◌, if◌then◌else◌, Option, none, some, List, [], ◌∷◌, set, length,
  get_or-set_self, get_or-set_ne, arith, Bool-cases, Option-cases,
}
use ustc_26spring.Common.Result.{Result, ok, panic, ◌>>=◌}
use ustc_26spring.Bio.{Disk}
use ustc_26spring.Fs.Bitmap.{Superblock}
use ustc_26spring.Fs.Inode.{Inode, no_inode, inode_at, more_ref, less_ref, iget, idup, put_ref}
use ustc_26spring.Fs.Dinode.{ialloc_from, ialloc}
use ustc_26spring.Fs.Write.{writei}
use ustc_26spring.Fs.Single.{Gets, Outcome, got, none_free, iget-Outcome}
use ustc_26spring.Fs.Dirs.{
  dir_type, dirent_size, find_entry, iput, dirlookup, find_free, new_entry, write_entry, dirlink,
}
use ustc_26spring.Fs.Held.{
  Ok, stops, fine, Ok-bind, Ok-if, any_result, ilock-ref, lock_if_needed-ref, writei-ref,
  itrunc-ref,
}

-- Each slot i has b i references.
abbrev pub HasRefs : (ℕ → ℕ) → List Inode → Type 0
HasRefs b t = (k : ℕ) → (inode_at k t).ref ≡ b k

-- One more reference for slot i.
abbrev pub plus : ℕ → (ℕ → ℕ) → ℕ → ℕ
plus i b k = if k == i then b k + 1 else b k

-- One more for the slot that is found, if one is.
abbrev pub plus_found : Option ℕ → (ℕ → ℕ) → ℕ → ℕ
plus_found none b = b
plus_found (some i) b = plus i b

in_range : (t : List Inode) (i : ℕ) → 1 ≤ (inode_at i t).ref → i < length t
in_range [] i h = absurd (omega arith)
in_range (x ∷ t) zero h = omega arith
in_range (x ∷ t) (suc i) h = omega (arith, in_range t i h)

-- A slot changes, but not its references.
pub set-HasRefs :
    (b : ℕ → ℕ) (t : List Inode) (i : ℕ) (x : Inode)
    → x.ref ≡ (inode_at i t).ref
    → HasRefs b t
    → HasRefs b (set t i x)
set-HasRefs b t i x e h k = same t i x e k ∙ h k
  where
    same :
        (t : List Inode) (i : ℕ) (x : Inode)
        → x.ref ≡ (inode_at i t).ref
        → (k : ℕ) → (inode_at k (set t i x)).ref ≡ (inode_at k t).ref
    same [] i x e k = refl
    same (y ∷ t) zero x e zero = e
    same (y ∷ t) zero x e (suc k) = refl
    same (y ∷ t) (suc i) x e zero = refl
    same (y ∷ t) (suc i) x e (suc k) = same t i x e k

pub more-HasRefs :
    (b : ℕ → ℕ) (t : List Inode) (i : ℕ) (x : Inode)
    → i < length t
    → x.ref ≡ (inode_at i t).ref + 1
    → HasRefs b t
    → HasRefs (plus i b) (set t i x)
more-HasRefs b t i x lt e h k = elim (Bool-cases (k == i)) [
  | inl same ↦
      let z : k ≡ i = ground arith in
      rw z (ap (λ (y : Inode). y.ref) (get_or-set_self t i x no_inode lt) ∙ ground (arith, h i))
  | inr other ↦
      let z : i ≢ k = (λ w. ground arith) in
      ap (λ (y : Inode). y.ref) (get_or-set_ne t i k x no_inode z) ∙ ground (arith, h k)
]

pub less-HasRefs :
    (b : ℕ → ℕ) (t : List Inode) (i : ℕ) (x : Inode)
    → x.ref + 1 ≡ (inode_at i t).ref
    → HasRefs (plus i b) t
    → HasRefs b (set t i x)
less-HasRefs b t i x e h k = elim (Bool-cases (k == i)) [
  | inl same ↦
      let z : k ≡ i = ground arith in
      let lt = in_range t i (omega arith) in
      rw z (ap (λ (y : Inode). y.ref) (get_or-set_self t i x no_inode lt) ∙ ground (arith, h i))
  | inr other ↦
      let z : i ≢ k = (λ w. ground arith) in
      ap (λ (y : Inode). y.ref) (get_or-set_ne t i k x no_inode z) ∙ ground (arith, h k)
]

pub put_ref-HasRefs :
    (b : ℕ → ℕ) (t : List Inode) (i : ℕ) → HasRefs (plus i b) t → HasRefs b (put_ref i t)
unfolding put_ref
put_ref-HasRefs b t i h = less-HasRefs b t i (less_ref (inode_at i t)) (ground (arith, h i)) h

-- `iget` takes a reference to the slot that it returns.
pub iget-HasRefs :
    (b : ℕ → ℕ) (dev inum : ℕ) (t : List Inode)
    → HasRefs b t
    → Ok (λ r. HasRefs (plus r.0 b) r.1) (iget dev inum t)
iget-HasRefs b dev inum t h = by_outcome (iget dev inum t) (iget-Outcome dev inum t)
  where
    gets : (r : ℕ × List Inode) → Gets dev inum t r → HasRefs (plus r.0 b) r.1
    gets r g k = elim (Bool-cases (k == r.0)) [
      | inl same ↦
          let z : k ≡ r.0 = ground arith in
          rw z (elim g.kind [
            | inl (used, q) ↦ ap (λ (y : Inode). y.ref) q ∙ ground (arith, h r.0)
            | inr (missing, nil, q) ↦ ap (λ (y : Inode). y.ref) q ∙ ground (arith, h r.0)
          ])
      | inr other ↦
          let z : k ≢ r.0 = (λ w. ground arith) in
          ap (λ (y : Inode). y.ref) (g.others k z) ∙ ground (arith, h k)
    ]

    by_outcome :
        (r : Result (ℕ × List Inode)) → Outcome dev inum t r → Ok (λ x. HasRefs (plus x.0 b) x.1) r
    by_outcome panic (none_free m u) = stops
    by_outcome (ok r) (got g) = fine (gets r g)

pub idup-HasRefs :
    (b : ℕ → ℕ) (i : ℕ) (t : List Inode) → HasRefs b t → Ok (HasRefs (plus i b)) (idup i t)
unfolding idup
idup-HasRefs b i t h = elim (Bool-cases (ltb (inode_at i t).ref 1)) [
  | inl e ↦ rw (e, idup) stops
  | inr e ↦
      rw (e, idup)
        (fine (more-HasRefs b t i (more_ref (inode_at i t)) (in_range t i (ground arith)) refl h))
]

-- One more for the slot of an entry that is found.
abbrev pub plus_entry : Option (ℕ × ℕ) → (ℕ → ℕ) → ℕ → ℕ
plus_entry none b = b
plus_entry (some (j, off)) b = plus j b

module _ (sb : Superblock) where
  -- `iput` gives a reference back.
  pub iput-HasRefs :
      (b : ℕ → ℕ) (i : ℕ) (t : List Inode) (d : Disk)
      → HasRefs (plus i b) t
      → Ok (λ r. HasRefs b r.0) (iput sb i t d)
  unfolding iput
  iput-HasRefs b i t d h =
      let ip = inode_at i t in
      Ok-if (ltb ip.ref 1) stops (
        Ok-if ((ip.ref == 1) && ip.valid && (ip.nlink == 0))
          (Ok-bind _ (ilock-ref sb ip d) (λ jp e. Ok-bind _ (itrunc-ref sb true jp d) (λ r f. fine (
            put_ref-HasRefs b (set t i (record r.0 { type = 0; valid = false })) i
              (set-HasRefs (plus i b) t i (record r.0 { type = 0; valid = false }) (f ∙ e) h)))))
          (fine (put_ref-HasRefs b t i h)))

  pub ialloc-HasRefs :
      (b : ℕ → ℕ) (dev type : ℕ) (t : List Inode) (d : Disk)
      → HasRefs b t
      → Ok (λ r. HasRefs (plus_found r.0 b) r.1) (ialloc sb dev type t d)
  unfolding ialloc
  ialloc-HasRefs b dev type t d h =
      elim (Option-cases (ialloc_from sb (sb.ninodes - 1) 1 dev type d)) [
        | inl e ↦ rw (e, ialloc) (fine h)
        | inr ((inum, d'), e) ↦
            rw (e, ialloc) (Ok-bind _ (iget-HasRefs b dev inum t h) (λ r g. fine g))
      ]

  pub dirlookup-HasRefs :
      (b : ℕ → ℕ) (held : Bool) (i : ℕ) (name : List ℕ) (t : List Inode) (d : Disk)
      → HasRefs b t
      → Ok (λ r. HasRefs (plus_entry r.0 b) r.1) (dirlookup sb held i name t d)
  unfolding dirlookup
  dirlookup-HasRefs b held i name t d h =
      Ok-bind _ (lock_if_needed-ref sb held (inode_at i t) d) (λ dp e.
        let kept = set-HasRefs b t i dp e h in
        Ok-if (not (dp.type == dir_type)) (fine kept) (
          Ok-bind _ (any_result (find_entry sb (dp.size / dirent_size + 1) dp name 0 d))
            (λ found u. on_found dp found kept)))
    where
      on_found :
          (dp : Inode) (found : Option (ℕ × ℕ))
          → HasRefs b (set t i dp)
          → Ok
              (λ (r : Option (ℕ × ℕ) × List Inode). HasRefs (plus_entry r.0 b) r.1)
              (elim found [
                | none ↦ ok (none, set t i dp)
                | some (inum, off) ↦
                    iget dp.dev inum (set t i dp) >>= λ (j, u). ok (some (j, off), u)
              ])
      on_found dp none kept = fine kept
      on_found dp (some (inum, off)) kept =
          Ok-bind _ (iget-HasRefs b dp.dev inum (set t i dp) kept) (λ r g. fine g)

  write_entry-HasRefs :
      (b : ℕ → ℕ) (i : ℕ) (dp : Inode) (name : List ℕ) (inum : ℕ) (t : List Inode) (d : Disk)
      → dp.ref ≡ (inode_at i t).ref
      → HasRefs b t
      → Ok (λ r. HasRefs b r.1) (write_entry sb i dp name inum t d)
  unfolding write_entry
  write_entry-HasRefs b i dp name inum t d e h =
      Ok-bind _ (any_result (find_free sb (dp.size / dirent_size + 1) dp 0 d))
        (λ free u. on_free free)
    where
      on_free :
          (free : Option ℕ)
          → Ok
              (λ (r : Bool × List Inode × Disk). HasRefs b r.1)
              (elim free [
                | none ↦ ok (false, t, d)
                | some off ↦
                    writei sb (new_entry sb inum name) true dp off dirent_size d >>= λ (n, jp, d').
                    ok (elim n [ none ↦ false | some m ↦ m == dirent_size ], set t i jp, d')
              ])
      on_free none = fine h
      on_free (some off) =
          Ok-bind _ (writei-ref sb (new_entry sb inum name) true dp off dirent_size d)
            (λ r f. fine (set-HasRefs b t i r.1 (f ∙ e) h))

  -- `dirlink` gives back what its lookup takes.
  pub dirlink-HasRefs :
      (b : ℕ → ℕ) (held : Bool) (i : ℕ) (name : List ℕ) (inum : ℕ) (t : List Inode) (d : Disk)
      → HasRefs b t
      → Ok (λ r. HasRefs b r.1) (dirlink sb held i name inum t d)
  unfolding dirlink
  dirlink-HasRefs b held i name inum t d h =
      Ok-bind _ (lock_if_needed-ref sb held (inode_at i t) d) (λ dp e.
        let kept = set-HasRefs b t i dp e h in
        Ok-if (not (dp.type == dir_type)) (fine kept) (
          Ok-bind _ (dirlookup-HasRefs b true i name (set t i dp) d kept)
            (λ r g. on_found dp r.0 r.1 (e ∙ h i) g)))
    where
      on_found :
          (dp : Inode) (found : Option (ℕ × ℕ)) (u : List Inode)
          → dp.ref ≡ b i
          → HasRefs (plus_entry found b) u
          → Ok
              (λ (r : Bool × List Inode × Disk). HasRefs b r.1)
              (elim found [
                | some (j, _) ↦ iput sb j u d >>= λ (v, d'). ok (false, v, d')
                | none ↦ write_entry sb i dp name inum u d
              ])
      on_found dp (some (j, off)) u e g = Ok-bind _ (iput-HasRefs b j u d g) (λ r k. fine k)
      on_found dp none u e g = write_entry-HasRefs b i dp name inum u d (e ∙ sym (g i)) g
