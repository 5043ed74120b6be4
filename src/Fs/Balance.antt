-- ===== src/Fs/Balance.antt =====
-- The references of the slots of the table of inodes through `namex` of kernel/fs/fs.c.
use ustc_26spring.Common.{
  ℕ, zero, suc, ◌+◌, inl, inr, Bool, true, false, not, ◌&&◌, ◌==◌, Option, none, some, List, [],
  ◌∷◌, set, length, arith, Bool-cases, Option-cases,
}
use ustc_26spring.Common.Result.{Result, ok, ◌>>=◌}
use ustc_26spring.Bio.{Disk}
use ustc_26spring.Fs.Bitmap.{Superblock}
use ustc_26spring.Fs.Names.{slash, skipelem}
use ustc_26spring.Fs.Inode.{Inode, inode_at, iget, idup}
use ustc_26spring.Fs.Dirs.{dir_type, iput, dirlookup}
use ustc_26spring.Fs.Paths.{root_inum, is_end, Walked, give_up, walk_round, walk_path, namex}
use ustc_26spring.Fs.Held.{Ok, stops, fine, Ok-bind, Ok-if, ilock-ref}
use ustc_26spring.Fs.Refs.{
  HasRefs, plus, plus_found, plus_entry, set-HasRefs, iget-HasRefs, idup-HasRefs, iput-HasRefs,
  dirlookup-HasRefs,
}

-- A walk leaves one reference more, for the inode that it finds.
abbrev pub WalkRefs : (ℕ → ℕ) → Walked → Type 0
WalkRefs b w = HasRefs (plus_found w.inode b) w.table

module _ (sb : Superblock) (b : ℕ → ℕ) where
  give_up-Refs :
      (i : ℕ) (name : List ℕ) (t : List Inode) (d : Disk)
      → HasRefs (plus i b) t
      → Ok (WalkRefs b) (give_up sb i name t d)
  give_up-Refs i name t d h = Ok-bind _ (iput-HasRefs sb b i t d h) (λ r g. fine g)

  -- The directory i is put after the lookup that has perhaps taken a reference.
  put_after :
      (i : ℕ) (next : Option (ℕ × ℕ)) (u : List Inode) (d : Disk)
      → HasRefs (plus_entry next (plus i b)) u
      → Ok (λ r. HasRefs (plus_entry next b) r.0) (iput sb i u d)
  put_after i none u d h = iput-HasRefs sb b i u d h
  put_after i (some (j, off)) u d h = iput-HasRefs sb (plus j b) i u d (λ k. ground (arith, h k))

  walk_round-Refs :
      (on : ℕ → List Inode → Disk → Result Walked)
      → ((j : ℕ) (u : List Inode) (d : Disk) → HasRefs (plus j b) u → Ok (WalkRefs b) (on j u d))
      → (parent : Bool) (i : ℕ) (elem rest : List ℕ) (t : List Inode) (d : Disk)
      → HasRefs (plus i b) t
      → Ok (WalkRefs b) (walk_round sb on parent i elem rest t d)
  unfolding walk_round
  walk_round-Refs on go_on parent i elem rest t d h =
      Ok-bind _ (ilock-ref sb (inode_at i t) d)
        (λ ip e. locked ip (set-HasRefs (plus i b) t i ip e h))
    where
      go_to :
          (next : Option (ℕ × ℕ)) (v : List Inode) (d' : Disk)
          → HasRefs (plus_entry next b) v
          → Ok (WalkRefs b) (elim next [
            | none ↦ ok (record { inode = none; name = elem; table = v; disk = d' })
            | some (j, off) ↦ on j v d'
          ])
      go_to none v d' g = fine g
      go_to (some (j, off)) v d' g = go_on j v d' g

      locked :
          (ip : Inode)
          → HasRefs (plus i b) (set t i ip)
          → Ok (WalkRefs b) (elim (not (ip.type == dir_type)) [
            | true ↦ give_up sb i elem (set t i ip) d
            | false ↦ elim (parent && is_end rest) [
              | true ↦ ok (record { inode = some i; name = elem; table = set t i ip; disk = d })
              | false ↦ dirlookup sb true i elem (set t i ip) d >>= λ (next, u).
                  iput sb i u d >>= λ (v, d'). elim next [
                    | none ↦ ok (record { inode = none; name = elem; table = v; disk = d' })
                    | some (j, off) ↦ on j v d'
                  ]
            ]
          ])
      locked ip g = elim (Bool-cases (not (ip.type == dir_type))) [
        | inl e ↦ rw e (give_up-Refs i elem (set t i ip) d g)
        | inr e ↦ rw e (elim (Bool-cases (parent && is_end rest)) [
          | inl f ↦ rw f (fine g)
          | inr f ↦ rw f (
              Ok-bind _ (dirlookup-HasRefs sb (plus i b) true i elem (set t i ip) d g)
                (λ r k. Ok-bind _ (put_after i r.0 r.1 d k) (λ s l. go_to r.0 s.0 s.1 l)))
        ])
      ]

  walk_path-Refs :
      (fuel : ℕ) (parent : Bool) (name path : List ℕ) (i : ℕ) (t : List Inode) (d : Disk)
      → HasRefs (plus i b) t
      → Ok (WalkRefs b) (walk_path sb fuel parent name path i t d)
  unfolding walk_path
  walk_path-Refs zero parent name path i t d h = stops
  walk_path-Refs (suc fuel) parent name path i t d h = elim (Option-cases (skipelem path)) [
    | inl e ↦ rw (e, walk_path) (Ok-if parent (give_up-Refs i name t d h) (fine h))
    | inr ((elem, rest), e) ↦
        rw (e, walk_path)
          (walk_round-Refs (walk_path sb fuel parent elem rest)
            (λ j u c g. walk_path-Refs fuel parent elem rest j u c g) parent i elem rest t d h)
  ]

  -- `namex` returns an inode with one more reference, or changes no references.
  pub namex-Refs :
      (rootdev : ℕ) (cwd : Option ℕ) (parent : Bool) (path : List ℕ) (t : List Inode) (d : Disk)
      → HasRefs b t
      → Ok (WalkRefs b) (namex sb rootdev cwd parent path t d)
  unfolding namex
  namex-Refs rootdev cwd parent [] t d h = fine h
  namex-Refs rootdev cwd parent (x ∷ path) t d h = elim (Bool-cases (x == slash)) [
    | inl e ↦ rw (e, namex) from_root
    | inr e ↦ rw (e, namex) (from cwd)
  ]
    where
      walk :
          (i : ℕ) (u : List Inode)
          → HasRefs (plus i b) u
          → Ok (WalkRefs b) (walk_path sb (length (x ∷ path) + 1) parent [] (x ∷ path) i u d)
      walk i u g = walk_path-Refs (length (x ∷ path) + 1) parent [] (x ∷ path) i u d g

      from_root : Ok (WalkRefs b) (
          iget rootdev root_inum t >>= λ (i, u).
          walk_path sb (length (x ∷ path) + 1) parent [] (x ∷ path) i u d)
      from_root = Ok-bind _ (iget-HasRefs b rootdev root_inum t h) (λ r g. walk r.0 r.1 g)

      from :
          (cwd : Option ℕ)
          → Ok (WalkRefs b) (elim cwd [
            | some i ↦
                idup i t >>= λ u. walk_path sb (length (x ∷ path) + 1) parent [] (x ∷ path) i u d
            | none ↦ iget rootdev root_inum t >>= λ (i, u).
                walk_path sb (length (x ∷ path) + 1) parent [] (x ∷ path) i u d
          ])
      from none = from_root
      from (some i) = Ok-bind _ (idup-HasRefs b i t h) (λ u g. walk i u g)
