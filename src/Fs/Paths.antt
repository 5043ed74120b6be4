-- ===== src/Fs/Paths.antt =====
-- The walk of a path of kernel/fs/fs.c: `namex`, `namei` and `nameiparent`, for one caller.
use ustc_26spring.Common.{
  ℕ, zero, suc, ◌+◌, ◌≤◌, ◌<◌, ◌≡◌, ◌≢◌, refl, ap, ◌∙◌, inl, inr, Bool, true, false, not, ◌&&◌,
  ◌==◌, if◌then◌else◌, Option, none, some, List, [], ◌∷◌, ◌++◌, set, length, length-append, arith,
  Option-cases,
}
use ustc_26spring.Common.Result.{Result, ok, panic, ◌>>=◌}
use ustc_26spring.Bio.{Disk}
use ustc_26spring.Fs.Names.{slash, skipelem, skipelem-Skips, Taken, done, found}
use ustc_26spring.Fs.Bitmap.{Superblock}
use ustc_26spring.Fs.Inode.{Inode, inode_at, iget, idup}
use ustc_26spring.Fs.Dinode.{ilock}
use ustc_26spring.Fs.Dirs.{dir_type, iput, dirlookup}

-- ROOTINO
abbrev pub root_inum : ℕ
root_inum = 1

-- Whether a rest of a path is at its end.
abbrev pub is_end : List ℕ → Bool
is_end [] = true
is_end (x ∷ path) = false

-- What a walk comes to: the slot of the inode (`none` is 0), the last element taken, the table, the disk.
pub record Walked : Type 0 where
  pub inode : Option ℕ
  pub name : List ℕ
  pub table : List Inode
  pub disk : Disk

module _ (sb : Superblock) where
  -- The walk gives up: the inode is put, and the result is 0.
  abbrev pub give_up : ℕ → List ℕ → List Inode → Disk → Result Walked
  give_up i name t d =
      iput sb i t d >>= λ (u, d'). ok (record { inode = none; name = name; table = u; disk = d' })

  -- A round of the loop of `namex` at slot i, with the element that is taken and the rest of the path;
  -- `on` is the loop from the next inode on.
  unfoldable pub walk_round :
      (ℕ → List Inode → Disk → Result Walked)
      → Bool
      → ℕ
      → List ℕ
      → List ℕ
      → List Inode
      → Disk
      → Result Walked
  walk_round on parent i elem rest t d = ilock sb (inode_at i t) d >>= λ ip.
      elim (not (ip.type == dir_type)) [
        | true ↦ give_up i elem (set t i ip) d
        | false ↦ elim (parent && is_end rest) [
          | true ↦ ok (record { inode = some i; name = elem; table = set t i ip; disk = d })
          | false ↦ dirlookup sb true i elem (set t i ip) d >>= λ (next, u).
              iput sb i u d >>= λ (v, d'). elim next [
                | none ↦ ok (record { inode = none; name = elem; table = v; disk = d' })
                | some (j, off) ↦ on j v d'
              ]
        ]
      ]

  -- The loop of `namex`; each round takes an element off the path.
  unfoldable pub walk_path : ℕ → Bool → List ℕ → List ℕ → ℕ → List Inode → Disk → Result Walked
  walk_path zero parent name path i t d = panic
  walk_path (suc fuel) parent name path i t d = elim (skipelem path) [
    | none ↦
        if parent
        then give_up i name t d
        else ok (record { inode = some i; name = name; table = t; disk = d })
    | some (elem, rest) ↦ walk_round (walk_path fuel parent elem rest) parent i elem rest t d
  ]

  -- `namex` on a path; `cwd` is the slot of the directory of the process, if it has one.
  unfoldable pub namex : ℕ → Option ℕ → Bool → List ℕ → List Inode → Disk → Result Walked
  unfolding walk_path
  namex rootdev cwd parent [] t d = ok (record { inode = none; name = []; table = t; disk = d })
  namex rootdev cwd parent (x ∷ path) t d = elim (x == slash) [
    | true ↦ iget rootdev root_inum t >>= λ (i, u).
        walk_path (length (x ∷ path) + 1) parent [] (x ∷ path) i u d
    | false ↦ elim cwd [
      | some i ↦ idup i t >>= λ u. walk_path (length (x ∷ path) + 1) parent [] (x ∷ path) i u d
      | none ↦ iget rootdev root_inum t >>= λ (i, u).
          walk_path (length (x ∷ path) + 1) parent [] (x ∷ path) i u d
    ]
  ]

  abbrev pub namei : ℕ → Option ℕ → List ℕ → List Inode → Disk → Result Walked
  namei rootdev cwd path t d = namex rootdev cwd false path t d

  abbrev pub nameiparent : ℕ → Option ℕ → List ℕ → List Inode → Disk → Result Walked
  nameiparent rootdev cwd path t d = namex rootdev cwd true path t d

nonempty : (l : List ℕ) → l ≢ [] → 1 ≤ length l
nonempty [] ne = absurd (ne refl)
nonempty (x ∷ l) ne = omega arith

-- `skipelem` leaves a shorter path.
skipelem-shorter :
    (path elem rest : List ℕ) → skipelem path ≡ some (elem, rest) → length rest < length path
skipelem-shorter path elem rest e = elim (skipelem-Skips path) [
  | done s q ↦ absurd (cc)
  | found name rest' taken q ↦ let same : rest ≡ rest' = ground arith in rw same (shorter taken)
]
  where
    shorter : {name rest' : List ℕ} → Taken path name rest' → length rest' < length path
    shorter {name} {rest'} taken =
        let split =
          ap length taken.whole
          ∙ length-append taken.before (taken.elem ++ (taken.after ++ rest')) in
        let split' = length-append taken.elem (taken.after ++ rest') in
        omega (
          arith,
          split,
          split',
          length-append taken.after rest',
          nonempty taken.elem taken.some_byte,
        )

module _ (sb : Superblock) where
  -- The loop of `namex` has the same result with any fuel above the length of the path, so the fuel that
  -- `namex` gives it is enough, and its last round is never reached.
  pub walk_path-enough :
      (fuel fuel' : ℕ) (parent : Bool) (name path : List ℕ) (i : ℕ) (t : List Inode) (d : Disk)
      → length path < fuel
      → length path < fuel'
      → walk_path sb fuel parent name path i t d ≡ walk_path sb fuel' parent name path i t d
  unfolding walk_path
  walk_path-enough zero fuel' parent name path i t d h h' = absurd (omega arith)
  walk_path-enough (suc fuel) zero parent name path i t d h h' = absurd (omega arith)
  walk_path-enough (suc fuel) (suc fuel') parent name path i t d h h' =
      elim (Option-cases (skipelem path)) [
        | inl e ↦ rw (e, walk_path) refl
        | inr ((elem, rest), e) ↦
            let lt = skipelem-shorter path elem rest e in
            rw (e, walk_path)
              (ap (λ on. walk_round sb on parent i elem rest t d)
                (λ z j u c.
                  walk_path-enough fuel fuel' parent elem rest j u c (omega arith) (omega arith) z))
      ]
