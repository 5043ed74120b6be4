-- ===== src/Fs/Dirs.antt =====
-- Directories of kernel/fs/fs.c: `namecmp` and `dirlookup`, and the whole of `iput`. A name is the bytes before its 0.
-- An offset in a directory is a number below its size.
use ustc_26spring.Common.{
  ℕ, zero, suc, ◌+◌, ◌-◌, ◌*◌, ◌/◌, Bool, true, false, not, ◌&&◌, leb, ltb, ◌==◌, if◌then◌else◌,
  Option, none, some, List, [], ◌∷◌, get_or, set, min, length, ◌%◌,
}
use ustc_26spring.Common.Result.{Result, ok, panic, ◌>>=◌}
use ustc_26spring.Bio.{Disk}
use ustc_26spring.Fs.Names.{dirsiz}
use ustc_26spring.Fs.Bitmap.{Superblock}
use ustc_26spring.Fs.Inode.{Inode, inode_at, iget, put_ref}
use ustc_26spring.Fs.Dinode.{lock_if_needed, ilock, iupdate}
use ustc_26spring.Fs.Bmap.{readi, itrunc}
use ustc_26spring.Fs.Write.{writei}

-- sizeof(struct dirent), and T_DIR.
abbrev pub dirent_size : ℕ
dirent_size = 16

abbrev pub dir_type : ℕ
dir_type = 1

-- The number and the name of the bytes of an entry.
abbrev pub entry_inum : List ℕ → ℕ
entry_inum bytes = get_or bytes 0 0 + 256 * get_or bytes 1 0

abbrev pub entry_name : List ℕ → List ℕ
entry_name [] = []
entry_name (a ∷ []) = []
entry_name (a ∷ b ∷ name) = name

-- Whether the first n bytes of two strings are the same up to the first 0; beyond a list is a 0.
unfoldable pub same_name : ℕ → List ℕ → List ℕ → Bool
same_name zero s t = true
same_name (suc n) [] [] = true
same_name (suc n) [] (b ∷ t) = b == 0
same_name (suc n) (a ∷ s) [] = a == 0
same_name (suc n) (a ∷ s) (b ∷ t) = elim (a == b) [
  | false ↦ false
  | true ↦ elim (a == 0) [ true ↦ true | false ↦ same_name n s t ]
]

abbrev pub whole_entry : Option (List ℕ) → Option (List ℕ)
whole_entry none = none
whole_entry (some bytes) = if length bytes == dirent_size then some bytes else none

-- Whether an entry is in use and has the name.
abbrev pub is_named : List ℕ → List ℕ → Bool
is_named name bytes = not (entry_inum bytes == 0) && same_name dirsiz name (entry_name bytes)

module _ (sb : Superblock) where
  -- The entry at an offset of a locked directory, if all of it can be read.
  unfoldable pub read_entry : Inode → ℕ → Disk → Result (Option (List ℕ))
  read_entry dp off d = readi sb true dp off dirent_size d >>= λ (o, _). ok (whole_entry o)

  -- The loop of `dirlookup` from an offset on: the number of the inode, and the offset of its entry.
  unfoldable pub find_entry : ℕ → Inode → List ℕ → ℕ → Disk → Result (Option (ℕ × ℕ))
  unfolding read_entry
  find_entry zero dp name off d = ok none
  find_entry (suc fuel) dp name off d = elim (leb (off + dirent_size) dp.size) [
    | false ↦ ok none
    | true ↦ elim (read_entry dp off d) [
      | panic ↦ panic
      | ok none ↦ ok none
      | ok (some bytes) ↦ elim (is_named name bytes) [
        | true ↦ ok (some (entry_inum bytes, off))
        | false ↦ find_entry fuel dp name (off + dirent_size) d
      ]
    ]
  ]

  -- `iput`: the last reference to an inode without links also frees its blocks and the inode.
  unfoldable pub iput : ℕ → List Inode → Disk → Result (List Inode × Disk)
  unfolding itrunc iupdate
  iput i t d =
      let ip = inode_at i t in
      if ltb ip.ref 1
      then panic
      else if (ip.ref == 1) && ip.valid && (ip.nlink == 0)
      then (ilock sb ip d >>= λ jp. itrunc sb true jp d >>= λ (kp, d1).
          iupdate sb true (record kp { type = 0 }) d1 >>= λ (lp, d2).
          ok (put_ref i (set t i (record lp { valid = false })), d2))
      else ok (put_ref i t, d)

  -- The directory is slot i of the table. The slot of the inode and the offset of its entry.
  unfoldable pub dirlookup :
      Bool → ℕ → List ℕ → List Inode → Disk → Result (Option (ℕ × ℕ) × List Inode)
  unfolding find_entry
  dirlookup held i name t d = lock_if_needed sb held (inode_at i t) d >>= λ dp.
      if not (dp.type == dir_type)
      then ok (none, set t i dp)
      else (find_entry (dp.size / dirent_size + 1) dp name 0 d >>= λ found. elim found [
        | none ↦ ok (none, set t i dp)
        | some (inum, off) ↦ iget dp.dev inum (set t i dp) >>= λ (j, u). ok (some (j, off), u)
      ])

  -- The loop of `dirlink` from an offset on: the first entry that is free, or the end.
  unfoldable pub find_free : ℕ → Inode → ℕ → Disk → Result (Option ℕ)
  unfolding read_entry
  find_free zero dp off d = ok (some off)
  find_free (suc fuel) dp off d = elim (leb (off + dirent_size) dp.size) [
    | false ↦ ok (some off)
    | true ↦ elim (read_entry dp off d) [
      | panic ↦ panic
      | ok none ↦ ok none
      | ok (some bytes) ↦ elim (entry_inum bytes == 0) [
        | true ↦ ok (some off)
        | false ↦ find_free fuel dp (off + dirent_size) d
      ]
    ]
  ]

  -- The bytes of a new entry.
  abbrev pub new_entry : ℕ → List ℕ → ℕ → ℕ
  new_entry inum name k =
      if k == 0
      then inum % 256
      else if k == 1
      then inum / 256 % 256
      else if ltb (k - 2) (min dirsiz (length name))
      then get_or name (k - 2) 0
      else 0

  -- The end of `dirlink`, for a locked directory dp: whether the entry is written.
  unfoldable pub write_entry :
      ℕ → Inode → List ℕ → ℕ → List Inode → Disk → Result (Bool × List Inode × Disk)
  unfolding find_free
  write_entry i dp name inum t d = find_free (dp.size / dirent_size + 1) dp 0 d >>= λ free.
      elim free [
        | none ↦ ok (false, t, d)
        | some off ↦ writei sb (new_entry inum name) true dp off dirent_size d >>= λ (n, jp, d').
            ok (elim n [ none ↦ false | some m ↦ m == dirent_size ], set t i jp, d')
      ]

  unfoldable pub dirlink :
      Bool → ℕ → List ℕ → ℕ → List Inode → Disk → Result (Bool × List Inode × Disk)
  unfolding dirlookup iput write_entry
  dirlink held i name inum t d = lock_if_needed sb held (inode_at i t) d >>= λ dp.
      if not (dp.type == dir_type)
      then ok (false, set t i dp, d)
      else (dirlookup true i name (set t i dp) d >>= λ (found, u). elim found [
        | some (j, _) ↦ iput j u d >>= λ (v, d'). ok (false, v, d')
        | none ↦ write_entry i dp name inum u d
      ])
