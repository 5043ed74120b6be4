-- ===== src/Fs/Lookup.antt =====
-- The search of a directory of kernel/fs/fs.c, entry by entry.
use ustc_26spring.Common.{ℕ, ◌+◌, ◌*◌, ◌≤◌, ◌<◌, ◌≡◌, true, false, Option, none, some, List}
use ustc_26spring.Common.Result.{Result, ok, ◌>>=◌}
use ustc_26spring.Bio.{Disk}
use ustc_26spring.Fs.Bitmap.{Superblock}
use ustc_26spring.Fs.Inode.{Inode, iget}
use ustc_26spring.Fs.Dirs.{entry_inum, is_named, read_entry}

module _ (sb : Superblock) (dp : Inode) (name : List ℕ) (d : Disk) where
  -- The k entries from an offset on can be read and do not have the name.
  abbrev pub Passed : ℕ → ℕ → Type 0
  Passed off k =
      (j : ℕ)
      → j < k
      → (bytes : List ℕ) × (read_entry sb dp (off + 16 * j) d ≡ ok (some bytes))
        × (is_named name bytes ≡ false)

  -- What the search from an offset on comes to.
  pub data Looks (off : ℕ) (r : Result (Option (ℕ × ℕ))) : Type 0 where
    hit :
        (k : ℕ) (bytes : List ℕ)
        → Passed off k
        → off + 16 * k + 16 ≤ dp.size
        → read_entry sb dp (off + 16 * k) d ≡ ok (some bytes)
        → is_named name bytes ≡ true
        → r ≡ ok (some (entry_inum bytes, off + 16 * k))
        → Looks off r
    cut :
        (k : ℕ)
        → Passed off k
        → off + 16 * k + 16 ≤ dp.size
        → read_entry sb dp (off + 16 * k) d ≡ ok none
        → r ≡ ok none
        → Looks off r
    missed : (k : ℕ) → Passed off k → dp.size < off + 16 * k + 16 → r ≡ ok none → Looks off r

-- What `dirlookup` makes of the entry that it finds.
abbrev pub Lookup : Type 0
Lookup = Result (Option (ℕ × ℕ) × List Inode)

abbrev pub take_inode : ℕ → List Inode → Option (ℕ × ℕ) → Lookup
take_inode dev t none = ok (none, t)
take_inode dev t (some (inum, off)) = iget dev inum t >>= λ (j, u). ok (some (j, off), u)
