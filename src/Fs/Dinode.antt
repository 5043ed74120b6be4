-- ===== src/Fs/Dinode.antt =====
-- Inodes on the disk: `ilock`, `iunlock`, `iupdate` and `ialloc` of kernel/fs/fs.c, for one caller. A short
-- is a 16-bit pattern. `held` tells whether the caller has the inode's lock.
use ustc_26spring.Common.{
  ℕ, zero, suc, ◌+◌, ◌-◌, ◌*◌, ◌/◌, ◌%◌, Bool, true, false, not, ltb, ◌==◌, if◌then◌else◌, Option,
  none, some, List, [], ◌∷◌,
}
use ustc_26spring.Common.Result.{Result, ok, panic, ◌>>=◌}
use ustc_26spring.Bio.{Block, Disk, write_disk}
use ustc_26spring.Fs.Words.{load16, store16, load32, store32}
use ustc_26spring.Fs.Bitmap.{Superblock}
use ustc_26spring.Fs.Inode.{Inode, naddrs, iget}

-- sizeof(struct dinode), and IPB.
abbrev pub dinode_size : ℕ
dinode_size = 64

abbrev pub inodes_per_block : ℕ
inodes_per_block = 8

-- The n addresses from offset o on, and their writing.
unfoldable pub load_addrs : ℕ → Block → ℕ → List ℕ
load_addrs zero b o = []
load_addrs (suc n) b o = load32 b o ∷ load_addrs n b (o + 4)

unfoldable pub store_addrs : List ℕ → Block → ℕ → Block
store_addrs [] b o = b
store_addrs (a ∷ as') b o = store_addrs as' (store32 b o a) (o + 4)

-- The fields of the dinode at offset o.
unfoldable pub load_dinode : Inode → Block → ℕ → Inode
unfolding load_addrs
load_dinode ip b o = record ip {
  type = load16 b o;
  major = load16 b (o + 2);
  minor = load16 b (o + 4);
  nlink = load16 b (o + 6);
  size = load32 b (o + 8);
  addrs = load_addrs naddrs b (o + 12);
  valid = true;
}

unfoldable pub store_dinode : Inode → Block → ℕ → Block
unfolding store_addrs
store_dinode ip b o =
    store_addrs ip.addrs
      (store32
        (store16 (store16 (store16 (store16 b o ip.type) (o + 2) ip.major) (o + 4) ip.minor) (o + 6)
          ip.nlink)
        (o + 8) ip.size)
      (o + 12)

abbrev pub dinode_at : ℕ → ℕ
dinode_at inum = inum % inodes_per_block * dinode_size

-- memset(dip, 0, sizeof(*dip)); dip->type = type;
abbrev pub fresh_dinode : ℕ → Block → ℕ → Block
fresh_dinode type b o =
    store16 (λ k. if ltb k o then b k else if ltb k (o + dinode_size) then 0 else b k) o type

module _ (sb : Superblock) where
  -- IBLOCK(inum, sb)
  abbrev pub iblock : ℕ → ℕ
  iblock inum = inum / inodes_per_block + sb.inodestart

  -- `ilock` once it has the lock.
  unfoldable pub ilock : Inode → Disk → Result Inode
  unfolding load_dinode
  ilock ip d =
      if ltb ip.ref 1
      then panic
      else if ip.valid
      then ok ip
      else (let jp = load_dinode ip (d ip.dev (iblock ip.inum)) (dinode_at ip.inum) in
          if jp.type == 0 then panic else ok jp)

  -- `inode_lock_if_needed`
  unfoldable pub lock_if_needed : Bool → Inode → Disk → Result Inode
  unfolding ilock
  lock_if_needed held ip d = if held then ok ip else ilock ip d

  -- `iunlock` before it releases the lock.
  unfoldable pub iunlock : Bool → Inode → Result Inode
  iunlock held ip = if not held then panic else if ltb ip.ref 1 then panic else ok ip

  unfoldable pub iupdate : Bool → Inode → Disk → Result (Inode × Disk)
  unfolding lock_if_needed store_dinode
  iupdate held ip d = lock_if_needed held ip d >>= λ jp. ok (
    jp,
    write_disk d jp.dev (iblock jp.inum)
        (store_dinode jp (d jp.dev (iblock jp.inum)) (dinode_at jp.inum)),
  )

  -- The loop of `ialloc` from inum on, with n rounds left: the number of the inode.
  unfoldable pub ialloc_from : ℕ → ℕ → ℕ → ℕ → Disk → Option (ℕ × Disk)
  ialloc_from zero inum dev type d = none
  ialloc_from (suc n) inum dev type d = elim (load16 (d dev (iblock inum)) (dinode_at inum) == 0) [
    | true ↦ some (
      inum,
      write_disk d dev (iblock inum) (fresh_dinode type (d dev (iblock inum)) (dinode_at inum)),
    )
    | false ↦ ialloc_from n (inum + 1) dev type d
  ]

  -- The slot of the new inode (`none` is 0), the table and the disk.
  unfoldable pub ialloc : ℕ → ℕ → List Inode → Disk → Result (Option ℕ × List Inode × Disk)
  unfolding ialloc_from
  ialloc dev type t d = elim (ialloc_from (sb.ninodes - 1) 1 dev type d) [
    | none ↦ ok (none, t, d)
    | some (inum, d') ↦ iget dev inum t >>= λ (i, u). ok (some i, u, d')
  ]
