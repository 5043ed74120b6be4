-- ===== src/Fs/Write.antt =====
-- `writei` of kernel/fs/fs.c on an inode and the disk.
use ustc_26spring.Common.{
  ℕ, zero, suc, ◌+◌, ◌-◌, ◌*◌, ◌/◌, ◌%◌, Bool, true, false, ◌&&◌, ◌||◌, ltb, leb, ◌==◌,
  if◌then◌else◌, Option, none, some, min,
}
use ustc_26spring.Common.Word.{add64}
use ustc_26spring.Common.Result.{Result, ok, ◌>>=◌}
use ustc_26spring.Bio.{Block, Disk, write_disk}
use ustc_26spring.Fs.Bitmap.{Superblock, bsize}
use ustc_26spring.Fs.Inode.{Inode}
use ustc_26spring.Fs.Dinode.{lock_if_needed, iupdate}
use ustc_26spring.Fs.Bmap.{ndirect, nindirect, bmap}

-- MAXFILE
abbrev pub maxfile : ℕ
maxfile = ndirect + nindirect

-- memmove(bp->data + boff, p + tot, m)
abbrev pub fill_block : Block → ℕ → ℕ → (ℕ → ℕ) → ℕ → Block
fill_block b boff m src tot k =
    if leb boff k && ltb k (boff + m) then src (tot + (k - boff)) else b k

-- What the loop leaves: the count of bytes written, the inode and the disk.
pub record Wrote : Type 0 where
  pub count : ℕ
  pub inode : Inode
  pub disk : Disk

module _ (sb : Superblock) (src : ℕ → ℕ) where
  -- The loop of `writei`; src has the bytes of the caller, and each round writes at least one.
  unfoldable pub writei_from : ℕ → Inode → ℕ → ℕ → ℕ → Disk → Wrote
  writei_from zero ip off tot n d = record { count = tot; inode = ip; disk = d }
  writei_from (suc fuel) ip off tot n d = elim (ltb tot n) [
    | false ↦ record { count = tot; inode = ip; disk = d }
    | true ↦
        let (addr, jp, d1) = bmap sb ip ((off + tot) / bsize) true d in
        elim (addr == 0) [
          | true ↦ record { count = tot; inode = jp; disk = d1 }
          | false ↦
              let boff = (off + tot) % bsize in
              let m = min (n - tot) (bsize - boff) in
              writei_from fuel jp off (tot + m) n
                (write_disk d1 jp.dev addr (fill_block (d1 jp.dev addr) boff m src tot))
        ]
  ]

  -- The size after the loop, and the inode on the disk.
  unfoldable pub finish_write : ℕ → Wrote → Result (Option ℕ × Inode × Disk)
  finish_write off w =
      let ip = w.inode in
      let end = off + w.count in
      iupdate sb true (record ip { size = if ltb ip.size end then end else ip.size }) w.disk
      >>= λ (jp, d). ok (some w.count, jp, d)

  -- The count of bytes written (`none` is -1), the inode and the disk.
  unfoldable pub writei : Bool → Inode → ℕ → ℕ → Disk → Result (Option ℕ × Inode × Disk)
  unfolding writei_from finish_write
  writei held ip off n d =
      if n == 0
      then ok (some 0, ip, d)
      else (lock_if_needed sb held ip d >>= λ jp.
          if jp.type == 0
          then ok (none, jp, d)
          else if ltb jp.size off || ltb (add64 off n) off
          then ok (none, jp, d)
          else if ltb (maxfile * bsize) (add64 off n)
          then ok (none, jp, d)
          else finish_write off (writei_from n jp off 0 n d))
