-- ===== src/Fs/DiskTests.antt =====
-- Blocks and inodes of a small disk of kernel/fs/fs.c.
use ustc_26spring.Common.{
  ℕ, zero, suc, ◌+◌, ◌/◌, ◌<◌, ◌≡◌, ◌≤◌, ◌≢◌, ◌⊎◌, refl, true, false, ◌==◌, ◌&&◌, if◌then◌else◌,
  none, some, List, [], ◌∷◌, replicate, get_or, ◌++◌, arith,
}
use ustc_26spring.Common.Result.{ok, ◌>>=◌}
use ustc_26spring.Bio.{Disk}
use ustc_26spring.Fs.Bits.{has_bit}
use ustc_26spring.Fs.Bitmap.{Superblock, fsmagic, balloc, balloc_from, scan_bits, bfree}
use ustc_26spring.Fs.Alloc.{is_used}
use ustc_26spring.Fs.Taken.{MapIsUsed, Taken, balloc-Taken}
use ustc_26spring.Fs.Inode.{Inode, no_inode, reset_inode, iget, put_ref, scan}
use ustc_26spring.Fs.Dinode.{lock_if_needed, iupdate, ilock}
use ustc_26spring.Fs.Fields.{AreWords, Fits}
use ustc_26spring.Fs.Stored.{loaded_inode, iupdate-ilock}
use ustc_26spring.Fs.Bmap.{readi, readi_from, bmap, bmap_direct, block_bytes}
use ustc_26spring.Fs.Dirs.{dirlookup, iput, find_entry, read_entry, same_name}
use ustc_26spring.Fs.Names.{skipelem, skip_slashes, element, first_bytes}
use ustc_26spring.Fs.Paths.{namex, namei, nameiparent, walk_path, walk_round}
use ustc_26spring.Fs.Contents.{fetch, readi-fetch}

-- Eight blocks; the bitmap is block 3 and marks blocks 0 to 3.
abbrev sb : Superblock
sb = record {
  magic = fsmagic;
  size = 8;
  nblocks = 4;
  ninodes = 8;
  nlog = 0;
  logstart = 0;
  inodestart = 2;
  bmapstart = 3;
}

abbrev disk : Disk
disk dev bno k = if bno == 3 && k == 0 then 15 else k + 65

abbrev taken_disk : Disk
taken_disk = (balloc sb 1 disk).1

three_is_used : is_used sb 1 disk 3 ≡ true
unfolding has_bit
three_is_used = refl

disk-MapIsUsed : MapIsUsed sb 1 disk
disk-MapIsUsed m lt = let q : m / 4096 + 3 ≡ 3 = omega arith in rw q (omega arith, three_is_used)

takes_four : balloc sb 1 disk ≡ (4, taken_disk)
unfolding balloc balloc_from scan_bits has_bit
takes_four = refl

balloc-Taken_example :
    Taken sb 1 4 disk taken_disk
    × ((c : Disk) × (bfree sb 1 4 taken_disk ≡ ok c)
        × ((m : ℕ) → m < 8 → is_used sb 1 c m ≡ is_used sb 1 disk m))
balloc-Taken_example =
    balloc-Taken sb 1 4 disk taken_disk disk-MapIsUsed takes_four (λ e. omega arith)

-- Five bytes in block 5.
abbrev file_inode : Inode
file_inode = record no_inode {
  dev = 1;
  inum = 2;
  ref = 1;
  valid = true;
  type = 2;
  nlink = 1;
  size = 5;
  addrs = 5 ∷ replicate 12 0;
}

held_inode : lock_if_needed sb true file_inode disk ≡ ok file_inode
unfolding lock_if_needed
held_inode = refl

-- A read past the end of the file is cut off there.
reads_end : readi sb true file_inode 2 10 disk ≡ ok (some (67 ∷ 68 ∷ 69 ∷ []), file_inode)
unfolding readi readi_from bmap bmap_direct block_bytes lock_if_needed
reads_end = refl

readi-fetch_example :
    readi sb true file_inode 2 10 disk ≡ ok (some (fetch sb 3 file_inode 2 disk), file_inode)
readi-fetch_example =
    readi-fetch sb true file_inode file_inode 2 10 disk held_inode (λ e. omega arith) (omega arith)
      (omega arith)

zeros-AreWords : (n : ℕ) → AreWords (replicate n 0)
zeros-AreWords zero = tt
zeros-AreWords (suc n) = (omega arith, zeros-AreWords n)

file_inode-Fits : Fits file_inode
file_inode-Fits = record {
  type = omega arith;
  major = omega arith;
  minor = omega arith;
  nlink = omega arith;
  size = omega arith;
  count = refl;
  addrs = (omega arith, zeros-AreWords 12);
}

iupdate-ilock_example :
    (d' : Disk) × (iupdate sb true file_inode disk ≡ ok (file_inode, d'))
    × ((kp : Inode)
        → kp.dev ≡ 1
        → kp.inum ≡ 2
        → 1 ≤ kp.ref
        → kp.valid ≡ false
        → ilock sb kp d' ≡ ok (loaded_inode file_inode kp))
    × ((kp : Inode) → (kp.dev ≢ 1) ⊎ (kp.inum ≢ 2) → ilock sb kp d' ≡ ilock sb kp disk)
iupdate-ilock_example = iupdate-ilock sb file_inode file_inode-Fits disk (λ e. omega arith)

-- A directory in block 6: a free entry, and inode 3 as "ab".
abbrev dir_disk : Disk
dir_disk dev bno k =
    if bno == 6
    then get_or (replicate 16 0 ++ (3 ∷ 0 ∷ 97 ∷ 98 ∷ replicate 12 0)) k 0
    else disk dev bno k

abbrev dir_inode : Inode
dir_inode = record no_inode {
  dev = 1;
  inum = 1;
  ref = 1;
  valid = true;
  type = 1;
  nlink = 1;
  size = 32;
  addrs = 6 ∷ replicate 12 0;
}

abbrev dir_table : List Inode
dir_table = dir_inode ∷ no_inode ∷ []

finds_ab :
    dirlookup sb true 0 (97 ∷ 98 ∷ []) dir_table dir_disk
    ≡ ok (some (1, 16), dir_inode ∷ reset_inode 1 3 no_inode ∷ [])
unfolding dirlookup find_entry read_entry same_name readi readi_from bmap bmap_direct block_bytes
    lock_if_needed iget scan
finds_ab = refl

misses_b : dirlookup sb true 0 (98 ∷ []) dir_table dir_disk ≡ ok (none, dir_table)
unfolding dirlookup find_entry read_entry same_name readi readi_from bmap bmap_direct block_bytes
    lock_if_needed iget scan
misses_b = refl

-- /ab is walked to inode 3, and its parent is the root.
walks_ab :
    (namei sb 1 none (47 ∷ 97 ∷ 98 ∷ []) dir_table dir_disk >>= λ w. ok w.inode) ≡ ok (some 1)
unfolding namex walk_path walk_round skipelem skip_slashes element first_bytes ilock iput put_ref
    dirlookup find_entry read_entry same_name readi readi_from bmap bmap_direct block_bytes
    lock_if_needed iget scan
walks_ab = refl

walks_parent :
    (nameiparent sb 1 none (47 ∷ 97 ∷ 98 ∷ []) dir_table dir_disk >>= λ w. ok w.inode) ≡ ok (some 0)
unfolding namex walk_path walk_round skipelem skip_slashes element first_bytes ilock iput put_ref
    dirlookup find_entry read_entry same_name readi readi_from bmap bmap_direct block_bytes
    lock_if_needed iget scan
walks_parent = refl
