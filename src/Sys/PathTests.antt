-- ===== src/Sys/PathTests.antt =====
-- Calls on paths on a small disk.
use ustc_26spring.Common.{
  ℕ, zero, suc, ◌≡◌, refl, true, ◌==◌, if◌then◌else◌, some, List, [], ◌∷◌, ◌++◌, replicate, get_or,
  arith,
}
use ustc_26spring.Common.Result.{Result, ok, panic}
use ustc_26spring.Bio.{Disk}
use ustc_26spring.Fs.Bits.{has_bit}
use ustc_26spring.Fs.Words.{load16, load32, store16, store32}
use ustc_26spring.Fs.Bitmap.{Superblock, fsmagic}
use ustc_26spring.Fs.Inode.{Inode, no_inode, inode_at, iget, idup, put_ref, scan}
use ustc_26spring.Fs.Dinode.{lock_if_needed, ilock, iunlock, iupdate, load_dinode, load_addrs}
use ustc_26spring.Fs.Bmap.{
  readi, readi_from, bmap, bmap_direct, block_bytes, itrunc, free_direct, free_indirect,
}
use ustc_26spring.Fs.Write.{writei, writei_from, finish_write}
use ustc_26spring.Fs.Dirs.{dirlookup, iput, find_entry, read_entry, same_name}
use ustc_26spring.Fs.Names.{skipelem, skip_slashes, element, first_bytes}
use ustc_26spring.Fs.Paths.{namex, walk_path, walk_round}
use ustc_26spring.Fs.Refs.{plus_found}
use ustc_26spring.Sys.Paths.{streq, look_at, relink, sys_chdir}
use ustc_26spring.Sys.Links.{
  may_unlink, drop_link, unlink_entry, unlink_in, sys_unlink, PathCall, chdir, unlink, Files, calls,
}
use ustc_26spring.Sys.Leaks.{calls-refs}

abbrev sb : Superblock
sb = record {
  magic = fsmagic;
  size = 8;
  nblocks = 4;
  ninodes = 8;
  nlog = 0;
  logstart = 0;
  inodestart = 2;
  bmapstart = 3;
}

-- The root directory in block 6 has the file "ab", inode 3, without bytes and with one link.
abbrev disk : Disk
disk dev bno k =
    if bno == 6
    then get_or (replicate 16 0 ++ (3 ∷ 0 ∷ 97 ∷ 98 ∷ replicate 12 0)) k 0
    else if bno == 2
    then if k == 192 then 2 else if k == 198 then 1 else 0
    else 0

abbrev root : Inode
root = record no_inode {
  dev = 1;
  inum = 1;
  ref = 1;
  valid = true;
  type = 1;
  nlink = 1;
  size = 32;
  addrs = 6 ∷ replicate 12 0;
}

abbrev before : Files
before = record { cwd = some 0; table = root ∷ no_inode ∷ []; disk = disk }

abbrev two_calls : List PathCall
two_calls = chdir (some (47 ∷ [])) ∷ unlink (some (97 ∷ 98 ∷ [])) ∷ []

abbrev done_of : Files → Result Files → Files
done_of s (ok t) = t
done_of s panic = s

abbrev after : Files
after = done_of before (calls sb 1 two_calls before)

returns_lem : calls sb 1 two_calls before ≡ ok after
unfolding calls sys_unlink sys_chdir namex walk_path walk_round skipelem skip_slashes element
    first_bytes iget scan idup look_at unlink_in streq dirlookup find_entry read_entry same_name
    readi readi_from bmap bmap_direct block_bytes lock_if_needed ilock load_dinode load_addrs
    iunlock unlink_entry may_unlink writei writei_from finish_write iupdate drop_link relink iput
    put_ref load16 load32 store16 store32 has_bit itrunc free_direct free_indirect
returns_lem = refl

before_lem : (k : ℕ) → (inode_at k before.table).ref ≡ plus_found before.cwd (λ i. 0) k
before_lem zero = refl
before_lem (suc zero) = refl
before_lem (suc (suc k)) = ground arith

-- The slot of the file that is gone.
calls-refs_example : (inode_at 1 after.table).ref ≡ plus_found after.cwd (λ i. 0) 1
calls-refs_example = calls-refs sb 1 (λ i. 0) two_calls before before_lem returns_lem 1
