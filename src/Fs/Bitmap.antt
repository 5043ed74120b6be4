-- ===== src/Fs/Bitmap.antt =====
-- The superblock and the bitmap of used blocks of kernel/fs/fs.c. A change of a buffer is always
-- followed by `bwrite`, so a `bread` has the bytes of the disk. The number of blocks stays below
-- 2 ^ 32 - 4096, so the counters of blocks do not wrap.
use ustc_26spring.Common.{
  ℕ, zero, suc, ◌+◌, ◌/◌, ◌%◌, Bool, true, false, not, ltb, ◌==◌, if◌then◌else◌, Option, none, some,
}
use ustc_26spring.Common.Result.{Result, ok, panic}
use ustc_26spring.Bio.{Block, Disk, write_disk}
use ustc_26spring.Fs.Words.{load32}
use ustc_26spring.Fs.Bits.{has_bit, or_bit, clear_bit}

-- `struct superblock` of kernel/include/fs.h.
pub record Superblock : Type 0 where
  pub magic : ℕ
  pub size : ℕ
  pub nblocks : ℕ
  pub ninodes : ℕ
  pub nlog : ℕ
  pub logstart : ℕ
  pub inodestart : ℕ
  pub bmapstart : ℕ

abbrev pub fsmagic : ℕ
fsmagic = 0x10203040

unfoldable pub readsb : ℕ → Disk → Superblock
readsb dev d =
    let b = d dev 1 in
    record {
      magic = load32 b 0;
      size = load32 b 4;
      nblocks = load32 b 8;
      ninodes = load32 b 12;
      nlog = load32 b 16;
      logstart = load32 b 20;
      inodestart = load32 b 24;
      bmapstart = load32 b 28;
    }

-- The end of `fsinit`: the superblock of the root device.
unfoldable pub mount : ℕ → Disk → Result Superblock
unfolding readsb
mount dev d = if not ((readsb dev d).magic == fsmagic) then panic else ok (readsb dev d)

abbrev pub bsize : ℕ
bsize = 512

-- BPB
abbrev pub bits_per_block : ℕ
bits_per_block = 4096

-- `bzero`
abbrev pub zero_block : ℕ → ℕ → Disk → Disk
zero_block dev bno d = write_disk d dev bno (λ k. if ltb k bsize then 0 else d dev bno k)

-- Bit bi of a block of the bitmap.
abbrev pub test_bit : Block → ℕ → Bool
test_bit b bi = has_bit (b (bi / 8)) (bi % 8)

abbrev pub set_bit : Block → ℕ → Block
set_bit b bi k = if k == bi / 8 then or_bit (b k) (bi % 8) else b k

abbrev pub unset_bit : Block → ℕ → Block
unset_bit b bi k = if k == bi / 8 then clear_bit (b k) (bi % 8) else b k

module _ (sb : Superblock) where
  -- BBLOCK(b, sb)
  abbrev pub bblock : ℕ → ℕ
  bblock b = b / bits_per_block + sb.bmapstart

  -- The inner loop of `balloc` with n rounds left: the first clear bit from bi on.
  unfoldable pub scan_bits : ℕ → ℕ → ℕ → Block → Option ℕ
  scan_bits zero b bi blk = none
  scan_bits (suc n) b bi blk = elim (ltb (b + bi) sb.size) [
    | false ↦ none
    | true ↦ elim (test_bit blk bi) [ false ↦ some bi | true ↦ scan_bits n b (bi + 1) blk ]
  ]

  -- The outer loop of `balloc` from block b on.
  unfoldable pub balloc_from : ℕ → ℕ → ℕ → Disk → ℕ × Disk
  unfolding scan_bits
  balloc_from zero b dev d = (0, d)
  balloc_from (suc n) b dev d = elim (ltb b sb.size) [
    | false ↦ (0, d)
    | true ↦ elim (scan_bits bits_per_block b 0 (d dev (bblock b))) [
      | none ↦ balloc_from n (b + bits_per_block) dev d
      | some bi ↦ (
        b + bi,
        zero_block dev (b + bi) (write_disk d dev (bblock b) (set_bit (d dev (bblock b)) bi)),
      )
    ]
  ]

  -- The block, or 0. There are as many rounds as blocks of the bitmap.
  unfoldable pub balloc : ℕ → Disk → ℕ × Disk
  unfolding balloc_from
  balloc dev d = balloc_from (sb.size / bits_per_block + 1) 0 dev d

  unfoldable pub bfree : ℕ → ℕ → Disk → Result Disk
  bfree dev b d =
      if not (test_bit (d dev (bblock b)) (b % bits_per_block))
      then panic
      else ok (write_disk d dev (bblock b) (unset_bit (d dev (bblock b)) (b % bits_per_block)))
