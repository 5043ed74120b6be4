-- ===== src/Fs/Bmap.antt =====
-- `bmap`, `itrunc` and `readi` of kernel/fs/fs.c on an inode and the disk. The sizes of files are
-- 32-bit numbers, so block numbers are not cut off.
use ustc_26spring.Common.{
  ℕ, zero, suc, ◌+◌, ◌-◌, ◌*◌, ◌/◌, ◌%◌, Bool, true, false, ◌&&◌, ltb, ◌==◌, if◌then◌else◌, Option,
  none, some, List, [], ◌∷◌, ◌++◌, min, get_or, set,
}
use ustc_26spring.Common.Word.{add64}
use ustc_26spring.Common.Result.{Result, ok, ◌>>=◌}
use ustc_26spring.Bio.{Block, Disk, write_disk}
use ustc_26spring.Fs.Words.{load32, store32}
use ustc_26spring.Fs.Bitmap.{Superblock, bsize, balloc, bfree}
use ustc_26spring.Fs.Inode.{Inode}
use ustc_26spring.Fs.Dinode.{lock_if_needed, iupdate}

-- NDIRECT and NINDIRECT.
abbrev pub ndirect : ℕ
ndirect = 12

abbrev pub nindirect : ℕ
nindirect = 128

abbrev pub addr_of : Inode → ℕ → ℕ
addr_of ip i = get_or ip.addrs i 0

abbrev pub with_addr : Inode → ℕ → ℕ → Inode
with_addr ip i a = record ip { addrs = set ip.addrs i a }

-- The n bytes of a block from offset o on.
unfoldable pub block_bytes : ℕ → Block → ℕ → List ℕ
block_bytes zero b o = []
block_bytes (suc n) b o = b o ∷ block_bytes n b (o + 1)

module _ (sb : Superblock) where
  -- The address of a direct block.
  unfoldable pub bmap_direct : Inode → ℕ → Bool → Disk → ℕ × Inode × Disk
  bmap_direct ip bn alloc d = elim ((addr_of ip bn == 0) && alloc) [
    | false ↦ (addr_of ip bn, ip, d)
    | true ↦ let (a, d') = balloc sb ip.dev d in (a, with_addr ip bn a, d')
  ]

  -- The entry j of the indirect block.
  unfoldable pub bmap_entry : Inode → ℕ → ℕ → Bool → Disk → ℕ × Inode × Disk
  bmap_entry ip indirect j alloc d =
      let addr = load32 (d ip.dev indirect) (4 * j) in
      elim ((addr == 0) && alloc) [
        | false ↦ (addr, ip, d)
        | true ↦
            let (a, d') = balloc sb ip.dev d in
            elim (a == 0) [
              | true ↦ (a, ip, d')
              | false ↦
                  (a, ip, write_disk d' ip.dev indirect (store32 (d ip.dev indirect) (4 * j) a))
            ]
      ]

  -- An indirect block that is not there yet.
  unfoldable pub bmap_indirect : Inode → ℕ → Bool → Disk → ℕ × Inode × Disk
  unfolding bmap_entry
  bmap_indirect ip j alloc d = elim (addr_of ip ndirect == 0) [
    | false ↦ bmap_entry ip (addr_of ip ndirect) j alloc d
    | true ↦ elim alloc [
      | false ↦ (0, ip, d)
      | true ↦
          let (a, d') = balloc sb ip.dev d in
          elim (a == 0) [
            | true ↦ (0, ip, d')
            | false ↦ bmap_entry (with_addr ip ndirect a) a j true d'
          ]
    ]
  ]

  -- The address of block bn of the file, 0 if there is none, with the inode and the disk.
  unfoldable pub bmap : Inode → ℕ → Bool → Disk → ℕ × Inode × Disk
  unfolding bmap_direct bmap_indirect
  bmap ip bn alloc d =
      if ltb bn ndirect
      then bmap_direct ip bn alloc d
      else if ltb (bn - ndirect) nindirect
      then bmap_indirect ip (bn - ndirect) alloc d
      else (0, ip, d)

  -- The loop of `readi` at byte off + tot with n the end; each round reads at least one byte.
  unfoldable pub readi_from : ℕ → Inode → ℕ → ℕ → ℕ → Disk → List ℕ
  unfolding block_bytes
  readi_from zero ip off tot n d = []
  readi_from (suc fuel) ip off tot n d = elim (ltb tot n) [
    | false ↦ []
    | true ↦
        let (addr, _, _) = bmap ip ((off + tot) / bsize) false d in
        elim (addr == 0) [
          | true ↦ []
          | false ↦
              let boff = (off + tot) % bsize in
              let m = min (n - tot) (bsize - boff) in
              block_bytes m (d ip.dev addr) boff ++ readi_from fuel ip off (tot + m) n d
        ]
  ]

  -- The bytes read (`none` is -1), and the inode as the lock leaves it.
  unfoldable pub readi : Bool → Inode → ℕ → ℕ → Disk → Result (Option (List ℕ) × Inode)
  unfolding readi_from
  readi held ip off n d =
      if n == 0
      then ok (some [], ip)
      else (lock_if_needed sb held ip d >>= λ jp.
          if jp.type == 0
          then ok (none, jp)
          else if ltb jp.size off
          then ok (some [], jp)
          else if ltb (add64 off n) off
          then ok (none, jp)
          else (let n' = if ltb jp.size (off + n) then jp.size - off else n in
              ok (some (readi_from n' jp off 0 n' d), jp)))

  -- The loop of `itrunc` over the direct blocks from i on.
  unfoldable pub free_direct : ℕ → ℕ → Inode → Disk → Result (Inode × Disk)
  free_direct zero i ip d = ok (ip, d)
  free_direct (suc n) i ip d = elim (addr_of ip i == 0) [
    | true ↦ free_direct n (i + 1) ip d
    | false ↦ bfree sb ip.dev (addr_of ip i) d >>= free_direct n (i + 1) (with_addr ip i 0)
  ]

  -- Its loop over the entries of the indirect block, whose bytes are b.
  unfoldable pub free_blocks : ℕ → ℕ → ℕ → Block → Disk → Result Disk
  free_blocks zero j dev b d = ok d
  free_blocks (suc n) j dev b d = elim (load32 b (4 * j) == 0) [
    | true ↦ free_blocks n (j + 1) dev b d
    | false ↦ bfree sb dev (load32 b (4 * j)) d >>= free_blocks n (j + 1) dev b
  ]

  unfoldable pub free_indirect : Inode → Disk → Result (Inode × Disk)
  unfolding free_blocks
  free_indirect ip d = elim (addr_of ip ndirect == 0) [
    | true ↦ ok (ip, d)
    | false ↦ free_blocks nindirect 0 ip.dev (d ip.dev (addr_of ip ndirect)) d >>= λ d1.
        bfree sb ip.dev (addr_of ip ndirect) d1 >>= λ d2. ok (with_addr ip ndirect 0, d2)
  ]

  unfoldable pub itrunc : Bool → Inode → Disk → Result (Inode × Disk)
  unfolding free_direct free_indirect
  itrunc held ip d = lock_if_needed sb held ip d >>= λ jp.
      free_direct ndirect 0 jp d >>= λ (jp1, d1).
      free_indirect jp1 d1 >>= λ (jp2, d2). iupdate sb true (record jp2 { size = 0 }) d2
