-- ===== src/Fs/Alloc.antt =====
-- Which blocks are used after `balloc` and `bfree` of kernel/fs/fs.c.
use ustc_26spring.Common.{
  ℕ, zero, suc, ◌+◌, ◌-◌, ◌*◌, ◌/◌, ◌%◌, ◌≤◌, ◌<◌, ◌≡◌, refl, ◌∙◌, inl, inr, Bool, true, false, ltb,
  ◌==◌, Option, none, some, arith, Bool-cases,
}
use ustc_26spring.Bio.{Block, Disk, write_disk}
use ustc_26spring.Fs.Bitmap.{
  Superblock, bits_per_block, bblock, test_bit, set_bit, zero_block, scan_bits, balloc_from, balloc,
}

module _ (sb : Superblock) where
  -- Block n is marked in the bitmap.
  abbrev pub is_used : ℕ → Disk → ℕ → Bool
  is_used dev d n = test_bit (d dev (bblock sb n)) (n % bits_per_block)

  abbrev pub mark : ℕ → ℕ → Disk → Disk
  mark dev n d = write_disk d dev (bblock sb n) (set_bit (d dev (bblock sb n)) (n % bits_per_block))

  -- The scan of one block of the bitmap finds the first clear bit below the size, if there is one.
  data Scanned (n b bi : ℕ) (blk : Block) (o : Option ℕ) : Type 0 where
    clear :
        (k : ℕ)
        → bi ≤ k
        → k < bi + n
        → b + k < sb.size
        → test_bit blk k ≡ false
        → ((m : ℕ) → bi ≤ m → m < k → test_bit blk m ≡ true)
        → o ≡ some k
        → Scanned n b bi blk o
    all_set :
        ((m : ℕ) → bi ≤ m → m < bi + n → b + m < sb.size → test_bit blk m ≡ true)
        → o ≡ none
        → Scanned n b bi blk o

  set_before :
      (bi : ℕ) (blk : Block) (m : ℕ)
      → test_bit blk bi ≡ true
      → (bi + 1 ≤ m → test_bit blk m ≡ true)
      → bi ≤ m
      → test_bit blk m ≡ true
  set_before bi blk m h rest lo = elim (Bool-cases (m == bi)) [
    | inl e ↦ let q : m ≡ bi = ground arith in rw q h
    | inr ne ↦ rest (ground arith)
  ]

  scan_bits-Scanned : (n b bi : ℕ) (blk : Block) → Scanned n b bi blk (scan_bits sb n b bi blk)
  unfolding scan_bits
  scan_bits-Scanned zero b bi blk = all_set (λ m lo hi lt. absurd (omega arith)) refl
  scan_bits-Scanned (suc n) b bi blk = elim (Bool-cases (ltb (b + bi) sb.size)) [
    | inr out ↦ rw (out, scan_bits) (all_set (λ m lo hi lt. absurd (ground arith)) refl)
    | inl inside ↦
        rw (inside, scan_bits)
          (elim (Bool-cases (test_bit blk bi)) [
            | inr free ↦ rw free (
                clear bi (omega arith) (omega arith) (ground arith) free
                  (λ m lo hi. absurd (omega arith)) refl)
            | inl used ↦ rw used (elim (scan_bits-Scanned n b (bi + 1) blk) [
              | clear k lo hi lt f before e ↦
                  clear k (omega arith) (omega arith) lt f
                    (λ m l h. set_before bi blk m used (λ l'. before m l' h) l) e
              | all_set all e ↦
                  all_set (λ m l h lt. set_before bi blk m used (λ l'. all m l' (omega arith) lt) l)
                    e
            ])
          ])
  ]

  -- The two outcomes of `balloc`: the first block that is not marked is marked and zeroed, or all
  -- blocks are marked and nothing changes.
  pub data Allocates (dev : ℕ) (d : Disk) (r : ℕ × Disk) : Type 0 where
    allocated :
        (n : ℕ)
        → n < sb.size
        → is_used dev d n ≡ false
        → ((m : ℕ) → m < n → is_used dev d m ≡ true)
        → r ≡ (n, zero_block dev n (mark dev n d))
        → Allocates dev d r
    exhausted : ((m : ℕ) → m < sb.size → is_used dev d m ≡ true) → r ≡ (0, d) → Allocates dev d r

  bblock_add :
      (b k : ℕ) → b % bits_per_block ≡ 0 → k < bits_per_block → bblock sb (b + k) ≡ bblock sb b
  bblock_add b k al h = omega arith

  -- The bits of a block of the bitmap are those of the blocks from b on.
  used_bit :
      (dev : ℕ) (d : Disk) (b k : ℕ)
      → b % bits_per_block ≡ 0
      → k < bits_per_block
      → is_used dev d (b + k) ≡ test_bit (d dev (bblock sb b)) k
  used_bit dev d b k al h =
      let e : (b + k) % bits_per_block ≡ k = omega arith in rw (e, bblock_add b k al h) refl

  used_round :
      (dev : ℕ) (d : Disk) (b m : ℕ)
      → b % bits_per_block ≡ 0
      → m < b + bits_per_block
      → (m < b → is_used dev d m ≡ true)
      → ((k : ℕ) → b + k ≡ m → test_bit (d dev (bblock sb b)) k ≡ true)
      → is_used dev d m ≡ true
  used_round dev d b m al hi before here = elim (Bool-cases (ltb m b)) [
    | inl l ↦ before (ground arith)
    | inr ge ↦
        let e : b + (m - b) ≡ m = ground arith in
        rw e at (used_bit dev d b (m - b) al (ground arith) ∙ here (m - b) e)
  ]

  balloc_from-Allocates :
      (n b dev : ℕ) (d : Disk)
      → b % bits_per_block ≡ 0
      → sb.size ≤ b + n * bits_per_block
      → ((m : ℕ) → m < b → m < sb.size → is_used dev d m ≡ true)
      → Allocates dev d (balloc_from sb n b dev d)
  unfolding balloc_from
  balloc_from-Allocates zero b dev d al h before =
      exhausted (λ m lt. before m (omega arith) lt) refl
  balloc_from-Allocates (suc n) b dev d al h before = elim (Bool-cases (ltb b sb.size)) [
    | inr out ↦ rw (out, balloc_from) (exhausted (λ m lt. before m (ground arith) lt) refl)
    | inl inside ↦
        rw (inside, balloc_from)
          (elim (scan_bits-Scanned bits_per_block b 0 (d dev (bblock sb b))) [
            | clear k lo hi lt f first e ↦ rw e (
                allocated (b + k) lt (used_bit dev d b k al hi ∙ f)
                  (λ m l.
                    used_round dev d b m al (omega arith) (λ l'. before m l' (omega arith))
                      (λ j q. first j (omega arith) (omega arith)))
                  (let q : (b + k) % bits_per_block ≡ k = omega arith in
                    rw (q, bblock_add b k al hi) refl))
            | all_set all e ↦ rw e (
                balloc_from-Allocates n (b + bits_per_block) dev d (omega arith) (omega arith)
                  (λ m l lt.
                    used_round dev d b m al l (λ l'. before m l' lt)
                      (λ j q. all j (omega arith) (omega arith) (omega arith))))
          ])
  ]

  -- `balloc` takes the first block that the bitmap does not mark, marks it and fills it with zeros;
  -- it returns 0 with nothing changed only if every block is marked.
  pub balloc-Allocates : (dev : ℕ) (d : Disk) → Allocates dev d (balloc sb dev d)
  unfolding balloc
  balloc-Allocates dev d =
      balloc_from-Allocates (sb.size / bits_per_block + 1) 0 dev d (omega arith) (omega arith)
        (λ m l. absurd (omega arith))
