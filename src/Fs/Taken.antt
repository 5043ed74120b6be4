-- ===== src/Fs/Taken.antt =====
-- A block that `balloc` of kernel/fs/fs.c takes and `bfree` gives back, on a device whose bitmap marks
-- its own blocks.
use ustc_26spring.Common.{
  ℕ, ◌/◌, ◌%◌, ◌<◌, ◌≡◌, ◌≢◌, refl, ap, sym, ◌∙◌, ◌⊎◌, inl, inr, true, false, ◌&&◌, ltb, ◌==◌,
  if◌then◌else◌, arith, Bool-cases,
}
use ustc_26spring.Common.Result.{ok}
use ustc_26spring.Bio.{Block, Disk, write_disk}
use ustc_26spring.Fs.Bits.{
  has_bit-or_bit_self, has_bit-or_bit_ne, has_bit-clear_bit_self, has_bit-clear_bit_ne,
}
use ustc_26spring.Fs.Bitmap.{
  Superblock, bsize, bits_per_block, bblock, test_bit, set_bit, unset_bit, zero_block, balloc,
  bfree,
}
use ustc_26spring.Fs.Alloc.{is_used, mark, allocated, exhausted, balloc-Allocates}

test_bit-set_bit :
    (b : Block) (i j : ℕ) → test_bit (set_bit b i) j ≡ (if j == i then true else test_bit b j)
test_bit-set_bit b i j = elim (Bool-cases (j / 8 == i / 8)) [
  | inr other ↦ rw other (let ne : (j == i) ≡ false = ground arith in rw ne refl)
  | inl same ↦ rw same (elim (Bool-cases (j == i)) [
    | inl eq ↦
        let e : j % 8 ≡ i % 8 = ground arith in rw (eq, e) (has_bit-or_bit_self (b (j / 8)) (i % 8))
    | inr ne ↦ rw ne (has_bit-or_bit_ne (b (j / 8)) (i % 8) (j % 8) (λ e. ground arith))
  ])
]

test_bit-unset_bit :
    (b : Block) (i j : ℕ) → test_bit (unset_bit b i) j ≡ (if j == i then false else test_bit b j)
test_bit-unset_bit b i j = elim (Bool-cases (j / 8 == i / 8)) [
  | inr other ↦ rw other (let ne : (j == i) ≡ false = ground arith in rw ne refl)
  | inl same ↦ rw same (elim (Bool-cases (j == i)) [
    | inl eq ↦
        let e : j % 8 ≡ i % 8 = ground arith in
        rw (eq, e) (has_bit-clear_bit_self (b (j / 8)) (i % 8))
    | inr ne ↦ rw ne (has_bit-clear_bit_ne (b (j / 8)) (i % 8) (j % 8) (λ e. ground arith))
  ])
]

write_disk_other :
    (d : Disk) (dev n : ℕ) (b : Block) (e bno : ℕ)
    → (e ≢ dev) ⊎ (bno ≢ n)
    → write_disk d dev n b e bno ≡ d e bno
write_disk_other d dev n b e bno h =
    let q : ((e == dev) && (bno == n)) ≡ false = ground arith in rw q refl

pub write_disk_self : (d : Disk) (dev n : ℕ) (b : Block) → write_disk d dev n b dev n ≡ b
write_disk_self d dev n b = let q : ((dev == dev) && (n == n)) ≡ true = ground arith in rw q refl

module _ (sb : Superblock) where
  used-mark :
      (dev n m : ℕ) (d : Disk)
      → is_used sb dev (mark sb dev n d) m ≡ (if m == n then true else is_used sb dev d m)
  used-mark dev n m d = elim (Bool-cases (bblock sb m == bblock sb n)) [
    | inr other ↦ let ne : (m == n) ≡ false = ground arith in ground arith
    | inl same ↦
        let q : bblock sb m ≡ bblock sb n = ground arith in
        ground
          (arith, test_bit-set_bit (d dev (bblock sb n)) (n % bits_per_block) (m % bits_per_block))
  ]

  used-unmark :
      (dev n m : ℕ) (d : Disk)
      → is_used sb dev
          (write_disk d dev (bblock sb n) (unset_bit (d dev (bblock sb n)) (n % bits_per_block)))
          m
        ≡ (if m == n then false else is_used sb dev d m)
  used-unmark dev n m d = elim (Bool-cases (bblock sb m == bblock sb n)) [
    | inr other ↦ let ne : (m == n) ≡ false = ground arith in ground arith
    | inl same ↦
        let q : bblock sb m ≡ bblock sb n = ground arith in
        ground (
          arith,
          test_bit-unset_bit (d dev (bblock sb n)) (n % bits_per_block) (m % bits_per_block),
        )
  ]

  -- The blocks of the bitmap are blocks of the device, and marked themselves.
  abbrev pub MapIsUsed : ℕ → Disk → Type 0
  MapIsUsed dev d =
      (m : ℕ) → m < sb.size → (bblock sb m < sb.size) × (is_used sb dev d (bblock sb m) ≡ true)

  -- A block that the bitmap does not mark holds no part of the bitmap.
  not_map :
      (dev n m : ℕ) (d : Disk)
      → MapIsUsed dev d
      → m < sb.size
      → is_used sb dev d n ≡ false
      → bblock sb m ≢ n
  not_map dev n m d map lt free e = cc ((map m lt).1, ap (is_used sb dev d) e)

  used-zero_block :
      (dev n m : ℕ) (d : Disk)
      → bblock sb m ≢ n
      → is_used sb dev (zero_block dev n d) m ≡ is_used sb dev d m
  used-zero_block dev n m d ne =
      ap (λ (b : Block). test_bit b (m % bits_per_block))
        (write_disk_other d dev n (λ k. if ltb k bsize then 0 else d dev n k) dev (bblock sb m)
          (inr ne))

  used_taken :
      (dev n m : ℕ) (d : Disk)
      → MapIsUsed dev d
      → m < sb.size
      → is_used sb dev d n ≡ false
      → is_used sb dev (zero_block dev n (mark sb dev n d)) m
        ≡ (if m == n then true else is_used sb dev d m)
  used_taken dev n m d map lt free =
      used-zero_block dev n m (mark sb dev n d) (not_map dev n m d map lt free)
      ∙ used-mark dev n m d

  -- What taking block n leaves: it is zeroed, the bitmap marks it and all that it marked before,
  -- and no other block changes.
  pub record Taken (dev n : ℕ) (d d' : Disk) : Type 0 where
    pub inside : n < sb.size
    pub was_free : is_used sb dev d n ≡ false
    pub used :
        (m : ℕ) → m < sb.size → is_used sb dev d' m ≡ (if m == n then true else is_used sb dev d m)
    pub zeroed : (k : ℕ) → k < bsize → d' dev n k ≡ 0
    pub others : (e bno : ℕ) → (e ≢ dev) ⊎ ((bno ≢ n) × (bno ≢ bblock sb n)) → d' e bno ≡ d e bno
    pub map : MapIsUsed dev d'

  others_taken :
      (dev n : ℕ) (d : Disk) (e bno : ℕ)
      → (e ≢ dev) ⊎ ((bno ≢ n) × (bno ≢ bblock sb n))
      → zero_block dev n (mark sb dev n d) e bno ≡ d e bno
  others_taken dev n d e bno (inl h) =
      write_disk_other (mark sb dev n d) dev n
        (λ k. if ltb k bsize then 0 else mark sb dev n d dev n k) e bno (inl h)
      ∙ write_disk_other d dev (bblock sb n) (set_bit (d dev (bblock sb n)) (n % bits_per_block)) e
          bno (inl h)
  others_taken dev n d e bno (inr (h, h')) =
      write_disk_other (mark sb dev n d) dev n
        (λ k. if ltb k bsize then 0 else mark sb dev n d dev n k) e bno (inr h)
      ∙ write_disk_other d dev (bblock sb n) (set_bit (d dev (bblock sb n)) (n % bits_per_block)) e
          bno (inr h')

  take-Taken :
      (dev n : ℕ) (d : Disk)
      → MapIsUsed dev d
      → n < sb.size
      → is_used sb dev d n ≡ false
      → Taken dev n d (zero_block dev n (mark sb dev n d))
  take-Taken dev n d map lt free = record {
    inside = lt;
    was_free = free;
    used = λ m l. used_taken dev n m d map l free;
    zeroed = λ k l.
        ap (λ (b : Block). b k)
          (write_disk_self (mark sb dev n d) dev n
            (λ k. if ltb k bsize then 0 else mark sb dev n d dev n k))
        ∙ ground arith;
    others = others_taken dev n d;
    map = λ m l.
        let (small, marked) = map m l in
        (small, used_taken dev n (bblock sb m) d map small free ∙ ground arith);
  }

  bfree-Taken :
      (dev n : ℕ) (d d' : Disk)
      → Taken dev n d d'
      → (c : Disk) × (bfree sb dev n d' ≡ ok c)
        × ((m : ℕ) → m < sb.size → is_used sb dev c m ≡ is_used sb dev d m)
  unfolding bfree
  bfree-Taken dev n d d' t =
      let marked : is_used sb dev d' n ≡ true = t.used n t.inside ∙ ground arith in
      (
        write_disk d' dev (bblock sb n) (unset_bit (d' dev (bblock sb n)) (n % bits_per_block)),
        rw marked refl,
        λ m l. used-unmark dev n m d' ∙ ground (arith, t.used m l, t.was_free),
      )

  -- On a device whose bitmap marks its own blocks, a block that `balloc` returns is one that was not
  -- marked; it is zeroed and marked now, and nothing else changes but the bitmap, which marks its
  -- own blocks still. `bfree` of the block then does not panic, and leaves the marks as they were.
  pub balloc-Taken :
      (dev n : ℕ) (d d' : Disk)
      → MapIsUsed dev d
      → balloc sb dev d ≡ (n, d')
      → n ≢ 0
      → Taken dev n d d'
        × ((c : Disk) × (bfree sb dev n d' ≡ ok c)
            × ((m : ℕ) → m < sb.size → is_used sb dev c m ≡ is_used sb dev d m))
  balloc-Taken dev n d d' map e ne =
      let t : Taken dev n d d' = elim (balloc-Allocates sb dev d) [
        | allocated m lt free first q ↦
            let (same, rest) : (m ≡ n) × (zero_block dev m (mark sb dev m d) ≡ d') =
              (ap (λ (x : ℕ × Disk). x.0) (sym q ∙ e), ap (λ (x : ℕ × Disk). x.1) (sym q ∙ e)) in
            rw (← rest, ← same) (take-Taken dev m d map lt free)
        | exhausted all q ↦ absurd (ne (sym (ap (λ (x : ℕ × Disk). x.0) (sym q ∙ e))))
      ] in
      (t, bfree-Taken dev n d d' t)
