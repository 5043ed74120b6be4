-- ===== src/Fs/Contents.antt =====
-- A file as bytes by offset, beside `readi` of kernel/fs/fs.c, which works by blocks.
use ustc_26spring.Common.{
  ℕ, zero, suc, ◌+◌, ◌-◌, ◌*◌, ◌/◌, ◌%◌, ◌^◌, ◌≤◌, ◌<◌, ◌≡◌, ◌≢◌, refl, sym, ap, ◌∙◌, inl, inr,
  Bool, true, false, ltb, ◌==◌, if◌then◌else◌, some, List, [], ◌∷◌, ◌++◌, min, arith, Bool-cases,
}
use mathlib.Core.Path.{ap₂}
use ustc_26spring.Common.Word.{add64}
use ustc_26spring.Common.Result.{ok}
use ustc_26spring.Bio.{Disk}
use ustc_26spring.Fs.Bitmap.{Superblock, bsize}
use ustc_26spring.Fs.Inode.{Inode}
use ustc_26spring.Fs.Dinode.{lock_if_needed}
use ustc_26spring.Fs.Bmap.{block_bytes, bmap, readi_from, readi}

module _ (sb : Superblock) where
  -- The block of the device that holds a block of the file, or 0.
  abbrev pub block_of : Inode → Disk → ℕ → ℕ
  block_of ip d bn = (bmap sb ip bn false d).0

  -- The bytes from offset k on, up to n of them, each through its own block, up to the first that has
  -- none.
  pub fetch : ℕ → Inode → ℕ → Disk → List ℕ
  fetch zero ip k d = []
  fetch (suc n) ip k d = elim (block_of ip d (k / bsize) == 0) [
    | true ↦ []
    | false ↦ d ip.dev (block_of ip d (k / bsize)) (k % bsize) ∷ fetch n ip (k + 1) d
  ]

  fetch_next :
      (n a : ℕ) (ip : Inode) (k : ℕ) (d : Disk)
      → block_of ip d (k / bsize) ≡ a
      → a ≢ 0
      → fetch (suc n) ip k d ≡ d ip.dev a (k % bsize) ∷ fetch n ip (k + 1) d
  unfolding fetch
  fetch_next n a ip k d e ne =
      let q : (block_of ip d (k / bsize) == 0) ≡ false = ground arith in
      rw (q, fetch) (ap (λ (b : ℕ). d ip.dev b (k % bsize) ∷ fetch n ip (k + 1) d) e)

  fetch_end :
      (n : ℕ) (ip : Inode) (k : ℕ) (d : Disk) → block_of ip d (k / bsize) ≡ 0 → fetch n ip k d ≡ []
  unfolding fetch
  fetch_end zero ip k d e = refl
  fetch_end (suc n) ip k d e = rw (e, fetch) refl

  -- Within a block the bytes come from the block.
  fetch-block :
      (m r bn a o : ℕ) (ip : Inode) (k : ℕ) (d : Disk)
      → block_of ip d bn ≡ a
      → a ≢ 0
      → k ≡ bn * bsize + o
      → o + m ≤ bsize
      → fetch (m + r) ip k d ≡ block_bytes m (d ip.dev a) o ++ fetch r ip (k + m) d
  unfolding block_bytes
  fetch-block zero r bn a o ip k d e ne hk hm =
      let q : 0 + r ≡ r = omega arith in let q' : k + 0 ≡ k = omega arith in rw (q, q') refl
  fetch-block (suc m) r bn a o ip k d e ne hk hm =
      let q : suc m + r ≡ suc (m + r) = omega arith in
      let q1 : k + suc m ≡ k + 1 + m = omega arith in
      let at : k / bsize ≡ bn = omega arith in
      let off : k % bsize ≡ o = omega arith in
      rw (q, q1)
        (fetch_next (m + r) a ip k d (ap (block_of ip d) at ∙ e) ne
          ∙ ap₂ ◌∷◌ (ap (d ip.dev a) off)
              (fetch-block m r bn a (o + 1) ip (k + 1) d e ne (omega arith) (omega arith)))

  readi_round :
      (fuel : ℕ) (ip : Inode) (off tot n : ℕ) (d : Disk)
      → tot < n
      → block_of ip d ((off + tot) / bsize) ≢ 0
      → let m = min (n - tot) (bsize - (off + tot) % bsize) in
        readi_from sb fuel ip off (tot + m) n d ≡ fetch (n - (tot + m)) ip (off + (tot + m)) d
        → block_bytes m (d ip.dev (block_of ip d ((off + tot) / bsize))) ((off + tot) % bsize)
            ++ readi_from sb fuel ip off (tot + m) n d
          ≡ fetch (n - tot) ip (off + tot) d
  readi_round fuel ip off tot n d lt ne ih =
      let m : ℕ = min (n - tot) (bsize - (off + tot) % bsize) in
      let whole : m + (n - (tot + m)) ≡ n - tot = omega arith in
      let next : off + (tot + m) ≡ off + tot + m = omega arith in
      rw (ih, next)
        (sym (
          ap (λ j. fetch j ip (off + tot) d) (sym whole)
          ∙ fetch-block m (n - (tot + m)) ((off + tot) / bsize)
              (block_of ip d ((off + tot) / bsize)) ((off + tot) % bsize) ip (off + tot) d refl ne
              (omega arith) (omega arith)))

  readi_from-fetch :
      (fuel : ℕ) (ip : Inode) (off tot n : ℕ) (d : Disk)
      → n ≤ tot + fuel
      → readi_from sb fuel ip off tot n d ≡ fetch (n - tot) ip (off + tot) d
  unfolding readi_from fetch
  readi_from-fetch zero ip off tot n d h = let q : n - tot ≡ 0 = omega arith in rw q refl
  readi_from-fetch (suc fuel) ip off tot n d h = elim (Bool-cases (ltb tot n)) [
    | inr out ↦ let q : n - tot ≡ 0 = ground arith in rw (out, q, readi_from) refl
    | inl more ↦
        rw (more, readi_from)
          (elim (Bool-cases (block_of ip d ((off + tot) / bsize) == 0)) [
            | inl hole ↦ rw hole (sym (fetch_end (n - tot) ip (off + tot) d (ground arith)))
            | inr there ↦ rw there (
                readi_round fuel ip off tot n d (ground arith) (ground arith) (
                  readi_from-fetch fuel ip off (tot + min (n - tot) (bsize - (off + tot) % bsize)) n
                    d (ground arith)))
          ])
  ]

  -- A read of n bytes, at least one, from an inode in use delivers the bytes of the file from the
  -- offset on, each through its own block, up to the end of the file or to the first that has no
  -- block; it changes nothing but that it loads the inode where it was not loaded.
  pub readi-fetch :
      (held : Bool) (ip jp : Inode) (off n : ℕ) (d : Disk)
      → lock_if_needed sb held ip d ≡ ok jp
      → jp.type ≢ 0
      → 0 < n
      → off + n < 2 ^ 64
      → readi sb held ip off n d ≡ ok (some (fetch (min n (jp.size - off)) jp off d), jp)
  unfolding readi
  readi-fetch held ip jp off n d locked used pos small =
      let some_bytes : (n == 0) ≡ false = ground arith in
      let live : (jp.type == 0) ≡ false = ground arith in
      let fits : ltb (add64 off n) off ≡ false = ground arith in
      rw (some_bytes, locked)
        (rw (live, fits)
          (elim (Bool-cases (ltb jp.size off)) [
            | inl past ↦
                let q : min n (jp.size - off) ≡ 0 = ground arith in
                rw (past, q) (unfold fetch in refl)
            | inr inside ↦
                let count : (if ltb jp.size (off + n) then jp.size - off else n)
                    ≡ min n (jp.size - off) =
                  ground arith in
                let start : off + 0 ≡ off = omega arith in
                let rest : min n (jp.size - off) - 0 ≡ min n (jp.size - off) = omega arith in
                rw (inside, count)
                  (ap (λ (l : List ℕ). ok (some l, jp))
                    (rw (start, rest) at
                      (readi_from-fetch (min n (jp.size - off)) jp off 0 (min n (jp.size - off)) d
                        (omega arith))))
          ]))
