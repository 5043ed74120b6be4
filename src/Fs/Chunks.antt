-- ===== src/Fs/Chunks.antt =====
-- The loops of `fileread` and `filewrite` of kernel/core/file.c on a file with an inode: pieces of at
-- most a block between the inode and the memory of a process with page table pt.
use ustc_26spring.Common.{
  ℕ, zero, suc, ◌+◌, ◌-◌, ◌≤◌, ◌≡◌, ◌≢◌, refl, ap, inl, inr, true, false, ltb, ◌==◌, if◌then◌else◌,
  Option, none, some, List, min, get_or, length, arith, Bool-cases, Option-cases,
}
use ustc_26spring.Common.Word.{add32, add64}
use ustc_26spring.Common.Result.{Result, ok, ◌>>=◌}
use ustc_26spring.Kalloc.{Kmem}
use ustc_26spring.Vm.Copy.{copyin, copyout}
use ustc_26spring.Bio.{Disk}
use ustc_26spring.Fs.Bitmap.{Superblock, bsize}
use ustc_26spring.Fs.Inode.{Inode}
use ustc_26spring.Fs.Bmap.{readi}
use ustc_26spring.Fs.Write.{writei}

-- What the loops leave: the count that is returned (`none` is -1), the inode, the offset of the file,
-- the memory and the disk.
pub record Moved : Type 0 where
  pub count : Option ℕ
  pub inode : Inode
  pub off : ℕ
  pub kmem : Kmem
  pub disk : Disk

-- return tot > 0 ? tot : -1;
abbrev pub so_far : ℕ → Option ℕ
so_far tot = if ltb 0 tot then some tot else none

module _ (sb : Superblock) (pt addr n : ℕ) where
  -- The round of `fileread` after its `readi` of m bytes; `on` is the loop after so many bytes more.
  unfoldable pub read_round :
      (ℕ → Inode → Kmem → Result Moved)
      → ℕ
      → ℕ
      → ℕ
      → Kmem
      → Disk
      → Option (List ℕ) × Inode
      → Result Moved
  read_round on tot m off k d (none, jp) =
      ok (record { count = so_far tot; inode = jp; off = off; kmem = k; disk = d })
  read_round on tot m off k d (some bytes, jp) = elim (length bytes == 0) [
    | true ↦ ok (record { count = some tot; inode = jp; off = off; kmem = k; disk = d })
    | false ↦ elim (copyout pt (add64 addr tot) bytes k).0 [
      | false ↦ ok (record {
        count = none;
        inode = jp;
        off = off;
        kmem = (copyout pt (add64 addr tot) bytes k).1;
        disk = d;
      })
      | true ↦ elim (ltb (length bytes) m) [
        | true ↦ ok (record {
          count = some (tot + length bytes);
          inode = jp;
          off = add32 off (length bytes);
          kmem = (copyout pt (add64 addr tot) bytes k).1;
          disk = d;
        })
        | false ↦ on (length bytes) jp (copyout pt (add64 addr tot) bytes k).1
      ]
    ]
  ]

  -- The loop of `fileread` after tot bytes; each round reads at least one.
  unfoldable pub read_chunks : ℕ → ℕ → Inode → ℕ → Kmem → Disk → Result Moved
  read_chunks zero tot ip off k d =
      ok (record { count = some tot; inode = ip; off = off; kmem = k; disk = d })
  read_chunks (suc fuel) tot ip off k d = elim (ltb tot n) [
    | false ↦ ok (record { count = some tot; inode = ip; off = off; kmem = k; disk = d })
    | true ↦
        readi sb false ip off (min (n - tot) bsize) d
        >>= read_round (λ l jp k'. read_chunks fuel (tot + l) jp (add32 off l) k' d) tot
            (min (n - tot) bsize) off k d
  ]

  -- The round of `filewrite` after its `writei` of m bytes.
  unfoldable pub write_round :
      (ℕ → Inode → Disk → Result Moved) → ℕ → ℕ → ℕ → Kmem → Option ℕ × Inode × Disk → Result Moved
  write_round on tot m off k (none, jp, d) =
      ok (record { count = so_far tot; inode = jp; off = off; kmem = k; disk = d })
  write_round on tot m off k (some w, jp, d) = elim (w == 0) [
    | true ↦ ok (record { count = some tot; inode = jp; off = off; kmem = k; disk = d })
    | false ↦ elim (ltb w m) [
      | true ↦
          ok (record { count = some (tot + w); inode = jp; off = add32 off w; kmem = k; disk = d })
      | false ↦ on w jp d
    ]
  ]

  -- The loop of `filewrite` after tot bytes; each round writes at least one.
  unfoldable pub write_chunks : ℕ → ℕ → Inode → ℕ → Kmem → Disk → Result Moved
  write_chunks zero tot ip off k d =
      ok (record { count = some tot; inode = ip; off = off; kmem = k; disk = d })
  write_chunks (suc fuel) tot ip off k d = elim (ltb tot n) [
    | false ↦ ok (record { count = some tot; inode = ip; off = off; kmem = k; disk = d })
    | true ↦ elim (copyin pt (add64 addr tot) (min (n - tot) bsize) k) [
      | none ↦ ok (record { count = so_far tot; inode = ip; off = off; kmem = k; disk = d })
      | some bytes ↦
          writei sb (λ j. get_or bytes j 0) false ip off (min (n - tot) bsize) d
          >>= write_round (λ w jp d'. write_chunks fuel (tot + w) jp (add32 off w) k d') tot
              (min (n - tot) bsize) off k
    ]
  ]

module _ (sb : Superblock) (pt addr n : ℕ) where
  -- Rounds that go on alike after each count of bytes but 0 are alike.
  read_round-eq :
      (on on' : ℕ → Inode → Kmem → Result Moved) (tot m off : ℕ) (k : Kmem) (d : Disk)
      → ((l : ℕ) (jp : Inode) (k' : Kmem) → l ≢ 0 → on l jp k' ≡ on' l jp k')
      → (r : Option (List ℕ) × Inode)
      → read_round sb pt addr n on tot m off k d r ≡ read_round sb pt addr n on' tot m off k d r
  unfolding read_round
  read_round-eq on on' tot m off k d h (none, jp) = refl
  read_round-eq on on' tot m off k d h (some bytes, jp) = elim (Bool-cases (length bytes == 0)) [
    | inl none_read ↦ rw (none_read, read_round) refl
    | inr more ↦
        rw (more, read_round)
          (elim (Bool-cases (copyout pt (add64 addr tot) bytes k).0) [
            | inr failed ↦ rw failed refl
            | inl copied ↦ rw copied (elim (Bool-cases (ltb (length bytes) m)) [
              | inl short ↦ rw short refl
              | inr full ↦
                  rw full
                    (h (length bytes) jp (copyout pt (add64 addr tot) bytes k).1 (ground arith))
            ])
          ])
  ]

  -- The loop of `fileread` has the same result with any fuel that is at least the bytes that are left.
  pub read_chunks-enough :
      (fuel fuel' tot : ℕ) (ip : Inode) (off : ℕ) (k : Kmem) (d : Disk)
      → n ≤ tot + fuel
      → n ≤ tot + fuel'
      → read_chunks sb pt addr n fuel tot ip off k d ≡ read_chunks sb pt addr n fuel' tot ip off k d
  unfolding read_chunks
  read_chunks-enough zero zero tot ip off k d h h' = refl
  read_chunks-enough zero (suc fuel') tot ip off k d h h' =
      let q : ltb tot n ≡ false = ground arith in rw (q, read_chunks) refl
  read_chunks-enough (suc fuel) zero tot ip off k d h h' =
      let q : ltb tot n ≡ false = ground arith in rw (q, read_chunks) refl
  read_chunks-enough (suc fuel) (suc fuel') tot ip off k d h h' = elim (Bool-cases (ltb tot n)) [
    | inr out ↦ rw (out, read_chunks) refl
    | inl more ↦
        rw (more, read_chunks)
          (ap (λ next. readi sb false ip off (min (n - tot) bsize) d >>= next)
            (λ z r.
              read_round-eq
                (λ l jp k'. read_chunks sb pt addr n fuel (tot + l) jp (add32 off l) k' d)
                (λ l jp k'. read_chunks sb pt addr n fuel' (tot + l) jp (add32 off l) k' d) tot
                (min (n - tot) bsize) off k d
                (λ l jp k' ne.
                  read_chunks-enough fuel fuel' (tot + l) jp (add32 off l) k' d (omega arith)
                    (omega arith))
                r z))
  ]

  write_round-eq :
      (on on' : ℕ → Inode → Disk → Result Moved) (tot m off : ℕ) (k : Kmem)
      → ((w : ℕ) (jp : Inode) (d : Disk) → w ≢ 0 → on w jp d ≡ on' w jp d)
      → (r : Option ℕ × Inode × Disk)
      → write_round sb pt addr n on tot m off k r ≡ write_round sb pt addr n on' tot m off k r
  unfolding write_round
  write_round-eq on on' tot m off k h (none, jp, d) = refl
  write_round-eq on on' tot m off k h (some w, jp, d) = elim (Bool-cases (w == 0)) [
    | inl none_written ↦ rw (none_written, write_round) refl
    | inr more ↦
        rw (more, write_round)
          (elim (Bool-cases (ltb w m)) [
            | inl short ↦ rw short refl
            | inr full ↦ rw full (h w jp d (ground arith))
          ])
  ]

  -- The loop of `filewrite` has the same result with any fuel that is at least the bytes that are left.
  pub write_chunks-enough :
      (fuel fuel' tot : ℕ) (ip : Inode) (off : ℕ) (k : Kmem) (d : Disk)
      → n ≤ tot + fuel
      → n ≤ tot + fuel'
      → write_chunks sb pt addr n fuel tot ip off k d
        ≡ write_chunks sb pt addr n fuel' tot ip off k d
  unfolding write_chunks
  write_chunks-enough zero zero tot ip off k d h h' = refl
  write_chunks-enough zero (suc fuel') tot ip off k d h h' =
      let q : ltb tot n ≡ false = ground arith in rw (q, write_chunks) refl
  write_chunks-enough (suc fuel) zero tot ip off k d h h' =
      let q : ltb tot n ≡ false = ground arith in rw (q, write_chunks) refl
  write_chunks-enough (suc fuel) (suc fuel') tot ip off k d h h' = elim (Bool-cases (ltb tot n)) [
    | inr out ↦ rw (out, write_chunks) refl
    | inl more ↦ elim (Option-cases (copyin pt (add64 addr tot) (min (n - tot) bsize) k)) [
      | inl unread ↦ rw (more, unread, write_chunks) refl
      | inr (bytes, e) ↦
          rw (more, e, write_chunks)
            (ap
              (λ next.
                writei sb (λ j. get_or bytes j 0) false ip off (min (n - tot) bsize) d >>= next)
              (λ z r.
                write_round-eq
                  (λ w jp d'. write_chunks sb pt addr n fuel (tot + w) jp (add32 off w) k d')
                  (λ w jp d'. write_chunks sb pt addr n fuel' (tot + w) jp (add32 off w) k d') tot
                  (min (n - tot) bsize) off k
                  (λ w jp d' ne.
                    write_chunks-enough fuel fuel' (tot + w) jp (add32 off w) k d' (omega arith)
                      (omega arith))
                  r z))
    ]
  ]
