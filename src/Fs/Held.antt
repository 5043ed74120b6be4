-- ===== src/Fs/Held.antt =====
-- The references of inodes through the operations of kernel/fs/fs.c on single inodes.
use ustc_26spring.Common.{
  ℕ, zero, suc, ◌+◌, ◌-◌, ◌*◌, ◌/◌, ◌≡◌, refl, ◌∙◌, inl, inr, Bool, true, false, ◌&&◌, ◌||◌, ltb,
  ◌==◌, if◌then◌else◌, Option, none, Bool-cases,
}
use ustc_26spring.Common.Result.{Result, ok, panic, ◌>>=◌}
use ustc_26spring.Common.Word.{add64}
use ustc_26spring.Bio.{Disk}
use ustc_26spring.Fs.Bitmap.{Superblock, bsize, balloc, bfree}
use ustc_26spring.Fs.Words.{load32}
use ustc_26spring.Fs.Inode.{Inode}
use ustc_26spring.Fs.Dinode.{ilock, lock_if_needed, iunlock, iupdate, load_dinode}
use ustc_26spring.Fs.Bmap.{
  addr_of, with_addr, ndirect, nindirect, bmap_direct, bmap_entry, bmap_indirect, bmap, free_direct,
  free_blocks, free_indirect, itrunc,
}
use ustc_26spring.Fs.Write.{maxfile, Wrote, writei_from, finish_write, writei}

-- What holds of the result of code, unless it panics.
pub data Ok {A : Type 0} (P : A → Type 0) : Result A → Type 0 where
  stops : Ok P panic
  fine : {x : A} → P x → Ok P (ok x)

pub Ok-bind :
    {A B : Type 0} (P : A → Type 0) {Q : B → Type 0} {m : Result A} {f : A → Result B}
    → Ok P m
    → ((x : A) → P x → Ok Q (f x))
    → Ok Q (m >>= f)
Ok-bind P stops g = stops
Ok-bind P (fine {x} h) g = g x h

pub Ok-map :
    {A : Type 0} (P : A → Type 0) {Q : A → Type 0} {m : Result A}
    → Ok P m
    → ((x : A) → P x → Q x)
    → Ok Q m
Ok-map P stops g = stops
Ok-map P (fine {x} h) g = fine (g x h)

pub Ok-if :
    {A : Type 0} {P : A → Type 0} (c : Bool) {m n : Result A}
    → Ok P m
    → Ok P n
    → Ok P (if c then m else n)
Ok-if true h g = h
Ok-if false h g = g

pub any_result : {A : Type 0} (m : Result A) → Ok (λ x. Unit) m
any_result panic = stops
any_result (ok x) = fine tt

pub Ok_result : {A : Type 0} {P : A → Type 0} {x : A} → Ok P (ok x) → P x
Ok_result (fine h) = h

module _ (sb : Superblock) where
  pub ilock-ref : (ip : Inode) (d : Disk) → Ok (λ jp. jp.ref ≡ ip.ref) (ilock sb ip d)
  unfolding ilock load_dinode
  ilock-ref ip d = Ok-if _ stops (Ok-if _ (fine refl) (Ok-if _ stops (fine refl)))

  pub lock_if_needed-ref :
      (held : Bool) (ip : Inode) (d : Disk)
      → Ok (λ jp. jp.ref ≡ ip.ref) (lock_if_needed sb held ip d)
  unfolding lock_if_needed
  lock_if_needed-ref held ip d = Ok-if _ (fine refl) (ilock-ref ip d)

  pub iunlock-ref : (held : Bool) (ip : Inode) → Ok (λ jp. jp.ref ≡ ip.ref) (iunlock sb held ip)
  unfolding iunlock
  iunlock-ref held ip = Ok-if _ stops (Ok-if _ stops (fine refl))

  pub iupdate-ref :
      (held : Bool) (ip : Inode) (d : Disk) → Ok (λ r. r.0.ref ≡ ip.ref) (iupdate sb held ip d)
  unfolding iupdate
  iupdate-ref held ip d = Ok-bind _ (lock_if_needed-ref held ip d) (λ jp e. fine e)

  bmap_direct-ref :
      (ip : Inode) (bn : ℕ) (alloc : Bool) (d : Disk)
      → (bmap_direct sb ip bn alloc d).1.ref ≡ ip.ref
  unfolding bmap_direct
  bmap_direct-ref ip bn alloc d = elim (Bool-cases ((addr_of ip bn == 0) && alloc)) [
    | inl e ↦ rw (e, bmap_direct) refl
    | inr e ↦ rw (e, bmap_direct) refl
  ]

  bmap_entry-ref :
      (ip : Inode) (a j : ℕ) (alloc : Bool) (d : Disk)
      → (bmap_entry sb ip a j alloc d).1.ref ≡ ip.ref
  unfolding bmap_entry
  bmap_entry-ref ip a j alloc d = elim (Bool-cases ((load32 (d ip.dev a) (4 * j) == 0) && alloc)) [
    | inl e ↦ elim (Bool-cases ((balloc sb ip.dev d).0 == 0)) [
      | inl f ↦ rw (e, f, bmap_entry) refl
      | inr f ↦ rw (e, f, bmap_entry) refl
    ]
    | inr e ↦ rw (e, bmap_entry) refl
  ]

  bmap_indirect-ref :
      (ip : Inode) (j : ℕ) (alloc : Bool) (d : Disk)
      → (bmap_indirect sb ip j alloc d).1.ref ≡ ip.ref
  unfolding bmap_indirect
  bmap_indirect-ref ip j false d = elim (Bool-cases (addr_of ip ndirect == 0)) [
    | inl e ↦ rw (e, bmap_indirect) refl
    | inr e ↦ rw (e, bmap_indirect) (bmap_entry-ref ip (addr_of ip ndirect) j false d)
  ]
  bmap_indirect-ref ip j true d = elim (Bool-cases (addr_of ip ndirect == 0)) [
    | inr e ↦ rw (e, bmap_indirect) (bmap_entry-ref ip (addr_of ip ndirect) j true d)
    | inl e ↦ elim (Bool-cases ((balloc sb ip.dev d).0 == 0)) [
      | inl f ↦ rw (e, f, bmap_indirect) refl
      | inr f ↦
          rw (e, f, bmap_indirect)
            (bmap_entry-ref (with_addr ip ndirect (balloc sb ip.dev d).0) (balloc sb ip.dev d).0 j
              true (balloc sb ip.dev d).1)
    ]
  ]

  bmap-ref :
      (ip : Inode) (bn : ℕ) (alloc : Bool) (d : Disk) → (bmap sb ip bn alloc d).1.ref ≡ ip.ref
  unfolding bmap
  bmap-ref ip bn alloc d = elim (Bool-cases (ltb bn ndirect)) [
    | inl e ↦ rw (e, bmap) (bmap_direct-ref ip bn alloc d)
    | inr e ↦ elim (Bool-cases (ltb (bn - ndirect) nindirect)) [
      | inl f ↦ rw (e, f, bmap) (bmap_indirect-ref ip (bn - ndirect) alloc d)
      | inr f ↦ rw (e, f, bmap) refl
    ]
  ]

  writei_from-ref :
      (src : ℕ → ℕ) (fuel : ℕ) (ip : Inode) (off tot n : ℕ) (d : Disk)
      → (writei_from sb src fuel ip off tot n d).inode.ref ≡ ip.ref
  unfolding writei_from
  writei_from-ref src zero ip off tot n d = refl
  writei_from-ref src (suc fuel) ip off tot n d = elim (Bool-cases (ltb tot n)) [
    | inr e ↦ rw (e, writei_from) refl
    | inl e ↦
        let b = bmap-ref ip ((off + tot) / bsize) true d in
        elim (Bool-cases ((bmap sb ip ((off + tot) / bsize) true d).0 == 0)) [
          | inl f ↦ rw (e, f, writei_from) b
          | inr f ↦ rw (e, f, writei_from) (writei_from-ref src fuel _ off _ n _ ∙ b)
        ]
  ]

  finish_write-ref :
      (src : ℕ → ℕ) (off : ℕ) (w : Wrote) (jp ip : Inode)
      → w.inode.ref ≡ jp.ref
      → jp.ref ≡ ip.ref
      → Ok (λ r. r.1.ref ≡ ip.ref) (finish_write sb src off w)
  unfolding finish_write
  finish_write-ref src off w jp ip e f =
      Ok-bind _ (iupdate-ref true _ w.disk) (λ r g. fine (g ∙ e ∙ f))

  pub writei-ref :
      (src : ℕ → ℕ) (held : Bool) (ip : Inode) (off n : ℕ) (d : Disk)
      → Ok (λ r. r.1.ref ≡ ip.ref) (writei sb src held ip off n d)
  unfolding writei
  writei-ref src held ip off n d = Ok-if _ (fine refl) (
      Ok-bind _ (lock_if_needed-ref held ip d) (λ jp e.
        let kept : Ok (λ (r : Option ℕ × Inode × Disk). r.1.ref ≡ ip.ref) (ok (none, jp, d)) =
          fine e in
        Ok-if (jp.type == 0) kept (
          Ok-if (ltb jp.size off || ltb (add64 off n) off) kept (
            Ok-if (ltb (maxfile * bsize) (add64 off n)) kept (
              finish_write-ref src off (writei_from sb src n jp off 0 n d) jp ip
                (writei_from-ref src n jp off 0 n d) e)))))

  free_indirect-ref : (ip : Inode) (d : Disk) → Ok (λ r. r.0.ref ≡ ip.ref) (free_indirect sb ip d)
  unfolding free_indirect
  free_indirect-ref ip d = elim (Bool-cases (addr_of ip ndirect == 0)) [
    | inl e ↦ rw (e, free_indirect) (fine refl)
    | inr e ↦
        rw (e, free_indirect)
          (Ok-bind _
            (any_result (free_blocks sb nindirect 0 ip.dev (d ip.dev (addr_of ip ndirect)) d))
            (λ d1 t.
              Ok-bind _ (any_result (bfree sb ip.dev (addr_of ip ndirect) d1))
                (λ d2 t'. fine refl)))
  ]

  free_direct-ref :
      (n i : ℕ) (ip : Inode) (d : Disk) → Ok (λ r. r.0.ref ≡ ip.ref) (free_direct sb n i ip d)
  unfolding free_direct
  free_direct-ref zero i ip d = fine refl
  free_direct-ref (suc n) i ip d = elim (Bool-cases (addr_of ip i == 0)) [
    | inl e ↦ rw (e, free_direct) (free_direct-ref n (i + 1) ip d)
    | inr e ↦
        rw (e, free_direct)
          (Ok-bind _ (any_result (bfree sb ip.dev (addr_of ip i) d))
            (λ d' t. free_direct-ref n (i + 1) (with_addr ip i 0) d'))
  ]

  pub itrunc-ref :
      (held : Bool) (ip : Inode) (d : Disk) → Ok (λ r. r.0.ref ≡ ip.ref) (itrunc sb held ip d)
  unfolding itrunc
  itrunc-ref held ip d = Ok-bind _ (lock_if_needed-ref held ip d) (λ jp e.
      Ok-bind _ (free_direct-ref ndirect 0 jp d) (λ r f.
        Ok-bind _ (free_indirect-ref r.0 r.1) (λ s g.
          Ok-map _ (iupdate-ref true (record s.0 { size = 0 }) s.1) (λ u h. h ∙ g ∙ f ∙ e))))
