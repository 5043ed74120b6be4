-- ===== src/Fs/Stored.antt =====
-- Inodes on the disk of kernel/fs/fs.c: what `iupdate` writes and `ilock` reads.
use ustc_26spring.Common.{
  ℕ, ◌+◌, ◌≤◌, ◌<◌, ◌≡◌, ◌≢◌, refl, sym, ap, ◌∙◌, ◌⊎◌, inl, inr, true, false, ◌&&◌, ltb, ◌==◌,
  if◌then◌else◌, length, arith, Bool-cases,
}
use mathlib.Core.Path.{ap₂}
use ustc_26spring.Common.Result.{Result, ok, panic}
use ustc_26spring.Bio.{Disk, write_disk}
use ustc_26spring.Fs.Bitmap.{Superblock}
use ustc_26spring.Fs.Taken.{write_disk_self}
use ustc_26spring.Fs.Inode.{Inode, naddrs}
use ustc_26spring.Fs.Dinode.{
  load_dinode, store_dinode, dinode_at, iblock, ilock, lock_if_needed, iupdate,
}
use ustc_26spring.Fs.Fields.{
  Fits, Agree, load_dinode-Agree, store_dinode_out, load_dinode-store_dinode,
}

apart :
    (sb : Superblock) (ip kp : Inode) (k : ℕ)
    → dinode_at kp.inum ≤ k
    → k < dinode_at kp.inum + 64
    → kp.dev ≡ ip.dev
    → iblock sb kp.inum ≡ iblock sb ip.inum
    → (kp.dev ≢ ip.dev) ⊎ (kp.inum ≢ ip.inum)
    → (k < dinode_at ip.inum) ⊎ (dinode_at ip.inum + 64 ≤ k)
apart sb ip kp k l m e e' (inl ne) = absurd (ne e)
apart sb ip kp k l m e e' (inr ne) = elim (Bool-cases (ltb k (dinode_at ip.inum))) [
  | inl below ↦ inl (ground arith)
  | inr above ↦ inr (ground arith)
]

-- `ilock` for what is loaded.
abbrev lock_as : Inode → Inode → Result Inode
lock_as kp jp =
    if ltb kp.ref 1
    then panic
    else if kp.valid
    then ok kp
    else if jp.type == 0
    then panic
    else ok jp

ilock_eq :
    (sb : Superblock) (kp : Inode) (d : Disk)
    → ilock sb kp d ≡ lock_as kp (load_dinode kp (d kp.dev (iblock sb kp.inum)) (dinode_at kp.inum))
unfolding ilock
ilock_eq sb kp d = refl

lock_loaded : (kp jp : Inode) → 1 ≤ kp.ref → kp.valid ≡ false → jp.type ≢ 0 → lock_as kp jp ≡ ok jp
lock_loaded kp jp h v ne =
    let q : ltb kp.ref 1 ≡ false = ground arith in
    let q' : (jp.type == 0) ≡ false = ground arith in rw (q, v, q') refl

-- The slot kp with the fields of the inode ip.
abbrev pub loaded_inode : Inode → Inode → Inode
loaded_inode ip kp = record kp {
  type = ip.type;
  major = ip.major;
  minor = ip.minor;
  nlink = ip.nlink;
  size = ip.size;
  addrs = ip.addrs;
  valid = true;
}

-- Another inode lies elsewhere.
other_inode :
    (sb : Superblock) (ip kp : Inode) (d : Disk)
    → length ip.addrs ≡ naddrs
    → (kp.dev ≢ ip.dev) ⊎ (kp.inum ≢ ip.inum)
    → Agree
        (dinode_at kp.inum)
        64
        (write_disk d ip.dev
          (iblock sb ip.inum)
          (store_dinode ip (d ip.dev (iblock sb ip.inum)) (dinode_at ip.inum))
          kp.dev
          (iblock sb kp.inum))
        (d kp.dev (iblock sb kp.inum))
other_inode sb ip kp d n ne k l m =
    elim (Bool-cases ((kp.dev == ip.dev) && (iblock sb kp.inum == iblock sb ip.inum))) [
      | inr q ↦ rw q refl
      | inl q ↦
          let same_dev : kp.dev ≡ ip.dev = ground arith in
          let same_block : iblock sb kp.inum ≡ iblock sb ip.inum = ground arith in
          rw (q, same_dev, same_block)
            (store_dinode_out ip (d ip.dev (iblock sb ip.inum)) (dinode_at ip.inum) k n
              (apart sb ip kp k l m same_dev same_block ne))
    ]

module _ (sb : Superblock) (ip : Inode) (fits : Fits ip) (d : Disk) where
  abbrev after : Disk
  after =
      write_disk d ip.dev (iblock sb ip.inum)
        (store_dinode ip (d ip.dev (iblock sb ip.inum)) (dinode_at ip.inum))

  loaded :
      (kp : Inode)
      → kp.dev ≡ ip.dev
      → kp.inum ≡ ip.inum
      → load_dinode kp (after kp.dev (iblock sb kp.inum)) (dinode_at kp.inum) ≡ loaded_inode ip kp
  loaded kp e e' =
      ap₂ (λ b o. load_dinode kp b o)
        (ap₂ (λ x y. after x (iblock sb y)) e e'
          ∙ write_disk_self d ip.dev (iblock sb ip.inum)
              (store_dinode ip (d ip.dev (iblock sb ip.inum)) (dinode_at ip.inum)))
        (ap dinode_at e')
      ∙ load_dinode-store_dinode ip fits (d ip.dev (iblock sb ip.inum)) (dinode_at ip.inum) kp

  -- What `iupdate` writes for an inode that is locked and whose fields fit a dinode, `ilock` loads into
  -- any slot for that inode that is referenced and not loaded, if the type is not 0; and for every
  -- other inode `ilock` does on the new disk what it did on the old one.
  pub iupdate-ilock :
      ip.type ≢ 0
      → (d' : Disk) × (iupdate sb true ip d ≡ ok (ip, d'))
        × ((kp : Inode)
            → kp.dev ≡ ip.dev
            → kp.inum ≡ ip.inum
            → 1 ≤ kp.ref
            → kp.valid ≡ false
            → ilock sb kp d' ≡ ok (loaded_inode ip kp))
        × ((kp : Inode) → (kp.dev ≢ ip.dev) ⊎ (kp.inum ≢ ip.inum) → ilock sb kp d' ≡ ilock sb kp d)
  unfolding iupdate lock_if_needed
  iupdate-ilock live = (
    after,
    refl,
    λ kp e e' h v.
        ilock_eq sb kp after
        ∙ ap (lock_as kp) (loaded kp e e')
        ∙ lock_loaded kp (loaded_inode ip kp) h v live,
    λ kp ne.
        ilock_eq sb kp after
        ∙ ap (lock_as kp) (
            load_dinode-Agree kp (after kp.dev (iblock sb kp.inum)) (d kp.dev (iblock sb kp.inum))
              (dinode_at kp.inum) (other_inode sb ip kp d fits.count ne))
        ∙ sym (ilock_eq sb kp d),
  )
