-- ===== src/Fs/Inode.antt =====
-- The table of inodes of kernel/fs/fs.c: `iget`, `idup` and the last part of `iput`. Each holds the
-- lock of the table. An inode is named by its slot.
use ustc_26spring.Common.{
  ℕ, ◌+◌, ◌-◌, Bool, true, false, ◌&&◌, ltb, ◌==◌, if◌then◌else◌, Option, none, some, List, [], ◌∷◌,
  get_or, set, replicate,
}
use ustc_26spring.Common.Result.{Result, ok, panic}
use ustc_26spring.Lock.Sleep.{Sleeplock, initsleeplock}

-- `struct inode` of kernel/include/file.h.
pub record Inode : Type 0 where
  pub dev : ℕ
  pub inum : ℕ
  pub ref : ℕ
  pub lock : Sleeplock
  pub valid : Bool
  pub type : ℕ
  pub major : ℕ
  pub minor : ℕ
  pub nlink : ℕ
  pub size : ℕ
  pub addrs : List ℕ

-- NDIRECT + 1
abbrev pub naddrs : ℕ
naddrs = 13

abbrev pub ninode : ℕ
ninode = 64

-- A slot as `fsinit` leaves it: the table is static, and so zeroed.
abbrev pub no_inode : Inode
no_inode = record {
  dev = 0;
  inum = 0;
  ref = 0;
  lock = initsleeplock;
  valid = false;
  type = 0;
  major = 0;
  minor = 0;
  nlink = 0;
  size = 0;
  addrs = replicate naddrs 0;
}

-- The loop of `fsinit`.
unfoldable pub fsinit : List Inode
fsinit = replicate ninode no_inode

abbrev pub inode_at : ℕ → List Inode → Inode
inode_at i t = get_or t i no_inode

abbrev pub is_inode : ℕ → ℕ → Inode → Bool
is_inode dev inum ip = ltb 0 ip.ref && (ip.dev == dev) && (ip.inum == inum)

-- if (empty == 0 && ip->ref == 0) empty = ip;
abbrev pub first_empty : Option ℕ → ℕ → Inode → Option ℕ
first_empty none i ip = if ip.ref == 0 then some i else none
first_empty (some j) i ip = some j

-- The loop of `iget` from slot i on: the inode, and the first free slot seen so far.
unfoldable pub scan : ℕ → ℕ → ℕ → Option ℕ → List Inode → Option ℕ × Option ℕ
scan dev inum i empty [] = (none, empty)
scan dev inum i empty (ip ∷ t) = elim (is_inode dev inum ip) [
  | true ↦ (some i, empty)
  | false ↦ scan dev inum (i + 1) (first_empty empty i ip) t
]

abbrev pub more_ref : Inode → Inode
more_ref ip = record ip { ref = ip.ref + 1 }

-- What `iget` makes of a free slot.
abbrev pub reset_inode : ℕ → ℕ → Inode → Inode
reset_inode dev inum ip = record ip {
  dev = dev;
  inum = inum;
  ref = 1;
  valid = false;
  type = 0;
  size = 0;
  addrs = replicate naddrs 0;
}

abbrev pub update : ℕ → (Inode → Inode) → List Inode → List Inode
update i f t = set t i (f (inode_at i t))

unfoldable pub iget : ℕ → ℕ → List Inode → Result (ℕ × List Inode)
unfolding scan
iget dev inum t =
    let (found, empty) = scan dev inum 0 none t in
    elim found [
      | some i ↦ ok (i, update i more_ref t)
      | none ↦ elim empty [ some j ↦ ok (j, update j (reset_inode dev inum) t) | none ↦ panic ]
    ]

unfoldable pub idup : ℕ → List Inode → Result (List Inode)
idup i t = if ltb (inode_at i t).ref 1 then panic else ok (update i more_ref t)

-- One reference less; the last one clears the slot.
abbrev pub less_ref : Inode → Inode
less_ref ip =
    if ip.ref - 1 == 0
    then record ip { ref = 0; valid = false; type = 0; size = 0 }
    else record ip { ref = ip.ref - 1 }

-- The last part of `iput`.
unfoldable pub put_ref : ℕ → List Inode → List Inode
put_ref i t = update i less_ref t
