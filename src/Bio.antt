-- ===== src/Bio.antt =====
-- The buffer cache of kernel/core/bio.c. The doubly linked list of buffers is the list of buffers
-- from bcache.head.next on, the most recently released first; a buffer is named by its slot in
-- bcache.buf. The functions are atomic segments between the points where a caller may sleep.
pub mod Unique
pub mod Lru
pub mod Tests
use ustc_26spring.Common.{
  ℕ, zero, suc, ◌+◌, ◌-◌, ◌≡◌, Bool, true, false, ◌&&◌, not, ◌==◌, if◌then◌else◌, Option, none,
  some, List, [], ◌∷◌,
}
use ustc_26spring.Common.Word.{add32, sub32}
use ustc_26spring.Common.Result.{Result, ok, panic, ◌>>=◌}
use ustc_26spring.Lock.Sleep.{
  Sleeplock, Who, initsleeplock, sl_holding, acquiresleep, releasesleep, Acquired, asleep, taken,
}

-- The bytes of a block by their offsets.
abbrev pub Block : Type 0
Block = ℕ → ℕ

-- `struct buf` of kernel/include/buf.h.
pub record Buf : Type 0 where
  pub slot : ℕ
  pub valid : Bool
  pub dev : ℕ
  pub blockno : ℕ
  pub lock : Sleeplock
  pub refcnt : ℕ
  pub bytes : Block

-- What the disk holds, by device and block.
abbrev pub Disk : Type 0
Disk = ℕ → ℕ → Block

abbrev pub write_disk : Disk → ℕ → ℕ → Block → Disk
write_disk d dev blockno bytes e n = if (e == dev) && (n == blockno) then bytes else d e n

abbrev pub nbuf : ℕ
nbuf = 30

abbrev pub empty_buf : ℕ → Buf
empty_buf i = record {
  slot = i;
  valid = false;
  dev = 0;
  blockno = 0;
  lock = initsleeplock;
  refcnt = 0;
  bytes = λ _. 0;
}

-- `binit`: each buffer in turn goes to the front, so the last is the first.
unfoldable pub binit : ℕ → List Buf
binit zero = []
binit (suc n) = empty_buf n ∷ binit n

abbrev pub is_block : ℕ → ℕ → Buf → Bool
is_block dev blockno b = (b.dev == dev) && (b.blockno == blockno)

-- The first loop of `bget`: the buffer of the block, with one more reference.
unfoldable pub find_cached : ℕ → ℕ → List Buf → Option (ℕ × List Buf)
find_cached dev blockno [] = none
find_cached dev blockno (b ∷ bs) = elim (is_block dev blockno b) [
  | true ↦ some (b.slot, record b { refcnt = add32 b.refcnt 1 } ∷ bs)
  | false ↦ elim (find_cached dev blockno bs) [ none ↦ none | some (i, cs) ↦ some (i, b ∷ cs) ]
]

abbrev pub reset_buf : ℕ → ℕ → Buf → Buf
reset_buf dev blockno b = record b { dev = dev; blockno = blockno; valid = false; refcnt = 1 }

-- The second loop of `bget`, from the end of the list: the last buffer without references.
unfoldable pub recycle : ℕ → ℕ → List Buf → Option (ℕ × List Buf)
recycle dev blockno [] = none
recycle dev blockno (b ∷ bs) = elim (recycle dev blockno bs) [
  | some (i, cs) ↦ some (i, b ∷ cs)
  | none ↦ if b.refcnt == 0 then some (b.slot, reset_buf dev blockno b ∷ bs) else none
]

-- `bget` up to `acquiresleep`.
unfoldable pub bget : ℕ → ℕ → List Buf → Result (ℕ × List Buf)
bget dev blockno bs = elim (find_cached dev blockno bs) [
  | some r ↦ ok r
  | none ↦ elim (recycle dev blockno bs) [ some r ↦ ok r | none ↦ panic ]
]

-- A change of the buffer of a slot.
unfoldable pub put_buf : ℕ → Buf → List Buf → List Buf
put_buf i c [] = []
put_buf i c (b ∷ bs) = if b.slot == i then c ∷ bs else b ∷ put_buf i c bs

-- The rest of `bread`, once `bget` has its lock: the disk read of a buffer that is not valid.
abbrev pub fill : Disk → Buf → Buf
fill d b = if b.valid then b else record b { bytes = d b.dev b.blockno; valid = true }

-- `bread` after the lookup: the caller waits for the buffer's lock (`none`), or has the buffer.
unfoldable pub bread_locked : Who → Disk → Buf → Result (Option Buf)
bread_locked w d b = elim (acquiresleep w b.lock) [
  | panic ↦ panic
  | ok asleep ↦ ok none
  | ok (taken lk) ↦ ok (some (fill d (record b { lock = lk })))
]

-- The disk after `bwrite`.
unfoldable pub bwrite : Who → Buf → Disk → Result Disk
bwrite w b d =
    if not (sl_holding w b.lock) then panic else ok (write_disk d b.dev b.blockno b.bytes)

-- A buffer leaves the list, and the buffer and the rest are handed on.
unfoldable pub take_out : ℕ → List Buf → Option (Buf × List Buf)
take_out i [] = none
take_out i (b ∷ bs) = elim (b.slot == i) [
  | true ↦ some (b, bs)
  | false ↦ elim (take_out i bs) [ none ↦ none | some (c, cs) ↦ some (c, b ∷ cs) ]
]

abbrev pub less_ref : Buf → Buf
less_ref b = record b { refcnt = sub32 b.refcnt 1 }

-- The last critical section of `brelse`: one reference less, and a buffer without references moves
-- to the front.
unfoldable pub drop_ref : ℕ → List Buf → List Buf
unfolding put_buf take_out
drop_ref i bs = elim (take_out i bs) [
  | none ↦ bs
  | some (b, rest) ↦ elim (sub32 b.refcnt 1 == 0) [
    | true ↦ less_ref b ∷ rest
    | false ↦ put_buf i (less_ref b) bs
  ]
]

-- `brelse` of the buffer of slot i up to `releasesleep`.
unfoldable pub brelse_unlock : Who → ℕ → List Buf → Result (List Buf)
unfolding put_buf take_out
brelse_unlock w i bs = elim (take_out i bs) [
  | none ↦ ok bs
  | some (b, rest) ↦
      if not (sl_holding w b.lock)
      then panic
      else (releasesleep w b.lock >>= λ lk. ok (put_buf i (record b { lock = lk }) bs))
]

unfoldable pub brelse : Who → ℕ → List Buf → Result (List Buf)
unfolding drop_ref brelse_unlock
brelse w i bs = brelse_unlock w i bs >>= λ cs. ok (drop_ref i cs)
