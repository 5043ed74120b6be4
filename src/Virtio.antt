-- ===== src/Virtio.antt =====
-- The disk driver of kernel/drivers/virtio_disk.c with its queue: descriptors, the available ring and
-- the used ring, which the device reads and writes. Arrays are functions of the index, which the code
-- keeps below 8. Each function is a segment under the driver's lock, between the points where a caller sleeps.
pub mod Device
pub mod Rings
pub mod Alloc
pub mod Inv
pub mod Moves
pub mod Ends
pub mod Interrupt
pub mod Starts
pub mod Safe
pub mod Tests
use ustc_26spring.Common.{
  ℕ, zero, suc, ◌+◌, ◌%◌, ◌^◌, Bool, true, false, leb, ◌==◌, not, if◌then◌else◌, Option, none, some,
  List,
}
use ustc_26spring.Common.Result.{Result, ok, panic, ◌>>=◌}
use ustc_26spring.Bio.{Block}

-- An array with one entry changed.
abbrev pub write_at : {A : Type 0} → (ℕ → A) → ℕ → A → ℕ → A
write_at f i v j = if j == i then v else f j

-- NUM
abbrev pub num : ℕ
num = 8

-- What a descriptor points to: a request of `ops`, the bytes of a buffer, or a status of `info`.
pub data Addr : Type 0 where
  null : Addr
  op : ℕ → Addr
  bytes_of : ℕ → Addr
  status_of : ℕ → Addr

-- `struct virtq_desc` of kernel/include/virtio.h; the flags are 1, next, and 2, write.
pub record Desc : Type 0 where
  pub addr : Addr
  pub len : ℕ
  pub flags : ℕ
  pub next : ℕ

abbrev pub no_desc : Desc
no_desc = record { addr = null; len = 0; flags = 0; next = 0 }

-- `struct virtio_blk_req`
pub record Req : Type 0 where
  pub type : ℕ
  pub reserved : ℕ
  pub sector : ℕ

-- `struct disk` with the rings.
pub record Driver : Type 0 where
  pub desc : ℕ → Desc
  pub free : ℕ → Bool
  pub used_idx : ℕ
  pub info_b : ℕ → Option ℕ
  pub info_status : ℕ → ℕ
  pub ops : ℕ → Req
  pub avail_idx : ℕ
  pub avail_ring : ℕ → ℕ
  pub done_idx : ℕ
  pub used_ring : ℕ → ℕ

-- What `virtio_disk_init` leaves.
unfoldable pub virtio_disk_init : Driver
virtio_disk_init = record {
  desc = λ i. no_desc;
  free = λ i. true;
  used_idx = 0;
  info_b = λ i. none;
  info_status = λ i. 0xff;
  ops = λ i. record { type = 0; reserved = 0; sector = 0 };
  avail_idx = 0;
  avail_ring = λ i. 0;
  done_idx = 0;
  used_ring = λ i. 0;
}

-- The loop of `alloc_desc` from descriptor i on.
unfoldable pub find_desc : ℕ → ℕ → Driver → Option (ℕ × Driver)
find_desc zero i d = none
find_desc (suc n) i d = elim (d.free i) [
  | true ↦ some (i, record d { free = write_at d.free i false })
  | false ↦ find_desc n (i + 1) d
]

abbrev pub alloc_desc : Driver → Option (ℕ × Driver)
alloc_desc d = find_desc num 0 d

unfoldable pub free_desc : ℕ → Driver → Result Driver
free_desc i d =
    if leb num i
    then panic
    else if d.free i
    then panic
    else ok (record d { desc = write_at d.desc i no_desc; free = write_at d.free i true })

-- The loop of `free_chain`, which a chain of 8 descriptors at most ends.
unfoldable pub free_chain : ℕ → ℕ → Driver → Result Driver
free_chain zero i d = panic
free_chain (suc fuel) i d = free_desc i d >>= λ d'. elim ((d.desc i).flags % 2 == 1) [
  | true ↦ free_chain fuel (d.desc i).next d'
  | false ↦ ok d'
]

-- Three descriptors, or none when there are not as many.
unfoldable pub alloc3_desc : Driver → Result (Option (ℕ × ℕ × ℕ) × Driver)
alloc3_desc d = elim (alloc_desc d) [
  | none ↦ ok (none, d)
  | some (i0, d0) ↦ elim (alloc_desc d0) [
    | none ↦ free_desc i0 d0 >>= λ e. ok (none, e)
    | some (i1, d1) ↦ elim (alloc_desc d1) [
      | none ↦ free_desc i0 d1 >>= λ e. free_desc i1 e >>= λ f. ok (none, f)
      | some (i2, d2) ↦ ok (some (i0, i1, i2), d2)
    ]
  ]
]

-- A call of `virtio_disk_rw` that waits for its buffer: its `idx` and `write`.
pub record Request : Type 0 where
  pub i0 : ℕ
  pub i1 : ℕ
  pub i2 : ℕ
  pub write : Bool

-- The driver, the `disk` flags, the bytes and the block numbers of the buffers, the calls that wait, by
-- buffer, and the device: the entries of the available ring that it has seen, the requests that it is
-- at, and its sectors.
pub record Machine : Type 0 where
  pub driver : Driver
  pub busy : ℕ → Bool
  pub bytes : ℕ → Block
  pub blockno : ℕ → ℕ
  pub requests : ℕ → Option Request
  pub seen : ℕ
  pub at_work : List ℕ
  pub sectors : ℕ → Block

-- The request and the descriptors of `virtio_disk_rw` for buffer b, and the entry of the ring.
abbrev pub queue_request : ℕ → ℕ → Request → Driver → Driver
queue_request b sector r d = record d {
  ops =
      write_at d.ops r.i0
        (record { type = if r.write then 1 else 0; reserved = 0; sector = sector });
  desc =
      write_at
        (write_at
          (write_at d.desc r.i0 (record { addr = op r.i0; len = 16; flags = 1; next = r.i1 })) r.i1
          (record { addr = bytes_of b; len = 512; flags = if r.write then 1 else 3; next = r.i2 }))
        r.i2 (record { addr = status_of r.i0; len = 1; flags = 2; next = 0 });
  info_status = write_at d.info_status r.i0 0xff;
  info_b = write_at d.info_b r.i0 (some b);
  avail_ring = write_at d.avail_ring (d.avail_idx % num) r.i0;
  avail_idx = (d.avail_idx + 1) % 2 ^ 16;
}

-- `virtio_disk_rw` up to its wait: whether it has its descriptors, or sleeps for them.
unfoldable pub start_rw : ℕ → Bool → Machine → Result (Bool × Machine)
unfolding alloc3_desc
start_rw b write m = alloc3_desc m.driver >>= λ (got, d). elim got [
  | none ↦ ok (false, record m { driver = d })
  | some (i0, i1, i2) ↦
      let r : Request = record { i0 = i0; i1 = i1; i2 = i2; write = write } in
      ok (
        true,
        record m {
          driver = queue_request b (m.blockno b) r d;
          busy = write_at m.busy b true;
          requests = write_at m.requests b (some r);
        },
      )
]

-- `virtio_disk_rw` from a wakeup on: whether it returns, or sleeps again.
unfoldable pub end_rw : ℕ → Request → Machine → Result (Bool × Machine)
unfolding free_chain
end_rw b r m =
    if m.busy b
    then ok (false, m)
    else (free_chain num r.i0 (record m.driver { info_b = write_at m.driver.info_b r.i0 none })
        >>= λ d. ok (true, record m { driver = d; requests = write_at m.requests b none }))

-- The loop of `complete_used_locked`, which has as many rounds as the used ring has entries at most.
unfoldable pub complete_used : ℕ → Machine → Result Machine
complete_used zero m = panic
complete_used (suc fuel) m = elim (m.driver.used_idx == m.driver.done_idx) [
  | true ↦ ok m
  | false ↦
      let id = m.driver.used_ring (m.driver.used_idx % num) in
      if leb num id
      then panic
      else if not (m.driver.info_status id == 0)
      then panic
      else elim (m.driver.info_b id) [
        | none ↦ panic
        | some b ↦ complete_used fuel (record m {
          driver = record m.driver { used_idx = (m.driver.used_idx + 1) % 2 ^ 16 };
          busy = write_at m.busy b false;
        })
      ]
]

-- `virtio_disk_isr`
abbrev pub virtio_disk_isr : Machine → Result Machine
virtio_disk_isr m = complete_used (num + 1) m
