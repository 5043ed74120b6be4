-- ===== src/Virtio/Device.antt =====
-- The steps of callers, interrupts and the device around the driver of kernel/drivers/virtio_disk.c. The
-- device is a parameter with what the virtio specification says of it.
use ustc_26spring.Common.{
  ℕ, ◌+◌, ◌%◌, ◌^◌, ◌<◌, ◌≡◌, ◌≢◌, ◌⊎◌, Bool, false, ◌==◌, if◌then◌else◌, none, some, List, [], ◌∷◌,
  ◌++◌,
}
use ustc_26spring.Common.Result.{ok}
use ustc_26spring.Bio.{Block}
use ustc_26spring.Virtio.{
  write_at, num, op, bytes_of, status_of, virtio_disk_init, Request, Machine, start_rw, end_rw,
  virtio_disk_isr,
}

-- A request as the device finds it from descriptor h on: the header i, the buffer b, the status of j. The
-- device writes to the bytes of a read only, and to the status.
pub record Found (h i b j : ℕ) (m : Machine) : Type 0 where
  pub header : (m.driver.desc h).addr ≡ op i
  pub header_next : (m.driver.desc h).flags ≡ 1
  pub body : (m.driver.desc ((m.driver.desc h).next)).addr ≡ bytes_of b
  pub body_len : (m.driver.desc ((m.driver.desc h).next)).len ≡ 512
  pub body_flags :
      (m.driver.desc ((m.driver.desc h).next)).flags ≡ (if (m.driver.ops i).type == 1 then 1 else 3)
  pub status : (m.driver.desc ((m.driver.desc ((m.driver.desc h).next)).next)).addr ≡ status_of j
  pub status_flags : (m.driver.desc ((m.driver.desc ((m.driver.desc h).next)).next)).flags ≡ 2

-- What the data of the request comes from: the bytes of a write, the sector of a read.
abbrev pub asked : ℕ → ℕ → Machine → Block
asked i b m = if (m.driver.ops i).type == 1 then m.bytes b else m.sectors (m.driver.ops i).sector

-- The request at its end: the sector of a write or the bytes of a read have some content, the status is
-- reported, and the used ring has the request.
abbrev pub ends : ℕ → ℕ → ℕ → ℕ → ℕ → Block → Machine → Machine
ends h i b j status content m = record m {
  sectors =
      if (m.driver.ops i).type == 1
      then write_at m.sectors (m.driver.ops i).sector content
      else m.sectors;
  bytes = if (m.driver.ops i).type == 1 then m.bytes else write_at m.bytes b content;
  driver = record m.driver {
    info_status = write_at m.driver.info_status j status;
    used_ring = write_at m.driver.used_ring (m.driver.done_idx % num) h;
    done_idx = (m.driver.done_idx + 1) % 2 ^ 16;
  };
}

-- The device takes the next entry of the available ring.
abbrev pub take_avail : Machine → Machine
take_avail m = record m {
  at_work = m.at_work ++ m.driver.avail_ring (m.seen % num) ∷ [];
  seen = (m.seen + 1) % 2 ^ 16;
}

-- What the specification says of a device that ends a request: with VIRTIO_BLK_S_OK, which is 0, the
-- data is copied; with another status, such as VIRTIO_BLK_S_IOERR, nothing is said of the content.
abbrev pub IsDevice : (ℕ → Machine → Machine → Type 0) → Type 0
IsDevice Serves =
    (h i b j : ℕ) (m n : Machine)
    → Serves h m n
    → Found h i b j m
    → (status : ℕ) × (content : Block) × (status < 256)
      × (n ≡ ends h i b j status content m)
      × ((status ≢ 0) ⊎ (content ≡ asked i b m))

-- No call that waits is at the block of buffer b; the buffer cache has one buffer for a block.
abbrev pub IsAlone : ℕ → Machine → Type 0
IsAlone b m = (c : ℕ) (r : Request) → m.requests c ≡ some r → m.blockno c ≢ m.blockno b

-- The requests in the order of the ring are served in any order. A buffer without a call changes freely.
module _ (Serves : ℕ → Machine → Machine → Type 0) where
  pub data Step (m : Machine) : Machine → Type 0 where
    called :
        (b : ℕ) (write queued : Bool) (n : Machine)
        → m.requests b ≡ none
        → IsAlone b m
        → start_rw b write m ≡ ok (queued, n)
        → Step m n
    woken :
        (b : ℕ) (r : Request) (returned : Bool) (n : Machine)
        → m.requests b ≡ some r
        → end_rw b r m ≡ ok (returned, n)
        → Step m n
    interrupted : (n : Machine) → virtio_disk_isr m ≡ ok n → Step m n
    looked : m.seen ≢ m.driver.avail_idx → Step m (take_avail m)
    finished :
        (before after : List ℕ) (h : ℕ) (n : Machine)
        → m.at_work ≡ before ++ h ∷ after
        → Serves h (record m { at_work = before ++ after }) n
        → Step m n
    changed :
        (b blockno : ℕ) (bytes : Block)
        → m.requests b ≡ none
        → Step m
            (record m { blockno = write_at m.blockno b blockno; bytes = write_at m.bytes b bytes })

  -- From the end of `virtio_disk_init`, with any sectors and buffers.
  abbrev pub start : (ℕ → Block) → (ℕ → ℕ) → (ℕ → Block) → Machine
  start bytes blockno sectors = record {
    driver = virtio_disk_init;
    busy = λ b. false;
    bytes = bytes;
    blockno = blockno;
    requests = λ b. none;
    seen = 0;
    at_work = [];
    sectors = sectors;
  }

  pub data Reach : Machine → Type 0 where
    here :
        (bytes : ℕ → Block) (blockno : ℕ → ℕ) (sectors : ℕ → Block)
        → Reach (start bytes blockno sectors)
    next : {m n : Machine} → Reach m → Step m n → Reach n
