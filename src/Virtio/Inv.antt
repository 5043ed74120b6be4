-- ===== src/Virtio/Inv.antt =====
-- What holds of the driver of kernel/drivers/virtio_disk.c, the device and the calls between their steps.
use ustc_26spring.Common.{
  ℕ, ◌+◌, ◌≤◌, ◌<◌, ◌≡◌, ◌≢◌, ◌⊎◌, sym, ap, ◌∙◌, Bool, true, false, ◌==◌, ◌||◌, if◌then◌else◌, some,
  List, All, arith,
}
use ustc_26spring.Virtio.{op, bytes_of, status_of, Driver, Request, Machine}
use ustc_26spring.Virtio.Rings.{Segment, times}

-- Whether descriptor i is of a call.
abbrev pub has_desc : Request → ℕ → Bool
has_desc r i = (i == r.i0) || (i == r.i1) || (i == r.i2)

-- The descriptors and the request of a call for buffer b, as the driver has set them up.
pub record Chain (d : Driver) (sector b : ℕ) (r : Request) : Type 0 where
  pub below : (r.i0 < 8) × (r.i1 < 8) × (r.i2 < 8)
  pub apart : (r.i0 ≢ r.i1) × (r.i0 ≢ r.i2) × (r.i1 ≢ r.i2)
  pub used : (i : ℕ) → has_desc r i ≡ true → d.free i ≡ false
  pub header : d.desc r.i0 ≡ record { addr = op r.i0; len = 16; flags = 1; next = r.i1 }
  pub body :
      d.desc r.i1
      ≡ record { addr = bytes_of b; len = 512; flags = if r.write then 1 else 3; next = r.i2 }
  pub status : d.desc r.i2 ≡ record { addr = status_of r.i0; len = 1; flags = 2; next = 0 }
  pub request :
      d.ops r.i0 ≡ record { type = if r.write then 1 else 0; reserved = 0; sector = sector }
  pub buffer : d.info_b r.i0 ≡ some b

-- The call with head h waits for the device.
abbrev pub Waits : Machine → ℕ → Type 0
Waits m h =
    (b : ℕ) × (r : Request) × (m.requests b ≡ some r)
    × (r.i0 ≡ h)
    × (m.driver.info_status h ≡ 0xff)
    × (m.busy b ≡ true)

-- The device has ended the call with head h: if it reports no error, the buffer and its sector are the
-- same.
abbrev pub Served : Machine → ℕ → Type 0
Served m h =
    (b : ℕ) × (r : Request) × (m.requests b ≡ some r)
    × (r.i0 ≡ h)
    × (m.busy b ≡ true)
    × ((m.driver.info_status h ≢ 0) ⊎ (m.sectors (m.blockno b) ≡ m.bytes b))

-- The heads in the available ring are `queued`, those in the used ring `posted`.
pub record Inv (m : Machine) : Type 0 where
  pub queued : List ℕ
  pub posted : List ℕ
  pub avail : Segment m.driver.avail_ring m.seen queued m.driver.avail_idx
  pub used : Segment m.driver.used_ring m.driver.used_idx posted m.driver.done_idx
  pub chain : (b : ℕ) (r : Request) → m.requests b ≡ some r → Chain m.driver (m.blockno b) b r
  pub own :
      (b c : ℕ) (r s : Request)
      → m.requests b ≡ some r
      → m.requests c ≡ some s
      → (i : ℕ) → has_desc r i ≡ true
      → has_desc s i ≡ true
      → b ≡ c
  pub alone :
      (b c : ℕ) (r s : Request)
      → m.requests b ≡ some r
      → m.requests c ≡ some s
      → m.blockno b ≡ m.blockno c
      → b ≡ c
  pub once : (h : ℕ) → times h queued + times h m.at_work + times h posted ≤ 1
  pub queued_wait : All (Waits m) queued
  pub at_work_wait : All (Waits m) m.at_work
  pub posted_served : All (Served m) posted
  pub settled :
      (b : ℕ) (r : Request)
      → m.requests b ≡ some r
      → m.busy b ≡ false
      → m.sectors (m.blockno b) ≡ m.bytes b

pub has_first : (r : Request) → has_desc r r.i0 ≡ true
has_first r = ground arith

pub has_second : (r : Request) → has_desc r r.i1 ≡ true
has_second r = ground arith

pub has_third : (r : Request) → has_desc r r.i2 ≡ true
has_third r = ground arith

-- A buffer has one call.
pub same_request :
    (m : Machine) (b : ℕ) (r s : Request) → m.requests b ≡ some r → m.requests b ≡ some s → r ≡ s
same_request m b r s e f = cc

-- The chain of a call when its descriptors, its request and its buffer stay.
pub Chain-kept :
    (d e : Driver) (sector b : ℕ) (r : Request)
    → ((i : ℕ) → has_desc r i ≡ true → (e.desc i ≡ d.desc i) × (e.free i ≡ d.free i))
    → e.ops r.i0 ≡ d.ops r.i0
    → e.info_b r.i0 ≡ d.info_b r.i0
    → Chain d sector b r
    → Chain e sector b r
Chain-kept d e sector b r same ops info c = record {
  below = c.below;
  apart = c.apart;
  used = λ i h. (same i h).1 ∙ c.used i h;
  header = (same r.i0 (has_first r)).0 ∙ c.header;
  body = (same r.i1 (has_second r)).0 ∙ c.body;
  status = (same r.i2 (has_third r)).0 ∙ c.status;
  request = ops ∙ c.request;
  buffer = info ∙ c.buffer;
}

-- Calls with different heads are of different buffers.
pub heads_apart :
    (m : Machine) (b c : ℕ) (r s : Request)
    → m.requests b ≡ some r
    → m.requests c ≡ some s
    → r.i0 ≢ s.i0
    → b ≢ c
heads_apart m b c r s e f ne q =
    ne (ap (λ (t : Request). t.i0) (same_request m b r s e (ap m.requests q ∙ f)))

-- The head of a call is below 8.
pub Waits-below : (m : Machine) → Inv m → (h : ℕ) → Waits m h → h < 8
Waits-below m inv h (b, r, e, q, s, w) = let c = inv.chain b r e in rw (sym q) (c.below.0)

pub Served-below : (m : Machine) → Inv m → (h : ℕ) → Served m h → h < 8
Served-below m inv h (b, r, e, q, w, a) = let c = inv.chain b r e in rw (sym q) (c.below.0)
