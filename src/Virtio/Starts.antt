-- ===== src/Virtio/Starts.antt =====
-- The start of a call of kernel/drivers/virtio_disk.c keeps `Inv`.
use ustc_26spring.Common.{
  ℕ, ◌+◌, ◌≤◌, ◌<◌, ◌≡◌, ◌≢◌, refl, sym, ap, ◌∙◌, ◌⊎◌, inl, inr, Bool, true, false, ◌==◌, none,
  some, List, [], ◌∷◌, ◌++◌, All, length, length-append, arith, Bool-cases,
}
use ustc_26spring.Common.Result.{ok}
use ustc_26spring.Virtio.{write_at, Desc, Driver, Request, Machine, queue_request, start_rw}
use ustc_26spring.Virtio.Device.{IsAlone}
use ustc_26spring.Virtio.Rings.{
  Segment-push, times, times-append, All_at, All-map, All-append, length-le,
}
use ustc_26spring.Virtio.Alloc.{Unchanged, too_few, three, alloc3_desc-Allocs}
use ustc_26spring.Virtio.Inv.{
  has_desc, Chain, Chain-kept, Waits, Served, Inv, has_first, Waits-below,
}

-- A call without descriptors: the free descriptors are the same, the others too.
module _ (m : Machine) (inv : Inv m) (f : ℕ → Bool) (g : ℕ → Desc) where
  abbrev waiting : Machine
  waiting = record m { driver = record m.driver { free = f; desc = g } }

  waiting-Inv :
      ((i : ℕ) → f i ≡ m.driver.free i)
      → ((i : ℕ) → m.driver.free i ≡ false → g i ≡ m.driver.desc i)
      → Inv waiting
  waiting-Inv free desc = record {
    queued = inv.queued;
    posted = inv.posted;
    avail = inv.avail;
    used = inv.used;
    chain = λ c s e.
        (let k = inv.chain c s e in
          Chain-kept m.driver waiting.driver (m.blockno c) c s
            (λ i o. (desc i (k.used i o), free i)) refl refl k);
    own = inv.own;
    alone = inv.alone;
    once = inv.once;
    queued_wait = inv.queued_wait;
    at_work_wait = inv.at_work_wait;
    posted_served = inv.posted_served;
    settled = inv.settled;
  }

Unchanged-Inv :
    (m : Machine) → Inv m → (e : Driver) → Unchanged m.driver e → Inv (record m { driver = e })
Unchanged-Inv m inv e u =
    let q : record m { driver = e } ≡ waiting m inv e.free e.desc =
      ap (λ (d : Driver). record m { driver = d }) u.rest in
    rw q (waiting-Inv m inv e.free e.desc u.free u.desc)

-- A call with the descriptors of r.
module _ (m : Machine) (inv : Inv m) (b : ℕ) (r : Request) (idle : m.requests b ≡ none)
    (other_blocks : IsAlone b m) (below : (r.i0 < 8) × (r.i1 < 8) × (r.i2 < 8))
    (apart : (r.i0 ≢ r.i1) × (r.i0 ≢ r.i2) × (r.i1 ≢ r.i2))
    (were_free : (m.driver.free r.i0 ≡ true)
      × (m.driver.free r.i1 ≡ true)
      × (m.driver.free r.i2 ≡ true)) where
  abbrev taken : Driver
  taken = record m.driver {
    free = write_at (write_at (write_at m.driver.free r.i0 false) r.i1 false) r.i2 false;
  }

  abbrev pub started : Machine
  started = record m {
    driver = queue_request b (m.blockno b) r taken;
    busy = write_at m.busy b true;
    requests = write_at m.requests b (some r);
  }

  other : (c : ℕ) (s : Request) → m.requests c ≡ some s → c ≢ b
  other c s e z = cc (rw z at e, idle)

  -- The calls that waited have none of these descriptors.
  fresh :
      (c : ℕ) (s : Request)
      → m.requests c ≡ some s
      → (i : ℕ) → has_desc s i ≡ true
      → (i ≢ r.i0) × (i ≢ r.i1) × (i ≢ r.i2)
  fresh c s e i o =
      let used = (inv.chain c s e).used i o in
      let (f0, f1, f2) = were_free in
      (
        (λ z. cc (ap m.driver.free z, used, f0)),
        (λ z. cc (ap m.driver.free z, used, f1)),
        (λ z. cc (ap m.driver.free z, used, f2)),
      )

  -- A call of the new state is the new one or was there.
  kept :
      (c : ℕ) (s : Request)
      → started.requests c ≡ some s
      → ((c ≡ b) × (s ≡ r)) ⊎ (m.requests c ≡ some s)
  kept c s e = elim (Bool-cases (c == b)) [
    | inl same ↦
        let z : c ≡ b = ground arith in inl (z, (let t : some r ≡ some s = rw same at e in cc))
    | inr differs ↦ inr (rw differs at e)
  ]

  still : (c : ℕ) (s : Request) → m.requests c ≡ some s → started.requests c ≡ some s
  still c s e =
      let ne = other c s e in let differs : (c == b) ≡ false = ground arith in rw differs e

  busy_still : (c : ℕ) → m.busy c ≡ true → started.busy c ≡ true
  busy_still c w = ground arith

  new-Chain : Chain started.driver (m.blockno b) b r
  new-Chain =
      let (n01, n02, n12) = apart in
      record {
        below = below;
        apart = apart;
        used = λ i o. ground arith;
        header =
            (let e01 : (r.i0 == r.i1) ≡ false = ground arith in
              let e02 : (r.i0 == r.i2) ≡ false = ground arith in
              let e00 : (r.i0 == r.i0) ≡ true = ground arith in rw (e01, e02, e00) refl);
        body =
            (let e12 : (r.i1 == r.i2) ≡ false = ground arith in
              let e11 : (r.i1 == r.i1) ≡ true = ground arith in rw (e12, e11) refl);
        status = (let e22 : (r.i2 == r.i2) ≡ true = ground arith in rw e22 refl);
        request = (let e00 : (r.i0 == r.i0) ≡ true = ground arith in rw e00 refl);
        buffer = (let e00 : (r.i0 == r.i0) ≡ true = ground arith in rw e00 refl);
      }

  old-Chain : (c : ℕ) (s : Request) → m.requests c ≡ some s → Chain started.driver (m.blockno c) c s
  old-Chain c s e =
      let (h0, h1, h2) = fresh c s e s.i0 (has_first s) in
      let no : (s.i0 == r.i0) ≡ false = ground arith in
      Chain-kept m.driver started.driver (m.blockno c) c s
        (λ i o.
          (let (n0, n1, n2) = fresh c s e i o in
            let e0 : (i == r.i0) ≡ false = ground arith in
            let e1 : (i == r.i1) ≡ false = ground arith in
            let e2 : (i == r.i2) ≡ false = ground arith in rw (e0, e1, e2) (refl, refl)))
        (rw no refl) (rw no refl) (inv.chain c s e)

  status_kept : (g : ℕ) → g ≢ r.i0 → started.driver.info_status g ≡ m.driver.info_status g
  status_kept g ne = ground arith

  Waits-new : (g : ℕ) → Waits m g → g ≢ r.i0
  Waits-new g (c, s, e, q, st, busy) z = (fresh c s e s.i0 (has_first s)).0 (q ∙ z)

  Served-new : (g : ℕ) → Served m g → g ≢ r.i0
  Served-new g (c, s, e, q, busy, agree) z = (fresh c s e s.i0 (has_first s)).0 (q ∙ z)

  Waits-still : (g : ℕ) → Waits m g → Waits started g
  Waits-still g w =
      let ne = Waits-new g w in
      let (c, s, e, q, st, busy) = w in
      (c, s, still c s e, q, status_kept g ne ∙ st, busy_still c busy)

  Served-still : (g : ℕ) → Served m g → Served started g
  Served-still g w =
      let ne = Served-new g w in
      let (c, s, e, q, busy, agree) = w in
      (
        c,
        s,
        still c s e,
        q,
        busy_still c busy,
        elim agree [ inl bad ↦ inl (λ z. bad (sym (status_kept g ne) ∙ z)) | inr same ↦ inr same ],
      )

  absent :
      (P : ℕ → Type 0) (hs : List ℕ) → ((g : ℕ) → P g → g ≢ r.i0) → All P hs → times r.i0 hs < 1
  absent P hs new a = elim (Bool-cases (times r.i0 hs == 0)) [
    | inl nil ↦ ground arith
    | inr more ↦ absurd (new r.i0 (All_at P r.i0 hs a (ground arith)) refl)
  ]

  new_once :
      (h : ℕ) → times h (inv.queued ++ r.i0 ∷ []) + times h m.at_work + times h inv.posted ≤ 1
  new_once h = elim (Bool-cases (h == r.i0)) [
    | inl same ↦
        let z : h ≡ r.i0 = ground arith in
        rw z (
          ground (
            arith,
            times-append r.i0 inv.queued (r.i0 ∷ []),
            absent (Waits m) inv.queued Waits-new inv.queued_wait,
            absent (Waits m) m.at_work Waits-new inv.at_work_wait,
            absent (Served m) inv.posted Served-new inv.posted_served,
          ))
    | inr differs ↦ ground (arith, inv.once h, times-append h inv.queued (r.i0 ∷ []))
  ]

  room : length inv.queued < 8
  room =
      let l =
        length-le 8 (inv.queued ++ r.i0 ∷ [])
          (All-append (λ g. g < 8) inv.queued (r.i0 ∷ [])
            (All-map (Waits m) (λ g. g < 8) inv.queued (λ g t s. Waits-below m inv g s)
              inv.queued_wait)
            (below.0, tt))
          (λ g. omega (arith, new_once g)) in
      omega (arith, l, length-append inv.queued (r.i0 ∷ []))

  new-Waits : Waits started r.i0
  new-Waits =
      let e : (b == b) ≡ true = ground arith in
      let e0 : (r.i0 == r.i0) ≡ true = ground arith in
      (b, r, rw e refl, refl, rw e0 refl, rw e refl)

  started-Inv : Inv started
  started-Inv = record {
    queued = inv.queued ++ r.i0 ∷ [];
    posted = inv.posted;
    avail =
        Segment-push m.driver.avail_ring m.seen inv.queued m.driver.avail_idx r.i0 inv.avail room;
    used = inv.used;
    chain = λ c s e. elim (kept c s e) [
      | inl (z, q) ↦ rw (z, q) new-Chain
      | inr old ↦ old-Chain c s old
    ];
    own = own;
    alone = alone;
    once = new_once;
    queued_wait =
        All-append (Waits started) inv.queued (r.i0 ∷ [])
          (All-map (Waits m) (Waits started) inv.queued (λ g t w. Waits-still g w) inv.queued_wait)
          (new-Waits, tt);
    at_work_wait =
        All-map (Waits m) (Waits started) m.at_work (λ g t w. Waits-still g w) inv.at_work_wait;
    posted_served =
        All-map (Served m) (Served started) inv.posted (λ g t w. Served-still g w)
          inv.posted_served;
    settled = settled;
  }
    where
      not_shared :
          (c : ℕ) (s : Request)
          → m.requests c ≡ some s
          → (i : ℕ) → has_desc s i ≡ true
          → has_desc r i ≡ true
          → ⊥
      not_shared c s e i o p = let (n0, n1, n2) = fresh c s e i o in ground arith

      own :
          (c d : ℕ) (s t : Request)
          → started.requests c ≡ some s
          → started.requests d ≡ some t
          → (i : ℕ) → has_desc s i ≡ true
          → has_desc t i ≡ true
          → c ≡ d
      own c d s t e f i o p = elim (kept c s e) [
        | inl (z, q) ↦ elim (kept d t f) [
          | inl (z', q') ↦ z ∙ sym z'
          | inr old ↦ absurd (not_shared d t old i p (rw q at o))
        ]
        | inr old ↦ elim (kept d t f) [
          | inl (z', q') ↦ absurd (not_shared c s old i o (rw q' at p))
          | inr old' ↦ inv.own c d s t old old' i o p
        ]
      ]

      alone :
          (c d : ℕ) (s t : Request)
          → started.requests c ≡ some s
          → started.requests d ≡ some t
          → m.blockno c ≡ m.blockno d
          → c ≡ d
      alone c d s t e f same = elim (kept c s e) [
        | inl (z, q) ↦ elim (kept d t f) [
          | inl (z', q') ↦ z ∙ sym z'
          | inr old ↦ absurd (other_blocks d t old (sym same ∙ ap m.blockno z))
        ]
        | inr old ↦ elim (kept d t f) [
          | inl (z', q') ↦ absurd (other_blocks c s old (same ∙ ap m.blockno z'))
          | inr old' ↦ inv.alone c d s t old old' same
        ]
      ]

      settled :
          (c : ℕ) (s : Request)
          → started.requests c ≡ some s
          → started.busy c ≡ false
          → m.sectors (m.blockno c) ≡ m.bytes c
      settled c s e w = elim (Bool-cases (c == b)) [
        | inl same ↦ cc (rw same at w)
        | inr differs ↦ inv.settled c s (rw differs at e) (rw differs at w)
      ]

-- A call starts without a panic.
pub start_rw-Inv :
    (m : Machine)
    → Inv m
    → (b : ℕ) (write : Bool) → m.requests b ≡ none
    → IsAlone b m
    → (queued : Bool) × (n : Machine) × (start_rw b write m ≡ ok (queued, n)) × Inv n
unfolding start_rw
start_rw-Inv m inv b write idle other_blocks = elim (alloc3_desc-Allocs m.driver) [
  | too_few e u q ↦ (false, record m { driver = e }, rw (q, start_rw) refl, Unchanged-Inv m inv e u)
  | three i0 i1 i2 below apart were_free q ↦
      let r : Request = record { i0 = i0; i1 = i1; i2 = i2; write = write } in
      (
        true,
        started m inv b r idle other_blocks below apart were_free,
        rw (q, start_rw) refl,
        started-Inv m inv b r idle other_blocks below apart were_free,
      )
]
