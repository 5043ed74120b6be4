-- ===== src/Virtio/Moves.antt =====
-- The steps of the device and of idle buffers keep `Inv`.
use ustc_26spring.Common.{
  ℕ, ◌+◌, ◌%◌, ◌≤◌, ◌<◌, ◌≡◌, ◌≢◌, refl, sym, ap, ◌∙◌, ◌⊎◌, inl, inr, Bool, true, false, ◌==◌,
  if◌then◌else◌, none, some, List, [], ◌∷◌, ◌++◌, All, length, length-append, arith, Bool-cases,
}
use ustc_26spring.Bio.{Block}
use ustc_26spring.Virtio.{write_at, num, status_of, Desc, Req, Request, Machine}
use ustc_26spring.Virtio.Device.{take_avail, asked, ends, Found}
use ustc_26spring.Virtio.Rings.{
  Segment, Segment-push, one, times, times-append, All_at, All-map, All-append, All-split,
  length-le,
}
use ustc_26spring.Virtio.Inv.{
  Chain-kept, Waits, Served, Inv, heads_apart, Waits-below, Served-below,
}

module _ (m : Machine) (inv : Inv m) where
  pub take_avail-Inv : m.seen ≢ m.driver.avail_idx → Inv (take_avail m)
  take_avail-Inv ne = go inv.queued inv.avail inv.queued_wait inv.once
    where
      go :
          (queued : List ℕ)
          → Segment m.driver.avail_ring m.seen queued m.driver.avail_idx
          → All (Waits m) queued
          → ((h : ℕ) → times h queued + times h m.at_work + times h inv.posted ≤ 1)
          → Inv (take_avail m)
      go [] (e, lt) w once = absurd (ne e)
      go (h ∷ hs) (e, lt, s) (p, w) once = record {
        queued = hs;
        posted = inv.posted;
        avail = s;
        used = inv.used;
        chain = inv.chain;
        own = inv.own;
        alone = inv.alone;
        once = λ g.
            (let t = times-append g m.at_work (m.driver.avail_ring (m.seen % num) ∷ []) in
              let o : one g (m.driver.avail_ring (m.seen % num)) ≡ one g h = ap (one g) e in
              omega (arith, once g, t, o));
        queued_wait = w;
        at_work_wait =
            All-append (Waits m) m.at_work (m.driver.avail_ring (m.seen % num) ∷ [])
              inv.at_work_wait (rw e (p, tt));
        posted_served = inv.posted_served;
        settled = inv.settled;
      }

  pub changed-Inv :
      (b blockno : ℕ) (bytes : Block)
      → m.requests b ≡ none
      → Inv (record m { blockno = write_at m.blockno b blockno; bytes = write_at m.bytes b bytes })
  changed-Inv b blockno bytes idle = record {
    queued = inv.queued;
    posted = inv.posted;
    avail = inv.avail;
    used = inv.used;
    chain = λ c r e. (let ne = other c r e in rw ne (inv.chain c r e));
    own = inv.own;
    alone = λ c c' r r' e e' q.
        inv.alone c c' r r' e e'
          (let ne = other c r e in let ne' = other c' r' e' in rw (ne, ne') at q);
    once = inv.once;
    queued_wait = inv.queued_wait;
    at_work_wait = inv.at_work_wait;
    posted_served =
        All-map (Served m)
          (Served
            (record m { blockno = write_at m.blockno b blockno; bytes = write_at m.bytes b bytes }))
          inv.posted (λ g t (c, r, e, q, w, a). (c, r, e, q, w, (let ne = other c r e in rw ne a)))
          inv.posted_served;
    settled = λ c r e w. (let ne = other c r e in rw ne (inv.settled c r e w));
  }
    where
      other : (c : ℕ) (r : Request) → m.requests c ≡ some r → (c == b) ≡ false
      other c r e = elim (Bool-cases (c == b)) [
        | inl same ↦ let q : c ≡ b = ground arith in cc (rw q at e)
        | inr ne ↦ ne
      ]

one_self : (g : ℕ) → one g g ≡ 1
one_self g = ground arith

-- What the device does to the request with head h, that was at work between the others.
module _ (m : Machine) (inv : Inv m) (before after : List ℕ) (h : ℕ)
    (at : m.at_work ≡ before ++ h ∷ after) where
  abbrev left : Machine
  left = record m { at_work = before ++ after }

  heads : (g : ℕ) → times g m.at_work ≡ times g before + one g h + times g after
  heads g = ap (times g) at ∙ omega (arith, times-append g before (h ∷ after))

  pub head-Waits : Waits m h
  head-Waits = All_at (Waits m) h m.at_work inv.at_work_wait (ground (arith, heads h))

  -- The request as the device finds it.
  pub head-Found : (b : ℕ) (r : Request) → m.requests b ≡ some r → r.i0 ≡ h → Found h h b h left
  head-Found b r e q =
      let c = inv.chain b r e in
      let header = rw q at c.header in
      let header_next = ap (λ (x : Desc). x.next) header in
      let body = ap m.driver.desc header_next ∙ c.body in
      let body_next = ap (λ (x : Desc). x.next) body in
      let status = ap m.driver.desc body_next ∙ c.status in
      let type : (m.driver.ops h).type ≡ (if r.write then 1 else 0) =
        ap (λ (x : Req). x.type) (rw q at c.request) in
      record {
        header = ap (λ (x : Desc). x.addr) header;
        header_next = ap (λ (x : Desc). x.flags) header;
        body = ap (λ (x : Desc). x.addr) body;
        body_len = ap (λ (x : Desc). x.len) body;
        body_flags = ap (λ (x : Desc). x.flags) body ∙ (rw type (by_write r.write));
        status = ap (λ (x : Desc). x.addr) status ∙ ap status_of q;
        status_flags = ap (λ (x : Desc). x.flags) status;
      }
    where
      by_write :
          (w : Bool) → ◌≡◌ {A = ℕ} (if w then 1 else 3) (if (if w then 1 else 0) == 1 then 1 else 3)
      by_write true = refl
      by_write false = refl

  -- Its state at its end, for the call r of buffer b, with a status and a content.
  module _ (b : ℕ) (r : Request) (e : m.requests b ≡ some r) (q : r.i0 ≡ h) (busy : m.busy b ≡ true)
      (reported : ℕ) (content : Block) (right : (reported ≢ 0) ⊎ (content ≡ asked h b left)) where
    abbrev done : Machine
    done = ends h h b h reported content left

    at_block : (m.driver.ops h).sector ≡ m.blockno b
    at_block = ap (λ (x : Req). x.sector) (rw q at (inv.chain b r e).request)

    -- Buffers other than b keep their bytes, and their sectors.
    others_agree :
        (c : ℕ) (s : Request)
        → m.requests c ≡ some s
        → c ≢ b
        → m.sectors (m.blockno c) ≡ m.bytes c
        → done.sectors (m.blockno c) ≡ done.bytes c
    others_agree c s f ne agree =
        let there : (m.blockno c == (m.driver.ops h).sector) ≡ false = other_block in
        let here : (c == b) ≡ false = ground arith in
        elim (Bool-cases ((m.driver.ops h).type == 1)) [
          | inl w ↦ rw (w, there) agree
          | inr w ↦ rw (w, here) agree
        ]
      where
        other_block : (m.blockno c == (m.driver.ops h).sector) ≡ false
        other_block = elim (Bool-cases (m.blockno c == (m.driver.ops h).sector)) [
          | inl same ↦ absurd (
              ne (
                inv.alone c b s r f e
                  ((let t : m.blockno c ≡ (m.driver.ops h).sector = ground arith in t) ∙ at_block)))
          | inr other ↦ other
        ]

    own_agrees : content ≡ asked h b left → done.sectors (m.blockno b) ≡ done.bytes b
    own_agrees good =
        let there : (m.blockno b == (m.driver.ops h).sector) ≡ true =
          (let t = at_block in ground arith) in
        let here : (b == b) ≡ true = ground arith in
        elim (Bool-cases ((m.driver.ops h).type == 1)) [
          | inl w ↦ rw (w, there) (rw w at good)
          | inr w ↦ rw (w, here) (ap m.sectors (sym at_block) ∙ sym (rw w at good))
        ]

    status_kept : (g : ℕ) → g ≢ h → done.driver.info_status g ≡ m.driver.info_status g
    status_kept g ne = ground arith

    not_twice :
        (g : ℕ)
        → 1 ≤ times g inv.queued + times g before + times g after + times g inv.posted
        → g ≢ h
    not_twice g some_where same = omega (
      arith,
      inv.once h,
      heads h,
      ap (λ x. times x inv.queued + times x before + times x after + times x inv.posted) same,
      one_self h,
    )

    in_posted_below : All (λ g. g < 8) (inv.posted ++ h ∷ [])
    in_posted_below =
        All-append (λ g. g < 8) inv.posted (h ∷ [])
          (All-map (Served m) (λ g. g < 8) inv.posted (λ g t s. Served-below m inv g s)
            inv.posted_served)
          (Waits-below m inv h head-Waits, tt)

    room : length inv.posted < 8
    room =
        let l =
          length-le 8 (inv.posted ++ h ∷ []) in_posted_below
            (λ g. omega (arith, inv.once g, heads g, times-append g inv.posted (h ∷ []))) in
        omega (arith, l, length-append inv.posted (h ∷ []))

    Waits-still : (g : ℕ) → g ≢ h → Waits m g → Waits done g
    Waits-still g ne (c, s, f, p, st, w) = (c, s, f, p, status_kept g ne ∙ st, w)

    Served-still : (g : ℕ) → g ≢ h → Served m g → Served done g
    Served-still g ne (c, s, f, p, w, a) = (
      c,
      s,
      f,
      p,
      w,
      elim a [
        | inl bad ↦ inl (λ z. bad (sym (status_kept g ne) ∙ z))
        | inr good ↦
            inr (others_agree c s f (heads_apart m c b s r f e (λ z. ne (sym p ∙ z ∙ q))) good)
      ],
    )

    pub done-Inv : Inv done
    done-Inv = record {
      queued = inv.queued;
      posted = inv.posted ++ h ∷ [];
      avail = inv.avail;
      used =
          Segment-push m.driver.used_ring m.driver.used_idx inv.posted m.driver.done_idx h inv.used
            room;
      chain = λ c s f.
          Chain-kept m.driver done.driver (m.blockno c) c s (λ i o. (refl, refl)) refl refl
            (inv.chain c s f);
      own = inv.own;
      alone = inv.alone;
      once = λ g. omega (
        arith,
        inv.once g,
        heads g,
        times-append g inv.posted (h ∷ []),
        times-append g before after,
      );
      queued_wait =
          All-map (Waits m) (Waits done) inv.queued
            (λ g t. Waits-still g (not_twice g (omega arith))) inv.queued_wait;
      at_work_wait =
          All-map (Waits m) (Waits done) (before ++ after)
            (λ g t. Waits-still g (not_twice g (omega (arith, times-append g before after))))
            rest_wait;
      posted_served =
          All-append (Served done) inv.posted (h ∷ [])
            (All-map (Served m) (Served done) inv.posted
              (λ g t. Served-still g (not_twice g (omega arith))) inv.posted_served)
            ((b, r, e, q, busy, own_right), tt);
      settled = λ c s f idle.
          others_agree c s f (λ z. cc (ap m.busy z, busy, idle)) (inv.settled c s f idle);
    }
      where
        status_done : done.driver.info_status h ≡ reported
        status_done = ground arith

        own_right : (done.driver.info_status h ≢ 0) ⊎ (done.sectors (m.blockno b) ≡ done.bytes b)
        own_right = elim right [
          | inl bad ↦ inl (λ z. bad (sym status_done ∙ z))
          | inr good ↦ inr (own_agrees good)
        ]

        rest_wait : All (Waits m) (before ++ after)
        rest_wait =
            let (x, (y, z)) = All-split (Waits m) before (h ∷ after) (rw at at inv.at_work_wait) in
            All-append (Waits m) before after x z
