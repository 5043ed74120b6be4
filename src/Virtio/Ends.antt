-- ===== src/Virtio/Ends.antt =====
-- The end of a call of kernel/drivers/virtio_disk.c keeps `Inv` and does not panic.
use ustc_26spring.Common.{
  ℕ, ◌%◌, ◌≡◌, ◌≢◌, refl, ap, ◌∙◌, inl, inr, Bool, true, false, ◌==◌, if◌then◌else◌, none, some,
  arith, Bool-cases,
}
use ustc_26spring.Common.Result.{ok}
use ustc_26spring.Virtio.{write_at, Desc, Driver, Request, Machine, end_rw}
use ustc_26spring.Virtio.Rings.{All-map}
use ustc_26spring.Virtio.Alloc.{back, free_chain-ok}
use ustc_26spring.Virtio.Inv.{
  has_desc, Chain, Chain-kept, Waits, Served, Inv, has_first, has_second, has_third,
}

-- The end of a call for an idle buffer.
module _ (m : Machine) (inv : Inv m) (b : ℕ) (r : Request) (e : m.requests b ≡ some r)
    (idle : m.busy b ≡ false) where
  abbrev cleared : Driver
  cleared = record m.driver { info_b = write_at m.driver.info_b r.i0 none }

  abbrev pub ended : Machine
  ended = record m {
    driver = back r.i2 (back r.i1 (back r.i0 cleared));
    requests = write_at m.requests b none;
  }

  pub end_rw-ended : end_rw b r m ≡ ok (true, ended)
  unfolding end_rw
  end_rw-ended =
      let c = inv.chain b r e in
      let header = c.header in
      let body = c.body in
      let status = c.status in
      let chain =
        free_chain-ok cleared r.i0 r.i1 r.i2 c.below c.apart
          (c.used r.i0 (has_first r), c.used r.i1 (has_second r), c.used r.i2 (has_third r))
          (ap (λ (x : Desc). x.flags % 2) header, ap (λ (x : Desc). x.next) header)
          (ap (λ (x : Desc). x.flags % 2) body ∙ odd r.write, ap (λ (x : Desc). x.next) body)
          (ap (λ (x : Desc). x.flags % 2) status) in
      rw (idle, chain) refl
    where
      odd : (w : Bool) → (if w then 1 else 3) % 2 ≡ 1
      odd true = refl
      odd false = refl

  -- The other calls keep what is theirs.
  kept : (c : ℕ) (s : Request) → ended.requests c ≡ some s → (c ≢ b) × (m.requests c ≡ some s)
  kept c s f = elim (Bool-cases (c == b)) [
    | inl same ↦ cc (rw same at f)
    | inr other ↦ ((λ z. ground arith), rw other at f)
  ]

  not_owned :
      (c : ℕ) (s : Request)
      → c ≢ b
      → m.requests c ≡ some s
      → (i : ℕ) → has_desc s i ≡ true
      → (i ≢ r.i0) × (i ≢ r.i1) × (i ≢ r.i2)
  not_owned c s ne f i o = (
    (λ z. ne (inv.own c b s r f e i o (rw z (has_first r)))),
    (λ z. ne (inv.own c b s r f e i o (rw z (has_second r)))),
    (λ z. ne (inv.own c b s r f e i o (rw z (has_third r)))),
  )

  still : (c : ℕ) (s : Request) → m.requests c ≡ some s → c ≢ b → ended.requests c ≡ some s
  still c s f ne = let other : (c == b) ≡ false = ground arith in rw other f

  Chain-still :
      (c : ℕ) (s : Request) → c ≢ b → m.requests c ≡ some s → Chain ended.driver (m.blockno c) c s
  Chain-still c s ne f =
      Chain-kept m.driver ended.driver (m.blockno c) c s
        (λ i o. (let (n0, n1, n2) = not_owned c s ne f i o in (ground arith, ground arith))) refl
        (let (n0, n1, n2) = not_owned c s ne f s.i0 (has_first s) in ground arith) (inv.chain c s f)

  busy_other : (c : ℕ) → m.busy c ≡ true → c ≢ b
  busy_other c w z = cc (rw z at w, idle)

  Waits-on : (g : ℕ) → Waits m g → Waits ended g
  Waits-on g (c, s, f, p, st, w) = (c, s, still c s f (busy_other c w), p, st, w)

  Served-on : (g : ℕ) → Served m g → Served ended g
  Served-on g (c, s, f, p, w, a) = (c, s, still c s f (busy_other c w), p, w, a)

  pub ended-Inv : Inv ended
  ended-Inv = record {
    queued = inv.queued;
    posted = inv.posted;
    avail = inv.avail;
    used = inv.used;
    chain = λ c s f. (let (ne, g) = kept c s f in Chain-still c s ne g);
    own = λ c d s t f g. inv.own c d s t (kept c s f).1 (kept d t g).1;
    alone = λ c d s t f g. inv.alone c d s t (kept c s f).1 (kept d t g).1;
    once = inv.once;
    queued_wait =
        All-map (Waits m) (Waits ended) inv.queued (λ g t w. Waits-on g w) inv.queued_wait;
    at_work_wait =
        All-map (Waits m) (Waits ended) m.at_work (λ g t w. Waits-on g w) inv.at_work_wait;
    posted_served =
        All-map (Served m) (Served ended) inv.posted (λ g t w. Served-on g w) inv.posted_served;
    settled = λ c s f w. inv.settled c s (kept c s f).1 w;
  }
