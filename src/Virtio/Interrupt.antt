-- ===== src/Virtio/Interrupt.antt =====
-- The interrupt of kernel/drivers/virtio_disk.c keeps `Inv`, and when it panics.
use ustc_26spring.Common.{
  ℕ, zero, suc, ◌+◌, ◌-◌, ◌%◌, ◌^◌, ◌≤◌, ◌<◌, ◌≡◌, ◌≢◌, refl, sym, ap, ◌∙◌, ◌⊎◌, inl, inr, true,
  false, leb, ◌==◌, some, List, [], ◌∷◌, length, arith, Bool-cases,
}
use ustc_26spring.Common.Result.{ok, panic}
use ustc_26spring.Virtio.{write_at, num, Request, Machine, complete_used}
use ustc_26spring.Virtio.Rings.{Segment-ends, one, times, All-map, length-le}
use ustc_26spring.Virtio.Inv.{Chain-kept, Waits, Served, Inv, heads_apart, Served-below}

-- The machine after one entry of the used ring, for buffer b.
abbrev one_done : ℕ → Machine → Machine
one_done b m = record m {
  driver = record m.driver { used_idx = (m.driver.used_idx + 1) % 2 ^ 16 };
  busy = write_at m.busy b false;
}

module _ (m : Machine) (inv : Inv m) (h : ℕ) (hs : List ℕ) (at : inv.posted ≡ h ∷ hs) where
  posted_times : (g : ℕ) → times g inv.posted ≡ one g h + times g hs
  posted_times g = ap (times g) at

  module _ (b : ℕ) (r : Request) (e : m.requests b ≡ some r) (q : r.i0 ≡ h)
      (agree : m.sectors (m.blockno b) ≡ m.bytes b) where
    not_first : (g : ℕ) → 1 ≤ times g inv.queued + times g m.at_work + times g hs → g ≢ h
    not_first g some_where same =
        let o : one g h ≡ 1 = (ground arith) in omega (arith, inv.once g, posted_times g, o)

    Waits-still : (g : ℕ) → g ≢ h → Waits m g → Waits (one_done b m) g
    Waits-still g ne (c, s, f, p, st, w) =
        let apart = heads_apart m c b s r f e (λ z. ne (sym p ∙ z ∙ q)) in
        (c, s, f, p, st, (let other : (c == b) ≡ false = ground arith in rw other w))

    Served-still : (g : ℕ) → g ≢ h → Served m g → Served (one_done b m) g
    Served-still g ne (c, s, f, p, w, a) =
        let apart = heads_apart m c b s r f e (λ z. ne (sym p ∙ z ∙ q)) in
        (c, s, f, p, (let other : (c == b) ≡ false = ground arith in rw other w), a)

    one_done-Inv : (i : Inv (one_done b m)) × (i.posted ≡ hs)
    one_done-Inv =
        let (first, lt, rest) = rw at at inv.used in
        let (s, ss) = rw at at inv.posted_served in
        (
          record {
            queued = inv.queued;
            posted = hs;
            avail = inv.avail;
            used = rest;
            chain = λ c s f.
                Chain-kept m.driver (one_done b m).driver (m.blockno c) c s (λ i o. (refl, refl))
                  refl refl (inv.chain c s f);
            own = inv.own;
            alone = inv.alone;
            once = λ g. omega (arith, inv.once g, posted_times g);
            queued_wait =
                All-map (Waits m) (Waits (one_done b m)) inv.queued
                  (λ g t. Waits-still g (not_first g (omega arith))) inv.queued_wait;
            at_work_wait =
                All-map (Waits m) (Waits (one_done b m)) m.at_work
                  (λ g t. Waits-still g (not_first g (omega arith))) inv.at_work_wait;
            posted_served =
                All-map (Served m) (Served (one_done b m)) hs
                  (λ g t. Served-still g (not_first g (omega arith))) ss;
            settled = settled;
          },
          refl,
        )
      where
        settled :
            (c : ℕ) (s : Request)
            → m.requests c ≡ some s
            → (one_done b m).busy c ≡ false
            → m.sectors (m.blockno c) ≡ m.bytes c
        settled c s f idle = elim (Bool-cases (c == b)) [
          | inl same ↦ let z : c ≡ b = ground arith in rw z agree
          | inr other ↦ inv.settled c s f (rw other at idle)
        ]

pub posted_few : (m : Machine) (inv : Inv m) → length inv.posted ≤ 8
posted_few m inv =
    length-le 8 inv.posted
      (All-map (Served m) (λ g. g < 8) inv.posted (λ g t s. Served-below m inv g s)
        inv.posted_served)
      (λ g. omega (arith, inv.once g))

round_runs :
    (fuel : ℕ) (m : Machine) (h b : ℕ)
    → m.driver.used_idx ≢ m.driver.done_idx
    → m.driver.used_ring (m.driver.used_idx % 8) ≡ h
    → h < 8
    → m.driver.info_status h ≡ 0
    → m.driver.info_b h ≡ some b
    → complete_used (suc fuel) m ≡ complete_used fuel (one_done b m)
unfolding complete_used
round_runs fuel m h b ne first below status buffer =
    let more : (m.driver.used_idx == m.driver.done_idx) ≡ false = ground arith in
    let inside : leb num h ≡ false = ground arith in
    let fine : (m.driver.info_status h == 0) ≡ true = ground arith in
    rw (more, first, inside, fine, buffer, complete_used) refl

round_panics :
    (fuel : ℕ) (m : Machine) (h : ℕ)
    → m.driver.used_idx ≢ m.driver.done_idx
    → m.driver.used_ring (m.driver.used_idx % 8) ≡ h
    → h < 8
    → m.driver.info_status h ≢ 0
    → complete_used (suc fuel) m ≡ panic
unfolding complete_used
round_panics fuel m h ne first below status =
    let more : (m.driver.used_idx == m.driver.done_idx) ≡ false = ground arith in
    let inside : leb num h ≡ false = ground arith in
    let bad : (m.driver.info_status h == 0) ≡ false = ground arith in
    rw (more, first, inside, bad, complete_used) refl

-- The status of the entry of the used ring that is k after the next.
abbrev pub status_at : Machine → ℕ → ℕ
status_at m k = m.driver.info_status (m.driver.used_ring ((m.driver.used_idx + k) % num))

-- The number of entries of the used ring that the driver has not taken.
abbrev pub pending : Machine → ℕ
pending m = (m.driver.done_idx + 2 ^ 16 - m.driver.used_idx) % 2 ^ 16

pub pending-length : (m : Machine) (inv : Inv m) → pending m ≡ length inv.posted
pending-length m inv =
    let (end, l0, l1) =
      Segment-ends m.driver.used_ring m.driver.used_idx inv.posted m.driver.done_idx inv.used in
    omega (arith, end, l0, l1, posted_few m inv)

status_at_first :
    (m : Machine) (h : ℕ)
    → m.driver.used_ring (m.driver.used_idx % 8) ≡ h
    → status_at m 0 ≡ m.driver.info_status h
status_at_first m h first =
    let z : (m.driver.used_idx + 0) % num ≡ m.driver.used_idx % 8 = omega arith in
    ap (λ i. m.driver.info_status (m.driver.used_ring i)) z ∙ ap m.driver.info_status first

status_at_next : (m : Machine) (b k : ℕ) → status_at (one_done b m) k ≡ status_at m (suc k)
status_at_next m b k =
    let z : ((m.driver.used_idx + 1) % 2 ^ 16 + k) % num ≡ (m.driver.used_idx + suc k) % num =
      omega arith in
    ap (λ i. m.driver.info_status (m.driver.used_ring i)) z

-- A round of the loop of the interrupt.
complete_round :
    (fuel : ℕ) (m : Machine) (inv : Inv m) (h : ℕ) (hs : List ℕ)
    → inv.posted ≡ h ∷ hs
    → ((status_at m 0 ≡ 0)
        × ((b : ℕ) × (complete_used (suc fuel) m ≡ complete_used fuel (one_done b m))
            × (i : Inv (one_done b m)) × (i.posted ≡ hs)))
      ⊎ ((status_at m 0 ≢ 0) × (complete_used (suc fuel) m ≡ panic))
complete_round fuel m inv h hs at =
    let ((b, r, e, q, w, a), ss) = rw at at inv.posted_served in
    let (first, lt, rest) = rw at at inv.used in
    let (end, l0, l1) =
      Segment-ends m.driver.used_ring m.driver.used_idx inv.posted m.driver.done_idx inv.used in
    let few = posted_few m inv in
    let some_left : length inv.posted ≡ suc (length hs) = ap length at in
    let ne : m.driver.used_idx ≢ m.driver.done_idx = (λ z. omega arith) in
    let c = inv.chain b r e in
    let below = Served-below m inv h (b, r, e, q, w, a) in
    let same = status_at_first m h first in
    elim (Bool-cases (m.driver.info_status h == 0)) [
      | inl fine ↦
          let st : m.driver.info_status h ≡ 0 = ground arith in
          let agree : m.sectors (m.blockno b) ≡ m.bytes b = elim a [
            | inl bad ↦ absurd (bad st)
            | inr good ↦ good
          ] in
          let (i, p) = one_done-Inv m inv h hs at b r e q agree in
          inl (same ∙ st, (b, round_runs fuel m h b ne first below st (rw q at c.buffer), i, p))
      | inr failed ↦
          let bad : m.driver.info_status h ≢ 0 = (λ z. ground arith) in
          inr ((λ z. bad (sym same ∙ z)), round_panics fuel m h ne first below bad)
    ]

emptied : (m : Machine) (inv : Inv m) → inv.posted ≡ [] → m.driver.used_idx ≡ m.driver.done_idx
emptied m inv at = (rw at at inv.used).0

-- The loop of the interrupt ends with the used ring empty, or panics at an entry with an error.
pub complete_used-Inv :
    (fuel : ℕ) (m : Machine) (inv : Inv m) (posted : List ℕ)
    → inv.posted ≡ posted
    → length posted < fuel
    → ((n : Machine) × (complete_used fuel m ≡ ok n)
        × Inv n
        × (n.driver.used_idx ≡ n.driver.done_idx)
        × ((k : ℕ) → (length posted ≤ k) ⊎ (status_at m k ≡ 0)))
      ⊎ ((complete_used fuel m ≡ panic) × ((k : ℕ) × (k < length posted) × (status_at m k ≢ 0)))
unfolding complete_used
complete_used-Inv zero m inv posted at lt = absurd (omega arith)
complete_used-Inv (suc fuel) m inv [] at lt =
    let e = emptied m inv at in
    let stop : (m.driver.used_idx == m.driver.done_idx) ≡ true = ground arith in
    inl (m, rw (stop, complete_used) refl, inv, e, λ k. inl (omega arith))
complete_used-Inv (suc fuel) m inv (h ∷ hs) at lt = elim (complete_round fuel m inv h hs at) [
  | inl (st, (b, e, i, p)) ↦ elim (complete_used-Inv fuel (one_done b m) i hs p (omega arith)) [
    | inl (n, e', i', z, fine) ↦ inl (n, e ∙ e', i', z, shifted b st fine)
    | inr (e', (k, l, bad)) ↦
        inr (e ∙ e', (suc k, omega arith, (λ z. bad (status_at_next m b k ∙ z))))
  ]
  | inr (bad, e) ↦ inr (e, (0, omega arith, bad))
]
  where
    shifted :
        (b : ℕ)
        → status_at m 0 ≡ 0
        → ((k : ℕ) → (length hs ≤ k) ⊎ (status_at (one_done b m) k ≡ 0))
        → (k : ℕ) → (suc (length hs) ≤ k) ⊎ (status_at m k ≡ 0)
    shifted b st fine zero = inr st
    shifted b st fine (suc k) = elim (fine k) [
      | inl le ↦ inl (omega arith)
      | inr good ↦ inr (sym (status_at_next m b k) ∙ good)
    ]
