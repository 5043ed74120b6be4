-- ===== src/Virtio/Safe.antt =====
-- The driver of kernel/drivers/virtio_disk.c with its callers and a device, from `virtio_disk_init` on.
use ustc_26spring.Common.{
  ℕ, ◌≤◌, ◌<◌, ◌≡◌, ◌≢◌, refl, sym, ap, ◌∙◌, ◌⊎◌, inl, inr, Bool, true, false, none, some, List, [],
  ◌∷◌, ◌++◌, arith, Bool-cases,
}
use ustc_26spring.Common.Result.{ok, panic}
use ustc_26spring.Bio.{Block}
use ustc_26spring.Virtio.{Request, Machine, virtio_disk_init, start_rw, end_rw, virtio_disk_isr}
use ustc_26spring.Virtio.Device.{
  IsDevice, IsAlone, Step, called, woken, interrupted, looked, finished, changed, start, Reach,
  here, next,
}
use ustc_26spring.Virtio.Inv.{Inv}
use ustc_26spring.Virtio.Moves.{take_avail-Inv, changed-Inv, head-Waits, head-Found, done-Inv}
use ustc_26spring.Virtio.Interrupt.{
  posted_few, status_at, pending, pending-length, complete_used-Inv,
}
use ustc_26spring.Virtio.Ends.{ended, end_rw-ended, ended-Inv}
use ustc_26spring.Virtio.Starts.{start_rw-Inv}

ok_same : {A : Type 0} {x y : A} → ok x ≡ ok y → x ≡ y
ok_same e = cc

start-Inv :
    (Serves : ℕ → Machine → Machine → Type 0) (bytes : ℕ → Block) (blockno : ℕ → ℕ)
    (sectors : ℕ → Block)
    → Inv (start Serves bytes blockno sectors)
unfolding virtio_disk_init
start-Inv Serves bytes blockno sectors = record {
  queued = [];
  posted = [];
  avail = (refl, omega arith);
  used = (refl, omega arith);
  chain = λ b r e. cc;
  own = λ b c r s e f i o p. cc;
  alone = λ b c r s e f q. cc;
  once = λ h. omega arith;
  queued_wait = tt;
  at_work_wait = tt;
  posted_served = tt;
  settled = λ b r e w. cc;
}

-- A call that is woken: it sleeps again, or returns.
end_rw-Inv :
    (m : Machine)
    → Inv m
    → (b : ℕ) (r : Request) → m.requests b ≡ some r
    → ((m.busy b ≡ true) × (end_rw b r m ≡ ok (false, m)))
      ⊎ ((m.busy b ≡ false)
          × ((n : Machine) × (end_rw b r m ≡ ok (true, n))
              × Inv n
              × (n.sectors (n.blockno b) ≡ n.bytes b)))
unfolding end_rw
end_rw-Inv m inv b r e = elim (Bool-cases (m.busy b)) [
  | inl busy ↦ inl (busy, rw busy refl)
  | inr idle ↦ inr (
    idle,
    (
      ended m inv b r e idle,
      end_rw-ended m inv b r e idle,
      ended-Inv m inv b r e idle,
      inv.settled b r e idle,
    ),
  )
]

-- The interrupt ends with the used ring empty, or panics at an entry with an error.
isr-Inv :
    (m : Machine)
    → Inv m
    → ((n : Machine) × (virtio_disk_isr m ≡ ok n)
        × Inv n
        × (n.driver.used_idx ≡ n.driver.done_idx)
        × ((k : ℕ) → (pending m ≤ k) ⊎ (status_at m k ≡ 0)))
      ⊎ ((virtio_disk_isr m ≡ panic) × ((k : ℕ) × (k < pending m) × (status_at m k ≢ 0)))
isr-Inv m inv =
    rw (pending-length m inv)
      (complete_used-Inv 9 m inv inv.posted refl (omega (arith, posted_few m inv)))

finished-Inv :
    (Serves : ℕ → Machine → Machine → Type 0)
    → IsDevice Serves
    → (m : Machine) (inv : Inv m) (before after : List ℕ) (h : ℕ) (n : Machine)
    → m.at_work ≡ before ++ h ∷ after
    → Serves h (record m { at_work = before ++ after }) n
    → Inv n
finished-Inv Serves device m inv before after h n at serves =
    let (b, r, e, q, st, busy) = head-Waits m inv before after h at in
    let found = head-Found m inv before after h at b r e q in
    let (status, content, byte, same, right) =
      device h h b h (record m { at_work = before ++ after }) n serves found in
    rw same (done-Inv m inv before after h at b r e q busy status content right)

module _ (Serves : ℕ → Machine → Machine → Type 0) (device : IsDevice Serves) where
  Step-Inv : {m n : Machine} → Inv m → Step Serves m n → Inv n
  Step-Inv {m} inv (called b write queued n idle alone e) =
      let (queued', n', e', i) = start_rw-Inv m inv b write idle alone in
      rw (ap (λ p. p.1) (ok_same (sym e ∙ e'))) i
  Step-Inv {m} inv (woken b r returned n at e) = elim (end_rw-Inv m inv b r at) [
    | inl (busy, e') ↦ rw (ap (λ p. p.1) (ok_same (sym e ∙ e'))) inv
    | inr (idle, (n', e', i, agree)) ↦ rw (ap (λ p. p.1) (ok_same (sym e ∙ e'))) i
  ]
  Step-Inv {m} inv (interrupted n e) = elim (isr-Inv m inv) [
    | inl (n', e', i, empty, fine) ↦ rw (ok_same (sym e ∙ e')) i
    | inr (e', rest) ↦ let z : ok n ≡ panic = sym e ∙ e' in cc
  ]
  Step-Inv {m} inv (looked ne) = take_avail-Inv m inv ne
  Step-Inv {m} inv (finished before after h n at serves) =
      finished-Inv Serves device m inv before after h n at serves
  Step-Inv {m} inv (changed b blockno bytes idle) = changed-Inv m inv b blockno bytes idle

  Reach-Inv : {m : Machine} → Reach Serves m → Inv m
  Reach-Inv (here bytes blockno sectors) = start-Inv Serves bytes blockno sectors
  Reach-Inv (next reach step) = Step-Inv (Reach-Inv reach) step

  -- In every state that calls, interrupts and a device as the virtio specification describes it reach from
  -- the end of `virtio_disk_init`, a call of `virtio_disk_rw` that waits for its buffer and is woken does
  -- not panic: it sleeps again when its buffer is still with the device, and otherwise gives its descriptors back
  -- and returns, and then the bytes of the buffer are equal to those of its sector.
  pub end_rw-Reach :
      (m : Machine)
      → Reach Serves m
      → (b : ℕ) (r : Request) → m.requests b ≡ some r
      → ((m.busy b ≡ true) × (end_rw b r m ≡ ok (false, m)))
        ⊎ ((m.busy b ≡ false)
            × ((n : Machine) × (end_rw b r m ≡ ok (true, n))
                × (n.sectors (n.blockno b) ≡ n.bytes b)))
  end_rw-Reach m reach b r at = elim (end_rw-Inv m (Reach-Inv reach) b r at) [
    | inl sleeps ↦ inl sleeps
    | inr (idle, (n, e, i, agree)) ↦ inr (idle, (n, e, agree))
  ]

  -- In every such state, `virtio_disk_rw` starts without a panic for a buffer that has no call, when no
  -- waiting call is at its block. The interrupt either takes all entries of the used ring, and then the
  -- device has reported no error for any entry that was pending, or panics, and then it has reported
  -- one for some pending entry.
  pub virtio_disk_isr-Reach :
      (m : Machine)
      → Reach Serves m
      → (b : ℕ) (write : Bool) → m.requests b ≡ none
      → IsAlone b m
      → ((queued : Bool) × (n : Machine) × (start_rw b write m ≡ ok (queued, n)))
        × (((n : Machine) × (virtio_disk_isr m ≡ ok n)
              × (n.driver.used_idx ≡ n.driver.done_idx)
              × ((k : ℕ) → (pending m ≤ k) ⊎ (status_at m k ≡ 0)))
            ⊎ ((virtio_disk_isr m ≡ panic) × ((k : ℕ) × (k < pending m) × (status_at m k ≢ 0))))
  virtio_disk_isr-Reach m reach b write idle alone =
      let inv = Reach-Inv reach in
      let (queued, n, e, i) = start_rw-Inv m inv b write idle alone in
      (
        (queued, n, e),
        elim (isr-Inv m inv) [
          | inl (n', e', i', empty, fine) ↦ inl (n', e', empty, fine)
          | inr fails ↦ inr fails
        ],
      )
