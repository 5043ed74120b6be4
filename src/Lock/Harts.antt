-- ===== src/Lock/Harts.antt =====
-- Mutual exclusion of the spinlock of kernel/core/spinlock.c over all schedules, and the
-- interrupts of its harts.
use ustc_26spring.Common.{
  ℕ, ◌+◌, ◌≡◌, ◌≢◌, ◌⊎◌, ◌&&◌, ◌==◌, refl, Bool, true, false, none, some, List, [], ◌∷◌, arith,
  Bool-cases, inl, inr,
}
use ustc_26spring.Common.Result.{ok}
use ustc_26spring.Lock.Intr.{Hart, push_off, pop_off, IsQuiet}
use ustc_26spring.Lock.Spin.{
  Place, outside, spinning, won, inside, leaving, Spin, move, set_hart, initlock, hart_step, run,
}

-- The places from the test-and-set to the release.
abbrev pub is_owner : Place → Bool
is_owner outside = false
is_owner spinning = false
is_owner won = true
is_owner inside = true
is_owner leaving = true

pub record IsExclusive (s : Spin) : Type 0 where
  pub locked : (i : ℕ) → is_owner (s.place i) ≡ true → s.locked ≡ true
  pub unique : (i j : ℕ) → is_owner (s.place i) ≡ true → is_owner (s.place j) ≡ true → i ≡ j
  pub named : (i : ℕ) → s.place i ≡ inside → s.cpu ≡ some i
  pub truly : (i : ℕ) → s.cpu ≡ some i → s.place i ≡ inside

-- The count and the interrupt-enable bit of `before` are kept.
pub record IsRestored (before now : Hart) : Type 0 where
  pub count : now.noff ≡ before.noff
  pub bit : now.sie ≡ before.sie

-- One `push_off` more than `before`: no interrupts, and `pop_off` has what it needs.
pub record IsOff (before now : Hart) : Type 0 where
  pub count : now.noff ≡ before.noff + 1
  pub bit : now.sie ≡ false
  pub saved : (before.noff == 0) && now.intena ≡ before.sie

-- What place p asks of the interrupts of a hart.
abbrev pub Interrupts : Place → Hart → Hart → Type 0
Interrupts outside before now = IsRestored before now
Interrupts spinning before now = IsOff before now
Interrupts won before now = IsOff before now
Interrupts inside before now = IsOff before now
Interrupts leaving before now = IsOff before now

push_off-IsOff :
    (before now : Hart) → IsQuiet before → IsRestored before now → IsOff before (push_off now)
unfolding push_off
push_off-IsOff before now q r = record {
  count = ground (arith, r.count);
  bit = refl;
  saved = ground (arith, r.count, r.bit, q.quiet);
}

pop_off-IsRestored :
    (before now : Hart) → IsOff before now → (c : Hart) × (pop_off now ≡ ok c) × IsRestored before c
unfolding pop_off
pop_off-IsRestored before now o = (
  record now { noff = before.noff; sie = (before.noff == 0) && now.intena },
  ground (arith, o.count, o.bit),
  record { count = refl; bit = o.saved },
)

module _ (i : ℕ) (s : Spin) (v : IsExclusive s) where
  start-IsExclusive :
      (f : ℕ → Hart)
      → s.place i ≡ outside
      → IsExclusive (record s { intr = f; place = move s.place i spinning })
  start-IsExclusive f e = record {
    locked = λ j h. ground (arith, v.locked j);
    unique = λ j k h h'. ground (arith, v.unique j k);
    named = λ j h. ground (arith, v.named j);
    truly = λ j h. ground (arith, v.truly j h);
  }

  take-IsExclusive :
      s.place i ≡ spinning
      → s.locked ≡ false
      → IsExclusive (record s { locked = true; place = move s.place i won })
  take-IsExclusive e free = record {
    locked = λ j h. refl;
    unique = λ j k h h'. ground (arith, v.locked j, v.locked k);
    named = λ j h. ground (arith, v.named j);
    truly = λ j h. ground (arith, v.truly j h);
  }

  own-IsExclusive :
      s.place i ≡ won → IsExclusive (record s { cpu = some i; place = move s.place i inside })
  own-IsExclusive e = record {
    locked = λ j h. ground (arith, v.locked j, v.locked i);
    unique = λ j k h h'. ground (arith, v.unique j k, v.unique i k, v.unique j i);
    named = λ j h. ground (arith, v.unique i j);
    truly = λ j h. ground arith;
  }

  drop-IsExclusive :
      s.place i ≡ inside → IsExclusive (record s { cpu = none; place = move s.place i leaving })
  drop-IsExclusive e = record {
    locked = λ j h. ground (arith, v.locked j, v.locked i);
    unique = λ j k h h'. ground (arith, v.unique j k, v.unique i k, v.unique j i);
    named = λ j h. ground (arith, v.unique i j);
    truly = λ j h. ground arith;
  }

  unlock-IsExclusive :
      (f : ℕ → Hart)
      → s.place i ≡ leaving
      → IsExclusive (record s { locked = false; intr = f; place = move s.place i outside })
  unlock-IsExclusive f e = record {
    locked = λ j h. ground (arith, v.unique i j);
    unique = λ j k h h'. ground (arith, v.unique j k);
    named = λ j h. ground (arith, v.named j);
    truly = λ j h. ground (arith, v.truly j h);
  }

  module _ (harts : ℕ → Hart) (calm : (j : ℕ) → Interrupts (s.place j) (harts j) (s.intr j)) where
    -- The other harts are where they were.
    moved :
        (p : Place) (c : Hart)
        → Interrupts p (harts i) c
        → (j : ℕ) → Interrupts (move s.place i p j) (harts j) (set_hart s.intr i c j)
    moved p c new j = elim (Bool-cases (j == i)) [
      | inl same ↦ let z : j ≡ i = ground arith in rw (same, z) new
      | inr other ↦ rw other (calm j)
    ]

    placed :
        (p : Place)
        → Interrupts p (harts i) (s.intr i)
        → (j : ℕ) → Interrupts (move s.place i p j) (harts j) (s.intr j)
    placed p new j = elim (Bool-cases (j == i)) [
      | inl same ↦ let z : j ≡ i = ground arith in rw (same, z) new
      | inr other ↦ rw other (calm j)
    ]

    -- A hart outside does not hold the lock, one inside does, and one that leaves has its `push_off`, so
    -- no step panics.
    hart_step-IsExclusive :
        (p : Place)
        → IsQuiet (harts i)
        → s.place i ≡ p
        → (t : Spin) × (hart_step p i s ≡ ok t)
          × IsExclusive t
          × ((j : ℕ) → Interrupts (t.place j) (harts j) (t.intr j))
    unfolding hart_step
    hart_step-IsExclusive outside q e =
        let c = push_off-IsOff (harts i) (s.intr i) q (rw e at (calm i)) in
        (_, ground (arith, v.truly i), start-IsExclusive _ e, moved spinning _ c)
    hart_step-IsExclusive spinning q e = elim (Bool-cases s.locked) [
      | inl held ↦ (s, rw held refl, v, calm)
      | inr free ↦ (_, rw free refl, take-IsExclusive e free, placed won (rw e at (calm i)))
    ]
    hart_step-IsExclusive won q e = (_, refl, own-IsExclusive e, placed inside (rw e at (calm i)))
    hart_step-IsExclusive inside q e = (
      _,
      ground (arith, v.named i e, v.locked i),
      drop-IsExclusive e,
      placed leaving (rw e at (calm i)),
    )
    hart_step-IsExclusive leaving q e =
        let (c, pops, r) = pop_off-IsRestored (harts i) (s.intr i) (rw e at (calm i)) in
        (_, rw pops refl, unlock-IsExclusive _ e, moved outside c r)

module _ (harts : ℕ → Hart) (quiet : (i : ℕ) → IsQuiet (harts i)) where
  run-IsExclusive :
      (is : List ℕ) (s : Spin)
      → IsExclusive s
      → ((j : ℕ) → Interrupts (s.place j) (harts j) (s.intr j))
      → (t : Spin) × (run is s ≡ ok t)
        × IsExclusive t
        × ((j : ℕ) → Interrupts (t.place j) (harts j) (t.intr j))
  unfolding run
  run-IsExclusive [] s v calm = (s, refl, v, calm)
  run-IsExclusive (i ∷ is) s v calm =
      let (t, e, w, c) = hart_step-IsExclusive i s v harts calm (s.place i) (quiet i) refl in
      rw e (run-IsExclusive is t w c)

  -- Under every schedule of the harts from `initlock` on, when each hart starts with its interrupts off
  -- if it is inside a `push_off`, no `acquire` and no `release` panics, those of `pop_off` included, and
  -- at no time are two harts in the critical section. A hart outside of `acquire`, critical section and
  -- `release` has the nesting count and the interrupt-enable bit that it started with; any other hart has
  -- its interrupts off and a count of one more.
  pub run-initlock :
      (is : List ℕ)
      → (t : Spin) × (run is (initlock harts) ≡ ok t)
        × ((i j : ℕ) → t.place i ≡ inside → t.place j ≡ inside → i ≡ j)
        × ((i : ℕ)
            → ((t.place i ≡ outside)
                × ((t.intr i).noff ≡ (harts i).noff)
                × ((t.intr i).sie ≡ (harts i).sie))
              ⊎ ((t.place i ≢ outside)
                  × ((t.intr i).noff ≡ (harts i).noff + 1)
                  × ((t.intr i).sie ≡ false)))
  unfolding initlock
  run-initlock is =
      let (t, e, v, c) =
        run-IsExclusive is (initlock harts)
          (record {
            locked = λ i h. ground arith;
            unique = λ i j h. ground arith;
            named = λ i h. ground arith;
            truly = λ i h. ground arith;
          })
          (λ j. record { count = refl; bit = refl }) in
      (
        t,
        e,
        (λ i j hi hj. v.unique i j (rw hi refl) (rw hj refl)),
        λ i. by_place (t.place i) (harts i) (t.intr i) (c i),
      )
    where
      by_place :
          (p : Place) (before now : Hart)
          → Interrupts p before now
          → ((p ≡ outside) × (now.noff ≡ before.noff) × (now.sie ≡ before.sie))
            ⊎ ((p ≢ outside) × (now.noff ≡ before.noff + 1) × (now.sie ≡ false))
      by_place outside before now r = inl (refl, r.count, r.bit)
      by_place spinning before now o = inr ((λ z. cc), o.count, o.bit)
      by_place won before now o = inr ((λ z. cc), o.count, o.bit)
      by_place inside before now o = inr ((λ z. cc), o.count, o.bit)
      by_place leaving before now o = inr ((λ z. cc), o.count, o.bit)
