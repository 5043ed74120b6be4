-- ===== src/Lock/Tests.antt =====
-- The locks of kernel/core on small inputs.
use ustc_26spring.Common.{ℕ, ◌≡◌, ◌≢◌, ◌⊎◌, ◌↔◌, refl, true, false, List, [], ◌∷◌, arith}
use ustc_26spring.Common.Int.{pos, minus_one}
use ustc_26spring.Common.Result.{ok, panic}
use ustc_26spring.Lock.Intr.{Hart, push_many, pop_many, pop_many-push_many}
use ustc_26spring.Lock.Spin.{Spin, outside, inside, initlock, run}
use ustc_26spring.Lock.Harts.{run-initlock}
use ustc_26spring.Lock.Sleep.{
  Sleeplock, Who, process, boot, initsleeplock, sl_holding, acquiresleep, releasesleep, asleep,
  acquiresleep-owner,
}

-- Hart 0 has the lock and hart 1 spins.
abbrev schedule : List ℕ
schedule = 0 ∷ 1 ∷ 0 ∷ 0 ∷ 1 ∷ []

abbrev hart : Hart
hart = record { noff = 0; intena = false; sie = true }

abbrev harts : ℕ → Hart
harts i = hart

run-initlock_example :
    (t : Spin) × (run schedule (initlock harts) ≡ ok t)
    × ((i j : ℕ) → t.place i ≡ inside → t.place j ≡ inside → i ≡ j)
    × ((i : ℕ)
        → ((t.place i ≡ outside) × ((t.intr i).noff ≡ 0) × ((t.intr i).sie ≡ true))
          ⊎ ((t.place i ≢ outside) × ((t.intr i).noff ≡ 1) × ((t.intr i).sie ≡ false)))
run-initlock_example =
    run-initlock harts (λ i. record { quiet = λ h. absurd (omega arith) }) schedule

pop_many-push_many_example :
    (d : Hart) × (pop_many 3 (push_many 3 hart) ≡ ok d) × (d.noff ≡ 0) × (d.sie ≡ true)
pop_many-push_many_example =
    pop_many-push_many 3 hart (record { quiet = λ h. absurd (omega arith) })

abbrev held : Sleeplock
held = record { locked = true; owner_pid = pos 4; owner_cpu = minus_one }

acquiresleep-owner_example :
    ((v : Who) → sl_holding v held ≡ true ↔ (v ≡ process 4))
    × ((pid : ℕ) → acquiresleep (process pid) held ≡ ok asleep)
    × ((hart : ℕ) → acquiresleep (boot hart) held ≡ panic)
    × ((v : Who) → v ≢ process 4 → releasesleep v held ≡ panic)
    × ((free : Sleeplock) × (releasesleep (process 4) held ≡ ok free) × (free.locked ≡ false))
unfolding initsleeplock acquiresleep
acquiresleep-owner_example = acquiresleep-owner (process 4) initsleeplock refl
