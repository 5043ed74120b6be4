-- ===== src/Lock/Sleep.antt =====
-- kernel/core/sleeplock.c. Each function holds the inner spinlock, but for the sleep in
-- `acquiresleep`, so it is one atomic segment, and `acquiresleep` is tried again after a wakeup.
use ustc_26spring.Common.{
  ℕ, ◌≡◌, ◌≢◌, ◌↔◌, refl, Bool, true, false, ◌&&◌, not, if◌then◌else◌, Bool-cases, inl, inr, arith,
}
use ustc_26spring.Common.Int.{ℤ, pos, int_eq, minus_one}
use ustc_26spring.Common.Result.{Result, ok, panic}

-- `struct sleeplock` without the inner lock and the name.
pub record Sleeplock : Type 0 where
  pub locked : Bool
  pub owner_pid : ℤ
  pub owner_cpu : ℤ

-- Who calls: a process by its pid, or the boot code of a hart, which has no process.
pub data Who : Type 0 where
  process : ℕ → Who
  boot : ℕ → Who

-- `initsleeplock`
unfoldable pub initsleeplock : Sleeplock
initsleeplock = record { locked = false; owner_pid = pos 0; owner_cpu = minus_one }

owns : Who → Sleeplock → Bool
owns (process pid) lk = int_eq lk.owner_pid (pos pid)
owns (boot hart) lk = int_eq lk.owner_pid minus_one && int_eq lk.owner_cpu (pos hart)

-- `sl_holding_locked`
unfoldable pub sl_holding : Who → Sleeplock → Bool
unfolding owns
sl_holding w lk = lk.locked && owns w lk

abbrev pub pid_of : Who → ℤ
pid_of (process pid) = pos pid
pid_of (boot hart) = minus_one

abbrev pub cpu_of : Who → ℤ
cpu_of (process pid) = minus_one
cpu_of (boot hart) = pos hart

-- What a segment of `acquiresleep` does unless it panics: the caller sleeps on the lock, or has it.
pub data Acquired : Type 0 where
  asleep : Acquired
  taken : Sleeplock → Acquired

-- `sleep` for the caller: it panics without a process.
unfoldable pub fall_asleep_on : Who → Result Acquired
fall_asleep_on (process pid) = ok asleep
fall_asleep_on (boot hart) = panic

unfoldable pub acquiresleep : Who → Sleeplock → Result Acquired
unfolding fall_asleep_on
acquiresleep w lk =
    if lk.locked
    then fall_asleep_on w
    else ok (taken (record lk { locked = true; owner_pid = pid_of w; owner_cpu = cpu_of w }))

-- The lock after `releasesleep`, which wakes the sleepers on the lock.
unfoldable pub releasesleep : Who → Sleeplock → Result Sleeplock
unfolding sl_holding
releasesleep w lk =
    if not (sl_holding w lk)
    then panic
    else ok (record lk { locked = false; owner_pid = pos 0; owner_cpu = minus_one })

abbrev owned_by : Who → Sleeplock
owned_by w = record { locked = true; owner_pid = pid_of w; owner_cpu = cpu_of w }

holding_owner : (w v : Who) → sl_holding v (owned_by w) ≡ true ↔ (v ≡ w)
unfolding sl_holding
holding_owner (process p) (process q) = (λ h. ground arith, λ h. ground arith)
holding_owner (process p) (boot q) = (λ h. ground arith, λ h. ground arith)
holding_owner (boot p) (process q) = (λ h. ground arith, λ h. ground arith)
holding_owner (boot p) (boot q) = (λ h. ground arith, λ h. ground arith)

acquiresleep-taken :
    (w : Who) (lk : Sleeplock) {held : Sleeplock}
    → acquiresleep w lk ≡ ok (taken held)
    → held ≡ owned_by w
unfolding acquiresleep
acquiresleep-taken w lk e = ground arith

release_other : (w v : Who) → v ≢ w → releasesleep v (owned_by w) ≡ panic
unfolding releasesleep
release_other w v ne = elim (Bool-cases (sl_holding v (owned_by w))) [
  | inl h ↦ absurd (ne ((holding_owner w v).0 h))
  | inr h ↦ rw (h, releasesleep) refl
]

-- A lock that somebody has taken can be released by exactly that caller: any other panics. While
-- it is held, `acquiresleep` by a process sleeps, and by the boot code, which cannot sleep, panics; the release
-- makes it free for all.
pub acquiresleep-owner :
    (w : Who) (lk : Sleeplock) {held : Sleeplock}
    → acquiresleep w lk ≡ ok (taken held)
    → ((v : Who) → sl_holding v held ≡ true ↔ (v ≡ w))
      × ((pid : ℕ) → acquiresleep (process pid) held ≡ ok asleep)
      × ((hart : ℕ) → acquiresleep (boot hart) held ≡ panic)
      × ((v : Who) → v ≢ w → releasesleep v held ≡ panic)
      × ((free : Sleeplock) × (releasesleep w held ≡ ok free) × (free.locked ≡ false))
unfolding acquiresleep releasesleep initsleeplock
acquiresleep-owner w lk e = rw (acquiresleep-taken w lk e) (
  holding_owner w,
  λ pid. refl,
  λ hart. refl,
  release_other w,
  (initsleeplock, rw ((holding_owner w w).1 refl, releasesleep) refl, refl),
)
