-- ===== src/Lock/Spin.antt =====
-- kernel/core/spinlock.c: one spinlock and any number of harts, each of which goes round through
-- `acquire`, its critical section and `release`. A step is one access to the shared lock; the
-- `push_off` of an `acquire` is in its first step, and the `pop_off` of a `release` in its last.
use ustc_26spring.Common.{
  ℕ, Bool, true, false, ◌&&◌, not, ◌==◌, if◌then◌else◌, Option, none, some, List, [], ◌∷◌,
}
use ustc_26spring.Common.Result.{Result, ok, panic, ◌>>=◌}
use ustc_26spring.Lock.Intr.{Hart, push_off, pop_off}

-- Where a hart stands: before `acquire`, in its loop, past the test-and-set, in the critical
-- section, and in `release` with `cpu` cleared.
pub data Place : Type 0 where
  outside spinning won inside leaving : Place

-- `struct spinlock`, whose `cpu` names the hart that holds it, with the places of the harts and
-- what `push_off` and `pop_off` keep of each.
pub record Spin : Type 0 where
  pub locked : Bool
  pub cpu : Option ℕ
  pub place : ℕ → Place
  pub intr : ℕ → Hart

abbrev pub is_cpu : Option ℕ → ℕ → Bool
is_cpu none i = false
is_cpu (some j) i = j == i

-- `holding`, called by hart i.
abbrev pub holding : Spin → ℕ → Bool
holding s i = s.locked && is_cpu s.cpu i

abbrev pub move : (ℕ → Place) → ℕ → Place → ℕ → Place
move f i p j = if j == i then p else f j

abbrev pub set_hart : (ℕ → Hart) → ℕ → Hart → ℕ → Hart
set_hart f i c j = if j == i then c else f j

-- `initlock`, before any hart takes the lock.
unfoldable pub initlock : (ℕ → Hart) → Spin
initlock harts = record { locked = false; cpu = none; place = λ _. outside; intr = harts }

-- What hart i does next, by its place.
unfoldable pub hart_step : Place → ℕ → Spin → Result Spin
hart_step outside i s =
    let c = push_off (s.intr i) in
    if holding s i
    then panic
    else ok (record s { intr = set_hart s.intr i c; place = move s.place i spinning })
hart_step spinning i s =
    if s.locked then ok s else ok (record s { locked = true; place = move s.place i won })
hart_step won i s = ok (record s { cpu = some i; place = move s.place i inside })
hart_step inside i s =
    if not (holding s i)
    then panic
    else ok (record s { cpu = none; place = move s.place i leaving })
hart_step leaving i s = pop_off (s.intr i) >>= λ c.
    ok (record s { locked = false; intr = set_hart s.intr i c; place = move s.place i outside })

-- A run in which the harts of the list take their next steps in turn.
unfoldable pub run : List ℕ → Spin → Result Spin
unfolding hart_step
run [] s = ok s
run (i ∷ is) s = hart_step (s.place i) i s >>= run is
