-- ===== src/Trap.antt =====
-- The clock of kernel/core/trap.c: the ticks of the timer, and `ticks_sleep`, which waits for them.
pub mod Sleep
pub mod Tests
use ustc_26spring.Common.{
  ℕ, ◌+◌, ◌%◌, ◌^◌, Bool, true, false, ltb, ◌==◌, if◌then◌else◌, Option, none, some, List, [], ◌∷◌,
}
use ustc_26spring.Common.Int.{ℤ, pos, negsuc}
use ustc_26spring.Common.Word.{sub32}
use ustc_26spring.Proc.Table.{Chan, addr_chan, Proc, runnable, is_runnable, running, update}
use ustc_26spring.Proc.Exit.{proc_at}
use ustc_26spring.Proc.Sched.{wakeup, fall_asleep, wake_up}

-- `ticks`, and the table of processes.
pub record Clock : Type 0 where
  pub ticks : ℕ
  pub procs : List Proc

-- &ticks; other channels are other addresses.
abbrev pub ticks_chan : Chan
ticks_chan = addr_chan 0

unfoldable pub on_timer_tick : ℕ → Clock → Clock
unfolding wakeup
on_timer_tick hart c =
    if hart == 0
    then record { ticks = (c.ticks + 1) % 2 ^ 32; procs = wakeup ticks_chan c.procs }
    else c

abbrev pub ticks_get : Clock → ℕ
ticks_get c = c.ticks

-- A segment of `ticks_sleep` by the process in slot i, from its start or a wakeup on: what it returns, or
-- `none` when it sleeps.
unfoldable pub sleep_segment : ℕ → ℕ → ℕ → Clock → Option ℤ × Clock
unfolding fall_asleep update
sleep_segment start n i c =
    if ltb (sub32 c.ticks start) n
    then if (proc_at i c.procs).killed
      then (some (negsuc 0), c)
      else (none, record c { procs = update i (fall_asleep ticks_chan) c.procs })
    else (some (pos 0), c)

-- What happens to a call of `ticks_sleep` by the process in slot i: a tick on a hart, a scheduler that
-- takes up the process, which runs only if it may, or any change of another slot.
pub data Event : Type 0 where
  tick : ℕ → Event
  take_up : Event
  other : ℕ → Proc → Event

-- The clock, and what the call has returned.
pub record Waiting : Type 0 where
  pub clock : Clock
  pub returned : Option ℤ

-- The process runs its next segment: `scheduler` has made it running, and `sleep` ends.
unfoldable pub resume : ℕ → ℕ → ℕ → Clock → Option ℤ × Clock
unfolding sleep_segment
resume start n i c =
    sleep_segment start n i
      (record c { procs = update i (λ p. wake_up (record p { state = running })) c.procs })

unfoldable pub event : ℕ → ℕ → ℕ → Event → Waiting → Waiting
unfolding on_timer_tick resume update
event start n i (tick hart) w = record w { clock = on_timer_tick hart w.clock }
event start n i (other j p) w =
    if j == i
    then w
    else record w { clock = record w.clock { procs = update j (λ q. p) w.clock.procs } }
event start n i take_up w = elim w.returned [
  | some r ↦ w
  | none ↦
      if is_runnable (proc_at i w.clock.procs).state
      then (let (r, c) = resume start n i w.clock in record { clock = c; returned = r })
      else w
]

unfoldable pub events : ℕ → ℕ → ℕ → List Event → Waiting → Waiting
unfolding event
events start n i [] w = w
events start n i (e ∷ es) w = events start n i es (event start n i e w)

-- `ticks_sleep` up to its first sleep, or its return.
abbrev pub ticks_sleep : ℕ → ℕ → Clock → Waiting
ticks_sleep n i c = let (r, c') = sleep_segment c.ticks n i c in record { clock = c'; returned = r }
