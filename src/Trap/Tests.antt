-- ===== src/Trap/Tests.antt =====
-- A call of `ticks_sleep` that waits over the wrap of the ticks.
use ustc_26spring.Common.{
  ◌≡◌, refl, true, leb, if◌then◌else◌, none, some, List, [], ◌∷◌, ◌++◌, arith,
}
use ustc_26spring.Common.Int.{pos, negsuc}
use ustc_26spring.Proc.Table.{running, empty_proc}
use ustc_26spring.Trap.{Clock, Event, tick, take_up, other, sleep_segment, events, ticks_sleep}
use ustc_26spring.Trap.Sleep.{ticks_of, ticks_sleep-returned}

abbrev clock : Clock
clock = record {
  ticks = 4294967295;
  procs = record empty_proc { state = running } ∷ empty_proc ∷ [];
}

abbrev passing : List Event
passing = tick 0 ∷ take_up ∷ tick 1 ∷ other 1 empty_proc ∷ tick 0 ∷ []

ticks_sleep-returned_example :
    (events 4294967295 2 0 (passing ++ take_up ∷ []) (ticks_sleep 2 0 clock)).returned
    ≡ (if leb 2 (ticks_of passing) then some (pos 0) else none)
unfolding ticks_of
ticks_sleep-returned_example =
    ticks_sleep-returned 2 0 clock passing (omega arith) (omega arith) refl (omega arith)

-- A process that is killed returns -1.
killed_lem :
    (sleep_segment 5 2 0
      (record { ticks = 6; procs = record empty_proc { state = running; killed = true } ∷ [] })).0
    ≡ some (negsuc 0)
unfolding sleep_segment
killed_lem = refl
