-- ===== src/Trap/Sleep.antt =====
-- `ticks_sleep` of kernel/core/trap.c under any events.
use ustc_26spring.Common.{
  ℕ, zero, suc, ◌+◌, ◌%◌, ◌^◌, ◌≤◌, ◌<◌, ◌≡◌, ◌≢◌, refl, ap, ◌∙◌, inl, inr, true, false, ◌&&◌, ltb,
  leb, ◌==◌, if◌then◌else◌, Option, none, some, List, [], ◌∷◌, ◌++◌, length, arith, Bool-cases,
}
use ustc_26spring.Common.Int.{ℤ, pos}
use ustc_26spring.Common.Word.{sub32}
use ustc_26spring.Proc.Table.{sleeping, runnable, running, is_sleeping, is_chan, Proc, update}
use ustc_26spring.Proc.Sched.{wake, fall_asleep, wake_up}
use ustc_26spring.Proc.Exit.{proc_at}
use ustc_26spring.Proc.Slots.{proc_at-wakeup, proc_at-update, length-wakeup, length-update}
use ustc_26spring.Trap.{
  Clock, ticks_chan, on_timer_tick, sleep_segment, Event, tick, take_up, other, Waiting, resume,
  event, events, ticks_sleep,
}

-- The ticks that count: those on hart 0.
abbrev pub counts : Event → ℕ
counts (tick hart) = if hart == 0 then 1 else 0
counts take_up = 0
counts (other j p) = 0

unfoldable pub ticks_of : List Event → ℕ
ticks_of [] = 0
ticks_of (e ∷ es) = counts e + ticks_of es

-- The process of the call after k ticks: it has returned, or may run, or sleeps since the last tick.
data Stage (n k : ℕ) (p : Proc) : Option ℤ → Type 0 where
  over : n ≤ k → Stage n k p (some (pos 0))
  ready : p.state ≡ runnable → Stage n k p none
  asleep : p.state ≡ sleeping → p.chan ≡ some ticks_chan → k < n → Stage n k p none

record After (start n i k : ℕ) (w : Waiting) : Type 0 where
  now : w.clock.ticks ≡ (start + k) % 2 ^ 32
  inside : i < length w.clock.procs
  alive : (proc_at i w.clock.procs).killed ≡ false
  stage : Stage n k (proc_at i w.clock.procs) w.returned

-- A change of slot i, at that slot.
at_slot :
    (i : ℕ) (f : Proc → Proc) (ps : List Proc)
    → i < length ps
    → proc_at i (update i f ps) ≡ f (proc_at i ps)
at_slot i f ps lt =
    let e : (i == i) ≡ true = ground arith in proc_at-update i i f ps lt ∙ (rw e refl)

-- A segment that the process runs after k ticks.
segment-After :
    (start n i k : ℕ) (c : Clock)
    → start < 2 ^ 32
    → k < 2 ^ 32
    → c.ticks ≡ (start + k) % 2 ^ 32
    → i < length c.procs
    → (proc_at i c.procs).killed ≡ false
    → (let (r, c') = sleep_segment start n i c in
        After start n i k (record { clock = c'; returned = r }))
unfolding sleep_segment fall_asleep
segment-After start n i k c ls lk now inside alive =
    let passed : sub32 c.ticks start ≡ k = omega arith in
    let slot = at_slot i (fall_asleep ticks_chan) c.procs inside in
    elim (Bool-cases (ltb k n)) [
      | inl less ↦
          rw (passed, less, alive, sleep_segment)
            (record {
              now = now;
              inside = omega (arith, length-update i (fall_asleep ticks_chan) c.procs);
              alive = ap (λ (p : Proc). p.killed) slot ∙ alive;
              stage = rw slot (asleep refl refl (ground arith));
            })
      | inr enough ↦
          rw (passed, enough, sleep_segment)
            (record { now = now; inside = inside; alive = alive; stage = over (ground arith) })
    ]

wake_up_call :
    (n k : ℕ) (p : Proc) (r : Option ℤ) → Stage n k p r → Stage n (k + 1) (wake ticks_chan p) r
unfolding wake
wake_up_call n k p r (over le) = over (omega arith)
wake_up_call n k p r (ready e) =
    let no : (is_sleeping p.state && is_chan p.chan ticks_chan) ≡ false = ground arith in
    rw (no, wake) (ready e)
wake_up_call n k p r (asleep e f lt) =
    let yes : (is_sleeping p.state && is_chan p.chan ticks_chan) ≡ true = rw (e, f) refl in
    rw (yes, wake) (ready refl)

wake-killed : (p : Proc) → (wake ticks_chan p).killed ≡ p.killed
unfolding wake
wake-killed p = elim (Bool-cases (is_sleeping p.state && is_chan p.chan ticks_chan)) [
  | inl e ↦ rw (e, wake) refl
  | inr e ↦ rw (e, wake) refl
]

-- A change of another slot.
other_slot :
    (i j : ℕ) (f : Proc → Proc) (ps : List Proc) → i ≢ j → proc_at i (update j f ps) ≡ proc_at i ps
unfolding update
other_slot i j f [] ne = refl
other_slot zero zero f (p ∷ ps) ne = absurd (ne refl)
other_slot zero (suc j) f (p ∷ ps) ne = refl
other_slot (suc i) zero f (p ∷ ps) ne = refl
other_slot (suc i) (suc j) f (p ∷ ps) ne = other_slot i j f ps (λ e. ne (ap suc e))

tick-After :
    (start n i k : ℕ) (w : Waiting)
    → After start n i k w
    → After start n i (k + 1) (record w { clock = on_timer_tick 0 w.clock })
unfolding on_timer_tick
tick-After start n i k w a =
    let slot = proc_at-wakeup ticks_chan i w.clock.procs in
    record {
      now = (let e = a.now in omega arith);
      inside = omega (arith, a.inside, length-wakeup ticks_chan w.clock.procs);
      alive = ap (λ (p : Proc). p.killed) slot ∙ wake-killed (proc_at i w.clock.procs) ∙ a.alive;
      stage = rw slot (wake_up_call n k (proc_at i w.clock.procs) w.returned a.stage);
    }

resume-After :
    (start n i k : ℕ) (c : Clock)
    → start < 2 ^ 32
    → k < 2 ^ 32
    → c.ticks ≡ (start + k) % 2 ^ 32
    → i < length c.procs
    → (proc_at i c.procs).killed ≡ false
    → (let (r, c') = resume start n i c in After start n i k (record { clock = c'; returned = r }))
unfolding resume wake_up
resume-After start n i k c ls lk now inside alive =
    let f : Proc → Proc = λ p. wake_up (record p { state = running }) in
    segment-After start n i k (record c { procs = update i f c.procs }) ls lk now
      (omega (arith, length-update i f c.procs))
      (ap (λ (p : Proc). p.killed) (at_slot i f c.procs inside) ∙ alive)

take_up-After :
    (start n i k : ℕ) (c : Clock) (r : Option ℤ)
    → start < 2 ^ 32
    → k < 2 ^ 32
    → c.ticks ≡ (start + k) % 2 ^ 32
    → i < length c.procs
    → (proc_at i c.procs).killed ≡ false
    → Stage n k (proc_at i c.procs) r
    → After start n i k (event start n i take_up (record { clock = c; returned = r }))
unfolding event
take_up-After start n i k c r ls lk now inside alive (over le) = record {
  now = now;
  inside = inside;
  alive = alive;
  stage = over le;
}
take_up-After start n i k c r ls lk now inside alive (ready e) =
    rw (e, event) (resume-After start n i k c ls lk now inside alive)
take_up-After start n i k c r ls lk now inside alive (asleep e f lt) =
    rw (e, event) (record { now = now; inside = inside; alive = alive; stage = asleep e f lt })

other-After :
    (start n i k j : ℕ) (p : Proc) (w : Waiting)
    → After start n i k w
    → After start n i k (event start n i (other j p) w)
unfolding event
other-After start n i k j p w a = elim (Bool-cases (j == i)) [
  | inl e ↦ rw (e, event) a
  | inr e ↦
      let slot : proc_at i (update j (λ q. p) w.clock.procs) ≡ proc_at i w.clock.procs =
        other_slot i j (λ q. p) w.clock.procs (λ z. ground arith) in
      rw (e, event)
        (record {
          now = a.now;
          inside = omega (arith, a.inside, length-update j (λ q. p) w.clock.procs);
          alive = ap (λ (q : Proc). q.killed) slot ∙ a.alive;
          stage = rw slot a.stage;
        })
]

event-After :
    (start n i k k' : ℕ) (e : Event) (w : Waiting)
    → start < 2 ^ 32
    → k' < 2 ^ 32
    → k' ≡ k + counts e
    → After start n i k w
    → After start n i k' (event start n i e w)
unfolding event on_timer_tick
event-After start n i k k' (tick hart) w ls lk q a = elim (Bool-cases (hart == 0)) [
  | inl e ↦
      let z : hart ≡ 0 = ground arith in
      let q' : k' ≡ k + 1 = ground arith in rw (q', z) (tick-After start n i k w a)
  | inr e ↦ let q' : k' ≡ k = ground arith in rw (q', e, event, on_timer_tick) a
]
event-After start n i k k' take_up w ls lk q a =
    let q' : k' ≡ k = omega arith in
    rw q'
      (take_up-After start n i k w.clock w.returned ls (omega arith) a.now a.inside a.alive a.stage)
event-After start n i k k' (other j p) w ls lk q a =
    let q' : k' ≡ k = omega arith in rw q' (other-After start n i k j p w a)

events-After :
    (start n i k k' : ℕ) (es : List Event) (w : Waiting)
    → start < 2 ^ 32
    → k' < 2 ^ 32
    → k' ≡ k + ticks_of es
    → After start n i k w
    → After start n i k' (events start n i es w)
unfolding events ticks_of
events-After start n i k k' [] w ls lk q a = let q' : k' ≡ k = omega arith in rw q' a
events-After start n i k k' (e ∷ es) w ls lk q a =
    events-After start n i (k + counts e) k' es (event start n i e w) ls lk (omega arith)
      (event-After start n i k (k + counts e) e w ls (omega arith) refl a)

events-append :
    (start n i : ℕ) (es fs : List Event) (w : Waiting)
    → events start n i (es ++ fs) w ≡ events start n i fs (events start n i es w)
unfolding events
events-append start n i [] fs w = refl
events-append start n i (e ∷ es) fs w = events-append start n i es fs (event start n i e w)

segment-returned :
    (start n i k : ℕ) (c : Clock)
    → start < 2 ^ 32
    → k < 2 ^ 32
    → c.ticks ≡ (start + k) % 2 ^ 32
    → (proc_at i c.procs).killed ≡ false
    → (sleep_segment start n i c).0 ≡ (if leb n k then some (pos 0) else none)
unfolding sleep_segment
segment-returned start n i k c ls lk now alive =
    let passed : sub32 c.ticks start ≡ k = omega arith in
    elim (Bool-cases (ltb k n)) [
      | inl less ↦
          let no : leb n k ≡ false = ground arith in
          rw (passed, less, alive, no, sleep_segment) refl
      | inr enough ↦
          let yes : leb n k ≡ true = ground arith in rw (passed, enough, yes, sleep_segment) refl
    ]

-- When the process has had its turn, it has returned exactly if enough ticks have come.
turn-returned :
    (start n i k : ℕ) (c : Clock) (r : Option ℤ)
    → start < 2 ^ 32
    → k < 2 ^ 32
    → c.ticks ≡ (start + k) % 2 ^ 32
    → Stage n k (proc_at i c.procs) r
    → i < length c.procs
    → (proc_at i c.procs).killed ≡ false
    → (event start n i take_up (record { clock = c; returned = r })).returned
      ≡ (if leb n k then some (pos 0) else none)
unfolding event resume wake_up
turn-returned start n i k c r ls lk now (over le) inside alive =
    let yes : leb n k ≡ true = ground arith in rw yes refl
turn-returned start n i k c r ls lk now (asleep e f lt) inside alive =
    let no : leb n k ≡ false = ground arith in rw (e, no, event) refl
turn-returned start n i k c r ls lk now (ready e) inside alive =
    let f : Proc → Proc = λ p. wake_up (record p { state = running }) in
    rw (e, event)
      (segment-returned start n i k (record c { procs = update i f c.procs }) ls lk now
        (ap (λ (p : Proc). p.killed) (at_slot i f c.procs inside) ∙ alive))

-- A call of `ticks_sleep` by a process of the table that is not killed, with a 32-bit counter of ticks, wrapped
-- or not: after any events among which there are fewer than 2 ^ 32 ticks of hart 0, and once the scheduler takes up the process, the
-- call has returned 0 if n of these ticks have come, and has not returned if fewer have.
pub ticks_sleep-returned :
    (n i : ℕ) (c : Clock) (es : List Event)
    → c.ticks < 2 ^ 32
    → i < length c.procs
    → (proc_at i c.procs).killed ≡ false
    → ticks_of es < 2 ^ 32
    → (events c.ticks n i (es ++ take_up ∷ []) (ticks_sleep n i c)).returned
      ≡ (if leb n (ticks_of es) then some (pos 0) else none)
unfolding events
ticks_sleep-returned n i c es lt inside alive few =
    let a =
      events-After c.ticks n i 0 (ticks_of es) es (ticks_sleep n i c) lt few (omega arith)
        (segment-After c.ticks n i 0 c lt (omega arith) (omega arith) inside alive) in
    let w = events c.ticks n i es (ticks_sleep n i c) in
    ap (λ (v : Waiting). v.returned)
      (events-append c.ticks n i es (take_up ∷ []) (ticks_sleep n i c))
    ∙ turn-returned c.ticks n i (ticks_of es) w.clock w.returned lt few a.now a.stage a.inside
        a.alive
