-- ===== src/Proc/Sched.antt =====
-- Sleeping, waking, killing and scheduling in kernel/core/proc.c.
use ustc_26spring.Common.{
  ℕ, ◌+◌, ◌≡◌, ◌≢◌, refl, ap, ◌⊎◌, inl, inr, Bool, true, false, ◌&&◌, not, ◌==◌, if◌then◌else◌,
  Option, none, some, List, [], ◌∷◌, ◌++◌, All, arith, Bool-cases,
}
use ustc_26spring.Proc.Table.{
  unused, sleeping, runnable, running, is_unused, is_sleeping, is_runnable, Chan, is_chan, Proc,
}

-- `wakeup` at one process.
unfoldable pub wake : Chan → Proc → Proc
wake c p = if is_sleeping p.state && is_chan p.chan c then record p { state = runnable } else p

unfoldable pub wakeup : Chan → List Proc → List Proc
unfolding wake
wakeup c [] = []
wakeup c (p ∷ ps) = wake c p ∷ wakeup c ps

-- `sleep` of a process up to the switch to the scheduler, and after it.
unfoldable pub fall_asleep : Chan → Proc → Proc
fall_asleep c p = record p { chan = some c; state = sleeping }

unfoldable pub wake_up : Proc → Proc
wake_up p = record p { chan = none }

-- `yield` up to the switch.
unfoldable pub yield : Proc → Proc
yield p = record p { state = runnable }

-- One round of `scheduler`: the first runnable process from slot i on starts to run.
unfoldable pub schedule : ℕ → List Proc → Option (ℕ × List Proc)
schedule i [] = none
schedule i (p ∷ ps) = elim (is_runnable p.state) [
  | true ↦ some (i, record p { state = running } ∷ ps)
  | false ↦ elim (schedule (i + 1) ps) [ none ↦ none | some (j, qs) ↦ some (j, p ∷ qs) ]
]

abbrev pub killed_proc : Proc → Proc
killed_proc p = record p {
  killed = true;
  state = if is_sleeping p.state then runnable else p.state;
}

-- `kill`: whether it returns 0, and the table.
unfoldable pub kill : ℕ → List Proc → Bool × List Proc
kill pid [] = (false, [])
kill pid (p ∷ ps) = elim (p.pid == pid && not (is_unused p.state)) [
  | true ↦ (true, killed_proc p ∷ ps)
  | false ↦ let (found, qs) = kill pid ps in (found, p ∷ qs)
]

-- The same process but for its state and its channel.
abbrev pub Moves : Proc → Proc → Type 0
Moves p q = (q.pid ≡ p.pid) × (q.parent ≡ p.parent) × (q.killed ≡ p.killed) × (q.ofile ≡ p.ofile)

-- What `wakeup` of a channel does to one process.
pub data Woken (c : Chan) (p q : Proc) : Type 0 where
  woke :
      p.state ≡ sleeping → is_chan p.chan c ≡ true → q ≡ record p { state = runnable } → Woken c p q
  left : (p.state ≢ sleeping) ⊎ (is_chan p.chan c ≡ false) → q ≡ p → Woken c p q

-- Two tables related slot by slot.
pub data Slots (R : Proc → Proc → Type 0) : List Proc → List Proc → Type 0 where
  nil : Slots R [] []
  cons : {p q : Proc} {ps qs : List Proc} → R p q → Slots R ps qs → Slots R (p ∷ ps) (q ∷ qs)

wake-Woken : (c : Chan) (p : Proc) → Woken c p (wake c p)
unfolding wake
wake-Woken c p = elim (Bool-cases (is_sleeping p.state && is_chan p.chan c)) [
  | inl e ↦ rw (e, wake) (woke (ground arith) (ground arith) refl)
  | inr e ↦
      rw (e, wake)
        (left
          (elim (Bool-cases (is_chan p.chan c)) [ inl f ↦ inl (λ s. ground arith) | inr f ↦ inr f ])
          refl)
]

-- `wakeup` makes exactly the processes that sleep on the channel runnable, and changes nothing
-- else in the table.
wakeup-Woken : (c : Chan) (ps : List Proc) → Slots (Woken c) ps (wakeup c ps)
unfolding wakeup
wakeup-Woken c [] = nil
wakeup-Woken c (p ∷ ps) = cons (wake-Woken c p) (wakeup-Woken c ps)

-- A second `wakeup` of the channel finds nobody asleep on it.
pub wakeup-wakeup : (c : Chan) (ps : List Proc) → wakeup c (wakeup c ps) ≡ wakeup c ps
unfolding wakeup wake
wakeup-wakeup c [] = refl
wakeup-wakeup c (p ∷ ps) = ground (arith, wakeup-wakeup c ps)

-- The first process with the pid in use.
abbrev pub NotPid : ℕ → List Proc → Type 0
NotPid pid ps = All (λ p. (p.pid == pid && not (is_unused p.state)) ≡ false) ps

-- Process q is process p killed: a sleeper is runnable, and no other state changes, nor any other field.
pub record IsKilled (p q : Proc) : Type 0 where
  pub killed : q.killed ≡ true
  pub woken :
      ((p.state ≡ sleeping) × (q.state ≡ runnable)) ⊎ ((p.state ≢ sleeping) × (q.state ≡ p.state))
  pub kept :
      (q.pid ≡ p.pid)
      × (q.chan ≡ p.chan)
      × (q.xstate ≡ p.xstate)
      × (q.parent ≡ p.parent)
      × (q.cwd ≡ p.cwd)
      × (q.ofile ≡ p.ofile)

killed_proc-IsKilled : (p : Proc) → IsKilled p (killed_proc p)
killed_proc-IsKilled p = record {
  killed = refl;
  woken = elim (Bool-cases (is_sleeping p.state)) [
    | inl e ↦ rw e (inl (ground arith, refl))
    | inr e ↦ rw e (inr ((λ z. ground arith), refl))
  ];
  kept = (refl, refl, refl, refl, refl, refl);
}

-- The two outcomes of `kill`.
pub data Kills (pid : ℕ) (ps : List Proc) (r : Bool × List Proc) : Type 0 where
  missing : NotPid pid ps → r ≡ (false, ps) → Kills pid ps r
  marked :
      (before : List Proc) (p q : Proc) (after : List Proc)
      → NotPid pid before
      → p.pid ≡ pid
      → p.state ≢ unused
      → IsKilled p q
      → ps ≡ before ++ p ∷ after
      → r ≡ (true, before ++ q ∷ after)
      → Kills pid ps r

kill_cons :
    (pid : ℕ) (p : Proc) (ps : List Proc) {r : Bool × List Proc}
    → (p.pid == pid && not (is_unused p.state)) ≡ false
    → Kills pid ps r
    → Kills pid (p ∷ ps) (r.0, p ∷ r.1)
kill_cons pid p ps ne (missing h e) = missing (ne, h) (rw e refl)
kill_cons pid p ps ne (marked before q q2 after h at busy k e f) =
    marked (p ∷ before) q q2 after (ne, h) at busy k (ap (λ l. p ∷ l) e) (rw f refl)

-- `kill` returns -1 and changes nothing if no process in use has the pid; else it returns 0, and
-- only the first process in use with the pid changes: its killed flag is set, and it is runnable if
-- it slept.
pub kill-Kills : (pid : ℕ) (ps : List Proc) → Kills pid ps (kill pid ps)
unfolding kill
kill-Kills pid [] = missing tt refl
kill-Kills pid (p ∷ ps) = elim (Bool-cases (p.pid == pid && not (is_unused p.state))) [
  | inl e ↦
      rw (e, kill)
        (marked [] p (killed_proc p) ps tt (ground arith) (λ u. ground arith)
          (killed_proc-IsKilled p) refl refl)
  | inr e ↦ rw (e, kill) (kill_cons pid p ps e (kill-Kills pid ps))
]
