-- ===== src/Proc/Slots.antt =====
-- What wakeups, changes of a slot and the loop of `proc_exit` over the children in
-- kernel/core/proc.c do to the process of a slot.
use ustc_26spring.Common.{
  ℕ, zero, suc, ◌+◌, ◌≤◌, ◌<◌, ◌≡◌, refl, sym, ap, ◌∙◌, inl, inr, true, false, ◌==◌, ◌&&◌,
  if◌then◌else◌, Option, some, List, [], ◌∷◌, length, arith, leb, Bool-cases,
}
use ustc_26spring.Proc.Table.{
  runnable, is_sleeping, Proc, empty_proc, update, Chan, slot_chan, is_chan,
}
use ustc_26spring.Proc.Sched.{wake, wakeup}
use ustc_26spring.Proc.Exit.{proc_at, is_parent, adopt, reparent}

pub proc_at-wakeup :
    (c : Chan) (i : ℕ) (ps : List Proc) → proc_at i (wakeup c ps) ≡ wake c (proc_at i ps)
unfolding wakeup wake
proc_at-wakeup c i [] = refl
proc_at-wakeup c zero (p ∷ ps) = refl
proc_at-wakeup c (suc i) (p ∷ ps) = proc_at-wakeup c i ps

pub length-wakeup : (c : Chan) (ps : List Proc) → length (wakeup c ps) ≡ length ps
unfolding wakeup
length-wakeup c [] = refl
length-wakeup c (p ∷ ps) = ap suc (length-wakeup c ps)

pub proc_at-update :
    (i m : ℕ) (f : Proc → Proc) (ps : List Proc)
    → i < length ps
    → proc_at m (update i f ps) ≡ (if m == i then f (proc_at m ps) else proc_at m ps)
unfolding update
proc_at-update i m f [] h = absurd (omega arith)
proc_at-update zero zero f (p ∷ ps) h = refl
proc_at-update zero (suc m) f (p ∷ ps) h = ground arith
proc_at-update (suc i) zero f (p ∷ ps) h = ground arith
proc_at-update (suc i) (suc m) f (p ∷ ps) h = ground (arith, proc_at-update i m f ps)

pub length-update : (i : ℕ) (f : Proc → Proc) (ps : List Proc) → length (update i f ps) ≡ length ps
unfolding update
length-update i f [] = refl
length-update zero f (p ∷ ps) = refl
length-update (suc i) f (p ∷ ps) = ap suc (length-update i f ps)

proc_at_out : (i : ℕ) (ps : List Proc) → length ps ≤ i → proc_at i ps ≡ empty_proc
proc_at_out i [] h = refl
proc_at_out zero (p ∷ ps) h = absurd (omega arith)
proc_at_out (suc i) (p ∷ ps) h = proc_at_out i ps (omega arith)

-- What a wakeup leaves of a process.
pub wake-kept :
    (c : Chan) (p : Proc)
    → ((wake c p).parent ≡ p.parent)
      × ((wake c p).pid ≡ p.pid)
      × ((wake c p).state ≡ (if is_sleeping p.state && is_chan p.chan c then runnable else p.state))
unfolding wake
wake-kept c p = ground arith

-- The parent of a process after its children's loop.
abbrev pub new_parent : ℕ → ℕ → Option ℕ → Option ℕ
new_parent i init o = if is_parent o i then some init else o

adopt_step :
    (c : Chan) (init j m : ℕ) (ps : List Proc)
    → j < length ps
    → (proc_at m (wakeup c (update j (adopt init) ps))).parent
      ≡ (if m == j then some init else (proc_at m ps).parent)
adopt_step c init j m ps h =
    ap (λ (p : Proc). p.parent) (proc_at-wakeup c m (update j (adopt init) ps))
    ∙ (wake-kept c (proc_at m (update j (adopt init) ps))).0
    ∙ ground (arith, proc_at-update j m (adopt init) ps)

-- The loop gives process m to init if m is a child of i at or behind the loop's slot.
reparent_lem :
    (i init k j m : ℕ) (ps : List Proc)
    → j + k ≡ length ps
    → (proc_at m (reparent i init k j ps)).parent
      ≡ (if leb j m then new_parent i init (proc_at m ps).parent else (proc_at m ps).parent)
unfolding reparent
reparent_lem i init zero j m ps e = ground (arith, proc_at_out m ps)
reparent_lem i init (suc k) j m ps e = elim (Bool-cases (is_parent (proc_at j ps).parent i)) [
  | inl child ↦
      rw (child, reparent)
        (reparent_lem i init k (j + 1) m (wakeup (slot_chan init) (update j (adopt init) ps)) (
            length_step
            ∙ sym (
                length-wakeup (slot_chan init) (update j (adopt init) ps)
                ∙ length-update j (adopt init) ps))
          ∙ settle child)
  | inr other ↦ rw (other, reparent) (reparent_lem i init k (j + 1) m ps length_step ∙ skip other)
]
  where
    length_step : j + 1 + k ≡ length ps
    length_step = omega arith

    settle :
        is_parent (proc_at j ps).parent i ≡ true
        → (if leb (j + 1) m
            then new_parent i init
                (proc_at m (wakeup (slot_chan init) (update j (adopt init) ps))).parent
            else (proc_at m (wakeup (slot_chan init) (update j (adopt init) ps))).parent)
          ≡ (if leb j m then new_parent i init (proc_at m ps).parent else (proc_at m ps).parent)
    settle child =
        rw (adopt_step (slot_chan init) init j m ps (omega arith)) (elim (Bool-cases (m == j)) [
          | inl at ↦ let same : m ≡ j = ground arith in rw same (ground arith)
          | inr ne ↦ ground arith
        ])

    skip :
        is_parent (proc_at j ps).parent i ≡ false
        → (if leb (j + 1) m then new_parent i init (proc_at m ps).parent else (proc_at m ps).parent)
          ≡ (if leb j m then new_parent i init (proc_at m ps).parent else (proc_at m ps).parent)
    skip other = elim (Bool-cases (m == j)) [
      | inl at ↦ let same : m ≡ j = ground arith in rw same (ground arith)
      | inr ne ↦ ground arith
    ]

-- The loop over the whole table gives every child of i to init, and moves no other process.
pub reparent-parent :
    (i init m : ℕ) (ps : List Proc)
    → (proc_at m (reparent i init (length ps) 0 ps)).parent
      ≡ new_parent i init (proc_at m ps).parent
reparent-parent i init m ps = reparent_lem i init (length ps) 0 m ps (omega arith) ∙ ground arith
