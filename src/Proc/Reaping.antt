-- ===== src/Proc/Reaping.antt =====
-- The segments of `wait` in kernel/core/proc.c: what each outcome says of the children.
use ustc_26spring.Common.{
  ℕ, suc, ◌+◌, ◌<◌, ◌≡◌, ◌≢◌, ◌==◌, refl, ap, ◌∙◌, ◌⊎◌, inl, inr, Bool, true, false, ◌&&◌, Option,
  none, some, List, [], ◌∷◌, All, length, arith, Bool-cases,
}
use ustc_26spring.Common.Int.{ℤ, pos}
use ustc_26spring.Proc.Table.{Proc, unused, empty_proc, is_zombie, update, slot_chan}
use ustc_26spring.Proc.Slots.{proc_at-update, length-update}
use ustc_26spring.Proc.Exit.{proc_at, is_parent, open_files}
use ustc_26spring.Proc.Wait.{scan_children, Waited, returned, asleep, wait_segment, freed}

-- A process is no zombie child of i; it is no child of i.
abbrev pub NoZombie : ℕ → List Proc → Type 0
NoZombie i ps = All (λ p. (is_parent p.parent i && is_zombie p.state) ≡ false) ps

abbrev pub NoChild : ℕ → List Proc → Type 0
NoChild i ps = All (λ p. is_parent p.parent i ≡ false) ps

-- The three results of the scan from slot j on.
pub data Scans (i j : ℕ) (kids : Bool) (ps : List Proc) (r : Option ℕ × Bool) : Type 0 where
  found :
      (m : ℕ)
      → m < length ps
      → r.0 ≡ some (j + m)
      → is_parent (proc_at m ps).parent i ≡ true
      → is_zombie (proc_at m ps).state ≡ true
      → Scans i j kids ps r
  living : r ≡ (none, true) → NoZombie i ps → (kids ≡ true) ⊎ (¬ NoChild i ps) → Scans i j kids ps r
  childless : r ≡ (none, kids) → kids ≡ false → NoChild i ps → Scans i j kids ps r

scan_behind :
    (i j : ℕ) (kids more : Bool) (p : Proc) (ps : List Proc) {r : Option ℕ × Bool}
    → (is_parent p.parent i && is_zombie p.state) ≡ false
    → ((is_parent p.parent i ≡ false) × (more ≡ kids))
      ⊎ ((is_parent p.parent i ≡ true) × (more ≡ true))
    → Scans i (j + 1) more ps r
    → Scans i j kids (p ∷ ps) r
scan_behind i j kids more p ps nz kind (found m lt e c z) =
    found (suc m) (omega arith) (e ∙ ap some (omega arith)) c z
scan_behind i j kids more p ps nz (inl (other, same)) (living e nzs (inl k)) =
    living e (nz, nzs) (inl (ground arith))
scan_behind i j kids more p ps nz (inl (other, same)) (living e nzs (inr k)) =
    living e (nz, nzs) (inr (λ h. k h.1))
scan_behind i j kids more p ps nz (inr (child, same)) (living e nzs k) =
    living e (nz, nzs) (inr (λ h. ground (arith, h.0)))
scan_behind i j kids more p ps nz (inl (other, same)) (childless e k nc) =
    childless (ground arith) (ground arith) (other, nc)
scan_behind i j kids more p ps nz (inr (child, same)) (childless e k nc) = absurd (ground arith)

scan_children-Scans :
    (i j : ℕ) (kids : Bool) (ps : List Proc) → Scans i j kids ps (scan_children i j kids ps)
unfolding scan_children
scan_children-Scans i j true [] = living refl tt (inl refl)
scan_children-Scans i j false [] = childless refl refl tt
scan_children-Scans i j kids (p ∷ ps) = elim (Bool-cases (is_parent p.parent i)) [
  | inr other ↦
      rw (other, scan_children)
        (scan_behind i j kids kids p ps (ground arith) (inl (other, refl))
          (scan_children-Scans i (j + 1) kids ps))
  | inl child ↦ elim (Bool-cases (is_zombie p.state)) [
    | inl z ↦ rw (child, z, scan_children) (found 0 (omega arith) (ap some (omega arith)) child z)
    | inr nz ↦
        rw (child, nz, scan_children)
          (scan_behind i j kids true p ps (ground arith) (inr (child, refl))
            (scan_children-Scans i (j + 1) true ps))
  ]
]

-- Slot m is free again: its process is of no parent, on no channel, not killed and without files, and
-- no other slot changes.
pub record Frees (m : ℕ) (ps qs : List Proc) : Type 0 where
  pub free : (proc_at m qs).state ≡ unused
  pub nobody :
      ((proc_at m qs).pid ≡ 0)
      × ((proc_at m qs).parent ≡ none)
      × ((proc_at m qs).chan ≡ none)
      × ((proc_at m qs).killed ≡ false)
      × ((proc_at m qs).xstate ≡ pos 0)
      × (open_files (proc_at m qs).ofile ≡ [])
      × ((proc_at m qs).cwd ≡ none)
  pub others : (j : ℕ) → j ≢ m → proc_at j qs ≡ proc_at j ps
  pub size : length qs ≡ length ps

update-Frees : (m : ℕ) (ps : List Proc) → m < length ps → Frees m ps (update m freed ps)
update-Frees m ps lt =
    let self : (m == m) ≡ true = ground arith in
    let here : proc_at m (update m freed ps) ≡ empty_proc =
      proc_at-update m m freed ps lt ∙ rw self refl in
    record {
      free = ap (λ (p : Proc). p.state) here;
      nobody = rw here (refl, refl, refl, refl, refl, refl, refl);
      others = λ j ne.
          (let other : (j == m) ≡ false = ground arith in
            proc_at-update m j freed ps lt ∙ rw other refl);
      size = length-update m freed ps;
    }

-- The ways in which a segment of `wait` of process i ends.
pub data Waits (copyout : ℤ → Bool) (i : ℕ) (ps : List Proc) (r : Waited × List Proc) : Type 0 where
  reaped :
      (m : ℕ)
      → m < length ps
      → is_parent (proc_at m ps).parent i ≡ true
      → is_zombie (proc_at m ps).state ≡ true
      → copyout (proc_at m ps).xstate ≡ true
      → r.0 ≡ returned (some (proc_at m ps).pid)
      → Frees m ps r.1
      → Waits copyout i ps r
  unread :
      (m : ℕ)
      → m < length ps
      → is_parent (proc_at m ps).parent i ≡ true
      → is_zombie (proc_at m ps).state ≡ true
      → copyout (proc_at m ps).xstate ≡ false
      → r ≡ (returned none, ps)
      → Waits copyout i ps r
  childless : NoChild i ps → r ≡ (returned none, ps) → Waits copyout i ps r
  killed :
      NoZombie i ps
      → ¬ NoChild i ps
      → (proc_at i ps).killed ≡ true
      → r ≡ (returned none, ps)
      → Waits copyout i ps r
  slept :
      NoZombie i ps
      → ¬ NoChild i ps
      → (proc_at i ps).killed ≡ false
      → r ≡ (asleep (slot_chan i), ps)
      → Waits copyout i ps r

reaped_by :
    {copyout : ℤ → Bool} {i : ℕ} {ps : List Proc} {r : Waited × List Proc} (m : ℕ)
    → m < length ps
    → is_parent (proc_at m ps).parent i ≡ true
    → is_zombie (proc_at m ps).state ≡ true
    → copyout (proc_at m ps).xstate ≡ true
    → r ≡ (returned (some (proc_at m ps).pid), update m freed ps)
    → Waits copyout i ps r
reaped_by {ps = ps} m lt c z o e = rw e (reaped m lt c z o refl (update-Frees m ps lt))

wait_by :
    (copyout : ℤ → Bool) (i : ℕ) (ps : List Proc) (s : Option ℕ × Bool)
    → scan_children i 0 false ps ≡ s
    → Scans i 0 false ps s
    → Waits copyout i ps (wait_segment copyout i ps)
unfolding wait_segment
wait_by copyout i ps s e (found m lt at c z) =
    let here : s.0 ≡ some m = at ∙ ap some (omega arith) in
    elim (Bool-cases (copyout (proc_at m ps).xstate)) [
      | inl o ↦ reaped_by m lt c z o (ground arith)
      | inr o ↦ unread m lt c z o (ground arith)
    ]
wait_by copyout i ps s e (living at nz (inl k)) = absurd (ground arith)
wait_by copyout i ps s e (living at nz (inr k)) = elim (Bool-cases (proc_at i ps).killed) [
  | inl d ↦ killed nz k d (ground arith)
  | inr d ↦ slept nz k d (ground arith)
]
wait_by copyout i ps s e (childless at k nc) = childless nc (ground arith)

-- A segment of `wait` returns the pid of a zombie child and frees its slot, which is unused and
-- empty then, with no other slot changed; or it returns -1 if the status of
-- a zombie child cannot be copied out, if there is no child, or if the caller is killed and no
-- child is a zombie; it sleeps, on its own slot, only if it has a child, none of them a zombie,
-- and is not killed. In the last four cases the table is unchanged.
pub wait_segment-Waits :
    (copyout : ℤ → Bool) (i : ℕ) (ps : List Proc) → Waits copyout i ps (wait_segment copyout i ps)
wait_segment-Waits copyout i ps =
    wait_by copyout i ps (scan_children i 0 false ps) refl (scan_children-Scans i 0 false ps)
