-- ===== src/Proc/Parents.antt =====
-- What `proc_exit` of kernel/core/proc.c leaves to the children, to the parent and to init.
use ustc_26spring.Common.{
  ℕ, zero, suc, ◌+◌, ◌<◌, ◌≡◌, ◌≢◌, refl, ap, ◌∙◌, ◌⊎◌, inl, inr, false, ◌==◌, ◌&&◌, Option, none,
  some, List, [], ◌∷◌, length, replicate, true, arith, Bool-cases,
}
use ustc_26spring.Common.Int.{ℤ}
use ustc_26spring.Common.Result.{ok}
use ustc_26spring.Proc.Table.{
  sleeping, runnable, zombie, is_sleeping, Proc, Table, update, Chan, slot_chan, is_chan, nofile,
}
use ustc_26spring.Proc.Sched.{wake, wakeup}
use ustc_26spring.Proc.Slots.{
  proc_at-wakeup, length-wakeup, proc_at-update, length-update, wake-kept, new_parent,
  reparent-parent,
}
use ustc_26spring.Proc.Exit.{
  proc_at, is_parent, adopt, reparent, wake_parent, close_all, dead_proc, bury, proc_exit, Exited,
  open_files,
}

-- What a change of a slot keeps of each process, it keeps in the table.
update_keeps :
    {A : Type 0} (of : Proc → A) (i m : ℕ) (f : Proc → Proc) (ps : List Proc)
    → ((p : Proc) → of (f p) ≡ of p)
    → of (proc_at m (update i f ps)) ≡ of (proc_at m ps)
unfolding update
update_keeps of i m f [] same = refl
update_keeps of zero zero f (p ∷ ps) same = same p
update_keeps of zero (suc m) f (p ∷ ps) same = refl
update_keeps of (suc i) zero f (p ∷ ps) same = refl
update_keeps of (suc i) (suc m) f (p ∷ ps) same = update_keeps of i m f ps same

update-parent :
    (i m : ℕ) (f : Proc → Proc) (ps : List Proc)
    → ((p : Proc) → (f p).parent ≡ p.parent)
    → (proc_at m (update i f ps)).parent ≡ (proc_at m ps).parent
update-parent i m f ps same = update_keeps (λ p. p.parent) i m f ps same

-- What a process holds: its open files and its working directory.
abbrev holds : Proc → List (Option ℕ) × Option ℕ
holds p = (p.ofile, p.cwd)

wake-holds : (c : Chan) (p : Proc) → holds (wake c p) ≡ holds p
unfolding wake
wake-holds c p = elim (Bool-cases (is_sleeping p.state && is_chan p.chan c)) [
  | inl e ↦ rw (e, wake) refl
  | inr e ↦ rw (e, wake) refl
]

wakeup-holds :
    (c : Chan) (m : ℕ) (ps : List Proc) → holds (proc_at m (wakeup c ps)) ≡ holds (proc_at m ps)
wakeup-holds c m ps = ap holds (proc_at-wakeup c m ps) ∙ wake-holds c (proc_at m ps)

reparent-holds :
    (i init k j m : ℕ) (ps : List Proc)
    → holds (proc_at m (reparent i init k j ps)) ≡ holds (proc_at m ps)
unfolding reparent
reparent-holds i init zero j m ps = refl
reparent-holds i init (suc k) j m ps = elim (Bool-cases (is_parent (proc_at j ps).parent i)) [
  | inl child ↦
      rw (child, reparent)
        (reparent-holds i init k (j + 1) m (wakeup (slot_chan init) (update j (adopt init) ps))
          ∙ wakeup-holds (slot_chan init) m (update j (adopt init) ps)
          ∙ update_keeps holds j m (adopt init) ps (λ p. refl))
  | inr other ↦ rw (other, reparent) (reparent-holds i init k (j + 1) m ps)
]

wake_parent-holds :
    (o : Option ℕ) (m : ℕ) (ps : List Proc)
    → holds (proc_at m (wake_parent o ps)) ≡ holds (proc_at m ps)
unfolding wake_parent
wake_parent-holds none m ps = refl
wake_parent-holds (some j) m ps = wakeup-holds (slot_chan j) m ps

bury-holds :
    (i init m : ℕ) (status : ℤ) (ps : List Proc)
    → holds (proc_at m (bury i init status ps)) ≡ holds (proc_at m ps)
unfolding bury
bury-holds i init m status ps =
    let qs = reparent i init (length ps) 0 ps in
    update_keeps holds i m (dead_proc status) (wake_parent (proc_at i qs).parent qs) (λ p. refl)
    ∙ wake_parent-holds (proc_at i qs).parent m qs
    ∙ reparent-holds i init (length ps) 0 m ps

wakeup-parent :
    (c : Chan) (m : ℕ) (ps : List Proc) → (proc_at m (wakeup c ps)).parent ≡ (proc_at m ps).parent
wakeup-parent c m ps =
    ap (λ (p : Proc). p.parent) (proc_at-wakeup c m ps) ∙ (wake-kept c (proc_at m ps)).0

wake_parent-parent :
    (o : Option ℕ) (m : ℕ) (ps : List Proc)
    → (proc_at m (wake_parent o ps)).parent ≡ (proc_at m ps).parent
unfolding wake_parent
wake_parent-parent none m ps = refl
wake_parent-parent (some j) m ps = wakeup-parent (slot_chan j) m ps

wake_parent-length : (o : Option ℕ) (ps : List Proc) → length (wake_parent o ps) ≡ length ps
unfolding wake_parent
wake_parent-length none ps = refl
wake_parent-length (some j) ps = length-wakeup (slot_chan j) ps

reparent-length : (i init k j : ℕ) (ps : List Proc) → length (reparent i init k j ps) ≡ length ps
unfolding reparent
reparent-length i init zero j ps = refl
reparent-length i init (suc k) j ps = elim (Bool-cases (is_parent (proc_at j ps).parent i)) [
  | inl child ↦
      rw (child, reparent)
        (reparent-length i init k (j + 1) (wakeup (slot_chan init) (update j (adopt init) ps))
          ∙ length-wakeup (slot_chan init) (update j (adopt init) ps)
          ∙ length-update j (adopt init) ps)
  | inr other ↦ rw (other, reparent) (reparent-length i init k (j + 1) ps)
]

-- A process that was runnable stays so, and a sleeper is woken or sleeps on.
abbrev Rested : Proc → Proc → Type 0
Rested p q = (q.state ≡ runnable) ⊎ ((q.state ≡ p.state) × (q.chan ≡ p.chan))

wake-Rested : (c : Chan) (p : Proc) → Rested p (wake c p)
unfolding wake
wake-Rested c p = elim (Bool-cases (is_sleeping p.state && is_chan p.chan c)) [
  | inl e ↦ rw (e, wake) (inl refl)
  | inr e ↦ rw (e, wake) (inr (refl, refl))
]

Rested-trans :
    (p q r : Proc)
    → Rested p q
    → (q.state ≡ runnable → r.state ≡ runnable)
    → Rested q r
    → Rested p r
Rested-trans p q r (inl a) keep b = inl (keep a)
Rested-trans p q r (inr a) keep (inl b) = inl b
Rested-trans p q r (inr a) keep (inr b) = inr (b.0 ∙ a.0, b.1 ∙ a.1)

wake_runnable : (c : Chan) (p : Proc) → p.state ≡ runnable → (wake c p).state ≡ runnable
unfolding wake
wake_runnable c p e = ground arith

adopt-Rested :
    (c : Chan) (init j m : ℕ) (ps : List Proc)
    → j < length ps
    → Rested (proc_at m ps) (proc_at m (wakeup c (update j (adopt init) ps)))
adopt-Rested c init j m ps h =
    rw (proc_at-wakeup c m (update j (adopt init) ps), proc_at-update j m (adopt init) ps h)
      (elim (Bool-cases (m == j)) [
        | inl e ↦ rw e (wake-Rested c (adopt init (proc_at m ps)))
        | inr e ↦ rw e (wake-Rested c (proc_at m ps))
      ])

reparent_runnable :
    (i init k j m : ℕ) (ps : List Proc)
    → j + k ≡ length ps
    → (proc_at m ps).state ≡ runnable
    → (proc_at m (reparent i init k j ps)).state ≡ runnable
unfolding reparent
reparent_runnable i init zero j m ps e h = h
reparent_runnable i init (suc k) j m ps e h =
    elim (Bool-cases (is_parent (proc_at j ps).parent i)) [
      | inl child ↦
          rw (child, reparent)
            (reparent_runnable i init k (j + 1) m
              (wakeup (slot_chan init) (update j (adopt init) ps))
              (omega (
                arith,
                length-wakeup (slot_chan init) (update j (adopt init) ps),
                length-update j (adopt init) ps,
              ))
              (elim (adopt-Rested (slot_chan init) init j m ps (omega arith)) [
                | inl a ↦ a
                | inr a ↦ a.0 ∙ h
              ]))
      | inr other ↦ rw (other, reparent) (reparent_runnable i init k (j + 1) m ps (omega arith) h)
    ]

reparent-Rested :
    (i init k j m : ℕ) (ps : List Proc)
    → j + k ≡ length ps
    → Rested (proc_at m ps) (proc_at m (reparent i init k j ps))
unfolding reparent
reparent-Rested i init zero j m ps e = inr (refl, refl)
reparent-Rested i init (suc k) j m ps e = elim (Bool-cases (is_parent (proc_at j ps).parent i)) [
  | inl child ↦
      rw (child, reparent)
        (Rested-trans (proc_at m ps)
          (proc_at m (wakeup (slot_chan init) (update j (adopt init) ps)))
          (proc_at m
            (reparent i init k (j + 1) (wakeup (slot_chan init) (update j (adopt init) ps))))
          (adopt-Rested (slot_chan init) init j m ps (omega arith))
          (reparent_runnable i init k (j + 1) m (wakeup (slot_chan init) (update j (adopt init) ps))
            after)
          (reparent-Rested i init k (j + 1) m (wakeup (slot_chan init) (update j (adopt init) ps))
            after))
  | inr other ↦ rw (other, reparent) (reparent-Rested i init k (j + 1) m ps (omega arith))
]
  where
    after : j + 1 + k ≡ length (wakeup (slot_chan init) (update j (adopt init) ps))
    after = omega (
      arith,
      length-wakeup (slot_chan init) (update j (adopt init) ps),
      length-update j (adopt init) ps,
    )

bury-parent :
    (i init m : ℕ) (status : ℤ) (ps : List Proc)
    → (proc_at m (bury i init status ps)).parent ≡ new_parent i init (proc_at m ps).parent
unfolding bury
bury-parent i init m status ps =
    let qs = reparent i init (length ps) 0 ps in
    update-parent i m (dead_proc status) (wake_parent (proc_at i qs).parent qs) (λ p. refl)
    ∙ wake_parent-parent (proc_at i qs).parent m qs
    ∙ reparent-parent i init m ps

bury_dead :
    (i init : ℕ) (status : ℤ) (ps : List Proc)
    → i < length ps
    → ((proc_at i (bury i init status ps)).state ≡ zombie)
      × ((proc_at i (bury i init status ps)).xstate ≡ status)
unfolding bury
bury_dead i init status ps h =
    let qs = reparent i init (length ps) 0 ps in
    let rs = wake_parent (proc_at i qs).parent qs in
    let size : i < length rs = omega (
      arith,
      wake_parent-length (proc_at i qs).parent qs,
      reparent-length i init (length ps) 0 ps,
    ) in
    rw (proc_at-update i i (dead_proc status) rs size) (ground arith)

wake_sleeper :
    (j : ℕ) (p q : Proc)
    → Rested p q
    → p.state ≡ sleeping
    → p.chan ≡ some (slot_chan j)
    → (wake (slot_chan j) q).state ≡ runnable
unfolding wake
wake_sleeper j p q (inl a) s c = ground arith
wake_sleeper j p q (inr a) s c = ground arith

bury_wakes :
    (i init j : ℕ) (status : ℤ) (ps : List Proc)
    → i < length ps
    → j ≢ i
    → (proc_at i (reparent i init (length ps) 0 ps)).parent ≡ some j
    → (proc_at j ps).state ≡ sleeping
    → (proc_at j ps).chan ≡ some (slot_chan j)
    → (proc_at j (bury i init status ps)).state ≡ runnable
unfolding bury wake_parent
bury_wakes i init j status ps h ne e s c =
    let qs = reparent i init (length ps) 0 ps in
    rw (e, bury, wake_parent)
      (let other : (j == i) ≡ false = ground arith in
        rw
          (
            proc_at-update i j (dead_proc status) (wakeup (slot_chan j) qs) (
                omega
                  (arith, length-wakeup (slot_chan j) qs, reparent-length i init (length ps) 0 ps)),
            other,
            proc_at-wakeup (slot_chan j) j qs,
          )
          (wake_sleeper j (proc_at j ps) (proc_at j qs)
            (reparent-Rested i init (length ps) 0 j ps (omega arith)) s c))

-- What `proc_exit` of process i leaves. Every child of i has init as its parent, and every other
-- process the parent that it had; i is a zombie with its status, no open file and no working directory; and
-- its parent, if it sleeps in `wait`, is runnable. Its files are closed once for each descriptor, and its
-- directory is put.
pub record Leaves (i : ℕ) (status : ℤ) (t : Table) (e : Exited) : Type 0 where
  pub parents :
      (m : ℕ) → (proc_at m e.procs).parent ≡ new_parent i t.initproc (proc_at m t.procs).parent
  pub dead : ((proc_at i e.procs).state ≡ zombie) × ((proc_at i e.procs).xstate ≡ status)
  pub empty : (open_files (proc_at i e.procs).ofile ≡ []) × ((proc_at i e.procs).cwd ≡ none)
  pub woken :
      (j : ℕ)
      → j ≢ i
      → (proc_at i t.procs).parent ≡ some j
      → (proc_at j t.procs).state ≡ sleeping
      → (proc_at j t.procs).chan ≡ some (slot_chan j)
      → (proc_at j e.procs).state ≡ runnable
  pub closed : e.closes ≡ open_files (proc_at i t.procs).ofile
  pub put : e.puts ≡ (proc_at i t.procs).cwd

proc_exit_done :
    (i : ℕ) (status : ℤ) (t : Table)
    → i < length t.procs
    → Leaves i status t (record {
      procs = bury i t.initproc status (update i close_all t.procs);
      closes = open_files (proc_at i t.procs).ofile;
      puts = (proc_at i t.procs).cwd;
    })
proc_exit_done i status t h =
    let ps = update i close_all t.procs in
    let size : i < length ps = omega (arith, length-update i close_all t.procs) in
    record {
      parents = λ m.
          bury-parent i t.initproc m status ps
          ∙ ap (new_parent i t.initproc) (update-parent i m close_all t.procs (λ p. refl));
      dead = bury_dead i t.initproc status ps size;
      woken = λ j ne e s c.
          let other : (j == i) ≡ false = ground arith in
          let kept = proc_at-update i j close_all t.procs h in
          let same : proc_at j ps ≡ proc_at j t.procs = rw other at kept in
          bury_wakes i t.initproc j status ps size ne
            (reparent-parent i t.initproc i ps
              ∙ ap (new_parent i t.initproc) (update-parent i i close_all t.procs (λ p. refl) ∙ e)
              ∙ rw other refl)
            (ap (λ (p : Proc). p.state) same ∙ s) (ap (λ (p : Proc). p.chan) same ∙ c);
      empty = (ap open_files (ap (λ h. h.0) (gone ps refl)), ap (λ h. h.1) (gone ps refl));
      closed = refl;
      put = refl;
    }
  where
    gone :
        (ps : List Proc)
        → ps ≡ update i close_all t.procs
        → holds (proc_at i (bury i t.initproc status ps)) ≡ (replicate nofile none, none)
    gone ps e =
        let self : (i == i) ≡ true = ground arith in
        let closed = proc_at-update i i close_all t.procs h in
        bury-holds i t.initproc i status ps
        ∙ ap (λ qs. holds (proc_at i qs)) e
        ∙ ap holds (rw self at closed)

-- A process of the table other than init exits without a panic. Then its children have init as
-- their parent and all others the parent they had, it is a zombie with its status, it has no open
-- files and no working directory left, which are handed on to be closed and put, and a parent that sleeps in `wait` is runnable.
pub proc_exit-Leaves :
    (i : ℕ) (status : ℤ) (t : Table)
    → i < length t.procs
    → i ≢ t.initproc
    → (e : Exited) × (proc_exit i status t ≡ ok e) × Leaves i status t e
unfolding proc_exit
proc_exit-Leaves i status t h ne = (_, ground arith, proc_exit_done i status t h)
