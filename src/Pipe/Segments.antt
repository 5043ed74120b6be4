-- ===== src/Pipe/Segments.antt =====
-- What a segment of `pipewrite` and of `piperead` in kernel/core/pipe.c does, on every branch.
use ustc_26spring.Common.{
  ℕ, zero, suc, ◌+◌, ◌≤◌, ◌<◌, ◌≡◌, ◌==◌, refl, sym, ap, ◌∙◌, ◌⊎◌, inl, inr, true, false, ◌||◌,
  ◌&&◌, not, none, some, List, [], ◌∷◌, ◌++◌, append_assoc, append-nil, arith, length, Bool-cases,
  Option-cases,
}
use mathlib.Core.Path.{subst}
use ustc_26spring.Common.Word.{add64}
use ustc_26spring.Pipe.{
  Pipe, Chan, nread_chan, nwrite_chan, Outcome, returned, asleep, Caller, Written, Taken, Read,
  push, front, advance, is_empty, is_full, write_segment, read_loop, read_segment, nothing,
}
use ustc_26spring.Pipe.Fifo.{
  IsValid, contents, push-IsValid, contents-push, advance-IsValid, contents-advance,
}

module _ (c : Caller) (addr : ℕ) where
  -- The bytes xs stand in the caller's memory from addr + i on.
  abbrev pub Copied : ℕ → List ℕ → Type 0
  Copied i [] = Unit
  Copied i (x ∷ xs) = (c.copyin (add64 addr i) ≡ some x) × Copied (i + 1) xs

  -- At byte j there is a reader, and the caller is not killed.
  abbrev pub GoesOn : ℕ → Pipe → Type 0
  GoesOn j q = (q.readopen ≡ true) × (c.killed j ≡ false)

  -- So it was at each of the bytes xs from byte i on, in the pipe q that is left.
  abbrev pub Allowed : ℕ → List ℕ → Pipe → Type 0
  Allowed i [] q = Unit
  Allowed i (x ∷ xs) q = GoesOn i q × Allowed (i + 1) xs q

  -- Why a segment of `pipewrite` stopped when the next byte was byte j of the call, in pipe q.
  abbrev pub Stops : ℕ → ℕ → Pipe → Outcome → List Chan → Type 0
  Stops j n q (returned (some m)) woken =
      (m ≡ j)
      × ((j ≡ n) ⊎ (GoesOn j q × (is_full q ≡ false) × (c.copyin (add64 addr j) ≡ none)))
      × (woken ≡ nread_chan ∷ [])
  Stops j n q (returned none) woken =
      (j < n) × ((q.readopen ≡ false) ⊎ (c.killed j ≡ true)) × (woken ≡ [])
  Stops j n q (asleep ch m) woken =
      (j < n)
      × (ch ≡ nwrite_chan)
      × (m ≡ j)
      × GoesOn j q
      × (is_full q ≡ true)
      × (woken ≡ nread_chan ∷ [])

  pub record Writes (k i : ℕ) (p : Pipe) (w : Written) : Type 0 where
    pub valid : IsValid w.pipe
    pub appends : contents w.pipe ≡ contents p ++ w.sent
    pub copied : Copied i w.sent
    pub allowed : Allowed i w.sent w.pipe
    pub same_reader : w.pipe.readopen ≡ p.readopen
    pub stops : Stops (i + length w.sent) (i + k) w.pipe w.outcome w.woken

  pushed : (p : Pipe) (ch : ℕ) → (push p ch).readopen ≡ p.readopen
  unfolding push
  pushed p ch = refl

  stored :
      (k i : ℕ) (p : Pipe) (v : IsValid p) (ch : ℕ)
      → is_full p ≡ false
      → c.copyin (add64 addr i) ≡ some ch
      → GoesOn i p
      → {w : Written} → Writes k (i + 1) (push p ch) w
      → Writes (suc k) i p (record w { sent = ch ∷ w.sent })
  stored k i p v ch room e (reader, alive) {w} ih = record {
    valid = ih.valid;
    appends =
        ih.appends ∙ rw (contents-push p v ch room) (append_assoc (contents p) (ch ∷ []) w.sent);
    copied = (e, ih.copied);
    allowed = ((ih.same_reader ∙ pushed p ch ∙ reader, alive), ih.allowed);
    same_reader = ih.same_reader ∙ pushed p ch;
    stops = (rw (here, total) ih.stops);
  }
    where
      here : i + suc (length w.sent) ≡ i + 1 + length w.sent
      here = omega arith

      total : i + suc k ≡ i + 1 + k
      total = omega arith

  -- From a valid pipe a segment of `pipewrite` keeps the pipe valid and appends the caller's next
  -- bytes in order, each when there is a reader and the caller is not killed. It stops at the first byte
  -- for which one of these holds, in this order: the reader is gone or the caller is killed, then
  -- it returns -1; the ring is full, then it sleeps; `copyin` fails, then it returns the count of bytes so far.
  -- When none is left it returns their count. It wakes the readers unless it returns -1.
  pub write_segment-Writes :
      (k i : ℕ) (p : Pipe) → IsValid p → Writes k i p (write_segment c addr k i p)
  unfolding write_segment
  write_segment-Writes zero i p v = record {
    valid = v;
    appends = sym (append-nil (contents p));
    copied = tt;
    allowed = tt;
    same_reader = refl;
    stops = (omega arith, inl (omega arith), refl);
  }
  write_segment-Writes (suc k) i p v = elim (Bool-cases (not p.readopen || c.killed i)) [
    | inl gone ↦
        rw (gone, write_segment)
          (record {
            valid = v;
            appends = sym (append-nil (contents p));
            copied = tt;
            allowed = tt;
            same_reader = refl;
            stops = (omega arith, ground arith, refl);
          })
    | inr here ↦
        let on : GoesOn i p = (ground arith, ground arith) in
        let at : i + length {A = ℕ} [] ≡ i = omega arith in
        rw (here, write_segment)
          (elim (Bool-cases (is_full p)) [
            | inl full ↦ rw full (record {
              valid = v;
              appends = sym (append-nil (contents p));
              copied = tt;
              allowed = tt;
              same_reader = refl;
              stops = (omega arith, refl, omega arith, rw at on, full, refl);
            })
            | inr room ↦ rw room (elim (Option-cases (c.copyin (add64 addr i))) [
              | inl e ↦ rw e (record {
                valid = v;
                appends = sym (append-nil (contents p));
                copied = tt;
                allowed = tt;
                same_reader = refl;
                stops = (omega arith, inr (rw at (on, room, e)), refl);
              })
              | inr (ch, e) ↦ rw e (
                  stored k i p v ch room e on
                    (write_segment-Writes k (i + 1) (push p ch) (push-IsValid p v ch room)))
            ])
          ])
  ]

  -- The bytes xs reached the caller's memory from addr + i on.
  abbrev pub Placed : ℕ → List ℕ → Type 0
  Placed i [] = Unit
  Placed i (x ∷ xs) = (c.copyout (add64 addr i) x ≡ true) × Placed (i + 1) xs

  -- Why the reading loop stopped.
  abbrev pub Lost : ℕ → ℕ → Taken → Type 0
  Lost j n t =
      ((t.lost ≡ []) × ((j ≡ n) ⊎ (is_empty t.pipe ≡ true)))
      ⊎ ((x : ℕ) × (t.lost ≡ x ∷ []) × (c.copyout (add64 addr j) x ≡ false))

  pub record Takes (k i : ℕ) (p : Pipe) (t : Taken) : Type 0 where
    pub valid : IsValid t.pipe
    pub removes : contents p ≡ t.delivered ++ (t.lost ++ contents t.pipe)
    pub placed : Placed i t.delivered
    pub counted : t.count ≡ i + length t.delivered
    pub rest : Lost (i + length t.delivered) (i + k) t

  placed_one :
      (k i : ℕ) (p : Pipe) (v : IsValid p)
      → is_empty p ≡ false
      → c.copyout (add64 addr i) (front p) ≡ true
      → {t : Taken} → Takes k (i + 1) (advance p) t
      → Takes (suc k) i p (record t { delivered = front p ∷ t.delivered })
  placed_one k i p v more ok {t} ih = record {
    valid = ih.valid;
    removes = contents-advance p v more ∙ ap (λ l. front p ∷ l) ih.removes;
    placed = (ok, ih.placed);
    counted = let c = ih.counted in omega arith;
    rest = (rw (here, total) ih.rest);
  }
    where
      here : i + suc (length t.delivered) ≡ i + 1 + length t.delivered
      here = omega arith

      total : i + suc k ≡ i + 1 + k
      total = omega arith

  read_loop-Takes : (k i : ℕ) (p : Pipe) → IsValid p → Takes k i p (read_loop c addr k i p)
  unfolding read_loop
  read_loop-Takes zero i p v = record {
    valid = v;
    removes = refl;
    placed = tt;
    counted = omega arith;
    rest = inl (refl, inl (omega arith));
  }
  read_loop-Takes (suc k) i p v = elim (Bool-cases (is_empty p)) [
    | inl e ↦
        rw (e, read_loop)
          (record {
            valid = v;
            removes = refl;
            placed = tt;
            counted = omega arith;
            rest = inl (refl, inr e);
          })
    | inr more ↦
        rw (more, read_loop)
          (elim (Bool-cases (c.copyout (add64 addr i) (front p))) [
            | inl ok ↦ rw ok (
                placed_one k i p v more ok
                  (read_loop-Takes k (i + 1) (advance p) (advance-IsValid p v more)))
            | inr bad ↦ rw bad (record {
              valid = advance-IsValid p v more;
              removes = contents-advance p v more;
              placed = tt;
              counted = omega arith;
              rest = inr (
                front p,
                refl,
                subst (λ j. c.copyout (add64 addr j) (front p) ≡ false) (omega arith) bad,
              );
            })
          ])
  ]

  -- The three ways in which a segment of `piperead` of n bytes ends.
  pub data Reads (n : ℕ) (p : Pipe) (r : Read) : Type 0 where
    slept :
        is_empty p ≡ true
        → p.writeopen ≡ true
        → c.killed 0 ≡ false
        → r.taken ≡ nothing p
        → r.outcome ≡ asleep nread_chan 0
        → Reads n p r
    killed :
        is_empty p ≡ true
        → p.writeopen ≡ true
        → c.killed 0 ≡ true
        → r.taken ≡ nothing p
        → r.outcome ≡ returned none
        → Reads n p r
    read :
        (is_empty p ≡ true → p.writeopen ≡ false)
        → Takes n 0 p r.taken
        → r.outcome ≡ returned (some (length r.taken.delivered))
        → r.woken ≡ nwrite_chan ∷ []
        → Reads n p r

  -- A segment of `piperead` on a valid pipe: on an empty ring with a writer left it sleeps on
  -- `nread`, or returns -1 if the caller is killed, with the pipe untouched. Else it removes the
  -- oldest bytes in order, puts them into the caller's memory, returns their count and wakes the
  -- writers; it stops before n bytes only if the ring runs empty or a `copyout` fails, and then
  -- one byte is lost.
  pub read_segment-Reads : (n : ℕ) (p : Pipe) → IsValid p → Reads n p (read_segment c addr n p)
  unfolding read_segment
  read_segment-Reads n p v = elim (Bool-cases (is_empty p && p.writeopen)) [
    | inl wait ↦
        rw (wait, read_segment)
          (elim (Bool-cases (c.killed 0)) [
            | inl k ↦ rw k (killed (ground arith) (ground arith) k refl refl)
            | inr k ↦ rw k (slept (ground arith) (ground arith) k refl refl)
          ])
    | inr go ↦
        rw (go, read_segment)
          (read (λ e. ground arith) (read_loop-Takes n 0 p v)
            (ap (λ m. returned (some m)) ((read_loop-Takes n 0 p v).counted ∙ omega arith)) refl)
  ]

  -- A caller that is killed at byte j is not allowed past it.
  Allowed-killed :
      (i j : ℕ) (xs : List ℕ) (q : Pipe)
      → Allowed i xs q
      → c.killed j ≡ true
      → i ≤ j
      → i + length xs ≤ j
  Allowed-killed i j [] q a dead le = omega arith
  Allowed-killed i j (x ∷ xs) q ((reader, alive), a) dead le = elim (Bool-cases (i == j)) [
    | inl same ↦ let z : i ≡ j = ground arith in cc (rw z at alive, dead)
    | inr other ↦ omega (arith, Allowed-killed (i + 1) j xs q a dead (ground arith))
  ]

  Stops-killed :
      (j n : ℕ) (q : Pipe) (o : Outcome) (woken : List Chan)
      → Stops j n q o woken
      → c.killed j ≡ true
      → j < n
      → (o ≡ returned none) × (woken ≡ [])
  Stops-killed j n q (returned (some m)) woken (e, inl end, w) dead lt = absurd (omega arith)
  Stops-killed j n q (returned (some m)) woken (e, inr ((reader, alive), room, bad), w) dead lt = cc
  Stops-killed j n q (returned none) woken (l, why, w) dead lt = (refl, w)
  Stops-killed j n q (asleep ch m) woken (l, e, f, (reader, alive), full, w) dead lt = cc

  -- When the caller of `pipewrite` is killed at byte j, one of the bytes i to i + k - 1 that a segment on a valid pipe
  -- has left to write, the segment stops before it, or it comes to it: then it has stored the bytes before it
  -- in the ring, and returns -1 without a wakeup for the readers.
  pub killed_writer_is_silent :
      (k i j : ℕ) (p : Pipe)
      → IsValid p
      → c.killed j ≡ true
      → i ≤ j
      → j < i + k
      → let w = write_segment c addr k i p in
        (i + length w.sent < j)
        ⊎ ((i + length w.sent ≡ j)
            × (contents w.pipe ≡ contents p ++ w.sent)
            × (w.outcome ≡ returned none)
            × (w.woken ≡ []))
  killed_writer_is_silent k i j p v dead le lt =
      let w = write_segment c addr k i p in
      let f = write_segment-Writes k i p v in
      let far = Allowed-killed i j w.sent w.pipe f.allowed dead le in
      elim (Bool-cases (i + length w.sent == j)) [
        | inl there ↦
            let z : i + length w.sent ≡ j = ground arith in
            let s = Stops-killed j (i + k) w.pipe w.outcome w.woken (rw z at f.stops) dead lt in
            inr (z, f.appends, s.0, s.1)
        | inr before ↦ inl (ground arith)
      ]
