-- ===== src/Pipe/Stream.antt =====
-- A pipe of kernel/core/pipe.c shared by any number of readers and writers. The lock makes each
-- segment atomic, so a run is a sequence of segments of any callers, in any order, and of closes.
use ustc_26spring.Common.{
  ℕ, ◌≤◌, ◌≡◌, refl, ◌∙◌, Bool, true, false, List, [], ◌++◌, append_assoc, append-nil, arith,
  length,
}
use ustc_26spring.Pipe.{
  Pipe, pipe_size, fresh, Caller, Written, Taken, nothing, Read, write_segment, read_segment, close,
}
use ustc_26spring.Pipe.Fifo.{IsValid, contents, length-contents}
use ustc_26spring.Pipe.Segments.{
  Writes, Reads, slept, killed, read, write_segment-Writes, read_segment-Reads,
}

-- A pipe with the bytes that writers have stored in it and the bytes that readers have taken out,
-- oldest first.
pub record Stream : Type 0 where
  pub pipe : Pipe
  pub stored : List ℕ
  pub removed : List ℕ

abbrev pub after_write : Stream → Written → Stream
after_write s w = record s { pipe = w.pipe; stored = s.stored ++ w.sent }

abbrev pub after_read : Stream → Taken → Stream
after_read s t = record s { pipe = t.pipe; removed = s.removed ++ (t.delivered ++ t.lost) }

abbrev pub after_close : Stream → Bool → Stream
after_close s writable = record s { pipe = (close writable s.pipe).0 }

pub data Step (s : Stream) : Stream → Type 0 where
  writes : (c : Caller) (addr k i : ℕ) → Step s (after_write s (write_segment c addr k i s.pipe))
  reads : (c : Caller) (addr n : ℕ) → Step s (after_read s (read_segment c addr n s.pipe).taken)
  closes : (writable : Bool) → Step s (after_close s writable)

pub data Run (s : Stream) : Stream → Type 0 where
  here : Run s s
  next : {t u : Stream} → Run s t → Step t u → Run s u

pub record IsFaithful (s : Stream) : Type 0 where
  pub valid : IsValid s.pipe
  pub kept : s.stored ≡ s.removed ++ contents s.pipe

close-IsFaithful : (b : Bool) (s : Stream) → IsFaithful s → IsFaithful (after_close s b)
unfolding close
close-IsFaithful true s f = record { valid = omega arith; kept = f.kept }
close-IsFaithful false s f = record { valid = omega arith; kept = f.kept }

write-IsFaithful :
    (s : Stream) {w : Written} {c : Caller} {addr k i : ℕ}
    → IsFaithful s
    → Writes c addr k i s.pipe w
    → IsFaithful (after_write s w)
write-IsFaithful s {w} f h = record {
  valid = h.valid;
  kept = rw (f.kept, h.appends) (append_assoc s.removed (contents s.pipe) w.sent);
}

unread : (s : Stream) {t : Taken} → IsFaithful s → t ≡ nothing s.pipe → IsFaithful (after_read s t)
unread s f e = rw e (record { valid = f.valid; kept = f.kept ∙ rw append-nil })

read-IsFaithful :
    (s : Stream) {r : Read} {c : Caller} {addr n : ℕ}
    → IsFaithful s
    → Reads c addr n s.pipe r
    → IsFaithful (after_read s r.taken)
read-IsFaithful s f (slept _ _ _ e _) = unread s f e
read-IsFaithful s f (killed _ _ _ e _) = unread s f e
read-IsFaithful s {r} f (read _ t _ _) = record {
  valid = t.valid;
  kept = f.kept ∙ rw t.removes (simp append_assoc);
}

Step-IsFaithful : {s t : Stream} → Step s t → IsFaithful s → IsFaithful t
Step-IsFaithful {s} (writes c addr k i) f =
    write-IsFaithful s f (write_segment-Writes c addr k i s.pipe f.valid)
Step-IsFaithful {s} (reads c addr n) f =
    read-IsFaithful s f (read_segment-Reads c addr n s.pipe f.valid)
Step-IsFaithful {s} (closes b) f = close-IsFaithful b s f

Run-IsFaithful : {s t : Stream} → IsFaithful s → Run s t → IsFaithful t
Run-IsFaithful f here = f
Run-IsFaithful f (next r st) = Step-IsFaithful st (Run-IsFaithful f r)

pub start : List ℕ → Stream
start page = record { pipe = fresh page; stored = []; removed = [] }

-- Whatever segments of readers and writers and closes follow one another on a new pipe, the bytes taken out
-- are the first of the bytes stored, in the order of the stores, and what is missing is in the
-- ring, which never holds more than 512 bytes.
pub Run-fifo :
    (page : List ℕ) {t : Stream}
    → length page ≡ pipe_size
    → Run (start page) t
    → (t.stored ≡ t.removed ++ contents t.pipe) × (length (contents t.pipe) ≤ pipe_size)
unfolding start fresh
Run-fifo page h r =
    let f = Run-IsFaithful (record { valid = omega arith; kept = refl }) r in
    (f.kept, omega (arith, length-contents _, f.valid))
