-- ===== src/Pipe/Tests.antt =====
-- Pipes of kernel/core/pipe.c on a small input.
use ustc_26spring.Common.{
  ℕ, ◌≡◌, ◌≤◌, ◌<◌, ◌+◌, ◌⊎◌, refl, true, none, some, List, [], ◌∷◌, ◌++◌, ltb, arith, length,
  replicate,
}
use ustc_26spring.Pipe.{pipe_size, fresh, Caller, push, write_segment, read_segment, returned}
use ustc_26spring.Pipe.Fifo.{IsValid, contents}
use ustc_26spring.Pipe.Segments.{
  Writes, Reads, write_segment-Writes, read_segment-Reads, killed_writer_is_silent,
}
use ustc_26spring.Pipe.Stream.{
  Stream, start, after_write, after_read, here, next, writes, reads, Run-fifo,
}

abbrev page : List ℕ
page = replicate pipe_size 0

-- Its byte at each address is the address; it is killed in the second round.
abbrev caller : Caller
caller = record { copyin = λ a. some a; copyout = λ a x. true; killed = λ i. ltb 0 i }

fresh-IsValid : IsValid (fresh page)
unfolding fresh
fresh-IsValid = record {
  storage = refl;
  read_word = omega arith;
  write_word = omega arith;
  bounded = omega arith;
}

write_segment-Writes_example :
    Writes caller 7 2 0 (fresh page) (write_segment caller 7 2 0 (fresh page))
write_segment-Writes_example = write_segment-Writes caller 7 2 0 (fresh page) fresh-IsValid

read_segment-Reads_example : Reads caller 7 2 (fresh page) (read_segment caller 7 2 (fresh page))
read_segment-Reads_example = read_segment-Reads caller 7 2 (fresh page) fresh-IsValid

killed_writer_is_silent_example :
    let w = write_segment caller 7 3 0 (fresh page) in
    (0 + length w.sent < 1)
    ⊎ ((0 + length w.sent ≡ 1)
        × (contents w.pipe ≡ contents (fresh page) ++ w.sent)
        × (w.outcome ≡ returned none)
        × (w.woken ≡ []))
killed_writer_is_silent_example =
    killed_writer_is_silent caller 7 3 0 1 (fresh page) fresh-IsValid refl (omega arith)
      (omega arith)

-- It does come to the byte.
killed_writer_stores : (write_segment caller 7 3 0 (fresh page)).sent ≡ 7 ∷ []
unfolding fresh write_segment push
killed_writer_stores = refl

abbrev written : Stream
written = after_write (start page) (write_segment caller 7 1 0 (start page).pipe)

abbrev both : Stream
both = after_read written (read_segment caller 0 5 written.pipe).taken

Run-fifo_example :
    (both.stored ≡ both.removed ++ contents both.pipe) × (length (contents both.pipe) ≤ pipe_size)
Run-fifo_example = Run-fifo page refl (next (next here (writes caller 7 1 0)) (reads caller 0 5))
