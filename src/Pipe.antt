-- ===== src/Pipe.antt =====
-- The pipe of kernel/core/pipe.c: a ring of 512 bytes with wrapping 32-bit counters.
-- `piperead` and `pipewrite` run with the pipe's lock held and give it up only in `sleep`, so a
-- call is a sequence of segments: each runs to the next `sleep` or to the return.
pub mod Fifo
pub mod Segments
pub mod Stream
pub mod Tests
use ustc_26spring.Common.{
  ℕ, zero, suc, ◌+◌, ◌%◌, Bool, true, false, ◌&&◌, ◌||◌, not, Option, none, some, List, [], ◌∷◌,
  ◌==◌, get_or, set,
}
use ustc_26spring.Common.Word.{add32, add64}

abbrev pub pipe_size : ℕ
pipe_size = 512

-- `struct pipe` without its lock.
pub record Pipe : Type 0 where
  pub bytes : List ℕ
  pub nread : ℕ
  pub nwrite : ℕ
  pub readopen : Bool
  pub writeopen : Bool

-- The channels that sleepers wait on: the addresses of the two counters.
pub data Chan : Type 0 where
  nread_chan nwrite_chan : Chan

-- How a segment ends: the call returns (`none` is -1), or it sleeps with its loop variable.
pub data Outcome : Type 0 where
  returned : Option ℕ → Outcome
  asleep : Chan → ℕ → Outcome

-- What a segment of `pipewrite` leaves: the pipe, the bytes it stored, how it ends, and the
-- channels it woke.
pub record Written : Type 0 where
  pub pipe : Pipe
  pub sent : List ℕ
  pub outcome : Outcome
  pub woken : List Chan

-- What the reading loop leaves.
pub record Taken : Type 0 where
  pub pipe : Pipe
  pub count : ℕ
  pub delivered : List ℕ
  pub lost : List ℕ

-- What a segment of `piperead` leaves.
pub record Read : Type 0 where
  pub taken : Taken
  pub outcome : Outcome
  pub woken : List Chan

abbrev pub nothing : Pipe → Taken
nothing p = record { pipe = p; count = 0; delivered = []; lost = [] }

-- The pipe that `pipealloc` sets up in a fresh page, whose bytes are those of the page.
pub fresh : List ℕ → Pipe
fresh page = record { bytes = page; nread = 0; nwrite = 0; readopen = true; writeopen = true }

abbrev pub is_empty : Pipe → Bool
is_empty p = p.nread == p.nwrite

abbrev pub is_full : Pipe → Bool
is_full p = p.nwrite == add32 p.nread pipe_size

-- pi->data[pi->nwrite % PIPESIZE] = ch; pi->nwrite++;
pub push : Pipe → ℕ → Pipe
push p ch = record p { bytes = set p.bytes (p.nwrite % pipe_size) ch; nwrite = add32 p.nwrite 1 }

-- ch = pi->data[pi->nread % PIPESIZE];
pub front : Pipe → ℕ
front p = get_or p.bytes (p.nread % pipe_size) 0

-- pi->nread++;
pub advance : Pipe → Pipe
advance p = record p { nread = add32 p.nread 1 }

-- The process that calls: `copyin` of one byte of its memory, `copyout` of one byte to it, and
-- what `p->killed` reads in the round of the loop with counter i.
pub record Caller : Type 0 where
  pub copyin : ℕ → Option ℕ
  pub copyout : ℕ → ℕ → Bool
  pub killed : ℕ → Bool

module _ (c : Caller) (addr : ℕ) where
  -- A segment of `pipewrite`, from its start (i = 0) or from a wakeup, with k = n - i rounds left.
  pub write_segment : ℕ → ℕ → Pipe → Written
  unfolding push
  write_segment zero i p = record {
    pipe = p;
    sent = [];
    outcome = returned (some i);
    woken = nread_chan ∷ [];
  }
  write_segment (suc k) i p = elim (not p.readopen || c.killed i) [
    | true ↦ record { pipe = p; sent = []; outcome = returned none; woken = [] }
    | false ↦ elim (is_full p) [
      | true ↦ record {
        pipe = p;
        sent = [];
        outcome = asleep nwrite_chan i;
        woken = nread_chan ∷ [];
      }
      | false ↦ elim (c.copyin (add64 addr i)) [
        | none ↦ record {
          pipe = p;
          sent = [];
          outcome = returned (some i);
          woken = nread_chan ∷ [];
        }
        | some ch ↦
            let rest = write_segment k (i + 1) (push p ch) in record rest { sent = ch ∷ rest.sent }
      ]
    ]
  ]

  -- The second loop of `piperead` with k = n - i rounds left. `delivered` reached the caller's
  -- memory; `lost` is the byte taken from the ring whose `copyout` failed.
  pub read_loop : ℕ → ℕ → Pipe → Taken
  unfolding front advance
  read_loop zero i p = record { pipe = p; count = i; delivered = []; lost = [] }
  read_loop (suc k) i p = elim (is_empty p) [
    | true ↦ record { pipe = p; count = i; delivered = []; lost = [] }
    | false ↦ elim (c.copyout (add64 addr i) (front p)) [
      | false ↦ record { pipe = advance p; count = i; delivered = []; lost = front p ∷ [] }
      | true ↦
          let rest = read_loop k (i + 1) (advance p) in
          record rest { delivered = front p ∷ rest.delivered }
    ]
  ]

  -- A segment of `piperead` of n bytes: the wait for a byte or for the last writer to close, then
  -- the loop. `killed 0` is what the wait reads.
  pub read_segment : ℕ → Pipe → Read
  unfolding read_loop
  read_segment n p = elim (is_empty p && p.writeopen) [
    | true ↦ elim (c.killed 0) [
      | true ↦ record { taken = nothing p; outcome = returned none; woken = [] }
      | false ↦ record { taken = nothing p; outcome = asleep nread_chan 0; woken = [] }
    ]
    | false ↦
        let t = read_loop n 0 p in
        record { taken = t; outcome = returned (some t.count); woken = nwrite_chan ∷ [] }
  ]

-- `pipeclose`: the pipe, the channel woken, and whether the page is freed.
pub close : Bool → Pipe → Pipe × Chan × Bool
close true p = (record p { writeopen = false }, nread_chan, not p.readopen)
close false p = (record p { readopen = false }, nwrite_chan, not p.writeopen)
