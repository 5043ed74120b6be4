-- ===== src/Console.antt =====
-- The console of kernel/core/console.c: a ring of 128 bytes with three wrapping counters, of the
-- next byte to read, of the end of the committed lines and of the end of the line in edit. Each
-- function holds the console's lock, but for the sleep of `consoleread`.
pub mod Lines
pub mod Edit
pub mod Input
pub mod Tests
use ustc_26spring.Common.{
  ℕ, zero, suc, ◌+◌, ◌%◌, Bool, true, false, ◌&&◌, ◌||◌, not, ltb, ◌==◌, if◌then◌else◌, Option,
  none, some, List, [], ◌∷◌, ◌++◌, get_or, set, replicate,
}
use ustc_26spring.Common.Word.{add32, sub32, add64}

abbrev pub input_buf : ℕ
input_buf = 128

pub record Console : Type 0 where
  pub buf : List ℕ
  pub r : ℕ
  pub w : ℕ
  pub e : ℕ

-- `consoleinit`: the buffer is static, and so zeroed.
unfoldable pub consoleinit : Console
consoleinit = record { buf = replicate input_buf 0; r = 0; w = 0; e = 0 }

abbrev pub newline : ℕ
newline = 10

abbrev pub carriage_return : ℕ
carriage_return = 13

-- C('D'), C('U') and C('H').
abbrev pub ctrl_d : ℕ
ctrl_d = 4

abbrev pub ctrl_u : ℕ
ctrl_u = 21

abbrev pub ctrl_h : ℕ
ctrl_h = 8

abbrev pub delete : ℕ
delete = 0x7f

abbrev pub backspace : ℕ
backspace = 0x100

-- The bytes that `consputc` sends to the UART.
unfoldable pub consputc : ℕ → List ℕ
consputc c = if c == backspace then 8 ∷ 32 ∷ 8 ∷ [] else c % 256 ∷ []

-- One character of the line in edit is rubbed out.
abbrev pub rub_out : Console → Console
rub_out c = record c { e = sub32 c.e 1 }

-- The loop that kills the line, with a bound on its rounds, and what it sends to the UART.
unfoldable pub kill_loop : ℕ → Console → Console × List ℕ
unfolding consputc
kill_loop zero c = (c, [])
kill_loop (suc fuel) c =
    elim (not (c.e == c.w) && not (get_or c.buf (sub32 c.e 1 % input_buf) 0 == newline)) [
      | false ↦ (c, [])
      | true ↦ let (d, out) = kill_loop fuel (rub_out c) in (d, consputc backspace ++ out)
    ]

-- What `consoleintr` leaves: the console, the bytes for the UART, and whether it woke the readers.
pub record Effect : Type 0 where
  pub console : Console
  pub output : List ℕ
  pub woken : Bool

abbrev pub quiet : Console → Effect
quiet c = record { console = c; output = []; woken = false }

-- if (c == '\r') c = '\n';
abbrev pub to_newline : ℕ → ℕ
to_newline c = if c == carriage_return then newline else c

abbrev pub store : Console → ℕ → Console
store c ch = record c { buf = set c.buf (c.e % input_buf) ch; e = add32 c.e 1 }

-- Whether the line is handed to the readers once ch is stored.
abbrev pub ends_line : ℕ → Console → Bool
ends_line ch c = (ch == newline) || (ch == ctrl_d) || (c.e == add32 c.r input_buf)

-- The default case of `consoleintr`, for a byte that is stored.
unfoldable pub accept : ℕ → Console → Effect
unfolding consputc
accept ch c =
    let d = store c ch in
    if ends_line ch d
    then record { console = record d { w = d.e }; output = consputc ch; woken = true }
    else record { console = d; output = consputc ch; woken = false }

-- `consoleintr` of the input byte ch.
unfoldable pub consoleintr : ℕ → Console → Effect
unfolding kill_loop accept consputc
consoleintr ch c =
    if ch == ctrl_u
    then (let (d, out) = kill_loop (sub32 c.e c.w) c in
        record { console = d; output = out; woken = false })
    else if (ch == ctrl_h) || (ch == delete)
    then (if c.e == c.w
        then quiet c
        else record { console = rub_out c; output = consputc backspace; woken = false })
    else if not (ch == 0) && ltb (sub32 c.e c.r) input_buf
    then accept (to_newline ch) c
    else quiet c

-- The next byte for a reader, and the console without it.
abbrev pub front : Console → ℕ
front c = get_or c.buf (c.r % input_buf) 0

abbrev pub advance : Console → Console
advance c = record c { r = add32 c.r 1 }

-- `consolegetc`; `none` is -1.
unfoldable pub consolegetc : Console → Option ℕ × Console
consolegetc c = if c.r == c.w then (none, c) else (some (front c), advance c)

-- How a segment of `consoleread` ends: it returns (`none` is -1), or sleeps with its loop variable.
pub data Outcome : Type 0 where
  returned : Option ℕ → Outcome
  asleep : ℕ → Outcome

-- What a segment leaves: the console, and the bytes it took from the ring.
pub record Read : Type 0 where
  pub console : Console
  pub taken : List ℕ
  pub outcome : Outcome

-- A segment of `consoleread` with k = n - i rounds left; `copyout` is that of the caller's page table.
unfoldable pub read_segment : (ℕ → ℕ → Bool) → ℕ → ℕ → ℕ → Console → Read
read_segment copyout addr zero i c = record { console = c; taken = []; outcome = returned (some i) }
read_segment copyout addr (suc k) i c = elim (c.r == c.w) [
  | true ↦ record { console = c; taken = []; outcome = asleep i }
  | false ↦ elim (front c == ctrl_d) [
    | true ↦ record { console = advance c; taken = front c ∷ []; outcome = returned (some i) }
    | false ↦ elim (copyout (add64 addr i) (front c)) [
      | false ↦ record { console = advance c; taken = front c ∷ []; outcome = returned none }
      | true ↦ elim (front c == newline) [
        | true ↦ record {
          console = advance c;
          taken = front c ∷ [];
          outcome = returned (some (i + 1));
        }
        | false ↦
            let rest = read_segment copyout addr k (i + 1) (advance c) in
            record rest { taken = front c ∷ rest.taken }
      ]
    ]
  ]
]
