-- ===== src/Console/Input.antt =====
-- The console of kernel/core/console.c as a line discipline over two lists of bytes.
use ustc_26spring.Common.{
  ℕ, ◌+◌, ◌<◌, ◌≡◌, ◌≢◌, refl, ap, ◌∙◌, inl, inr, Bool, false, not, ◌&&◌, ◌||◌, ltb, ◌==◌,
  if◌then◌else◌, List, [], ◌∷◌, ◌++◌, arith, length, Bool-cases, length-append,
}
use mathlib.Core.Path.{ap₂}
use ustc_26spring.Common.Word.{sub32}
use ustc_26spring.Console.{
  Console, input_buf, newline, ctrl_d, ctrl_u, ctrl_h, delete, to_newline, store, ends_line, accept,
  rub_out, consoleintr, quiet, consputc, backspace,
}
use ustc_26spring.Console.Lines.{committed, edited, IsValid}
use ustc_26spring.Console.Edit.{
  length-committed, length-edited, store-IsValid, committed-store, edited-store, commit-IsValid,
  committed-commit, edited-commit, rub_out-IsValid, edited-rub_out, drop_last, kill_line,
  drop_last-snoc, edited_empty, kill_loop-Killed, Killed,
}

-- The bytes that readers can have, and the line in edit.
pub record Lines : Type 0 where
  pub ready : List ℕ
  pub edit : List ℕ

abbrev pub lines : Console → Lines
lines c = record { ready = committed c; edit = edited c }

abbrev pub ends : ℕ → Lines → Bool
ends ch l = (ch == newline) || (ch == ctrl_d) || (length l.ready + length l.edit == input_buf)

abbrev pub append_char : ℕ → Lines → Lines
append_char ch l = record l { edit = l.edit ++ ch ∷ [] }

abbrev pub hand_over : Lines → Lines
hand_over l = record { ready = l.ready ++ l.edit; edit = [] }

-- What a typed character means: ^U kills the line in edit, ^H and delete take its last character,
-- and any other but 0 is added while fewer than 128 bytes are held; a newline, a carriage return,
-- ^D and the 128th byte hand the line to the readers.
unfoldable pub type_char : ℕ → Lines → Lines
unfolding kill_line drop_last
type_char ch l =
    if ch == ctrl_u
    then record l { edit = kill_line l.edit }
    else if (ch == ctrl_h) || (ch == delete)
    then record l { edit = drop_last l.edit }
    else if not (ch == 0) && ltb (length l.ready + length l.edit) input_buf
    then (let m = append_char (to_newline ch) l in
        if ends (to_newline ch) m then hand_over m else m)
    else l

record Refines (d : Console) (l : Lines) : Type 0 where
  valid : IsValid d
  same : lines d ≡ l

Lines_path :
    (r r' e e' : List ℕ)
    → r ≡ r'
    → e ≡ e'
    → ◌≡◌ {A = Lines} (record { ready = r; edit = e }) (record { ready = r'; edit = e' })
Lines_path r r' e e' p q = λ i. record { ready = p i; edit = q i }

module _ (ch : ℕ) (c : Console) (v : IsValid c) (room : sub32 c.e c.r < input_buf) where
  lines-store : lines (store c ch) ≡ append_char ch (lines c)
  lines-store = Lines_path _ _ _ _ (committed-store c v ch room) (edited-store c v ch room)

  -- The code's test of the counters is the test of the 128th byte.
  ends_same : ends_line ch (store c ch) ≡ ends ch (append_char ch (lines c))
  ends_same =
      let total = length-append (edited c) (ch ∷ []) in
      let a = length-committed c v in
      let b = length-edited c v in ap (λ t. (ch == newline) || (ch == ctrl_d) || t) (ground arith)

  accept-Refines : Refines (accept ch c).console (
      if ends ch (append_char ch (lines c))
      then hand_over (append_char ch (lines c))
      else append_char ch (lines c))
  unfolding accept
  accept-Refines = elim (Bool-cases (ends_line ch (store c ch))) [
    | inl e ↦
        rw (← ends_same, e, accept)
          (record {
            valid = commit-IsValid (store c ch) (store-IsValid c v ch room);
            same =
                Lines_path _ _ _ _
                  (committed-commit (store c ch) (store-IsValid c v ch room)
                    ∙ ap₂ ◌++◌ (committed-store c v ch room) (edited-store c v ch room))
                  (edited-commit (store c ch) (store-IsValid c v ch room));
          })
    | inr e ↦
        rw (← ends_same, e, accept)
          (record { valid = store-IsValid c v ch room; same = lines-store })
  ]

rub-Refines :
    (c : Console)
    → IsValid c
    → c.e ≢ c.w
    → Refines (rub_out c) (record (lines c) { edit = drop_last (edited c) })
rub-Refines c v ne = record {
  valid = rub_out-IsValid c v ne;
  same = rw (edited-rub_out c v ne, drop_last-snoc) refl;
}

kill-Refines :
    (c : Console) {d : Console}
    → Killed c d
    → Refines d (record (lines c) { edit = kill_line (edited c) })
kill-Refines c {d} (v, b, r, w, same) = record {
  valid = v;
  same = Lines_path _ _ _ _ (rw (b, r, w) refl) same;
}

rub_console :
    (c : Console)
    → IsValid c
    → Refines
        (if c.e == c.w
          then quiet c
          else record { console = rub_out c; output = consputc backspace; woken = false }).console
        (record (lines c) { edit = drop_last (edited c) })
unfolding drop_last
rub_console c v = elim (Bool-cases (c.e == c.w)) [
  | inl e ↦ rw e (record {
    valid = v;
    same = Lines_path _ _ _ _ refl (rw (edited_empty c (ground arith)) refl);
  })
  | inr ne ↦ rw ne (rub-Refines c v (ground arith))
]

room_same :
    (c : Console)
    → IsValid c
    → ltb (sub32 c.e c.r) input_buf ≡ ltb (length (committed c) + length (edited c)) input_buf
room_same c v =
    let total : sub32 c.e c.r ≡ length (committed c) + length (edited c) =
      omega (arith, length-committed c v, length-edited c v, v.order) in
    ap (λ n. ltb n input_buf) total

consoleintr-Refines :
    (ch : ℕ) (c : Console) → IsValid c → Refines (consoleintr ch c).console (type_char ch (lines c))
unfolding consoleintr type_char
consoleintr-Refines ch c v = elim (Bool-cases (ch == ctrl_u)) [
  | inl k ↦ rw (k, consoleintr, type_char) (kill-Refines c (kill_loop-Killed c v))
  | inr nk ↦ elim (Bool-cases ((ch == ctrl_h) || (ch == delete))) [
    | inl b ↦ rw (nk, b, consoleintr, type_char) (rub_console c v)
    | inr nb ↦ elim (Bool-cases (not (ch == 0) && ltb (sub32 c.e c.r) input_buf)) [
      | inl room ↦
          rw (nk, nb, ← room_same c v, room, consoleintr, type_char)
            (accept-Refines (to_newline ch) c v (ground arith))
      | inr full ↦
          rw (nk, nb, ← room_same c v, full, consoleintr, type_char)
            (record { valid = v; same = refl })
    ]
  ]
]

-- From a valid console `consoleintr` leaves a valid one, whose committed bytes and line in edit
-- are those that the typed character makes of the old ones.
pub consoleintr_refines :
    (ch : ℕ) (c : Console)
    → IsValid c
    → IsValid (consoleintr ch c).console
      × (lines (consoleintr ch c).console ≡ type_char ch (lines c))
consoleintr_refines ch c v = let r = consoleintr-Refines ch c v in (r.valid, r.same)
