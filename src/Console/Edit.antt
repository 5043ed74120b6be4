-- ===== src/Console/Edit.antt =====
-- What the editing steps of `consoleintr` in kernel/core/console.c do to the committed bytes and
-- to the line in edit.
use ustc_26spring.Common.{
  ℕ, zero, suc, ◌+◌, ◌%◌, ◌≤◌, ◌<◌, ◌≡◌, ◌≢◌, refl, sym, ap, ◌∙◌, inl, inr, false, ◌==◌,
  if◌then◌else◌, List, [], ◌∷◌, ◌++◌, arith, length, length-set, get_or, Bool-cases,
}
use ustc_26spring.Common.Word.{add32, sub32}
use ustc_26spring.Console.{Console, input_buf, store, rub_out, kill_loop, newline}
use ustc_26spring.Console.Lines.{
  committed, edited, IsValid, window-set_out, window-set_end, window-append, length-window,
}

abbrev pub last_char : Console → ℕ
last_char c = get_or c.buf (sub32 c.e 1 % input_buf) 0

module _ (c : Console) (v : IsValid c) where
  pub length-committed : length (committed c) ≡ sub32 c.w c.r
  length-committed = length-window c.buf c.r (sub32 c.w c.r)

  pub length-edited : length (edited c) ≡ sub32 c.e c.w
  length-edited = length-window c.buf c.w (sub32 c.e c.w)

  pub store-IsValid : (ch : ℕ) → sub32 c.e c.r < input_buf → IsValid (store c ch)
  store-IsValid ch room = record {
    storage = length-set c.buf (c.e % input_buf) ch ∙ v.storage;
    r_word = v.r_word;
    w_word = v.w_word;
    e_word = omega arith;
    order = omega arith;
    bounded = omega arith;
  }

  pub committed-store : (ch : ℕ) → sub32 c.e c.r < input_buf → committed (store c ch) ≡ committed c
  committed-store ch room =
      window-set_out c.buf ch (sub32 c.w c.r) (sub32 c.e c.r) c.r (c.e % input_buf) v.r_word
        (omega arith) room (omega arith)

  pub edited-store :
      (ch : ℕ) → sub32 c.e c.r < input_buf → edited (store c ch) ≡ edited c ++ ch ∷ []
  edited-store ch room =
      let grows : sub32 (add32 c.e 1) c.w ≡ suc (sub32 c.e c.w) = omega arith in
      rw grows (
        window-set_end c.buf ch (sub32 c.e c.w) c.w (c.e % input_buf) v.storage v.w_word
          (omega arith) (omega arith))

  abbrev pub commit : Console
  commit = record c { w = c.e }

  pub commit-IsValid : IsValid commit
  commit-IsValid = omega arith

  pub committed-commit : committed commit ≡ committed c ++ edited c
  committed-commit =
      rw (← v.order)
        (window-append c.buf (sub32 c.w c.r) (sub32 c.e c.w) c.r c.w v.r_word (omega arith))

  pub edited-commit : edited commit ≡ []
  edited-commit = let none_left : sub32 c.e c.e ≡ 0 = omega arith in rw none_left refl

  pub rub_out-IsValid : c.e ≢ c.w → IsValid (rub_out c)
  rub_out-IsValid ne = omega arith

  pub edited-rub_out : c.e ≢ c.w → edited c ≡ edited (rub_out c) ++ last_char c ∷ []
  edited-rub_out ne =
      let shrinks : sub32 c.e c.w ≡ sub32 (sub32 c.e 1) c.w + 1 = omega arith in
      rw shrinks
        (window-append c.buf (sub32 (sub32 c.e 1) c.w) 1 c.w (sub32 c.e 1) v.w_word (omega arith))

-- A list without its last entry.
unfoldable pub drop_last : List ℕ → List ℕ
drop_last [] = []
drop_last (x ∷ []) = []
drop_last (x ∷ y ∷ l) = x ∷ drop_last (y ∷ l)

-- A list without what follows its last newline.
unfoldable pub kill_line : List ℕ → List ℕ
kill_line [] = []
kill_line (x ∷ l) = elim (kill_line l) [
  | [] ↦ if x == newline then x ∷ [] else []
  | y ∷ m ↦ x ∷ y ∷ m
]

pub drop_last-snoc : (l : List ℕ) (x : ℕ) → drop_last (l ++ x ∷ []) ≡ l
unfolding drop_last
drop_last-snoc [] x = refl
drop_last-snoc (y ∷ []) x = refl
drop_last-snoc (y ∷ z ∷ l) x = ap (λ m. y ∷ m) (drop_last-snoc (z ∷ l) x)

pub kill_line-newline : (l : List ℕ) (x : ℕ) → x ≡ newline → kill_line (l ++ x ∷ []) ≡ l ++ x ∷ []
unfolding kill_line
kill_line-newline [] x e = ground arith
kill_line-newline (y ∷ []) x e = ground (arith, kill_line-newline [] x e)
kill_line-newline (y ∷ z ∷ l) x e = ground (arith, kill_line-newline (z ∷ l) x e)

pub kill_line-other :
    (l : List ℕ) (x : ℕ) → (x == newline) ≡ false → kill_line (l ++ x ∷ []) ≡ kill_line l
unfolding kill_line
kill_line-other [] x e = ground arith
kill_line-other (y ∷ l) x e = rw (kill_line-other l x e, kill_line)

-- Console d is c with the line in edit cut back to its last newline.
abbrev pub Killed : Console → Console → Type 0
Killed c d =
    IsValid d × (d.buf ≡ c.buf) × (d.r ≡ c.r) × (d.w ≡ c.w) × (edited d ≡ kill_line (edited c))

pub edited_empty : (c : Console) → c.e ≡ c.w → edited c ≡ []
edited_empty c e = let none_left : sub32 c.e c.w ≡ 0 = omega arith in rw none_left refl

kill_stop : (c : Console) → IsValid c → kill_line (edited c) ≡ edited c → Killed c c
kill_stop c v e = (v, refl, refl, refl, sym e)

kill_next :
    (c : Console) {d : Console}
    → IsValid c
    → c.e ≢ c.w
    → (last_char c == newline) ≡ false
    → Killed (rub_out c) d
    → Killed c d
kill_next c v ne other (vd, b, r, w, same) = (
  vd,
  b,
  r,
  w,
  same
      ∙ sym (
          ap kill_line (edited-rub_out c v ne)
          ∙ kill_line-other (edited (rub_out c)) (last_char c) other),
)

kill_loop_lem :
    (fuel : ℕ) (c : Console) → IsValid c → sub32 c.e c.w ≤ fuel → Killed c (kill_loop fuel c).0
unfolding kill_loop kill_line
kill_loop_lem zero c v h =
    let none_left : edited c ≡ [] = edited_empty c (omega (arith, v)) in
    kill_stop c v (rw none_left refl)
kill_loop_lem (suc fuel) c v h = elim (Bool-cases (c.e == c.w)) [
  | inl done ↦ rw (done, kill_loop) (kill_stop c v (rw (edited_empty c (ground arith)) refl))
  | inr more ↦ elim (Bool-cases (last_char c == newline)) [
    | inl stop ↦
        rw (more, stop, kill_loop)
          (kill_stop c v (
            rw (edited-rub_out c v (ground arith))
              (kill_line-newline (edited (rub_out c)) (last_char c) (ground arith))))
    | inr go ↦
        rw (more, go, kill_loop)
          (kill_next c v (ground arith) go
            (kill_loop_lem fuel (rub_out c) (rub_out-IsValid c v (ground arith)) (ground arith)))
  ]
]

-- From a valid console the kill loop, with its bound on rounds, leaves a valid one with the committed bytes, and cuts the line in edit
-- back to its last newline.
pub kill_loop-Killed : (c : Console) → IsValid c → Killed c (kill_loop (sub32 c.e c.w) c).0
kill_loop-Killed c v = kill_loop_lem (sub32 c.e c.w) c v (omega arith)
