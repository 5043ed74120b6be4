-- ===== src/User/Words.antt =====
-- The arguments that `parseargs` of user/sh.c finds are the words of the line.
use ustc_26spring.Common.{
  ℕ, zero, suc, ◌+◌, ◌≤◌, ◌<◌, ◌≡◌, refl, sym, ap, ◌∙◌, ◌⊎◌, inl, inr, Bool, true, false, ltb, leb,
  ◌==◌, if◌then◌else◌, Option, none, some, List, [], ◌∷◌, ◌++◌, get_or, length, arith, Bool-cases,
}
use ustc_26spring.User.Shell.{
  is_blank, skipspace, take, rstrip_from, rstrip, next_arg, parse_loop, parseargs, add_bytes,
  makepath, same_string, cd_name, help_name, exit_name, run, too_long, command,
}

-- A byte before some words, which begins a word of its own or belongs to the first.
unfoldable pub begin_word : ℕ → Bool → List (List ℕ) → List (List ℕ)
begin_word c true ws = (c ∷ []) ∷ ws
begin_word c false [] = (c ∷ []) ∷ []
begin_word c false (w ∷ ws) = (c ∷ w) ∷ ws

-- The maximal runs of bytes that are no blanks.
unfoldable pub words : List ℕ → List (List ℕ)
unfolding begin_word
words [] = []
words (c ∷ s) =
    let ws = words s in if is_blank c then ws else begin_word c (is_blank (get_or s 0 32)) ws

words_after : (c : ℕ) (s : List ℕ) → is_blank c ≡ true → words (c ∷ s) ≡ words s
unfolding words
words_after c s e = rw e refl

words_begin :
    (c : ℕ) (s : List ℕ)
    → is_blank c ≡ false
    → words (c ∷ s) ≡ begin_word c (is_blank (get_or s 0 32)) (words s)
unfolding words
words_begin c s e = rw e refl

words-skipspace : (s : List ℕ) → words (skipspace s) ≡ words s
unfolding skipspace
words-skipspace [] = refl
words-skipspace (c ∷ s) = elim (Bool-cases (is_blank c)) [
  | inl e ↦ rw e (words-skipspace s ∙ sym (words_after c s e))
  | inr e ↦ rw e refl
]

words_snoc : (s : List ℕ) (b : ℕ) → is_blank b ≡ true → words (s ++ b ∷ []) ≡ words s
words_snoc [] b e = words_after b [] e
words_snoc (c ∷ s) b e = elim (Bool-cases (is_blank c)) [
  | inl f ↦ words_after c (s ++ b ∷ []) f ∙ words_snoc s b e ∙ sym (words_after c s f)
  | inr f ↦
      words_begin c (s ++ b ∷ []) f
      ∙ ap (λ x. begin_word c x (words (s ++ b ∷ []))) (same_next s)
      ∙ ap (begin_word c (is_blank (get_or s 0 32))) (words_snoc s b e)
      ∙ sym (words_begin c s f)
]
  where
    same_next : (s : List ℕ) → is_blank (get_or (s ++ b ∷ []) 0 32) ≡ is_blank (get_or s 0 32)
    same_next [] = e
    same_next (x ∷ s) = refl

take-suc : (s : List ℕ) (n : ℕ) → n < length s → take s (suc n) ≡ take s n ++ get_or s n 0 ∷ []
unfolding take
take-suc [] n lt = absurd (omega arith)
take-suc (c ∷ s) zero lt = refl
take-suc (c ∷ s) (suc n) lt = ap (λ x. c ∷ x) (take-suc s n (omega arith))

take_all : (s : List ℕ) → take s (length s) ≡ s
unfolding take
take_all [] = refl
take_all (c ∷ s) = ap (λ x. c ∷ x) (take_all s)

words-rstrip_from : (n : ℕ) (s : List ℕ) → n ≤ length s → words (rstrip_from n s) ≡ words (take s n)
unfolding rstrip_from take
words-rstrip_from zero [] le = refl
words-rstrip_from zero (c ∷ s) le = refl
words-rstrip_from (suc n) s le = elim (Bool-cases (is_blank (get_or s n 0))) [
  | inl e ↦
      rw (e, rstrip_from)
        (words-rstrip_from n s (omega arith)
          ∙ sym (ap words (take-suc s n (omega arith)) ∙ words_snoc (take s n) (get_or s n 0) e))
  | inr e ↦ rw (e, rstrip_from) refl
]

words-rstrip : (s : List ℕ) → words (rstrip s) ≡ words s
unfolding rstrip
words-rstrip s = words-rstrip_from (length s) s (omega arith) ∙ ap words (take_all s)

-- A rest is at its end or at a blank.
abbrev AtBlank : List ℕ → Type 0
AtBlank s = is_blank (get_or s 0 32) ≡ true

next_arg_end : (c : ℕ) (s : List ℕ) → is_blank c ≡ true → next_arg (c ∷ s) ≡ ([], c ∷ s)
unfolding next_arg
next_arg_end c s e = rw e refl

next_arg_more :
    (c : ℕ) (s : List ℕ)
    → is_blank c ≡ false
    → next_arg (c ∷ s) ≡ (c ∷ (next_arg s).0, (next_arg s).1)
unfolding next_arg
next_arg_more c s e = rw e refl

-- The first word of a text that begins with one.
abbrev FirstWord : List ℕ → List ℕ × List ℕ → Type 0
FirstWord s r = AtBlank r.1 × (words s ≡ r.0 ∷ words r.1) × (length r.1 < length s)

next_arg-FirstWord :
    (c : ℕ) (s : List ℕ) → is_blank c ≡ false → FirstWord (c ∷ s) (next_arg (c ∷ s))
unfolding next_arg begin_word
next_arg-FirstWord c [] e = rw (next_arg_more c [] e) (refl, words_begin c [] e, omega arith)
next_arg-FirstWord c (d ∷ s) e = elim (Bool-cases (is_blank d)) [
  | inl f ↦
      let q =
        next_arg_more c (d ∷ s) e
        ∙ ap (λ (r : List ℕ × List ℕ). (c ∷ r.0, r.1)) (next_arg_end d s f) in
      rw q (f, words_begin c (d ∷ s) e ∙ ap (λ x. begin_word c x (words (d ∷ s))) f, omega arith)
  | inr f ↦
      let (blank, first, shorter) = next_arg-FirstWord d s f in
      rw (next_arg_more c (d ∷ s) e) (
        blank,
        words_begin c (d ∷ s) e
            ∙ ap (λ x. begin_word c x (words (d ∷ s))) f
            ∙ ap (begin_word c false) first,
        omega (arith, shorter),
      )
]

-- What the loop has to find from argument argc on.
abbrev limited : ℕ → ℕ → List (List ℕ) → Option (List (List ℕ))
limited maxargs argc ws = if ltb (argc + length ws) maxargs then some ws else none

abbrev AtWord : List ℕ → Type 0
AtWord s = (s ≡ []) ⊎ (is_blank (get_or s 0 32) ≡ false)

skipspace-AtWord : (s : List ℕ) → AtWord (skipspace s) × (length (skipspace s) ≤ length s)
unfolding skipspace
skipspace-AtWord [] = (inl refl, omega arith)
skipspace-AtWord (c ∷ s) = elim (Bool-cases (is_blank c)) [
  | inl e ↦ let (w, le) = skipspace-AtWord s in rw e (w, omega (arith, le))
  | inr e ↦ rw e (inr e, omega arith)
]

one_more :
    (maxargs argc : ℕ) (w : List ℕ) (ws : List (List ℕ)) (r : Option (List (List ℕ)))
    → r ≡ limited maxargs (argc + 1) ws
    → (elim r [ none ↦ none | some args ↦ some (w ∷ args) ]) ≡ limited maxargs argc (w ∷ ws)
one_more maxargs argc w ws r q = elim (Bool-cases (ltb (argc + 1 + length ws) maxargs)) [
  | inl e ↦
      let e' : ltb (argc + length (w ∷ ws)) maxargs ≡ true = ground arith in rw (q, e, e') refl
  | inr e ↦
      let e' : ltb (argc + length (w ∷ ws)) maxargs ≡ false = ground arith in rw (q, e, e') refl
]

parse_loop-words :
    (fuel maxargs argc : ℕ) (s : List ℕ)
    → AtWord s
    → length s < fuel
    → argc < maxargs
    → parse_loop fuel maxargs argc s ≡ limited maxargs argc (words s)
unfolding parse_loop words
parse_loop-words zero maxargs argc s at lt room = absurd (omega arith)
parse_loop-words (suc fuel) maxargs argc [] at lt room =
    let e : ltb (argc + length {A = List ℕ} []) maxargs ≡ true = ground arith in rw e refl
parse_loop-words (suc fuel) maxargs argc (c ∷ s) (inl nil) lt room = cc
parse_loop-words (suc fuel) maxargs argc (c ∷ s) (inr word) lt room =
    let (blank, first, shorter) = next_arg-FirstWord c s word in
    elim (Bool-cases (leb maxargs (argc + 1))) [
      | inl e ↦
          let e' : ltb (argc + length ((next_arg (c ∷ s)).0 ∷ words (next_arg (c ∷ s)).1)) maxargs
              ≡ false =
            ground arith in
          rw (e, parse_loop) (sym (ap (limited maxargs argc) first ∙ (rw e' refl)))
      | inr e ↦
          rw (e, parse_loop)
            (go_on (λ t. parse_loop-words fuel maxargs (argc + 1) t) (next_arg (c ∷ s)).0
                (next_arg (c ∷ s)).1 blank (omega (arith, shorter)) (ground arith)
              ∙ sym (ap (limited maxargs argc) first))
    ]
  where
    go_on :
        ((t : List ℕ)
          → AtWord t
          → length t < fuel
          → argc + 1 < maxargs
          → parse_loop fuel maxargs (argc + 1) t ≡ limited maxargs (argc + 1) (words t))
        → (w rest : List ℕ) → AtBlank rest
        → length rest ≤ fuel
        → argc + 1 < maxargs
        → (elim rest [
          | [] ↦ some (w ∷ [])
          | b ∷ after ↦ elim (parse_loop fuel maxargs (argc + 1) (skipspace after)) [
            | none ↦ none
            | some args ↦ some (w ∷ args)
          ]
        ])
          ≡ limited maxargs argc (w ∷ words rest)
    go_on hyp w [] blank le room' =
        let e : ltb (argc + length (w ∷ [])) maxargs ≡ true = ground arith in rw e refl
    go_on hyp w (b ∷ after) blank le room' =
        let (at, short) = skipspace-AtWord after in
        let same = words-skipspace after ∙ sym (words_after b after blank) in
        one_more maxargs argc w (words (b ∷ after))
          (parse_loop fuel maxargs (argc + 1) (skipspace after))
          (hyp (skipspace after) at (omega arith) room' ∙ ap (limited maxargs (argc + 1)) same)

rstrip_from-head :
    (n : ℕ) (s : List ℕ) → (rstrip_from n s ≡ []) ⊎ (get_or (rstrip_from n s) 0 32 ≡ get_or s 0 32)
unfolding rstrip_from take
rstrip_from-head zero s = inl refl
rstrip_from-head (suc n) s = elim (Bool-cases (is_blank (get_or s n 0))) [
  | inl e ↦ rw (e, rstrip_from) (rstrip_from-head n s)
  | inr e ↦ rw (e, rstrip_from) (inr (head s))
]
  where
    head : (s : List ℕ) → get_or (take s (suc n)) 0 32 ≡ get_or s 0 32
    head [] = refl
    head (c ∷ s) = refl

rstrip-AtWord : (s : List ℕ) → AtWord s → AtWord (rstrip s)
unfolding rstrip take
rstrip-AtWord s (inl e) = inl (ap rstrip e)
rstrip-AtWord s (inr e) = elim (rstrip_from-head (length s) s) [
  | inl nil ↦ inl nil
  | inr same ↦ inr (ap is_blank same ∙ e)
]

-- `parseargs`, which cuts the line in place, finds the maximal runs of bytes that are neither spaces nor tabs,
-- and fails exactly if they are not fewer than maxargs, with at least one argument allowed.
pub parseargs-words :
    (line : List ℕ) (maxargs : ℕ)
    → 1 ≤ maxargs
    → parseargs line maxargs
      ≡ (if ltb (length (words line)) maxargs then some (words line) else none)
unfolding parseargs
parseargs-words line maxargs le =
    let (at, short) = skipspace-AtWord line in
    parse_loop-words (length (rstrip (skipspace line)) + 1) maxargs 0 (rstrip (skipspace line))
      (rstrip-AtWord (skipspace line) at) (omega arith) le
    ∙ ap (limited maxargs 0) (words-rstrip (skipspace line) ∙ words-skipspace line)
    ∙ ap (λ k. if ltb k maxargs then some (words line) else none) (omega arith)

add_bytes_lem :
    (cap i : ℕ) (s : List ℕ)
    → i < cap
    → add_bytes cap i s ≡ (if ltb (i + length s) cap then some s else none)
unfolding add_bytes
add_bytes_lem cap i [] lt =
    let e : ltb (i + length {A = ℕ} []) cap ≡ true = ground arith in rw e refl
add_bytes_lem cap i (c ∷ s) lt = elim (Bool-cases (leb cap (i + 1))) [
  | inl full ↦
      let e : ltb (i + length (c ∷ s)) cap ≡ false = ground arith in rw (full, e, add_bytes) refl
  | inr free ↦
      let rest = add_bytes_lem cap (i + 1) s (ground arith) in
      elim (Bool-cases (ltb (i + 1 + length s) cap)) [
        | inl f ↦
            let e : ltb (i + length (c ∷ s)) cap ≡ true = ground arith in
            rw (free, rest, f, e, add_bytes) refl
        | inr f ↦
            let e : ltb (i + length (c ∷ s)) cap ≡ false = ground arith in
            rw (free, rest, f, e, add_bytes) refl
      ]
]

-- A command as a path from the root.
abbrev pub rooted : List ℕ → List ℕ
rooted cmd = if get_or cmd 0 0 == 47 then cmd else 47 ∷ cmd

makepath_lem :
    (cmd : List ℕ) (cap : ℕ)
    → 2 ≤ cap
    → makepath cmd cap ≡ (if ltb (length (rooted cmd)) cap then some (rooted cmd) else none)
unfolding makepath
makepath_lem cmd cap le = elim (Bool-cases (get_or cmd 0 0 == 47)) [
  | inl e ↦
      rw (e, makepath)
        (add_bytes_lem cap 0 cmd (omega arith)
          ∙ ap (λ k. if ltb k cap then some cmd else none) (omega arith))
  | inr e ↦
      let small : ltb cap 2 ≡ false = ground arith in
      let rest = add_bytes_lem cap 1 cmd (omega arith) in
      elim (Bool-cases (ltb (1 + length cmd) cap)) [
        | inl f ↦
            let g : ltb (length (47 ∷ cmd)) cap ≡ true = ground arith in
            rw (e, small, rest, f, g, makepath) refl
        | inr f ↦
            let g : ltb (length (47 ∷ cmd)) cap ≡ false = ground arith in
            rw (e, small, rest, f, g, makepath) refl
      ]
]

-- A line whose first word is none of the built-in commands "help", "cd" and "exit", with fewer than 16 words: the
-- shell runs the program with the first word as a path from the root, with the other words as arguments, or
-- says that the command is too long when the path has 128 bytes or more.
pub command-run :
    (line cmd : List ℕ) (args : List (List ℕ))
    → words line ≡ cmd ∷ args
    → length (cmd ∷ args) < 16
    → same_string cmd help_name ≡ false
    → same_string cmd cd_name ≡ false
    → same_string cmd exit_name ≡ false
    → command line ≡ (if ltb (length (rooted cmd)) 128 then run (rooted cmd) args else too_long)
unfolding command
command-run line cmd args at few no_help no_cd no_exit =
    let few' : ltb (length (cmd ∷ args)) 16 ≡ true = ground arith in
    let parsed : parseargs line 16 ≡ some (cmd ∷ args) =
      parseargs-words line 16 (omega arith)
      ∙ ap (λ ws. if ltb (length ws) 16 then some ws else none) at
      ∙ rw few' refl in
    elim (Bool-cases (ltb (length (rooted cmd)) 128)) [
      | inl e ↦
          rw (parsed, no_help, no_cd, no_exit, makepath_lem cmd 128 (omega arith), e, command) refl
      | inr e ↦
          rw (parsed, no_help, no_cd, no_exit, makepath_lem cmd 128 (omega arith), e, command) refl
    ]
