-- ===== src/User/Wc.antt =====
-- `do_wc` of user/wc.c. The results of its calls of `read` are a list, with `none` for an error; the
-- numbers are those that it prints.
use ustc_26spring.Common.{
  ℕ, ◌+◌, ◌%◌, ◌<◌, ◌≡◌, refl, ap, ◌∙◌, sym, inl, inr, Bool, true, false, ◌||◌, ◌==◌, if◌then◌else◌,
  Option, none, some, List, [], ◌∷◌, ◌++◌, length, arith, Bool-cases,
}
use mathlib.Core.Option
use ustc_26spring.Common.Word.{add64, u64_mod}

-- ' ', '\r', '\t', '\n' and '\v'.
abbrev pub isspace1 : ℕ → Bool
isspace1 c = (c == 32) || (c == 13) || (c == 9) || (c == 10) || (c == 11)

pub record Counts : Type 0 where
  pub lines : ℕ
  pub words : ℕ
  pub bytes : ℕ
  pub inword : Bool

abbrev pub no_counts : Counts
no_counts = record { lines = 0; words = 0; bytes = 0; inword = false }

abbrev pub count_line : ℕ → ℕ → ℕ
count_line c lines = if c == 10 then add64 lines 1 else lines

-- One round of the loop over a buffer.
unfoldable pub count_byte : ℕ → Counts → Counts
count_byte c s =
    if isspace1 c
    then record s { lines = count_line c s.lines; bytes = add64 s.bytes 1; inword = false }
    else record {
      lines = count_line c s.lines;
      words = if s.inword then s.words else add64 s.words 1;
      bytes = add64 s.bytes 1;
      inword = true;
    }

unfoldable pub count_chunk : List ℕ → Counts → Counts
unfolding count_byte
count_chunk [] s = s
count_chunk (c ∷ cs) s = count_chunk cs (count_byte c s)

-- Lines, words and bytes.
abbrev pub Totals : Type 0
Totals = ℕ × ℕ × ℕ

abbrev pub totals : Counts → Totals
totals s = (s.lines, s.words, s.bytes)

-- The loop over the results of `read`; an empty one is the end of the file.
unfoldable pub wc_loop : List (Option (List ℕ)) → Counts → Option Totals
unfolding count_chunk
wc_loop [] s = some (totals s)
wc_loop (none ∷ reads) s = none
wc_loop (some [] ∷ reads) s = some (totals s)
wc_loop (some (c ∷ cs) ∷ reads) s = wc_loop reads (count_chunk (c ∷ cs) s)

-- `do_wc` up to the printing; `none` is -1.
unfoldable pub do_wc : List (Option (List ℕ)) → Option Totals
unfolding wc_loop
do_wc reads = wc_loop reads no_counts

-- The text that the reads deliver.
abbrev pub text_of : List (Option (List ℕ)) → Option (List ℕ)
text_of [] = some []
text_of (none ∷ reads) = none
text_of (some [] ∷ reads) = some []
text_of (some (c ∷ cs) ∷ reads) = Option.map (λ t. (c ∷ cs) ++ t) (text_of reads)

abbrev pub newlines : List ℕ → ℕ
newlines [] = 0
newlines (c ∷ t) = (if c == 10 then 1 else 0) + newlines t

-- A text cut at its spaces: the first piece, and the others.
pub pieces : List ℕ → List ℕ × List (List ℕ)
pieces [] = ([], [])
pieces (c ∷ t) = let (p, ps) = pieces t in if isspace1 c then ([], p ∷ ps) else (c ∷ p, ps)

abbrev pub filled : List ℕ → ℕ
filled [] = 0
filled (c ∷ p) = 1

abbrev pub total_filled : List (List ℕ) → ℕ
total_filled [] = 0
total_filled (p ∷ ps) = filled p + total_filled ps

-- The pieces that are not empty.
abbrev pub words_of : List ℕ → ℕ
words_of t = filled (pieces t).0 + total_filled (pieces t).1

-- The words that begin in a text whose first piece may go on with a word.
abbrev begins : Bool → List ℕ → ℕ
begins true t = total_filled (pieces t).1
begins false t = words_of t

abbrev Bounded : Counts → Type 0
Bounded s = (s.lines < u64_mod) × (s.words < u64_mod) × (s.bytes < u64_mod)

count_byte-Bounded : (c : ℕ) (s : Counts) → Bounded s → Bounded (count_byte c s)
unfolding count_byte
count_byte-Bounded c s b = ground arith

abbrev tally : Counts → List ℕ → Totals
tally s t = (
  (s.lines + newlines t) % u64_mod,
  (s.words + begins s.inword t) % u64_mod,
  (s.bytes + length t) % u64_mod,
)

Totals_path :
    {a a' b b' c c' : ℕ} → a ≡ a' → b ≡ b' → c ≡ c' → ◌≡◌ {A = Totals} (a, b, c) (a', b', c')
Totals_path p q r = λ i. (p i, q i, r i)

words_step :
    (c w : ℕ) (b : Bool) (t : List ℕ)
    → isspace1 c ≡ false
    → ((if b then w else add64 w 1) + begins true t) % u64_mod ≡ (w + begins b (c ∷ t)) % u64_mod
unfolding pieces
words_step c w true t e = rw (e, pieces) refl
words_step c w false t e = rw (e, pieces) (omega arith)

gap_step :
    (c w : ℕ) (b : Bool) (t : List ℕ)
    → isspace1 c ≡ true
    → (w + words_of t) % u64_mod ≡ (w + begins b (c ∷ t)) % u64_mod
unfolding pieces
gap_step c w true t e = rw (e, pieces) refl
gap_step c w false t e = rw (e, pieces) (omega arith)

count_byte-tally : (c : ℕ) (t : List ℕ) (s : Counts) → tally (count_byte c s) t ≡ tally s (c ∷ t)
unfolding count_byte
count_byte-tally c t s = elim (Bool-cases (isspace1 c)) [
  | inl space ↦
      rw (space, count_byte)
        (Totals_path (ground arith) (gap_step c s.words s.inword t space) (omega arith))
  | inr letter ↦
      rw (letter, count_byte)
        (Totals_path (ground arith) (words_step c s.words s.inword t letter) (omega arith))
]

none_begins : (b : Bool) → begins b [] ≡ 0
unfolding pieces
none_begins true = refl
none_begins false = refl

count_chunk-tally : (t : List ℕ) (s : Counts) → Bounded s → totals (count_chunk t s) ≡ tally s t
unfolding count_chunk pieces
count_chunk-tally [] s b =
    Totals_path (omega arith) (rw (none_begins s.inword) (omega arith)) (omega arith)
count_chunk-tally (c ∷ t) s b =
    count_chunk-tally t (count_byte c s) (count_byte-Bounded c s b) ∙ count_byte-tally c t s

count_chunk-append :
    (xs ys : List ℕ) (s : Counts) → count_chunk (xs ++ ys) s ≡ count_chunk ys (count_chunk xs s)
unfolding count_chunk
count_chunk-append [] ys s = refl
count_chunk-append (c ∷ xs) ys s = count_chunk-append xs ys (count_byte c s)

wc_loop-text :
    (reads : List (Option (List ℕ))) (s : Counts)
    → wc_loop reads s ≡ Option.map (λ t. totals (count_chunk t s)) (text_of reads)
unfolding wc_loop count_chunk
wc_loop-text [] s = refl
wc_loop-text (none ∷ reads) s = refl
wc_loop-text (some [] ∷ reads) s = refl
wc_loop-text (some (c ∷ cs) ∷ reads) s =
    wc_loop-text reads (count_chunk (c ∷ cs) s) ∙ joined (text_of reads)
  where
    joined :
        (o : Option (List ℕ))
        → Option.map (λ t. totals (count_chunk t (count_chunk (c ∷ cs) s))) o
          ≡ Option.map (λ t. totals (count_chunk t s)) (Option.map (λ t. (c ∷ cs) ++ t) o)
    joined none = refl
    joined (some t) = ap (λ k. some (totals k)) (sym (count_chunk-append (c ∷ cs) t s))

-- However the reads cut the text, `do_wc` fails exactly if a read before the end does, and else
-- gives the newlines of the text, its maximal runs without spaces, and its bytes, modulo 2 ^ 64.
pub do_wc-text :
    (reads : List (Option (List ℕ)))
    → do_wc reads
      ≡ Option.map
          (λ t. (newlines t % u64_mod, words_of t % u64_mod, length t % u64_mod))
          (text_of reads)
unfolding do_wc
do_wc-text reads = wc_loop-text reads no_counts ∙ counted (text_of reads)
  where
    counted :
        (o : Option (List ℕ))
        → Option.map (λ t. totals (count_chunk t no_counts)) o
          ≡ Option.map (λ t. (newlines t % u64_mod, words_of t % u64_mod, length t % u64_mod)) o
    counted none = refl
    counted (some t) = ap some (
        count_chunk-tally t no_counts (omega arith, omega arith, omega arith)
        ∙ Totals_path (omega arith) (omega arith) (omega arith))
