-- ===== src/Print/Formats.antt =====
-- Formats in parts, beside the loop of `printf` of kernel/lib/printf.c.
use ustc_26spring.Common.{ℕ, ◌<◌, ◌≤◌, ◌≢◌, Option, none, some, List, [], ◌∷◌, ◌++◌, replicate}
use ustc_26spring.Print.{Arg, convert, then_print}

-- A byte that is printed, or a conversion: a letter after so many letters l.
pub data Part : Type 0 where
  plain : (c : ℕ) → Part
  conversion : (length c : ℕ) → Part

-- A conversion has two letters l at most, and fewer only before another letter.
abbrev pub IsPart : Part → Type 0
IsPart (plain c) = c ≢ 37
IsPart (conversion length c) = (length ≤ 2) × (length < 2 → c ≢ 108)

abbrev pub AreParts : List Part → Type 0
AreParts [] = Unit
AreParts (p ∷ ps) = IsPart p × AreParts ps

-- The text of a format.
abbrev pub format_text : List Part → List ℕ
format_text [] = []
format_text (plain c ∷ ps) = c ∷ format_text ps
format_text (conversion length c ∷ ps) = 37 ∷ (replicate length 108 ++ (c ∷ format_text ps))

-- What the parts print one after the other, each conversion with the next argument.
pub print_parts : List Part → List Arg → Option (List ℕ)
print_parts [] args = some []
print_parts (plain c ∷ ps) args = then_print (c ∷ []) (print_parts ps args)
print_parts (conversion length c ∷ ps) args = elim (convert length c args) [
  | none ↦ none
  | some (out, rest) ↦ then_print out (print_parts ps rest)
]
