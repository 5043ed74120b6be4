-- ===== src/User/Grep.antt =====
-- The matcher of user/grep.c. A C string is the list of its bytes before the terminating 0.
use ustc_26spring.Common.{ℕ, Bool, true, false, ◌||◌, ◌==◌, if◌then◌else◌, List, [], ◌∷◌}

abbrev pub caret : ℕ
caret = 94

abbrev pub star : ℕ
star = 42

abbrev pub dollar : ℕ
dollar = 36

abbrev pub dot : ℕ
dot = 46

-- `matchstar(c, re, text)`, where `here` is `matchhere(re, _)`.
unfoldable pub matchstar : ℕ → (List ℕ → Bool) → List ℕ → Bool
matchstar c here [] = here []
matchstar c here (x ∷ text) =
    let rest = matchstar c here text in
    if here (x ∷ text) then true else if (x == c) || (c == dot) then rest else false

-- *text == '\0'
abbrev pub at_end : List ℕ → Bool
at_end [] = true
at_end (x ∷ text) = false

-- The last case of `matchhere`: a character of the text, and `here` for the rest of both.
abbrev pub match_one : ℕ → (List ℕ → Bool) → List ℕ → Bool
match_one c here [] = false
match_one c here (x ∷ text) = if (c == dot) || (c == x) then here text else false

unfoldable pub matchhere : List ℕ → List ℕ → Bool
unfolding matchstar
matchhere [] text = true
matchhere (c ∷ []) text = if c == dollar then at_end text else match_one c (matchhere []) text
matchhere (c ∷ d ∷ re) text =
    if d == star then matchstar c (matchhere re) text else match_one c (matchhere (d ∷ re)) text

-- The loop of `match` over the ends of the text, the empty one included.
unfoldable pub search : (List ℕ → Bool) → List ℕ → Bool
search here [] = here []
search here (x ∷ text) = let rest = search here text in if here (x ∷ text) then true else rest

unfoldable pub match : List ℕ → List ℕ → Bool
unfolding matchhere search
match [] text = search (matchhere []) text
match (c ∷ re) text = if c == caret then matchhere re text else search (matchhere (c ∷ re)) text
