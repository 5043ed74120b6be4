-- ===== src/User/Regex.antt =====
-- What the patterns of user/grep.c mean, without reference to the search, and the matcher against it.
use ustc_26spring.Common.{
  ℕ, ◌≡◌, ◌≢◌, ◌↔◌, refl, ap, ◌⊎◌, inl, inr, Bool, true, ◌==◌, List, [], ◌∷◌, ◌++◌, All, arith,
  Bool-cases,
}
use ustc_26spring.User.Grep.{
  caret, star, dollar, dot, matchstar, at_end, match_one, matchhere, search, match,
}

-- The pattern character c stands for the character x.
abbrev pub Fits : ℕ → ℕ → Type 0
Fits c x = (c ≡ dot) ⊎ (c ≡ x)

-- One character that c stands for, and then P.
abbrev pub One : ℕ → (List ℕ → Type 0) → List ℕ → Type 0
One c P text = (x : ℕ) × (rest : List ℕ) × (text ≡ x ∷ rest) × Fits c x × P rest

-- Any number of characters that c stands for, and then P.
abbrev pub Many : ℕ → (List ℕ → Type 0) → List ℕ → Type 0
Many c P text = (run : List ℕ) × (rest : List ℕ) × (text ≡ run ++ rest) × All (Fits c) run × P rest

-- A start of the text is matched by the pattern: a star repeats the character before it, a dollar
-- at the end of the pattern is the end of the text, and a dot is any character.
unfoldable pub Prefix : List ℕ → List ℕ → Type 0
Prefix [] text = Unit
Prefix (c ∷ []) text = ((c ≡ dollar) × (text ≡ [])) ⊎ ((c ≢ dollar) × One c (Prefix []) text)
Prefix (c ∷ d ∷ re) text =
    ((d ≡ star) × Many c (Prefix re) text) ⊎ ((d ≢ star) × One c (Prefix (d ∷ re)) text)

-- The pattern matches from some place of the text on, or from its start after a caret.
abbrev pub Anywhere : (List ℕ → Type 0) → List ℕ → Type 0
Anywhere P text = (before : List ℕ) × (rest : List ℕ) × (text ≡ before ++ rest) × P rest

unfoldable pub Matches : List ℕ → List ℕ → Type 0
unfolding Prefix
Matches [] text = Anywhere (Prefix []) text
Matches (c ∷ re) text =
    ((c ≡ caret) × Prefix re text) ⊎ ((c ≢ caret) × Anywhere (Prefix (c ∷ re)) text)

module _ (here : List ℕ → Bool) (P : List ℕ → Type 0)
    (same : (text : List ℕ) → here text ≡ true ↔ P text) where
  One-match_one : (c : ℕ) (text : List ℕ) → One c P text → match_one c here text ≡ true
  One-match_one c [] (x, rest, e, f, p) = cc
  One-match_one c (x ∷ text) (y, rest, e, f, p) =
      let (hd, tl) : (x ≡ y) × (text ≡ rest) = (cc, cc) in ground (arith, (same text).1 (rw tl p))

  match_one-One : (c : ℕ) (text : List ℕ) → match_one c here text ≡ true → One c P text
  match_one-One c [] h = cc
  match_one-One c (x ∷ text) h = (x, text, refl, ground arith, (same text).0 (ground arith))

  Many-matchstar : (c : ℕ) (text : List ℕ) → Many c P text → matchstar c here text ≡ true
  unfolding matchstar
  Many-matchstar c [] ([], rest, e, f, p) = (same []).1 (rw e p)
  Many-matchstar c [] (y ∷ run, rest, e, f, p) = cc
  Many-matchstar c (x ∷ text) ([], rest, e, f, p) =
      let h : here (x ∷ text) ≡ true = (same (x ∷ text)).1 (rw e p) in rw (h, matchstar) refl
  Many-matchstar c (x ∷ text) (y ∷ run, rest, e, f, p) =
      let (hd, tl) : (x ≡ y) × (text ≡ run ++ rest) = (cc, cc) in
      ground (arith, f.0, Many-matchstar c text (run, rest, tl, f.1, p))

  matchstar-Many : (c : ℕ) (text : List ℕ) → matchstar c here text ≡ true → Many c P text
  unfolding matchstar
  matchstar-Many c [] h = ([], [], refl, tt, (same []).0 h)
  matchstar-Many c (x ∷ text) h = elim (Bool-cases (here (x ∷ text))) [
    | inl now ↦ ([], x ∷ text, refl, tt, (same (x ∷ text)).0 now)
    | inr later ↦
        let (run, rest, e, f, p) = matchstar-Many c text (ground arith) in
        (x ∷ run, rest, ap (λ l. x ∷ l) e, (ground arith, f), p)
  ]

  Anywhere-search : (text : List ℕ) → Anywhere P text → search here text ≡ true
  unfolding search
  Anywhere-search [] ([], rest, e, p) = (same []).1 (rw e p)
  Anywhere-search [] (y ∷ before, rest, e, p) = cc
  Anywhere-search (x ∷ text) ([], rest, e, p) =
      let h : here (x ∷ text) ≡ true = (same (x ∷ text)).1 (rw e p) in rw (h, search) refl
  Anywhere-search (x ∷ text) (y ∷ before, rest, e, p) =
      let tl : text ≡ before ++ rest = cc in
      ground (arith, Anywhere-search text (before, rest, tl, p))

  search-Anywhere : (text : List ℕ) → search here text ≡ true → Anywhere P text
  unfolding search
  search-Anywhere [] h = ([], [], refl, (same []).0 h)
  search-Anywhere (x ∷ text) h = elim (Bool-cases (here (x ∷ text))) [
    | inl now ↦ ([], x ∷ text, refl, (same (x ∷ text)).0 now)
    | inr later ↦
        let (before, rest, e, p) = search-Anywhere text (ground arith) in
        (x ∷ before, rest, ap (λ l. x ∷ l) e, p)
  ]

at_end_lem : (text : List ℕ) → at_end text ≡ true ↔ (text ≡ [])
at_end_lem [] = (λ h. refl, λ h. refl)
at_end_lem (x ∷ text) = (λ h. cc, λ h. cc)

matchhere-Prefix : (re text : List ℕ) → matchhere re text ≡ true ↔ Prefix re text
unfolding matchhere Prefix
matchhere-Prefix [] text = (λ h. tt, λ h. refl)
matchhere-Prefix (c ∷ []) text = elim (Bool-cases (c == dollar)) [
  | inl met ↦
      rw (met, matchhere)
        (
          λ h. inl (ground arith, (at_end_lem text).0 h),
          λ p. elim p [
            | inl (_, e) ↦ (at_end_lem text).1 e
            | inr (ne, _) ↦ absurd (ne (ground arith))
          ],
        )
  | inr unmet ↦
      rw (unmet, matchhere)
        (
          λ h. inr (
            λ e. ground arith,
            match_one-One (matchhere []) (Prefix []) (matchhere-Prefix []) c text h,
          ),
          λ p. elim p [
            | inl (e, _) ↦ absurd (ground arith)
            | inr (_, o) ↦ One-match_one (matchhere []) (Prefix []) (matchhere-Prefix []) c text o
          ],
        )
]
matchhere-Prefix (c ∷ d ∷ re) text = elim (Bool-cases (d == star)) [
  | inl met ↦
      rw (met, matchhere)
        (
          λ h. inl (
            ground arith,
            matchstar-Many (matchhere re) (Prefix re) (matchhere-Prefix re) c text h,
          ),
          λ p. elim p [
            | inl (_, o) ↦ Many-matchstar (matchhere re) (Prefix re) (matchhere-Prefix re) c text o
            | inr (ne, _) ↦ absurd (ne (ground arith))
          ],
        )
  | inr unmet ↦
      rw (unmet, matchhere)
        (
          λ h. inr (
            λ e. ground arith,
            match_one-One (matchhere (d ∷ re)) (Prefix (d ∷ re)) (matchhere-Prefix (d ∷ re)) c text
                h,
          ),
          λ p. elim p [
            | inl (e, _) ↦ absurd (ground arith)
            | inr (_, o) ↦
                One-match_one (matchhere (d ∷ re)) (Prefix (d ∷ re)) (matchhere-Prefix (d ∷ re)) c
                  text o
          ],
        )
]

-- The matcher accepts a text exactly if the pattern matches it somewhere, or at its start after a
-- caret.
pub match-Matches : (re text : List ℕ) → match re text ≡ true ↔ Matches re text
unfolding match Matches
match-Matches [] text = (
  search-Anywhere (matchhere []) (Prefix []) (matchhere-Prefix []) text,
  Anywhere-search (matchhere []) (Prefix []) (matchhere-Prefix []) text,
)
match-Matches (c ∷ re) text = elim (Bool-cases (c == caret)) [
  | inl met ↦
      rw (met, match)
        (
          λ h. inl (ground arith, (matchhere-Prefix re text).0 h),
          λ p. elim p [
            | inl (_, o) ↦ (matchhere-Prefix re text).1 o
            | inr (ne, _) ↦ absurd (ne (ground arith))
          ],
        )
  | inr unmet ↦
      rw (unmet, match)
        (
          λ h. inr (
            λ e. ground arith,
            search-Anywhere (matchhere (c ∷ re)) (Prefix (c ∷ re)) (matchhere-Prefix (c ∷ re)) text
                h,
          ),
          λ p. elim p [
            | inl (e, _) ↦ absurd (ground arith)
            | inr (_, o) ↦
                Anywhere-search (matchhere (c ∷ re)) (Prefix (c ∷ re)) (matchhere-Prefix (c ∷ re))
                  text o
          ],
        )
]
