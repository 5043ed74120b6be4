-- ===== src/Fs/Names.antt =====
-- `skipelem` of kernel/fs/fs.c. A path is the list of its bytes before the terminating 0.
use ustc_26spring.Common.{
  ℕ, zero, suc, ◌≡◌, ◌≢◌, refl, ap, ◌∙◌, inl, inr, true, false, leb, ◌==◌, if◌then◌else◌, Option,
  none, some, List, [], ◌∷◌, ◌++◌, All, length, arith, Bool-cases, append-nil,
}

abbrev pub slash : ℕ
slash = 47

abbrev pub dirsiz : ℕ
dirsiz = 14

-- while (*path == '/') path++;
unfoldable pub skip_slashes : List ℕ → List ℕ
skip_slashes [] = []
skip_slashes (x ∷ path) = if x == slash then skip_slashes path else x ∷ path

-- The bytes up to the next slash, and the path from there on.
unfoldable pub element : List ℕ → List ℕ × List ℕ
element [] = ([], [])
element (x ∷ path) = elim (x == slash) [
  | true ↦ ([], x ∷ path)
  | false ↦ (x ∷ (element path).0, (element path).1)
]

-- The first n bytes.
unfoldable pub first_bytes : ℕ → List ℕ → List ℕ
first_bytes zero s = []
first_bytes (suc n) [] = []
first_bytes (suc n) (x ∷ s) = x ∷ first_bytes n s

abbrev pub name_of : List ℕ → List ℕ
name_of s = if leb dirsiz (length s) then first_bytes dirsiz s else s

-- `skipelem`: the name and the rest of the path, or 0.
unfoldable pub skipelem : List ℕ → Option (List ℕ × List ℕ)
unfolding skip_slashes element first_bytes
skipelem path = elim (skip_slashes path) [
  | [] ↦ none
  | x ∷ rest ↦ some (name_of (element (x ∷ rest)).0, skip_slashes (element (x ∷ rest)).1)
]

abbrev pub Slashes : List ℕ → Type 0
Slashes l = All (λ x. x ≡ slash) l

abbrev pub NoSlash : List ℕ → Type 0
NoSlash l = All (λ x. x ≢ slash) l

-- A list that is empty or begins with a byte other than a slash.
abbrev pub StartsPlain : List ℕ → Type 0
StartsPlain [] = Unit
StartsPlain (x ∷ l) = x ≢ slash

-- A list that is empty or begins with a slash.
abbrev pub StartsSlash : List ℕ → Type 0
StartsSlash [] = Unit
StartsSlash (x ∷ l) = x ≡ slash

skip_slashes_lem :
    (path : List ℕ)
    → (pre : List ℕ) × (path ≡ pre ++ skip_slashes path)
      × Slashes pre
      × StartsPlain (skip_slashes path)
unfolding skip_slashes
skip_slashes_lem [] = ([], refl, tt, tt)
skip_slashes_lem (x ∷ path) = elim (Bool-cases (x == slash)) [
  | inl more ↦
      let (pre, e, s, p) = skip_slashes_lem path in
      rw (more, skip_slashes) (x ∷ pre, ap (λ l. x ∷ l) e, (ground arith, s), p)
  | inr stop ↦ rw (stop, skip_slashes) ([], refl, tt, λ e. ground arith)
]

element_lem :
    (path : List ℕ)
    → (path ≡ (element path).0 ++ (element path).1)
      × NoSlash (element path).0
      × StartsSlash (element path).1
unfolding element
element_lem [] = (refl, tt, tt)
element_lem (x ∷ path) = elim (Bool-cases (x == slash)) [
  | inl stop ↦ rw (stop, element) (refl, tt, ground arith)
  | inr more ↦
      let (e, n, s) = element_lem path in
      rw (more, element) (ap (λ l. x ∷ l) e, ((λ h. ground arith), n), s)
]

element_plain : (x : ℕ) (p : List ℕ) → x ≢ slash → (element (x ∷ p)).0 ≢ []
unfolding element
element_plain x p ne e = ground arith

-- How a path is taken apart: slashes, an element without slashes, then slashes up to the rest, and
-- no slash follows the element only at the end of the path. The name is the element, or its first
-- 14 bytes.
pub record Taken (path name rest : List ℕ) : Type 0 where
  pub before : List ℕ
  pub elem : List ℕ
  pub after : List ℕ
  pub whole : path ≡ before ++ (elem ++ (after ++ rest))
  pub slashes : Slashes before × Slashes after
  pub plain : NoSlash elem
  pub some_byte : elem ≢ []
  pub ends : StartsSlash (after ++ rest) × StartsPlain rest
  pub named : name ≡ name_of elem

-- The two outcomes of `skipelem`.
pub data Skips (path : List ℕ) (r : Option (List ℕ × List ℕ)) : Type 0 where
  done : Slashes path → r ≡ none → Skips path r
  found : (name rest : List ℕ) → Taken path name rest → r ≡ some (name, rest) → Skips path r

element-Skips :
    (path pre : List ℕ) (x : ℕ) (p : List ℕ)
    → path ≡ pre ++ x ∷ p
    → Slashes pre
    → x ≢ slash
    → Skips path (some (name_of (element (x ∷ p)).0, skip_slashes (element (x ∷ p)).1))
element-Skips path pre x p e s ne =
    let (split, plain, at) = element_lem (x ∷ p) in
    let (post, f, s', start) = skip_slashes_lem (element (x ∷ p)).1 in
    found (name_of (element (x ∷ p)).0) (skip_slashes (element (x ∷ p)).1)
      (record {
        before = pre;
        elem = (element (x ∷ p)).0;
        after = post;
        whole = e ∙ ap (λ l. pre ++ l) (split ∙ ap (λ l. (element (x ∷ p)).0 ++ l) f);
        slashes = (s, s');
        plain = plain;
        some_byte = element_plain x p ne;
        ends = (rw f at at, start);
        named = refl;
      })
      refl

skip-Skips :
    (path pre q : List ℕ)
    → path ≡ pre ++ q
    → Slashes pre
    → StartsPlain q
    → Skips path (elim q [
      | [] ↦ none
      | x ∷ rest ↦ some (name_of (element (x ∷ rest)).0, skip_slashes (element (x ∷ rest)).1)
    ])
skip-Skips path pre [] e s p = done (rw (e, append-nil) s) refl
skip-Skips path pre (x ∷ q) e s p = element-Skips path pre x q e s p

pub skipelem-Skips : (path : List ℕ) → Skips path (skipelem path)
unfolding skipelem
skipelem-Skips path =
    let (pre, e, s, p) = skip_slashes_lem path in skip-Skips path pre (skip_slashes path) e s p
