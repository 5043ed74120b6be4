-- ===== src/Virtio/Rings.antt =====
-- Segments of a ring of 8 entries that is indexed by counters of 16 bits, as those of the queue of
-- kernel/drivers/virtio_disk.c, and how often a number stands in a list.
use ustc_26spring.Common.{
  ℕ, zero, suc, ◌+◌, ◌%◌, ◌^◌, ◌≤◌, ◌<◌, ◌≡◌, ◌≢◌, refl, inl, inr, ltb, ◌==◌, if◌then◌else◌, List,
  [], ◌∷◌, ◌++◌, All, length, arith, Bool-cases,
}
use ustc_26spring.Virtio.{write_at}

-- The entries from counter i on up to counter j are those of the list.
abbrev pub Segment : (ℕ → ℕ) → ℕ → List ℕ → ℕ → Type 0
Segment ring i [] j = (i ≡ j) × (i < 2 ^ 16)
Segment ring i (h ∷ hs) j = (ring (i % 8) ≡ h) × (i < 2 ^ 16) × Segment ring ((i + 1) % 2 ^ 16) hs j

pub Segment-ends :
    (ring : ℕ → ℕ) (i : ℕ) (hs : List ℕ) (j : ℕ)
    → Segment ring i hs j
    → (j ≡ (i + length hs) % 2 ^ 16) × (i < 2 ^ 16) × (j < 2 ^ 16)
Segment-ends ring i [] j (e, lt) = (omega arith, lt, omega arith)
Segment-ends ring i (h ∷ hs) j (e, lt, s) =
    let (q, lt', lj) = Segment-ends ring ((i + 1) % 2 ^ 16) hs j s in (omega arith, lt, lj)

-- An entry that is appended.
pub Segment-push :
    (ring : ℕ → ℕ) (i : ℕ) (hs : List ℕ) (j h : ℕ)
    → Segment ring i hs j
    → length hs < 8
    → Segment (write_at ring (j % 8) h) i (hs ++ h ∷ []) ((j + 1) % 2 ^ 16)
Segment-push ring i [] j h (e, lt) few = (ground arith, lt, (omega arith, omega arith))
Segment-push ring i (k ∷ hs) j h (e, lt, s) few =
    let (q, lt', lj) = Segment-ends ring ((i + 1) % 2 ^ 16) hs j s in
    let ne : i % 8 ≢ j % 8 = (λ z. omega arith) in
    (ground arith, lt, Segment-push ring ((i + 1) % 2 ^ 16) hs j h s (omega arith))

abbrev pub one : ℕ → ℕ → ℕ
one g h = if g == h then 1 else 0

-- How often a number stands in a list.
abbrev pub times : ℕ → List ℕ → ℕ
times g [] = 0
times g (h ∷ hs) = one g h + times g hs

pub times-append : (g : ℕ) (xs ys : List ℕ) → times g (xs ++ ys) ≡ times g xs + times g ys
times-append g [] ys = omega arith
times-append g (x ∷ xs) ys = omega (arith, times-append g xs ys)

pub All_at : (P : ℕ → Type 0) (g : ℕ) (hs : List ℕ) → All P hs → 1 ≤ times g hs → P g
All_at P g [] a h = absurd (omega arith)
All_at P g (x ∷ hs) (p, a) h = elim (Bool-cases (g == x)) [
  | inl e ↦ let q : g ≡ x = ground arith in rw q p
  | inr ne ↦ All_at P g hs a (ground arith)
]

pub All-map :
    (P Q : ℕ → Type 0) (hs : List ℕ) → ((g : ℕ) → 1 ≤ times g hs → P g → Q g) → All P hs → All Q hs
All-map P Q [] f a = tt
All-map P Q (x ∷ hs) f (p, a) =
    (f x (ground arith) p, All-map P Q hs (λ g h q. f g (ground arith) q) a)

pub All-append : (P : ℕ → Type 0) (xs ys : List ℕ) → All P xs → All P ys → All P (xs ++ ys)
All-append P [] ys a b = b
All-append P (x ∷ xs) ys (p, a) b = (p, All-append P xs ys a b)

pub All-split : (P : ℕ → Type 0) (xs ys : List ℕ) → All P (xs ++ ys) → All P xs × All P ys
All-split P [] ys a = (tt, a)
All-split P (x ∷ xs) ys (p, a) = let (q, b) = All-split P xs ys a in ((p, q), b)

-- How often the numbers below n stand in a list.
sum_times : ℕ → List ℕ → ℕ
sum_times zero hs = 0
sum_times (suc n) hs = times n hs + sum_times n hs

sum_times_nil : (n : ℕ) → sum_times n [] ≡ 0
unfolding sum_times
sum_times_nil zero = refl
sum_times_nil (suc n) = omega (arith, sum_times_nil n)

sum_times_cons :
    (n x : ℕ) (hs : List ℕ)
    → sum_times n (x ∷ hs) ≡ sum_times n hs + (if n == 0 then 0 else if ltb x n then 1 else 0)
unfolding sum_times
sum_times_cons zero x hs = omega arith
sum_times_cons (suc n) x hs = ground (arith, sum_times_cons n x hs)

sum_times-le : (n : ℕ) (hs : List ℕ) → ((g : ℕ) → times g hs ≤ 1) → sum_times n hs ≤ n
unfolding sum_times
sum_times-le zero hs h = omega arith
sum_times-le (suc n) hs h = omega (arith, h n, sum_times-le n hs h)

length-sum_times : (n : ℕ) (hs : List ℕ) → All (λ h. h < n) hs → length hs ≤ sum_times n hs
length-sum_times n [] a = omega arith
length-sum_times n (x ∷ hs) (lt, a) = ground (arith, sum_times_cons n x hs, length-sum_times n hs a)

-- Different numbers below n are at most n.
pub length-le :
    (n : ℕ) (hs : List ℕ) → All (λ h. h < n) hs → ((g : ℕ) → times g hs ≤ 1) → length hs ≤ n
length-le n hs a h = omega (arith, length-sum_times n hs a, sum_times-le n hs h)
