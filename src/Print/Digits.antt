-- ===== src/Print/Digits.antt =====
-- Numerals as numbers, beside `printuint` of kernel/lib/printf.c.
use ustc_26spring.Common.{
  ℕ, zero, suc, ◌+◌, ◌-◌, ◌*◌, ◌/◌, ◌%◌, ◌^◌, ◌≤◌, ◌<◌, ◌≡◌, refl, sym, ap, ◌∙◌, inl, inr, true,
  ltb, ◌==◌, if◌then◌else◌, List, [], ◌∷◌, length, get_or, arith, Bool-cases,
}
use native.Mathlib.Nat.{mod-lt, mul-le-mul_left, pow-suc, div-add-mod'}
use ustc_26spring.Print.{lower_digits, upper_digits, put_digits, printuint}

-- The value of a digit in ASCII, for bases up to 16.
abbrev pub digit_value : ℕ → ℕ
digit_value c = if ltb c 58 then c - 48 else if ltb c 97 then c - 55 else c - 87

-- The value of a numeral, its first digit being the highest, that follows the value acc.
abbrev pub numeral_value : ℕ → ℕ → List ℕ → ℕ
numeral_value base acc [] = acc
numeral_value base acc (c ∷ cs) = numeral_value base (acc * base + digit_value c) cs

abbrev AreDigits : List ℕ → Type 0
AreDigits digits = (d : ℕ) → d < 16 → digit_value (get_or digits d 0) ≡ d

lower-AreDigits : AreDigits lower_digits
lower-AreDigits d h = ground arith

upper-AreDigits : AreDigits upper_digits
upper-AreDigits d h = ground arith

module _ (base : ℕ) (lo : 2 ≤ base) (hi : base ≤ 16) (digits : List ℕ)
    (good : AreDigits digits) where
  pos : 0 < base
  pos = omega arith

  joined : (x : ℕ) → x / base * base + digit_value (get_or digits (x % base) 0) ≡ x
  joined x =
      ap (λ v. x / base * base + v) (good (x % base) (let m = mod-lt x pos in omega arith))
      ∙ div-add-mod' x base

  shrinks : (fuel x : ℕ) → x < 2 ^ suc fuel → x / base < 2 ^ fuel
  shrinks fuel x h =
      let twice : x / base * 2 ≤ x / base * base = mul-le-mul_left (x / base) lo in
      omega (arith, twice, div-add-mod' x base, pow-suc 2 fuel, h)

  put_digits_value :
      (fuel x : ℕ) (buf : List ℕ)
      → x < 2 ^ fuel
      → numeral_value base 0 (put_digits fuel x base digits buf) ≡ numeral_value base x buf
  unfolding put_digits
  put_digits_value zero x buf h = let q : x ≡ 0 = omega arith in rw q refl
  put_digits_value (suc fuel) x buf h = elim (Bool-cases (x / base == 0)) [
    | inl last ↦
        rw (last, put_digits)
          (ap (λ v. numeral_value base v buf)
            (let q : x / base ≡ 0 = ground arith in
              ap (λ v. v * base + digit_value (get_or digits (x % base) 0)) (sym q) ∙ joined x))
    | inr more ↦
        rw (more, put_digits)
          (put_digits_value fuel (x / base) (get_or digits (x % base) 0 ∷ buf) (shrinks fuel x h)
            ∙ ap (λ v. numeral_value base v buf) (joined x))
  ]

module _ (base : ℕ) (lo : 8 ≤ base) (digits : List ℕ) where
  shrinks_by_eight : (m x : ℕ) → x < 8 ^ suc m → x / base < 8 ^ m
  shrinks_by_eight m x h =
      let eight : x / base * 8 ≤ x / base * base = mul-le-mul_left (x / base) lo in
      omega (arith, eight, div-add-mod' x base, pow-suc 8 m, h)

  put_digits-length :
      (fuel m x : ℕ) (buf : List ℕ)
      → x < 8 ^ suc m
      → length (put_digits fuel x base digits buf) ≤ length buf + suc m
  unfolding put_digits
  put_digits-length zero m x buf h = omega arith
  put_digits-length (suc fuel) zero x buf h =
      let last : (x / base == 0) ≡ true = (let q = shrinks_by_eight 0 x h in ground arith) in
      rw (last, put_digits) (omega arith)
  put_digits-length (suc fuel) (suc m) x buf h = elim (Bool-cases (x / base == 0)) [
    | inl last ↦ rw (last, put_digits) (omega arith)
    | inr more ↦
        rw (more, put_digits)
          (omega (
            arith,
            put_digits-length fuel m (x / base) (get_or digits (x % base) 0 ∷ buf)
                (shrinks_by_eight (suc m) x h),
          ))
  ]

-- `printuint` of a 64-bit number in a base from 8 to 16 ends and prints a numeral of that number, with
-- the digits in lower as in upper case, and stores at most 22 digits, which its buffer of 32 holds.
pub printuint-numeral :
    (x base : ℕ)
    → x < 2 ^ 64
    → 8 ≤ base
    → base ≤ 16
    → (numeral_value base 0 (printuint x base lower_digits) ≡ x)
      × (numeral_value base 0 (printuint x base upper_digits) ≡ x)
      × (length (printuint x base lower_digits) ≤ 22)
      × (length (printuint x base upper_digits) ≤ 22)
unfolding printuint
printuint-numeral x base h lo hi = (
  put_digits_value base (omega arith) hi lower_digits lower-AreDigits 64 x [] h,
  put_digits_value base (omega arith) hi upper_digits upper-AreDigits 64 x [] h,
  put_digits-length base lo lower_digits 64 21 x [] (omega arith),
  put_digits-length base lo upper_digits 64 21 x [] (omega arith),
)
