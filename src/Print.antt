-- ===== src/Print.antt =====
-- The printing of kernel/lib/printf.c: what is handed to `consputc`, in order, by one call that has the
-- console. A format or a string is the bytes before its 0, a number the 64 bits of its register. Where
-- a conversion finds no argument of its kind, which C leaves open, the result is `none`.
pub mod Digits
pub mod Formats
pub mod Tests
use ustc_26spring.Common.{
  ℕ, zero, suc, ◌+◌, ◌-◌, ◌*◌, ◌/◌, ◌%◌, ◌^◌, Bool, true, false, not, ◌&&◌, ◌||◌, ltb, ◌==◌,
  if◌then◌else◌, Option, none, some, List, [], ◌∷◌, ◌++◌, get_or, replicate,
}

abbrev pub lower_digits : List ℕ
lower_digits = 48 ∷ 49 ∷ 50 ∷ 51 ∷ 52 ∷ 53 ∷ 54 ∷ 55 ∷ 56 ∷ 57 ∷ 97 ∷ 98 ∷ 99 ∷ 100 ∷ 101 ∷ 102 ∷ []

abbrev pub upper_digits : List ℕ
upper_digits = 48 ∷ 49 ∷ 50 ∷ 51 ∷ 52 ∷ 53 ∷ 54 ∷ 55 ∷ 56 ∷ 57 ∷ 65 ∷ 66 ∷ 67 ∷ 68 ∷ 69 ∷ 70 ∷ []

-- The loop of `printuint` with the digits of `buf`, the last stored one first, as they are printed.
unfoldable pub put_digits : ℕ → ℕ → ℕ → List ℕ → List ℕ → List ℕ
put_digits zero x base digits buf = buf
put_digits (suc fuel) x base digits buf = elim (x / base == 0) [
  | true ↦ get_or digits (x % base) 0 ∷ buf
  | false ↦ put_digits fuel (x / base) base digits (get_or digits (x % base) 0 ∷ buf)
]

unfoldable pub printuint : ℕ → ℕ → List ℕ → List ℕ
unfolding put_digits
printuint x base digits = put_digits 64 x base digits []

-- A negative number is its 64 bits.
unfoldable pub printint64 : ℕ → ℕ → List ℕ
unfolding printuint
printint64 xx base =
    if ltb xx (2 ^ 63)
    then printuint xx base lower_digits
    else 45 ∷ printuint ((2 ^ 64 - xx) % 2 ^ 64) base lower_digits

-- "(null)"
unfoldable pub printstr : Option (List ℕ) → List ℕ
printstr none = 40 ∷ 110 ∷ 117 ∷ 108 ∷ 108 ∷ 41 ∷ []
printstr (some s) = s

-- The loop of `printptr` with n digits left.
unfoldable pub put_nibbles : ℕ → ℕ → List ℕ
put_nibbles zero x = []
put_nibbles (suc n) x = get_or lower_digits (x / 2 ^ 60) 0 ∷ put_nibbles n (x * 16 % 2 ^ 64)

unfoldable pub printptr : ℕ → List ℕ
unfolding put_nibbles
printptr x = 48 ∷ 120 ∷ put_nibbles 16 x

unfoldable pub printunknown : ℕ → ℕ → List ℕ
printunknown length c = 37 ∷ replicate length 108 ++ (if not (c == 0) then c ∷ [] else [])

-- An unsigned or signed argument by the number of letters l.
abbrev pub getuintarg : ℕ → ℕ → ℕ
getuintarg length w = if length == 0 then w % 2 ^ 32 else w

abbrev pub getintarg : ℕ → ℕ → ℕ
getintarg length w =
    if not (length == 0)
    then w
    else if ltb (w % 2 ^ 32) (2 ^ 31)
    then w % 2 ^ 32
    else w % 2 ^ 32 + (2 ^ 64 - 2 ^ 32)

-- An argument: a number, or a pointer to a string or 0.
pub data Arg : Type 0 where
  word : ℕ → Arg
  text : Option (List ℕ) → Arg

abbrev pub Printed : Type 0
Printed = Option (List ℕ × List Arg)

abbrev pub with_word : (ℕ → List ℕ) → List Arg → Printed
with_word f [] = none
with_word f (word w ∷ args) = some (f w, args)
with_word f (text s ∷ args) = none

abbrev pub with_text : (Option (List ℕ) → List ℕ) → List Arg → Printed
with_text f [] = none
with_text f (word w ∷ args) = none
with_text f (text s ∷ args) = some (f s, args)

-- The switch of `printf` on the letter c, after `length` letters l.
unfoldable pub convert : ℕ → ℕ → List Arg → Printed
unfolding printint64 printuint printptr printstr printunknown
convert length c args =
    if (c == 100) || (c == 105)
    then with_word (λ w. printint64 (getintarg length w) 10) args
    else if c == 117
    then with_word (λ w. printuint (getuintarg length w) 10 lower_digits) args
    else if c == 120
    then with_word (λ w. printuint (getuintarg length w) 16 lower_digits) args
    else if c == 88
    then with_word (λ w. printuint (getuintarg length w) 16 upper_digits) args
    else if c == 111
    then with_word (λ w. printuint (getuintarg length w) 8 lower_digits) args
    else if c == 112
    then with_word printptr args
    else if c == 115
    then with_text printstr args
    else if c == 99
    then with_word (λ w. w % 2 ^ 32 ∷ []) args
    else if c == 37
    then some (37 ∷ [], args)
    else some (printunknown length c, args)

abbrev pub then_print : List ℕ → Option (List ℕ) → Option (List ℕ)
then_print out none = none
then_print out (some rest) = some (out ++ rest)

-- The loop of `printf`: `none` between conversions, `some length` after a % and `length` letters l.
unfoldable pub printf_from : Option ℕ → List ℕ → List Arg → Option (List ℕ)
unfolding convert
printf_from at [] args = some []
printf_from none (c ∷ fmt) args = elim (c == 37) [
  | true ↦ printf_from (some 0) fmt args
  | false ↦ then_print (c ∷ []) (printf_from none fmt args)
]
printf_from (some length) (c ∷ fmt) args = elim ((c == 108) && ltb length 2) [
  | true ↦ printf_from (some (length + 1)) fmt args
  | false ↦ elim (convert length c args) [
    | none ↦ none
    | some (out, rest) ↦ then_print out (printf_from none fmt rest)
  ]
]

abbrev pub printf : List ℕ → List Arg → Option (List ℕ)
printf fmt args = printf_from none fmt args
