-- ===== src/Print/Tests.antt =====
-- The printing of kernel/lib/printf.c on small inputs.
use ustc_26spring.Common.{◌^◌, ◌≤◌, ◌≡◌, refl, some, none, List, [], ◌∷◌, length, replicate, arith}
use ustc_26spring.Print.{
  Arg, word, text, lower_digits, upper_digits, put_digits, printuint, printint64, put_nibbles,
  printptr, printunknown, convert, printf_from, printf,
}
use ustc_26spring.Print.Digits.{numeral_value, printuint-numeral}
use ustc_26spring.Print.Formats.{Part, plain, conversion}

hex_255 : printuint 255 16 upper_digits ≡ 70 ∷ 70 ∷ []
unfolding printuint put_digits
hex_255 = refl

-- The least 64-bit number, in decimal.
least_printed : length (printint64 (2 ^ 63) 10) ≡ 20
unfolding printint64 printuint put_digits
least_printed = refl

null_pointer : printptr 0 ≡ 48 ∷ 120 ∷ replicate 16 48
unfolding printptr put_nibbles
null_pointer = refl

-- "n=%d" with the 32 bits of -7.
minus_seven :
    printf (110 ∷ 61 ∷ 37 ∷ 100 ∷ []) (word 4294967289 ∷ []) ≡ some (110 ∷ 61 ∷ 45 ∷ 55 ∷ [])
unfolding printf_from convert printint64 printuint put_digits
minus_seven = refl

-- "%lq" is no conversion.
unknown_printed : printf (37 ∷ 108 ∷ 113 ∷ []) [] ≡ some (37 ∷ 108 ∷ 113 ∷ [])
unfolding printf_from convert printunknown
unknown_printed = refl

printuint-numeral_example :
    (numeral_value 10 0 (printuint 1024 10 lower_digits) ≡ 1024)
    × (numeral_value 10 0 (printuint 1024 10 upper_digits) ≡ 1024)
    × (length (printuint 1024 10 lower_digits) ≤ 22)
    × (length (printuint 1024 10 upper_digits) ≤ 22)
printuint-numeral_example = printuint-numeral 1024 10 (omega arith) (omega arith) (omega arith)

-- "a%lx%s"
abbrev parts : List Part
parts = plain 97 ∷ conversion 1 120 ∷ conversion 0 115 ∷ []

abbrev part_args : List Arg
part_args = word 31 ∷ text none ∷ []
