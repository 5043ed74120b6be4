-- ===== src/Console/Tests.antt =====
-- The console of kernel/core/console.c on small inputs.
use ustc_26spring.Common.{◌≡◌, refl, arith, replicate}
use ustc_26spring.Console.{Console, consoleinit, consoleintr}
use ustc_26spring.Console.Lines.{IsValid}
use ustc_26spring.Console.Input.{lines, type_char, consoleintr_refines}

consoleinit-IsValid : IsValid consoleinit
unfolding consoleinit
consoleinit-IsValid = record {
  storage = refl;
  r_word = omega arith;
  w_word = omega arith;
  e_word = omega arith;
  order = refl;
  bounded = omega arith;
}

consoleintr_refines_example :
    IsValid (consoleintr 97 consoleinit).console
    × (lines (consoleintr 97 consoleinit).console ≡ type_char 97 (lines consoleinit))
consoleintr_refines_example = consoleintr_refines 97 consoleinit consoleinit-IsValid

-- The line in edit holds the two characters after the wrap of the counters.
abbrev two_chars : Console
two_chars = record { buf = replicate 128 97; r = 0xffffffff; w = 0xffffffff; e = 1 }

two_chars-IsValid : IsValid two_chars
two_chars-IsValid = record {
  storage = refl;
  r_word = omega arith;
  w_word = omega arith;
  e_word = omega arith;
  order = refl;
  bounded = omega arith;
}
