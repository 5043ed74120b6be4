-- ===== src/User/ShellTests.antt =====
-- Lines of user/sh.c.
use ustc_26spring.Common.{
  ℕ, ◌≡◌, refl, ltb, if◌then◌else◌, none, some, List, [], ◌∷◌, length, arith,
}
use ustc_26spring.User.Shell.{
  skipspace, take, rstrip_from, rstrip, next_arg, parse_loop, parseargs, same_string, run, usage,
  too_long, command,
}
use ustc_26spring.User.Words.{words, begin_word, rooted, parseargs-words, command-run}

-- " ls  a" and a tab.
abbrev line : List ℕ
line = 32 ∷ 108 ∷ 115 ∷ 32 ∷ 32 ∷ 97 ∷ 9 ∷ []

parseargs-words_example :
    parseargs line 2 ≡ (if ltb (length (words line)) 2 then some (words line) else none)
parseargs-words_example = parseargs-words line 2 (omega arith)

two_words : parseargs line 16 ≡ some ((108 ∷ 115 ∷ []) ∷ (97 ∷ []) ∷ [])
unfolding parseargs parse_loop next_arg skipspace rstrip rstrip_from take
two_words = refl

command-run_example : command line ≡ (
    if ltb (length (rooted (108 ∷ 115 ∷ []))) 128
    then run (rooted (108 ∷ 115 ∷ [])) ((97 ∷ []) ∷ [])
    else too_long)
unfolding words begin_word same_string
command-run_example =
    command-run line (108 ∷ 115 ∷ []) ((97 ∷ []) ∷ []) refl (omega arith) refl refl refl

-- "cd a b" is an error of usage.
cd_usage : command (99 ∷ 100 ∷ 32 ∷ 97 ∷ 32 ∷ 98 ∷ []) ≡ usage
unfolding command parseargs parse_loop next_arg skipspace rstrip rstrip_from take same_string
cd_usage = refl
