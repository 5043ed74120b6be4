-- ===== src/User/Tests.antt =====
-- The matcher of user/grep.c and the counts of user/wc.c on small inputs.
use ustc_26spring.Common.{◌≡◌, ◌↔◌, refl, true, [], ◌∷◌}
use ustc_26spring.User.Grep.{match, matchhere, matchstar, search, star, dollar}
use ustc_26spring.Common.{some, length, ◌%◌}
use mathlib.Core.Option
use ustc_26spring.Common.Word.{u64_mod}
use ustc_26spring.User.Wc.{
  do_wc, wc_loop, count_chunk, count_byte, text_of, newlines, words_of, do_wc-text,
}
use ustc_26spring.User.Regex.{Matches, match-Matches}

-- a*b$ on the text aab
match-Matches_example :
    match (97 ∷ star ∷ 98 ∷ dollar ∷ []) (97 ∷ 97 ∷ 98 ∷ []) ≡ true
    ↔ Matches (97 ∷ star ∷ 98 ∷ dollar ∷ []) (97 ∷ 97 ∷ 98 ∷ [])
match-Matches_example = match-Matches (97 ∷ star ∷ 98 ∷ dollar ∷ []) (97 ∷ 97 ∷ 98 ∷ [])

match_aab : match (97 ∷ star ∷ 98 ∷ dollar ∷ []) (97 ∷ 97 ∷ 98 ∷ []) ≡ true
unfolding match search matchhere matchstar
match_aab = refl

-- a b, cut within the second word, and a newline
do_wc-text_example :
    do_wc (some (97 ∷ 32 ∷ 98 ∷ []) ∷ some (98 ∷ 10 ∷ []) ∷ [])
    ≡ Option.map
        (λ t. (newlines t % u64_mod, words_of t % u64_mod, length t % u64_mod))
        (text_of (some (97 ∷ 32 ∷ 98 ∷ []) ∷ some (98 ∷ 10 ∷ []) ∷ []))
do_wc-text_example = do_wc-text (some (97 ∷ 32 ∷ 98 ∷ []) ∷ some (98 ∷ 10 ∷ []) ∷ [])

do_wc_two : do_wc (some (97 ∷ 32 ∷ 98 ∷ []) ∷ some (98 ∷ 10 ∷ []) ∷ []) ≡ some (1, 2, 5)
unfolding do_wc wc_loop count_chunk count_byte
do_wc_two = refl
