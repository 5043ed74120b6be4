-- ===== src/User/Shell.antt =====
-- The reading of commands in user/sh.c. A string is the bytes before its 0; `argv` has the strings that stand at
-- its pointers after the call.
use ustc_26spring.Common.{
  ℕ, zero, suc, ◌+◌, Bool, true, false, ◌||◌, ◌&&◌, not, ltb, leb, ◌==◌, if◌then◌else◌, Option,
  none, some, List, [], ◌∷◌, get_or, length,
}

-- isspace1
abbrev pub is_blank : ℕ → Bool
is_blank c = (c == 32) || (c == 9)

unfoldable pub skipspace : List ℕ → List ℕ
skipspace [] = []
skipspace (c ∷ s) = let rest = skipspace s in if is_blank c then rest else c ∷ s

-- The first n bytes.
unfoldable pub take : List ℕ → ℕ → List ℕ
take s zero = []
take [] (suc n) = []
take (c ∷ s) (suc n) = c ∷ take s n

-- The loop of `rstrip` with n bytes left.
unfoldable pub rstrip_from : ℕ → List ℕ → List ℕ
unfolding take
rstrip_from zero s = []
rstrip_from (suc n) s =
    let rest = rstrip_from n s in if is_blank (get_or s n 0) then rest else take s (suc n)

unfoldable pub rstrip : List ℕ → List ℕ
unfolding rstrip_from
rstrip s = rstrip_from (length s) s

-- The bytes up to a blank or the end, and the rest.
unfoldable pub next_arg : List ℕ → List ℕ × List ℕ
next_arg [] = ([], [])
next_arg (c ∷ s) = let (w, rest) = next_arg s in if is_blank c then ([], c ∷ s) else (c ∷ w, rest)

-- The loop of `parseargs`; each round takes a byte at least.
unfoldable pub parse_loop : ℕ → ℕ → ℕ → List ℕ → Option (List (List ℕ))
unfolding next_arg skipspace
parse_loop zero maxargs argc s = none
parse_loop (suc fuel) maxargs argc [] = some []
parse_loop (suc fuel) maxargs argc (c ∷ s) = elim (leb maxargs (argc + 1)) [
  | true ↦ none
  | false ↦
      let (w, rest) = next_arg (c ∷ s) in
      elim rest [
        | [] ↦ some (w ∷ [])
        | b ∷ after ↦ elim (parse_loop fuel maxargs (argc + 1) (skipspace after)) [
          | none ↦ none
          | some args ↦ some (w ∷ args)
        ]
      ]
]

-- The arguments; `none` is -1.
unfoldable pub parseargs : List ℕ → ℕ → Option (List (List ℕ))
unfolding parse_loop rstrip
parseargs line maxargs = let s = rstrip (skipspace line) in parse_loop (length s + 1) maxargs 0 s

-- The bytes that are put after the first i of a path.
unfoldable pub add_bytes : ℕ → ℕ → List ℕ → Option (List ℕ)
add_bytes cap i [] = some []
add_bytes cap i (c ∷ s) = elim (leb cap (i + 1)) [
  | true ↦ none
  | false ↦ elim (add_bytes cap (i + 1) s) [ none ↦ none | some path ↦ some (c ∷ path) ]
]

-- The path of a command; `none` is -1.
unfoldable pub makepath : List ℕ → ℕ → Option (List ℕ)
unfolding add_bytes
makepath cmd cap =
    if get_or cmd 0 0 == 47
    then add_bytes cap 0 cmd
    else if ltb cap 2
    then none
    else elim (add_bytes cap 1 cmd) [ none ↦ none | some path ↦ some (47 ∷ path) ]

-- Whether `strcmp` of user/ulib.c returns 0; beyond a list is a 0.
unfoldable pub same_string : List ℕ → List ℕ → Bool
same_string [] [] = true
same_string [] (b ∷ t) = b == 0
same_string (a ∷ s) [] = a == 0
same_string (a ∷ s) (b ∷ t) =
    let rest = same_string s t in if not (a == 0) && (a == b) then rest else a == b

abbrev pub max_line : ℕ
max_line = 128

abbrev pub max_args : ℕ
max_args = 16

abbrev pub cd_name : List ℕ
cd_name = 99 ∷ 100 ∷ []

abbrev pub help_name : List ℕ
help_name = 104 ∷ 101 ∷ 108 ∷ 112 ∷ []

abbrev pub exit_name : List ℕ
exit_name = 101 ∷ 120 ∷ 105 ∷ 116 ∷ []

-- What a line asks for; `run` has the path and the arguments after it.
pub data Command : Type 0 where
  nothing too_many help usage quit too_long : Command
  cd : List ℕ → Command
  run : List ℕ → List (List ℕ) → Command

abbrev run_path : Option (List ℕ) → List (List ℕ) → Command
run_path none args = too_long
run_path (some path) args = run path args

abbrev change_dir : List (List ℕ) → Command
change_dir [] = cd (47 ∷ [])
change_dir (dir ∷ []) = cd dir
change_dir (dir ∷ more ∷ args) = usage

-- The body of the loop of `main` of user/sh.c, for a line that `readline` has read.
unfoldable pub command : List ℕ → Command
unfolding parseargs makepath same_string
command line = elim (parseargs line max_args) [
  | none ↦ too_many
  | some [] ↦ nothing
  | some (cmd ∷ args) ↦
      if same_string cmd help_name
      then help
      else if same_string cmd cd_name
      then change_dir args
      else if same_string cmd exit_name
      then quit
      else run_path (makepath cmd max_line) args
]
