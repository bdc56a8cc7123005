-- ===== src/PathParser/Examples.antt =====
-- The theorems on paths at `0:/bin/sh`.
use slob_os.Prelude.{◌-◌, ℕ, ◌≤◌, ◌<◌, ◌≡◌, ◌⊎◌, arith, some, none, List, [], ◌∷◌, length}
use slob_os.Prelude.Int.{pos}
use slob_os.PathParser.{Chars, pathparser_parse}
use slob_os.PathParser.Total.{HasDrive, IsSplit, pathparser_parse_total}
use slob_os.PathParser.Round.{AreNames, path_of, join, pathparser_parse-path_of}

abbrev bin_sh : List Chars
bin_sh = (b'b' ∷ b'i' ∷ b'n' ∷ []) ∷ (b's' ∷ b'h' ∷ []) ∷ []

ne_slash : (c : ℕ) → 47 < c → ¬ (c ≡ b'/')
ne_slash c lt e = absurd (omega arith)

bin_sh-AreNames : AreNames bin_sh
bin_sh-AreNames = (
  (ne_slash _ (omega arith), (ne_slash _ (omega arith), (ne_slash _ (omega arith), tt))),
  ((ne_slash _ (omega arith), (ne_slash _ (omega arith), tt)), tt),
)

short : length (path_of 48 bin_sh) ≤ 108
unfolding join
short = omega arith

pathparser_parse-path_of_example :
    pathparser_parse 3 (path_of 48 bin_sh)
    ≡ some (some (record { drive_no = pos 0; parts = bin_sh }))
pathparser_parse-path_of_example =
    pathparser_parse-path_of 48 3 bin_sh (omega arith) (omega arith) bin_sh-AreNames short
      (omega arith)

-- `1:/b//x`, whose second name is empty.
abbrev doubled : Chars
doubled = b'1' ∷ b':' ∷ b'/' ∷ b'b' ∷ b'/' ∷ b'/' ∷ b'x' ∷ []

pathparser_parse_total_example :
    ((pathparser_parse 8 doubled ≡ some none)
      × ((108 < length doubled) ⊎ ((digit : ℕ) (rest : Chars) → ¬ HasDrive doubled digit rest)))
    ⊎ ((digit : ℕ) × (rest : Chars) × (parts : List Chars) × (pathparser_parse 8 doubled
          ≡ some (some (record { drive_no = pos (digit - 48); parts = parts })))
        × (length doubled ≤ 108)
        × HasDrive doubled digit rest
        × IsSplit rest parts)
pathparser_parse_total_example = pathparser_parse_total 8 doubled (omega arith)
