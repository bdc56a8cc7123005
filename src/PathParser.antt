-- ===== src/PathParser.antt =====
-- The path parser of src/fs/pparser.c. A path is the list of its characters before the closing 0;
-- `path + n` is the list without its first `n` characters. The allocations of kzalloc are taken to
-- succeed, as the source does not test those of the parts.
mod Examples
pub mod Round
pub mod Total
use slob_os.Prelude.{
  ℕ, zero, suc, ◌+◌, ◌-◌, Bool, true, false, ◌&&◌, Option, none, some, ltb, leb, ◌==◌,
  if◌then◌else◌, List, [], ◌∷◌, length,
}
use slob_os.Text.{isdigit, tonumericdigit}
use slob_os.Prelude.Int.{ℤ, pos, negsuc}

-- SLOBOS_MAX_PATH
abbrev pub max_path : ℕ
max_path = 108

abbrev pub Chars : Type 0
Chars = List ℕ

-- `struct path_root` with its list of parts.
pub record PathRoot : Type 0 where
  pub drive_no : ℤ
  pub parts : List Chars

-- At most SLOBOS_MAX_PATH characters are counted, so the test `len >= 3` is that of the length.
pub pathparser_path_valid_format : Chars → Bool
unfolding isdigit
pathparser_path_valid_format (d ∷ c ∷ s ∷ rest) = isdigit d && (c == b':' && s == b'/')
pathparser_path_valid_format other = false

-- The path behind the `n` first characters.
abbrev pub skip : ℕ → Chars → Chars
skip zero path = path
skip (suc n) [] = []
skip (suc n) (c ∷ path) = skip n path

-- The drive's digit and the path behind `0:/`; `none` is -EBADPATH.
pub pathparser_get_drive_by_path : Chars → Option (ℤ × Chars)
unfolding tonumericdigit
pathparser_get_drive_by_path [] = none
pathparser_get_drive_by_path (d ∷ path) =
    if pathparser_path_valid_format (d ∷ path) then some (tonumericdigit d, skip 2 path) else none

-- The characters up to the next slash or the end, and the path behind that slash.
pub pathparser_get_path_part : Chars → Chars × Chars
pathparser_get_path_part [] = ([], [])
pathparser_get_path_part (c ∷ path) =
    let (part, rest) = pathparser_get_path_part path in
    if c == b'/' then ([], path) else (c ∷ part, rest)

-- The loop over the parts; it ends at the first empty one. `none` where the fuel runs out.
pub parse_parts : ℕ → Chars → Option (List Chars)
parse_parts zero path = none
parse_parts (suc fuel) path =
    let (part, rest) = pathparser_get_path_part path in
    elim part [
      | [] ↦ some []
      | c ∷ cs ↦ elim (parse_parts fuel rest) [ none ↦ none | some parts ↦ some ((c ∷ cs) ∷ parts) ]
    ]

-- The outer `none` is that the fuel ran out, the inner one the null pointer. The parts of a path
-- whose first part is empty are the empty list, `first == 0`.
pub pathparser_parse : ℕ → Chars → Option (Option PathRoot)
pathparser_parse fuel path =
    if ltb max_path (length path) then some none else elim (pathparser_get_drive_by_path path) [
      | none ↦ some none
      | some (drive, rest) ↦ elim (parse_parts fuel rest) [
        | none ↦ none
        | some parts ↦ some (some (record { drive_no = drive; parts = parts }))
      ]
    ]
