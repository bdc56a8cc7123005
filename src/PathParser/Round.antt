-- ===== src/PathParser/Round.antt =====
-- Parsing what was printed: the drive and the names of a path are found again.
use slob_os.Prelude.{
  ℕ, zero, suc, ◌-◌, ◌≤◌, ◌<◌, ◌≡◌, ◌≢◌, refl, ap, ◌∙◌, false, some, ltb, List, [], ◌∷◌, ◌++◌,
  length, arith,
}
use slob_os.Prelude.Int.{pos}
use slob_os.PathParser.{
  Chars, pathparser_path_valid_format, pathparser_get_drive_by_path, pathparser_get_path_part,
  parse_parts, pathparser_parse,
}

-- No character of the name is a slash.
abbrev pub NoSlash : Chars → Type 0
NoSlash [] = Unit
NoSlash (c ∷ cs) = (c ≢ b'/') × NoSlash cs

-- A name of a file or directory.
abbrev pub IsName : Chars → Type 0
IsName [] = ⊥
IsName (c ∷ cs) = NoSlash (c ∷ cs)

abbrev pub AreNames : List Chars → Type 0
AreNames [] = Unit
AreNames (p ∷ ps) = IsName p × AreNames ps

-- The names with a slash after each but the last.
unfoldable pub join : List Chars → Chars
join [] = []
join (p ∷ []) = p
join (p ∷ q ∷ ps) = p ++ (b'/' ∷ join (q ∷ ps))

get_path_part-slash :
    (p rest : Chars) → NoSlash p → pathparser_get_path_part (p ++ (b'/' ∷ rest)) ≡ (p, rest)
unfolding pathparser_get_path_part
get_path_part-slash [] rest h = refl
get_path_part-slash (c ∷ p) rest (ne, h) = ground (arith, get_path_part-slash p rest h)

get_path_part-end : (p : Chars) → NoSlash p → pathparser_get_path_part p ≡ (p, [])
unfolding pathparser_get_path_part
get_path_part-end [] h = refl
get_path_part-end (c ∷ p) (ne, h) = ground (arith, get_path_part-end p h)

pub parse_parts-step :
    (fuel : ℕ) (path : Chars) (c : ℕ) (cs : Chars)
    → (pathparser_get_path_part path).0 ≡ c ∷ cs
    → (parts : List Chars) → parse_parts fuel (pathparser_get_path_part path).1 ≡ some parts
    → parse_parts (suc fuel) path ≡ some ((c ∷ cs) ∷ parts)
unfolding parse_parts
parse_parts-step fuel path c cs e parts did = rw (e, did, parse_parts) refl

pub parse_parts-stop :
    (fuel : ℕ) (path : Chars)
    → (pathparser_get_path_part path).0 ≡ []
    → parse_parts (suc fuel) path ≡ some []
unfolding parse_parts
parse_parts-stop fuel path e = rw (e, parse_parts) refl

-- As many rounds as there are names, and one more, find the names.
parse_parts-join :
    (ps : List Chars) (fuel : ℕ)
    → AreNames ps
    → length ps < fuel
    → parse_parts fuel (join ps) ≡ some ps
unfolding join
parse_parts-join ps zero h lt = absurd (omega arith)
parse_parts-join [] (suc fuel) h lt =
    parse_parts-stop fuel [] (ap (λ r. r.0) (get_path_part-end [] tt))
parse_parts-join ([] ∷ ps) (suc fuel) (n, h) lt = absurd n
parse_parts-join ((c ∷ p) ∷ []) (suc fuel) (n, h) lt =
    let found = get_path_part-end (c ∷ p) n in
    parse_parts-step fuel (c ∷ p) c p (ap (λ r. r.0) found) []
      (ap (λ r. parse_parts fuel r.1) found ∙ parse_parts-join [] fuel tt (omega arith))
parse_parts-join ((c ∷ p) ∷ q ∷ ps) (suc fuel) (n, h) lt =
    let found = get_path_part-slash (c ∷ p) (join (q ∷ ps)) n in
    parse_parts-step fuel _ c p (ap (λ r. r.0) found) (q ∷ ps)
      (ap (λ r. parse_parts fuel r.1) found ∙ parse_parts-join (q ∷ ps) fuel h (omega arith))

-- The path of a drive, given by its digit's character, and names.
abbrev pub path_of : ℕ → List Chars → Chars
path_of digit ps = digit ∷ b':' ∷ b'/' ∷ join ps

pub drive_by_path :
    (digit : ℕ) (path : Chars)
    → 48 ≤ digit
    → digit ≤ 57
    → pathparser_get_drive_by_path (digit ∷ b':' ∷ b'/' ∷ path) ≡ some (pos (digit - 48), path)
unfolding pathparser_get_drive_by_path pathparser_path_valid_format
drive_by_path digit path lo hi = ground arith

-- A path that is printed from a drive and names, and is not longer than SLOBOS_MAX_PATH, parses to
-- that drive and those names.
pub pathparser_parse-path_of :
    (digit fuel : ℕ) (ps : List Chars)
    → 48 ≤ digit
    → digit ≤ 57
    → AreNames ps
    → length (path_of digit ps) ≤ 108
    → length ps < fuel
    → pathparser_parse fuel (path_of digit ps)
      ≡ some (some (record { drive_no = pos (digit - 48); parts = ps }))
unfolding pathparser_parse
pathparser_parse-path_of digit fuel ps lo hi names short enough =
    let fits : ltb 108 (length (path_of digit ps)) ≡ false = ground arith in
    rw
      (
        fits,
        drive_by_path digit (join ps) lo hi,
        parse_parts-join ps fuel names enough,
        pathparser_parse,
      )
      refl
