-- ===== src/PathParser/Total.antt =====
-- pathparser_parse of src/fs/pparser.c on every path: what it refuses, and the drive and the names that
-- it gives else.
use slob_os.Prelude.{
  ℕ, zero, suc, ◌+◌, ◌-◌, ◌≤◌, ◌<◌, ◌≡◌, ◌⊎◌, inl, inr, refl, ap, ◌∙◌, Bool, true, false, none,
  some, ltb, ◌==◌, ◌&&◌, List, [], ◌∷◌, ◌++◌, length, arith, Bool-cases, ne_of_test, eq_of_test,
}
use slob_os.Prelude.Int.{pos}
use slob_os.Text.{isdigit}
use slob_os.PathParser.{
  Chars, pathparser_path_valid_format, pathparser_get_drive_by_path, pathparser_get_path_part,
  parse_parts, pathparser_parse,
}
use slob_os.PathParser.Round.{NoSlash, IsName, parse_parts-step, parse_parts-stop, drive_by_path}

-- The path behind the drive is these names, one slash behind each but the last; it goes on with a
-- slash behind the last one, or at once, where the search ends before the end of the path.
abbrev pub IsSplit : Chars → List Chars → Type 0
IsSplit path [] = (path ≡ []) ⊎ ((rest : Chars) × (path ≡ b'/' ∷ rest))
IsSplit path (p ∷ ps) =
    IsName p
    × (((path ≡ p) × (ps ≡ [])) ⊎ ((rest : Chars) × (path ≡ p ++ (b'/' ∷ rest)) × IsSplit rest ps))

-- A part has no slash and stands before a slash or at the end.
get_path_part-cut :
    (path : Chars)
    → NoSlash (pathparser_get_path_part path).0
      × (((path ≡ (pathparser_get_path_part path).0) × ((pathparser_get_path_part path).1 ≡ []))
          ⊎ (path
              ≡ (pathparser_get_path_part path).0 ++ (b'/' ∷ (pathparser_get_path_part path).1)))
unfolding pathparser_get_path_part
get_path_part-cut [] = (tt, inl (refl, refl))
get_path_part-cut (c ∷ path) = elim (Bool-cases (c == b'/')) [
  | inl slash ↦ rw (slash) (tt, inr (ap (λ d. d ∷ path) (eq_of_test c b'/' slash)))
  | inr other ↦
      let (no_slash, cut) = get_path_part-cut path in
      rw (other) (
        (ne_of_test c b'/' other, no_slash),
        elim cut [
          | inl (whole, ends) ↦ inl (ap (λ (p : Chars). c ∷ p) whole, ends)
          | inr split ↦ inr (ap (λ (p : Chars). c ∷ p) split)
        ],
      )
]

Chars-cases : (p : Chars) → (p ≡ []) ⊎ ((c : ℕ) × (cs : Chars) × (p ≡ c ∷ cs))
Chars-cases [] = inl refl
Chars-cases (c ∷ cs) = inr (c, cs, refl)

IsName-NoSlash : (p : Chars) (c : ℕ) (cs : Chars) → p ≡ c ∷ cs → NoSlash p → IsName (c ∷ cs)
IsName-NoSlash p c cs e h = rw (e) at h

-- The part is the whole path, the end; or there is a shorter path behind the slash.
whole-IsSplit :
    (fuel : ℕ) (path : Chars) (c : ℕ) (cs : Chars)
    → 0 < fuel
    → (pathparser_get_path_part path).0 ≡ c ∷ cs
    → NoSlash (pathparser_get_path_part path).0
    → path ≡ (pathparser_get_path_part path).0
    → (pathparser_get_path_part path).1 ≡ []
    → (ps : List Chars) × (parse_parts (suc fuel) path ≡ some ps) × IsSplit path ps
whole-IsSplit zero path c cs lt e no_slash whole ends = absurd (omega arith)
whole-IsSplit (suc fuel) path c cs lt e no_slash whole ends = (
  (c ∷ cs) ∷ [],
  parse_parts-step (suc fuel) path c cs e []
      (ap (parse_parts (suc fuel)) ends ∙ parse_parts-stop fuel [] nothing),
  (IsName-NoSlash _ c cs e no_slash, inl (whole ∙ e, refl)),
)
  where
    nothing : (pathparser_get_path_part []).0 ≡ []
    nothing = unfold pathparser_get_path_part in refl

length-cut : (p rest : Chars) (c : ℕ) → length (p ++ (c ∷ rest)) ≡ length p + suc (length rest)
length-cut [] rest c = omega arith
length-cut (x ∷ p) rest c = omega (arith, length-cut p rest c)

-- With more fuel than characters the loop ends, and what it gives are the names of the path.
parse_parts_total :
    (fuel : ℕ) (path : Chars)
    → length path < fuel
    → (ps : List Chars) × (parse_parts fuel path ≡ some ps) × IsSplit path ps
parse_parts_total zero path lt = absurd (omega arith)
parse_parts_total (suc fuel) path lt =
    let (no_slash, cut) = get_path_part-cut path in
    elim (Chars-cases (pathparser_get_path_part path).0) [
      | inl none_left ↦ (
        [],
        parse_parts-stop fuel path none_left,
        elim cut [
          | inl (whole, ends) ↦ inl (whole ∙ none_left)
          | inr split ↦ inr (
            (pathparser_get_path_part path).1,
            split ∙ ap (λ (p : Chars). p ++ (b'/' ∷ (pathparser_get_path_part path).1)) none_left,
          )
        ],
      )
      | inr (c, cs, e) ↦ elim cut [
        | inl (whole, ends) ↦
            whole-IsSplit fuel path c cs (omega (arith, ap length whole, ap length e)) e no_slash
              whole ends
        | inr split ↦
            let (ps, did, names) = parse_parts_total fuel (pathparser_get_path_part path).1 (
              omega (
                arith,
                ap length split,
                length-cut (pathparser_get_path_part path).0 (pathparser_get_path_part path).1 b'/',
              )) in
            (
              (c ∷ cs) ∷ ps,
              parse_parts-step fuel path c cs e ps did,
              (
                IsName-NoSlash _ c cs e no_slash,
                inr (
                  (pathparser_get_path_part path).1,
                  split ∙ ap (λ (p : Chars). p ++ (b'/' ∷ (pathparser_get_path_part path).1)) e,
                  names,
                ),
              ),
            )
      ]
    ]

-- The path starts with this digit and `:/`.
pub record HasDrive (path : Chars) (digit : ℕ) (rest : Chars) : Type 0 where
  pub low : 48 ≤ digit
  pub high : digit ≤ 57
  pub start : path ≡ digit ∷ b':' ∷ b'/' ∷ rest

valid-HasDrive :
    (path : Chars)
    → pathparser_path_valid_format path ≡ true
    → (digit : ℕ) × (rest : Chars) × HasDrive path digit rest
unfolding pathparser_path_valid_format
valid-HasDrive [] e = absurd cc
valid-HasDrive (d ∷ []) e = absurd cc
valid-HasDrive (d ∷ c ∷ []) e = absurd cc
valid-HasDrive (d ∷ c ∷ s ∷ rest) e = (
  d,
  rest,
  record { low = isdigit-low d c s e; high = isdigit-high d c s e; start = two_chars d c s rest e },
)
  where
    isdigit-low : (d c s : ℕ) → (isdigit d && (c == b':' && s == b'/')) ≡ true → 48 ≤ d
    isdigit-low d c s e = ground arith

    isdigit-high : (d c s : ℕ) → (isdigit d && (c == b':' && s == b'/')) ≡ true → d ≤ 57
    isdigit-high d c s e = ground arith

    two_chars :
        (d c s : ℕ) (rest : Chars)
        → (isdigit d && (c == b':' && s == b'/')) ≡ true
        → d ∷ c ∷ s ∷ rest ≡ d ∷ b':' ∷ b'/' ∷ rest
    two_chars d c s rest e =
        let colon : c ≡ b':' = ground arith in
        let slash : s ≡ b'/' = ground arith in rw (colon, slash) refl

invalid_drive :
    (path : Chars)
    → pathparser_path_valid_format path ≡ false
    → pathparser_get_drive_by_path path ≡ none
unfolding pathparser_get_drive_by_path
invalid_drive [] e = refl
invalid_drive (d ∷ path) e = rw (e) refl

drive-valid :
    (digit : ℕ) (rest : Chars)
    → 48 ≤ digit
    → digit ≤ 57
    → pathparser_path_valid_format (digit ∷ b':' ∷ b'/' ∷ rest) ≡ true
unfolding pathparser_path_valid_format
drive-valid digit rest low high = ground arith

true_ne : (b : Bool) → b ≡ true → b ≡ false → ⊥
true_ne b t f = absurd cc

no_drive :
    (path : Chars)
    → pathparser_path_valid_format path ≡ false
    → (digit : ℕ) (rest : Chars) → ¬ HasDrive path digit rest
no_drive path invalid digit rest drive =
    true_ne (pathparser_path_valid_format path)
      (ap pathparser_path_valid_format drive.start ∙ drive-valid digit rest drive.low drive.high)
      invalid

-- pathparser_parse always ends, with more fuel than characters. It refuses a path that has more than
-- 108 characters or does not start with a digit and `:/`; of every other path it gives the digit's
-- number as the drive, and as the parts the names that stand behind the drive, up to the first empty
-- name.
pub pathparser_parse_total :
    (fuel : ℕ) (path : Chars)
    → length path < fuel
    → ((pathparser_parse fuel path ≡ some none)
        × ((108 < length path) ⊎ ((digit : ℕ) (rest : Chars) → ¬ HasDrive path digit rest)))
      ⊎ ((digit : ℕ) × (rest : Chars) × (parts : List Chars) × (pathparser_parse fuel path
            ≡ some (some (record { drive_no = pos (digit - 48); parts = parts })))
          × (length path ≤ 108)
          × HasDrive path digit rest
          × IsSplit rest parts)
unfolding pathparser_parse
pathparser_parse_total fuel path lt = elim (Bool-cases (ltb 108 (length path))) [
  | inl long ↦ inl (rw (long, pathparser_parse) refl, inl (ground arith))
  | inr short ↦ elim (Bool-cases (pathparser_path_valid_format path)) [
    | inr invalid ↦
        inl (
          rw (short, invalid_drive path invalid, pathparser_parse) refl,
          inr (no_drive path invalid),
        )
    | inl valid ↦
        let (digit, rest, drive) = valid-HasDrive path valid in
        let low = drive.low in
        let high = drive.high in
        let found : pathparser_get_drive_by_path path ≡ some (pos (digit - 48), rest) =
          ap pathparser_get_drive_by_path drive.start ∙ drive_by_path digit rest low high in
        let (ps, did, names) = parse_parts_total fuel rest (omega (arith, ap length drive.start)) in
        inr (
          digit,
          rest,
          ps,
          rw (short, found, did, pathparser_parse) refl,
          ground arith,
          drive,
          names,
        )
  ]
]
