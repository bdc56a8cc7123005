-- ===== src/Fat16/Names.antt =====
-- The names that the driver makes of directory items.
use slob_os.Prelude.{
  ℕ, zero, suc, ◌+◌, ◌<◌, ◌≡◌, ◌≢◌, ◌⊎◌, refl, ap, ◌||◌, ◌==◌, true, false, some, List, [], ◌∷◌,
  ◌++◌, length, length-append, arith,
}
use mathlib.Core.Path.{subst}
use slob_os.Prelude.Memory.{Memory}
use slob_os.Fat16.{fat16_to_proper_string, fat16_get_full_relative_filename}

-- The characters `s`, none of them 0 or a space, stand at `p`, and a 0 or a space behind them.
abbrev pub Padded : Memory → ℕ → List ℕ → Type 0
Padded m p [] = (m p ≡ 0) ⊎ (m p ≡ 0x20)
Padded m p (c ∷ s) = (m p ≡ c) × ((c ≢ 0) × ((c ≢ 0x20) × Padded m (p + 1) s))

-- The characters `s`, none of them 0 or a space, stand at `p`.
abbrev pub Stands : Memory → ℕ → List ℕ → Type 0
Stands m p [] = Unit {0}
Stands m p (c ∷ s) = (m p ≡ c) × ((c ≢ 0) × ((c ≢ 0x20) × Stands m (p + 1) s))

pub to_proper_string_lem :
    (fuel : ℕ) (m : Memory) (p : ℕ) (s : List ℕ)
    → Padded m p s
    → length s < fuel
    → fat16_to_proper_string fuel m p ≡ some s
unfolding fat16_to_proper_string
to_proper_string_lem zero m p s at enough = absurd (omega arith)
to_proper_string_lem (suc fuel) m p [] at enough =
    let ends : (m p == 0 || m p == 0x20) ≡ true = ground arith in rw (ends) refl
to_proper_string_lem (suc fuel) m p (c ∷ s) (here, (not_0, (not_space, at))) enough =
    let goes_on : (m p == 0 || m p == 0x20) ≡ false = ground arith in
    rw (goes_on, to_proper_string_lem fuel m (p + 1) s at (omega arith))
      (ap (λ d. some (d ∷ s)) here)

-- An item whose name and extension each end with a 0 or a space has the name `name.ext`; fuel above
-- their lengths is enough.
pub full_relative_filename_lem :
    (fuel : ℕ) (m : Memory) (item : ℕ) (name : List ℕ) (c : ℕ) (ext : List ℕ)
    → Padded m item name
    → Padded m (item + 8) (c ∷ ext)
    → length name < fuel
    → length ext + 1 < fuel
    → fat16_get_full_relative_filename fuel m item ≡ some (name ++ (b'.' ∷ c ∷ ext))
unfolding fat16_get_full_relative_filename
full_relative_filename_lem fuel m item name c ext at_name at_ext name_fuel ext_fuel =
    let (here, (not_0, (not_space, at))) = at_ext in
    let has_ext : (m (item + 8) == 0 || m (item + 8) == 0x20) ≡ false = ground arith in
    rw
      (
        to_proper_string_lem fuel m item name at_name name_fuel,
        has_ext,
        to_proper_string_lem fuel m (item + 8) (c ∷ ext) at_ext (omega arith),
        fat16_get_full_relative_filename,
      )
      refl

append-Padded :
    (m : Memory) (p q : ℕ) (s : List ℕ) (t : List ℕ)
    → Stands m p s
    → q ≡ p + length s
    → Padded m q t
    → Padded m p (s ++ t)
append-Padded m p q [] t stands e at = subst (λ a. Padded m a t) (omega arith) at
append-Padded m p q (c ∷ s) t (here, (not_0, (not_space, stands))) e at =
    (here, (not_0, (not_space, append-Padded m (p + 1) q s t stands (omega arith) at)))

-- The name of an item with all eight characters of its name in use has the extension twice, as
-- nothing ends the name before the extension.
pub full_relative_filename_eight :
    (fuel : ℕ) (m : Memory) (item : ℕ) (name : List ℕ) (c : ℕ) (ext : List ℕ)
    → Stands m item name
    → length name ≡ 8
    → Padded m (item + 8) (c ∷ ext)
    → length ext + 9 < fuel
    → fat16_get_full_relative_filename fuel m item ≡ some ((name ++ (c ∷ ext)) ++ (b'.' ∷ c ∷ ext))
full_relative_filename_eight fuel m item name c ext stands eight at_ext enough =
    full_relative_filename_lem fuel m item (name ++ (c ∷ ext)) c ext
      (append-Padded m item (item + 8) name (c ∷ ext) stands (omega arith) at_ext) at_ext
      (omega (arith, length-append name (c ∷ ext))) (omega arith)
