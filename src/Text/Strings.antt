-- ===== src/Text/Strings.antt =====
-- What the string functions compute where their arguments are strings in memory.
use mathlib.Core.Path.{subst}
use Prim.Native.Nat.{min}
use slob_os.Prelude.{
  ℕ, zero, suc, ◌+◌, ◌-◌, ◌≤◌, ◌<◌, ◌≡◌, ◌≢◌, ◌⊎◌, inl, inr, sym, ◌∙◌, arith, lt_cases, List, [],
  ◌∷◌, length, take, some,
}
use slob_os.Prelude.Memory.{Memory, write}
use slob_os.Text.{strlen_loop, strlen, strnlen_loop, strnlen, strncpy_loop, strncpy, strcpy}

-- The bytes of `s`, none of them 0, stand at `p`, and a 0 after them.
abbrev pub CString : Memory → ℕ → List ℕ → Type 0
CString m p [] = m p ≡ 0
CString m p (c ∷ s) = (m p ≡ c) × (c ≢ 0) × CString m (p + 1) s

strlen_loop_lem :
    (fuel : ℕ) (m : Memory) (p i : ℕ) (s : List ℕ)
    → CString m p s
    → length s < fuel
    → strlen_loop fuel m p i ≡ some (i + length s)
unfolding strlen_loop
strlen_loop_lem zero m p i s h lt = absurd (omega arith)
strlen_loop_lem (suc fuel) m p i [] h lt = ground arith
strlen_loop_lem (suc fuel) m p i (c ∷ s) (e, ne, h) lt =
    ground (arith, strlen_loop_lem fuel m (p + 1) (i + 1) s h (omega arith))

-- strlen ends on every string and gives its length; fuel above the length is enough.
pub strlen-length :
    (fuel : ℕ) (m : Memory) (p : ℕ) (s : List ℕ)
    → CString m p s
    → length s < fuel
    → strlen fuel m p ≡ some (length s)
unfolding strlen
strlen-length fuel m p s h lt = strlen_loop_lem fuel m p 0 s h lt ∙ ground arith

strnlen_loop_lem :
    (rounds : ℕ) (m : Memory) (p i : ℕ) (s : List ℕ)
    → CString m (p + i) s
    → strnlen_loop m p rounds i ≡ i + min rounds (length s)
unfolding strnlen_loop
strnlen_loop_lem zero m p i s h = omega arith
strnlen_loop_lem (suc rounds) m p i [] h = ground arith
strnlen_loop_lem (suc rounds) m p i (c ∷ s) (e, ne, h) =
    ground
      (arith, strnlen_loop_lem rounds m p (i + 1) s (subst (λ t. CString m t s) (omega arith) h))

-- strnlen gives the length of a string, or the bound where that is smaller.
pub strnlen-length :
    (m : Memory) (p max : ℕ) (s : List ℕ) → CString m p s → strnlen m p max ≡ min max (length s)
unfolding strnlen
strnlen-length m p max s h =
    strnlen_loop_lem max m p 0 s (subst (λ t. CString m t s) (omega arith) h) ∙ ground arith

at_place : (m : Memory) (s : List ℕ) (p q : ℕ) → p ≡ q → CString m p s → CString m q s
at_place m s p q e h = subst (λ t. CString m t s) e h

-- A string stays where its bytes and its 0 stay.
pub CString-frame :
    (m m' : Memory) (p : ℕ) (s : List ℕ)
    → CString m p s
    → ((x : ℕ) → p ≤ x → x ≤ p + length s → m' x ≡ m x)
    → CString m' p s
CString-frame m m' p [] h same = same p (omega arith) (omega arith) ∙ h
CString-frame m m' p (c ∷ s) (e, ne, h) same = (
  same p (omega arith) (omega arith) ∙ e,
  ne,
  CString-frame m m' (p + 1) s h λ x l u. same x (omega arith) (omega arith),
)

-- Bytes copied to `dest` do not reach the `n` characters from `src` on, nor the 0 after them.
abbrev Apart : (dest count src n : ℕ) → Type 0
Apart dest count src n = (dest + count ≤ src) ⊎ (src + n < dest)

strncpy_loop-step :
    (rounds : ℕ) (m : Memory) (dest src i : ℕ)
    → m (src + i) ≢ 0
    → strncpy_loop m dest src (suc rounds) i
      ≡ strncpy_loop (write m (dest + i) (m (src + i))) dest src rounds (i + 1)
unfolding strncpy_loop
strncpy_loop-step rounds m dest src i ne = ground arith

strncpy_loop_lem :
    (rounds : ℕ) (m : Memory) (dest src i : ℕ) (s : List ℕ)
    → CString m (src + i) s
    → Apart (dest + i) (rounds + 1) (src + i) (length s)
    → CString (strncpy_loop m dest src rounds i) (dest + i) (take rounds s)
      × ((x : ℕ)
          → (x < dest + i) ⊎ (dest + i + rounds < x)
          → strncpy_loop m dest src rounds i x ≡ m x)
unfolding strncpy_loop
strncpy_loop_lem zero m dest src i s h apart = (ground arith, λ x o. ground arith)
strncpy_loop_lem (suc rounds) m dest src i [] h apart = rw h (ground arith, λ x o. ground arith)
strncpy_loop_lem (suc rounds) m dest src i (c ∷ s) (e, ne, h) apart =
    let copied =
      CString-frame m (write m (dest + i) (m (src + i))) (src + i + 1) s h λ x l u. ground arith in
    let (string, kept) =
      strncpy_loop_lem rounds (write m (dest + i) (m (src + i))) dest src (i + 1) s
        (subst (λ t. CString (write m (dest + i) (m (src + i))) t s) (omega arith) copied)
        (omega arith) in
    subst
      (λ r.
        CString r (dest + i) (take (suc rounds) (c ∷ s))
        × ((x : ℕ) → (x < dest + i) ⊎ (dest + i + suc rounds < x) → r x ≡ m x))
      (sym (strncpy_loop-step rounds m dest src i (rw e ne)))
      (
        (
          kept (dest + i) (omega arith) ∙ ground arith,
          ne,
          at_place _ _ (dest + (i + 1)) (dest + i + 1) (omega arith) string,
        ),
        λ x o. kept x (omega arith) ∙ ground arith,
      )

-- strncpy leaves at `dest` the string of the first `count - 1` characters, always closed by a 0, and
-- writes nothing outside the `count` bytes there.
pub strncpy-take :
    (m : Memory) (dest src count x : ℕ) (s : List ℕ)
    → CString m src s
    → 0 < count
    → Apart dest count src (length s)
    → CString (strncpy m dest src count) dest (take (count - 1) s)
      × (((dest ≤ x) × (x < dest + count)) ⊎ (strncpy m dest src count x ≡ m x))
unfolding strncpy
strncpy-take m dest src count x s h p apart =
    let (string, kept) =
      strncpy_loop_lem (count - 1) m dest src 0 s (subst (λ t. CString m t s) (omega arith) h)
        (omega arith) in
    (
      at_place _ _ (dest + 0) dest (omega arith) string,
      elim (lt_cases x dest) [
        | inl below ↦ inr (kept x (omega arith))
        | inr above ↦ elim (lt_cases x (dest + count)) [
          | inl inside ↦ inl (above, inside)
          | inr behind ↦ inr (kept x (omega arith))
        ]
      ],
    )

strcpy-step :
    (fuel : ℕ) (m : Memory) (dest src : ℕ)
    → m src ≢ 0
    → strcpy (suc fuel) m dest src ≡ strcpy fuel (write m dest (m src)) (dest + 1) (src + 1)
unfolding strcpy
strcpy-step fuel m dest src ne = ground arith

strcpy_parts :
    (fuel : ℕ) (m : Memory) (dest src : ℕ) (s : List ℕ)
    → CString m src s
    → length s < fuel
    → Apart dest (length s + 1) src (length s)
    → (r : Memory) × (strcpy fuel m dest src ≡ some r)
      × CString r dest s
      × ((x : ℕ) → (x < dest) ⊎ (dest + length s < x) → r x ≡ m x)
unfolding strcpy
strcpy_parts zero m dest src s h lt apart = absurd (omega arith)
strcpy_parts (suc fuel) m dest src [] h lt apart =
    (write m dest 0, ground arith, ground arith, λ x o. ground arith)
strcpy_parts (suc fuel) m dest src (c ∷ s) (e, ne, h) lt apart =
    let copied = CString-frame m (write m dest (m src)) (src + 1) s h λ x l u. ground arith in
    let (r, did, string, kept) =
      strcpy_parts fuel (write m dest (m src)) (dest + 1) (src + 1) s copied (omega arith)
        (omega arith) in
    (
      r,
      strcpy-step fuel m dest src (rw e ne) ∙ did,
      (kept dest (omega arith) ∙ ground arith, ne, string),
      λ x o. kept x (omega arith) ∙ ground arith,
    )

-- strcpy ends on every string and copies it whole, whatever room `dest` has; it writes nothing
-- outside the bytes of the copy.
pub strcpy-CString :
    (fuel : ℕ) (m : Memory) (dest src x : ℕ) (s : List ℕ)
    → CString m src s
    → length s < fuel
    → Apart dest (length s + 1) src (length s)
    → (r : Memory) × (strcpy fuel m dest src ≡ some r)
      × CString r dest s
      × (((dest ≤ x) × (x ≤ dest + length s)) ⊎ (r x ≡ m x))
strcpy-CString fuel m dest src x s h lt apart =
    let (r, did, string, kept) = strcpy_parts fuel m dest src s h lt apart in
    (
      r,
      did,
      string,
      elim (lt_cases x dest) [
        | inl below ↦ inr (kept x (inl below))
        | inr above ↦ elim (lt_cases (dest + length s) x) [
          | inl behind ↦ inr (kept x (inr behind))
          | inr inside ↦ inl (above, inside)
        ]
      ],
    )
