-- ===== src/Prelude/Bits.antt =====
-- `bit_or` of a multiple of a power of two and a number below it: the two share no bit.
use Prim.Native.Nat.{
  ℕ, zero, suc, ◌+◌, ◌*◌, ◌/◌, ◌%◌, ◌^◌, ◌≤◌, ◌<◌, max, bit_or, digits, bit_or-bitwise,
}
use mathlib.Core.Path.{◌≡◌, refl, ap, ◌∙◌}
use native.Mathlib.Nat.{pow-suc}
use native.Mathlib.Omega.{arith}

abbrev or_digits : ℕ → ℕ → ℕ → ℕ
or_digits n a b = digits (λ b. b) max n a b

-- Any count of digits that is large enough gives the same number.
or_digits_count : (n k a b : ℕ) → a ≤ n → a ≤ k → or_digits n a b ≡ or_digits k a b
or_digits_count zero zero a b p q = refl
or_digits_count zero (suc k) zero b p q = refl
or_digits_count zero (suc k) (suc a) b p q = absurd (omega arith)
or_digits_count (suc n) zero zero b p q = refl
or_digits_count (suc n) zero (suc a) b p q = absurd (omega arith)
or_digits_count (suc n) (suc k) zero b p q = refl
or_digits_count (suc n) (suc k) (suc a) b p q =
    omega (arith, or_digits_count n k (suc a / 2) (b / 2) (omega arith) (omega arith))

zero-bit_or : (b : ℕ) → bit_or 0 b ≡ b
zero-bit_or b = bit_or-bitwise 0 b

bit_or_lowest : (a b : ℕ) → bit_or a b ≡ bit_or (a / 2) (b / 2) * 2 + max (a % 2) (b % 2)
bit_or_lowest zero b = omega (arith, zero-bit_or b, zero-bit_or (b / 2))
bit_or_lowest (suc a) b = omega (
  arith,
  bit_or-bitwise (suc a) b,
  bit_or-bitwise (suc a / 2) (b / 2),
  or_digits_count a (suc a / 2) (suc a / 2) (b / 2) (omega arith) (omega arith),
)

bit_or-zero_below : (n a : ℕ) → a ≤ n → bit_or a 0 ≡ a
bit_or-zero_below n zero h = refl
bit_or-zero_below zero (suc a) h = absurd (omega arith)
bit_or-zero_below (suc n) (suc a) h =
    omega (arith, bit_or_lowest (suc a) 0, bit_or-zero_below n (suc a / 2) (omega arith))

shifted_double : (q k : ℕ) → q * 2 ^ suc k ≡ 2 * (q * 2 ^ k)
shifted_double q k = omega (arith, ap (λ (t : ℕ). q * t) (pow-suc 2 k))

pub bit_or_disjoint : (k q r : ℕ) → r < 2 ^ k → bit_or (q * 2 ^ k) r ≡ q * 2 ^ k + r
bit_or_disjoint zero q r h = ground (arith, bit_or-zero_below q q)
bit_or_disjoint (suc k) q r h = ground (
  arith,
  bit_or_lowest (q * 2 ^ suc k) r,
  shifted_double q k,
  bit_or_disjoint k q (r / 2) (omega arith),
)

-- A page-aligned address and flags.
pub bit_or_page : (a f : ℕ) → a % 4096 ≡ 0 → f < 4096 → bit_or a f ≡ a + f
bit_or_page a f h l = ground (arith, bit_or_disjoint 12 (a / 4096) f l)

-- The same with the low part on the left.
low_bit_or : (k q r : ℕ) → r < 2 ^ k → bit_or r (q * 2 ^ k) ≡ r + q * 2 ^ k
low_bit_or zero q r h =
    let nothing : r ≡ 0 = omega arith in rw (nothing) (zero-bit_or (q * 2 ^ 0) ∙ omega arith)
low_bit_or (suc k) q r h = ground (
  arith,
  bit_or_lowest r (q * 2 ^ suc k),
  shifted_double q k,
  low_bit_or k q (r / 2) (omega arith),
)

-- Four bits under the three highest of a byte.
pub bit_or_drive : (x : ℕ) → x < 16 → bit_or x 0xe0 ≡ x + 0xe0
bit_or_drive x h = low_bit_or 5 7 x (omega arith)

bit_or-one : (a : ℕ) → bit_or a 1 ≡ a / 2 * 2 + 1
bit_or-one a = omega (arith, bit_or_lowest a 1, bit_or-zero_below (a / 2) (a / 2) (omega arith))

-- Setting bit 1 keeps the page of an address.
pub bit_or_two_page : (a : ℕ) → bit_or a 2 / 4096 ≡ a / 4096
bit_or_two_page a = omega (arith, bit_or_lowest a 2, bit_or-one (a / 2))
