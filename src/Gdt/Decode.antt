-- ===== src/Gdt/Decode.antt =====
-- The processor's reading of a descriptor, and that it finds what was encoded.
use slob_os.Prelude.{
  ℕ, ◌+◌, ◌*◌, ◌/◌, ◌%◌, ◌^◌, ◌<◌, ◌≡◌, ◌≢◌, ◌⊎◌, inl, inr, Option, none, some, if◌then◌else◌, List,
  [], ◌∷◌, leb, arith, lt_cases, eq_cases,
}
use slob_os.Prelude.Bits.{bit_or_disjoint}
use slob_os.Gdt.{GdtStructured, encode_with, encode_gdt_entry}

-- The layout of a segment descriptor in the processor's manual: base, limit and type, the limit in
-- units of 4 KB where the highest flag is set.
unfoldable pub decode : List ℕ → Option GdtStructured
decode (l0 ∷ l1 ∷ b0 ∷ b1 ∷ b2 ∷ type ∷ flags ∷ b3 ∷ []) =
    let limit = l0 + 2 ^ 8 * l1 + 2 ^ 16 * (flags % 16) in
    some (record {
      base = b0 + 2 ^ 8 * b1 + 2 ^ 16 * b2 + 2 ^ 24 * b3;
      limit = if leb 128 flags then limit * 4096 + 4095 else limit;
      type = type;
    })
decode other = none

-- encode_gdt_entry panics exactly at a limit over 64 KB that does not end a page; at any other it
-- gives a descriptor that the processor reads as the base, limit and type that were given.
pub decode-encode_gdt_entry :
    (s : GdtStructured)
    → s.base < 2 ^ 32
    → s.limit < 2 ^ 32
    → ((encode_gdt_entry s ≡ none) × (65536 < s.limit) × (s.limit % 4096 ≢ 4095))
      ⊎ ((bytes : List ℕ) × (encode_gdt_entry s ≡ some bytes)
          × (decode bytes ≡ some s)
          × ((s.limit % 4096 ≡ 4095) ⊎ (s.limit < 65537)))
unfolding encode_gdt_entry encode_with decode
decode-encode_gdt_entry s b l = elim (lt_cases 65536 s.limit) [
  | inl big ↦ elim (eq_cases (s.limit % 4096) 4095) [
    | inl whole ↦ inr (
      encode_with s 0xc0 (s.limit / 2 ^ 12),
      ground arith,
      ground (arith, bit_or_disjoint 4 12 (s.limit / 2 ^ 12 / 2 ^ 16 % 16)),
      inl whole,
    )
    | inr part ↦ inl (ground arith, big, omega arith)
  ]
  | inr small ↦ inr (
    encode_with s 0x40 s.limit,
    ground arith,
    ground (arith, bit_or_disjoint 4 4 (s.limit / 2 ^ 16 % 16)),
    inr (omega arith),
  )
]
