-- ===== src/Gdt.antt =====
-- The segment descriptors of src/gdt/gdt.c.
pub mod Decode
mod Examples
use slob_os.Prelude.{
  ℕ, ◌/◌, ◌%◌, ◌^◌, Bool, not, ◌&&◌, Option, none, some, ltb, ◌==◌, if◌then◌else◌, List, [], ◌∷◌,
  bit_or,
}

-- `struct gdt_structured`
pub record GdtStructured : Type 0 where
  pub base : ℕ
  pub limit : ℕ
  pub type : ℕ

-- The eight bytes of the descriptor, once the flags and the limit to encode are chosen.
encode_with : GdtStructured → ℕ → ℕ → List ℕ
encode_with source flags limit =
    limit % 256
    ∷ limit / 2 ^ 8 % 256
    ∷ source.base % 256
    ∷ source.base / 2 ^ 8 % 256
    ∷ source.base / 2 ^ 16 % 256
    ∷ source.type
    ∷ bit_or flags (limit / 2 ^ 16 % 16)
    ∷ source.base / 2 ^ 24 % 256
    ∷ []

-- `none` is a panic.
pub encode_gdt_entry : GdtStructured → Option (List ℕ)
unfolding encode_with
encode_gdt_entry source =
    if ltb 65536 source.limit && not (source.limit % 0x1000 == 0xfff)
    then none
    else some (
        if ltb 65536 source.limit
        then encode_with source 0xc0 (source.limit / 2 ^ 12)
        else encode_with source 0x40 source.limit)

pub gdt_structured_to_gdt : List GdtStructured → Option (List (List ℕ))
gdt_structured_to_gdt [] = some []
gdt_structured_to_gdt (source ∷ rest) = elim (encode_gdt_entry source) [
  | none ↦ none
  | some bytes ↦ elim (gdt_structured_to_gdt rest) [
    | none ↦ none
    | some others ↦ some (bytes ∷ others)
  ]
]
