-- ===== src/Gdt/Examples.antt =====
-- The theorem on descriptors at the kernel's code segment.
use slob_os.Prelude.{ℕ, ◌%◌, ◌<◌, ◌≡◌, ◌≢◌, ◌⊎◌, arith, some, none, List}
use slob_os.Gdt.{GdtStructured, encode_gdt_entry}
use slob_os.Gdt.Decode.{decode, decode-encode_gdt_entry}

abbrev kernel_code : GdtStructured
kernel_code = record { base = 0; limit = 0xffffffff; type = 0x9a }

decode-encode_gdt_entry_example :
    ((encode_gdt_entry kernel_code ≡ none) × (65536 < 0xffffffff) × (0xffffffff % 4096 ≢ 4095))
    ⊎ ((bytes : List ℕ) × (encode_gdt_entry kernel_code ≡ some bytes)
        × (decode bytes ≡ some kernel_code)
        × ((0xffffffff % 4096 ≡ 4095) ⊎ (0xffffffff < 65537)))
decode-encode_gdt_entry_example = decode-encode_gdt_entry kernel_code (omega arith) (omega arith)
