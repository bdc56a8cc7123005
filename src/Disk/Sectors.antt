-- ===== src/Disk/Sectors.antt =====
-- Which sector of the disk a read reaches.
use slob_os.Prelude.{
  ℕ, zero, suc, ◌+◌, ◌-◌, ◌*◌, ◌/◌, ◌%◌, ◌^◌, ◌≤◌, ◌<◌, ◌≡◌, ◌⊎◌, inl, inr, ap, ◌∙◌, ltb, leb, ◌&&◌,
  if◌then◌else◌, [], ◌∷◌, arith, eq_cases, lt_cases, bit_or,
}
use slob_os.Prelude.Bits.{bit_or_drive}
use slob_os.Prelude.Memory.{Memory, write}
use slob_os.Disk.{Controller, read_commands, store_bytes, disk_read_sector}

-- The documented behaviour of an ATA controller for a 28-bit read command (0x20): with the registers
-- set to `count` and the four parts of the block's number, the data are the bytes of the image from
-- that block on.
abbrev pub Documented : Controller → (ℕ → ℕ) → Type 0
Documented controller image =
    (drive count low mid high i : ℕ)
    → i < count * 512
    → controller
        ((0x1f6, drive)
          ∷ (0x1f2, count)
          ∷ (0x1f3, low)
          ∷ (0x1f4, mid)
          ∷ (0x1f5, high)
          ∷ (0x1f7, 0x20)
          ∷ [])
        i
      ≡ image ((low + 2 ^ 8 * mid + 2 ^ 16 * high + 2 ^ 24 * (drive % 16)) * 512 + i)

-- The block whose number the commands carry: bits 16 to 23 of `lba` are lost, and bits 24 to 31
-- stand in their place.
abbrev pub sent_block : ℕ → ℕ
sent_block lba = lba % 2 ^ 16 + 2 ^ 16 * (lba / 2 ^ 24 % 256) + 2 ^ 24 * (lba / 2 ^ 24 % 16)

store_bytes_lem :
    (stream : ℕ → ℕ) (n i buf : ℕ) (m : Memory) (x : ℕ)
    → store_bytes stream n i buf m x
      ≡ (if leb buf x && ltb x (buf + n) then stream (i + (x - buf)) else m x)
unfolding store_bytes
store_bytes_lem stream zero i buf m x = ground arith
store_bytes_lem stream (suc n) i buf m x =
    store_bytes_lem stream n (i + 1) (buf + 1) (write m buf (stream i)) x ∙ elim (eq_cases x buf) [
      | inl e ↦ let first : i + (x - buf) ≡ i = omega arith in rw (first) (ground arith)
      | inr (inl lt) ↦ ground arith
      | inr (inr gt) ↦
          let index : i + 1 + (x - (buf + 1)) ≡ i + (x - buf) = omega arith in
          rw (index) (ground arith)
    ]

-- The controller is sent `sent_block lba`.
delivered :
    (controller : Controller) (image : ℕ → ℕ) (lba total i : ℕ)
    → Documented controller image
    → lba < 2 ^ 28
    → total < 256
    → i < total * 512
    → controller (read_commands lba total) i ≡ image (sent_block lba * 512 + i)
unfolding read_commands
delivered controller image lba total i doc l t inside =
    doc (bit_or (lba / 2 ^ 24) 0xe0 % 256) (total % 256) (lba % 256) (lba / 2 ^ 8 % 256)
      (lba / 2 ^ 24 % 256) i (omega arith)
    ∙ ap image (omega (arith, bit_or_drive (lba / 2 ^ 24) (omega arith)))

-- disk_read_sector stores the bytes of `total` blocks of the image from `sent_block lba` on at `buf`,
-- and nothing else.
pub disk_read_sector_lem :
    (controller : Controller) (image : ℕ → ℕ) (lba total buf : ℕ) (m : Memory) (x : ℕ)
    → Documented controller image
    → lba < 2 ^ 28
    → total < 256
    → disk_read_sector controller lba total buf m x ≡ (
        if leb buf x && ltb x (buf + total * 512)
        then image (sent_block lba * 512 + (x - buf))
        else m x)
unfolding disk_read_sector
disk_read_sector_lem controller image lba total buf m x doc l t =
    store_bytes_lem (controller (read_commands lba total)) (total * 512) 0 buf m x
    ∙ elim (lt_cases x buf) [
      | inl before ↦ ground arith
      | inr from ↦ elim (lt_cases x (buf + total * 512)) [
        | inr past ↦ ground arith
        | inl inside ↦
            let index : 0 + (x - buf) ≡ x - buf = omega arith in
            rw (index)
              (ground (arith, delivered controller image lba total (x - buf) doc l t (omega arith)))
      ]
    ]

-- Below 2 ^ 16 the block that is read is the one that was asked for; from there up to 2 ^ 24 it is
-- the one `lba % 2 ^ 16`.
pub sent_block_lem :
    (lba : ℕ)
    → lba < 2 ^ 24
    → ((lba < 2 ^ 16) × (sent_block lba ≡ lba)) ⊎ ((2 ^ 16 ≤ lba) × (sent_block lba < lba))
sent_block_lem lba l = omega arith
