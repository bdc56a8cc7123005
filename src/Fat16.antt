-- ===== src/Fat16.antt =====
-- Parts of the FAT16 driver of src/fs/fat/fat16.c: the names of directory items, and the operations
-- on an open file that do not read the disk.
mod Examples
pub mod Directory
pub mod Names
pub mod Seek
pub mod Volume
use slob_os.Prelude.{
  ℕ, zero, suc, ◌+◌, ◌-◌, ◌*◌, ◌/◌, ◌%◌, ◌^◌, Bool, true, false, not, ◌&&◌, ◌||◌, Option, none,
  some, leb, ltb, ◌==◌, if◌then◌else◌, List, [], ◌∷◌, ◌++◌, bit_or,
}
use slob_os.Prelude.Memory.{Memory}
use slob_os.Status.{Errno, einvarg, eio, eunimp, Result, ok, err}

-- The characters that fat16_to_proper_string writes for the ones at `in`, and `none` for too little
-- fuel: the loop has no bound of its own. Behind them the destination is 0, as it was cleared before.
pub fat16_to_proper_string : ℕ → Memory → ℕ → Option (List ℕ)
fat16_to_proper_string zero m in_ptr = none
fat16_to_proper_string (suc fuel) m in_ptr =
    let rest = fat16_to_proper_string fuel m (in_ptr + 1) in
    if m in_ptr == 0x00 || m in_ptr == 0x20
    then some []
    else elim rest [ none ↦ none | some cs ↦ some (m in_ptr ∷ cs) ]

-- `item->ext` stands 8 bytes behind the item's start, where `item->filename` is.
pub fat16_get_full_relative_filename : ℕ → Memory → ℕ → Option (List ℕ)
fat16_get_full_relative_filename fuel m item = elim (fat16_to_proper_string fuel m item) [
  | none ↦ none
  | some name ↦
      if m (item + 8) == 0x00 || m (item + 8) == 0x20
      then some name
      else elim (fat16_to_proper_string fuel m (item + 8)) [
        | none ↦ none
        | some ext ↦ some (name ++ (b'.' ∷ ext))
      ]
]

pub data FatItemType : Type 0 where
  fat_item_type_directory fat_item_type_file : FatItemType

-- `struct fat_file_descriptor` with what its operations read of the item.
pub record FatFileDescriptor : Type 0 where
  pub type : FatItemType
  pub attribute : ℕ
  pub filesize : ℕ
  pub pos : ℕ

abbrev is_file : FatItemType → Bool
is_file fat_item_type_file = true
is_file fat_item_type_directory = false

-- The flags and the size, in this order.
pub fat16_stat : FatFileDescriptor → Result (ℕ × ℕ)
fat16_stat desc =
    if not (is_file desc.type)
    then err einvarg
    else if desc.attribute % 2 == 1
    then ok (1, desc.filesize)
    else ok (0, desc.filesize)

-- SEEK_SET, SEEK_CUR and SEEK_END are 0, 1 and 2.
pub fat16_seek : FatFileDescriptor → (offset seek_mode : ℕ) → FatFileDescriptor × Result (Unit {0})
fat16_seek desc offset seek_mode =
    if not (is_file desc.type)
    then (desc, err einvarg)
    else if leb desc.filesize offset
    then (desc, err eio)
    else if seek_mode == 0
    then (record desc { pos = offset }, ok tt)
    else if seek_mode == 2
    then (desc, err eunimp)
    else if seek_mode == 1
    then (record desc { pos = (desc.pos + offset) % 2 ^ 32 }, ok tt)
    else (desc, err einvarg)
