-- ===== src/Fat16/Directory.antt =====
-- The directories and the files of src/fs/fat/fat16.c: fat16_resolve, the search for a path, opening
-- and reading. As in the module of volumes, allocations succeed.
mod Examples
pub mod Ends
pub mod Whole
pub mod Search
use slob_os.Prelude.{
  ℕ, zero, suc, ◌+◌, ◌-◌, ◌*◌, ◌/◌, ◌%◌, ◌^◌, Bool, true, false, not, Option, none, some, ltb, ◌==◌,
  if◌then◌else◌, List, [], ◌∷◌, get_or,
}
use slob_os.Prelude.Int.{ℤ, pos, negsuc}
use slob_os.Prelude.Memory.{Memory}
use slob_os.Status.{Errno, eio, einvarg, enomem, efsnotus, erdonly, Result, ok, err}
use slob_os.Disk.{Controller, DiskStream, sector_size, diskstreamer_new}
use slob_os.PathParser.{max_path}
use slob_os.Text.{istrncmp}
use slob_os.Fat16.{fat16_get_full_relative_filename}
use slob_os.Fat16.Volume.{
  FatDirectory, FatHeader, FatPrivate, FatItem, FatDescriptor, file_item, directory_item, header_at,
  item_size, is_subdirectory, fat16_sector_to_absolute, fat16_get_first_cluster,
  fat16_cluster_to_sector, fat16_get_total_items_for_directory, fat16_read_internal, read_at,
}

-- The bytes of `struct fat_h`, and the byte of the signature.
abbrev pub header_size : ℕ
header_size = 62

abbrev pub signature_offset : ℕ
signature_offset = 38

-- A status that the source does not test leaves a negative total.
total_or_none : Result ℕ → ℕ
total_or_none (err e) = 0
total_or_none (ok total) = total

-- `tmp_filename` and the name, each behind the other's 0.
pub two_names : (tmp_filename name : List ℕ) → Memory
two_names tmp_filename name a =
    if ltb a 1024 then get_or tmp_filename a 0 else get_or name (a - 1024) 0

is_zero : ℤ → Bool
is_zero (pos zero) = true
is_zero (pos (suc n)) = false
is_zero (negsuc n) = false

-- `istrncmp(tmp_filename, name, sizeof(tmp_filename)) == 0`
pub same_name : (tmp_filename name : List ℕ) → Bool
unfolding two_names is_zero
same_name tmp_filename name = is_zero (istrncmp (two_names tmp_filename name) 0 1024 max_path)

-- fat16_clone_directory_item, of one item.
pub fat16_clone_directory_item : Memory → (item : ℕ) → Memory
fat16_clone_directory_item m item = λ a. m (item + a)

root_read :
    (root_dir_sector_pos root_dir_size : ℕ)
    → Result ℕ
    → Option (Memory × Result (Unit {0}))
    → Option (Result FatDirectory)
unfolding total_or_none
root_read root_dir_sector_pos root_dir_size total none = none
root_read root_dir_sector_pos root_dir_size total (some (m, err e)) = some (err eio)
root_read root_dir_sector_pos root_dir_size total (some (m, ok u)) = some (
    ok (record {
      item = m;
      total = total_or_none total;
      sector_pos = root_dir_sector_pos;
      ending_sector_pos = root_dir_sector_pos + root_dir_size / sector_size;
    }))

resolve_root : DiskStream → FatHeader → Option (Result FatDirectory) → Option (Result FatPrivate)
resolve_root stream header none = none
resolve_root stream header (some (err e)) = some (err eio)
resolve_root stream header (some (ok directory)) =
    some (ok (record { header = header; root_directory = directory; stream = stream }))

directory_read : (total : ℕ) → Option (Memory × Result (Unit {0})) → Option (Option FatDirectory)
directory_read total none = none
directory_read total (some (m, err e)) = some none
directory_read total (some (m, ok u)) =
    some (some (record { item = m; total = total; sector_pos = 0; ending_sector_pos = 0 }))

after_load : Option (Option FatDirectory) → FatItem → Option FatItem
after_load none item = none
after_load (some loaded) item = some item

keep_last : Option FatItem → Option (Option FatItem) → Option (Option FatItem)
keep_last found none = none
keep_last found (some none) = some found
keep_last found (some (some later)) = some (some later)

found_last : (matches : Bool) → Option FatItem → Option (Option FatItem) → Option (Option FatItem)
unfolding keep_last
found_last false here rest = rest
found_last true none rest = none
found_last true (some item) rest = keep_last (some item) rest

find_named :
    Option (List ℕ)
    → (name : List ℕ) → Option FatItem
    → Option (Option FatItem)
    → Option (Option FatItem)
unfolding found_last
find_named none name here rest = none
find_named (some tmp_filename) name here rest = found_last (same_name tmp_filename name) here rest

opened_item : Option (Option FatItem) → Option (Result FatDescriptor)
opened_item none = none
opened_item (some none) = some (err eio)
opened_item (some (some item)) = some (ok (record { item = item; pos = 0 }))

counted : (nmemb : ℕ) → Option (Memory × Result (Unit {0})) → Option (Memory × Result ℕ)
counted nmemb none = none
counted nmemb (some (m, err e)) = some (m, err e)
counted nmemb (some (m, ok u)) = some (m, ok nmemb)

-- The item of a descriptor as a directory's item, also where it is a directory.
descriptor_item : FatItem → Memory
descriptor_item (file_item item) = item
descriptor_item (directory_item directory) = λ a. 0

module _ (controller : Controller) where
  -- A read into an array of its own.
  read_array : (fuel : ℕ) → DiskStream → (start total : ℕ) → Option (Memory × Result (Unit {0}))
  read_array fuel stream start total =
      elim (read_at controller fuel stream start 0 total (λ a. 0)) [
        | none ↦ none
        | some r ↦ some (r.memory, r.status)
      ]

  pub fat16_get_root_directory : (fuel : ℕ) → DiskStream → FatHeader → Option (Result FatDirectory)
  unfolding root_read read_array
  fat16_get_root_directory fuel stream header =
      let root_dir_sector_pos =
        header.fat_copies * header.sectors_per_fat + header.reserved_sectors in
      let root_dir_size = header.root_dir_entries * item_size in
      elim (fat16_get_total_items_for_directory controller fuel stream root_dir_sector_pos) [
        | none ↦ none
        | some total ↦
            root_read root_dir_sector_pos root_dir_size total
              (read_array fuel stream (fat16_sector_to_absolute root_dir_sector_pos) root_dir_size)
      ]

  resolve_header :
      (fuel : ℕ) → DiskStream → Option (Memory × Result (Unit {0})) → Option (Result FatPrivate)
  unfolding resolve_root
  resolve_header fuel stream none = none
  resolve_header fuel stream (some (m, err e)) = some (err eio)
  resolve_header fuel stream (some (m, ok u)) =
      if not (m signature_offset == 0x29)
      then some (err efsnotus)
      else resolve_root stream (header_at m) (fat16_get_root_directory fuel stream (header_at m))

  -- On the disk with the number; without a disk the stream is missing.
  pub fat16_resolve : (fuel disk_id : ℕ) → Option (Result FatPrivate)
  unfolding resolve_header read_array
  fat16_resolve fuel disk_id = elim (diskstreamer_new disk_id) [
    | none ↦ some (err enomem)
    | some stream ↦ resolve_header fuel stream (read_array fuel stream 0 header_size)
  ]

  -- An error is a negative total: the read copies nothing, as with the total 0.
  load_total :
      (fuel : ℕ) → FatPrivate → (cluster : ℕ) → Option (Result ℕ) → Option (Option FatDirectory)
  unfolding directory_read
  load_total fuel private cluster none = none
  load_total fuel private cluster (some (err e)) =
      directory_read 0 (fat16_read_internal controller fuel private cluster 0 0 0 (λ a. 0))
  load_total fuel private cluster (some (ok total)) =
      directory_read total
        (fat16_read_internal controller fuel private cluster 0 (total * item_size) 0 (λ a. 0))

  -- `some none` is a failure. `none` is also a sector before the first one of the disk, from which the
  -- source reads on at negative indexes of the sector's buffer.
  pub fat16_load_fat_directory :
      (fuel : ℕ) → FatPrivate → Memory → (item : ℕ) → Option (Option FatDirectory)
  unfolding load_total
  fat16_load_fat_directory fuel private m item =
      if not (is_subdirectory m item)
      then some none
      else elim (fat16_cluster_to_sector private (fat16_get_first_cluster m item)) [
        | negsuc n ↦ none
        | pos sector ↦
            load_total fuel private (fat16_get_first_cluster m item)
              (fat16_get_total_items_for_directory controller fuel private.stream sector)
      ]

  -- The directory that is loaded is overwritten by the copy of the item, and the type by that of a
  -- file.
  pub fat16_new_fat_item_for_directory_item :
      (fuel : ℕ) → FatPrivate → Memory → (item : ℕ) → Option FatItem
  unfolding after_load fat16_clone_directory_item
  fat16_new_fat_item_for_directory_item fuel private m item =
      if is_subdirectory m item
      then after_load (fat16_load_fat_directory fuel private m item)
          (file_item (fat16_clone_directory_item m item))
      else some (file_item (fat16_clone_directory_item m item))

  -- The loop of fat16_find_item_in_directory with `rounds` items left from number `i`: it goes on
  -- behind a match, so the last match stays. `some none` is that there is none.
  pub find_loop :
      (fuel : ℕ) → FatPrivate → Memory → (name : List ℕ) → (rounds i : ℕ) → Option (Option FatItem)
  unfolding find_named
  find_loop fuel private m name zero i = some none
  find_loop fuel private m name (suc rounds) i =
      find_named (fat16_get_full_relative_filename fuel m (item_size * i)) name
        (fat16_new_fat_item_for_directory_item fuel private m (item_size * i))
        (find_loop fuel private m name rounds (i + 1))

  pub fat16_find_item_in_directory :
      (fuel : ℕ) → FatPrivate → FatDirectory → (name : List ℕ) → Option (Option FatItem)
  fat16_find_item_in_directory fuel private directory name =
      find_loop fuel private directory.item name directory.total 0

  -- The rest of the path from an item: none where the item is no directory, or not found. The source
  -- reads the type of a missing item where more of the path is left.
  pub walk_path :
      (fuel : ℕ) → FatPrivate → List (List ℕ) → Option (Option FatItem) → Option (Option FatItem)
  walk_path fuel private parts none = none
  walk_path fuel private parts (some none) = some none
  walk_path fuel private [] (some (some item)) = some (some item)
  walk_path fuel private (next_part ∷ parts) (some (some (file_item item))) = some none
  walk_path fuel private (next_part ∷ parts) (some (some (directory_item directory))) =
      walk_path fuel private parts (fat16_find_item_in_directory fuel private directory next_part)

  -- The path has a first part and more parts behind it.
  pub fat16_get_directory_entry :
      (fuel : ℕ) → FatPrivate → (part : List ℕ) → (next : List (List ℕ)) → Option (Option FatItem)
  fat16_get_directory_entry fuel private part next =
      walk_path fuel private next
        (fat16_find_item_in_directory fuel private private.root_directory part)

  -- FILE_MODE_READ is 0.
  pub fat16_open :
      (fuel : ℕ)
      → FatPrivate
      → (part : List ℕ) → (next : List (List ℕ)) → (mode : ℕ) → Option (Result FatDescriptor)
  unfolding opened_item
  fat16_open fuel private part next mode =
      if not (mode == 0)
      then some (err erdonly)
      else opened_item (fat16_get_directory_entry fuel private part next)

  -- The loop of fat16_read with `rounds` pieces of `size` bytes left.
  pub read_loop :
      (fuel : ℕ)
      → FatPrivate
      → (cluster offset size out rounds : ℕ) → Memory
      → Option (Memory × Result (Unit {0}))
  read_loop fuel private cluster offset size out zero m = some (m, ok tt)
  read_loop fuel private cluster offset size out (suc rounds) m =
      elim (fat16_read_internal controller fuel private cluster offset size out m) [
        | none ↦ none
        | some (m', res) ↦
            let rest = read_loop fuel private cluster (offset + size) size (out + size) rounds m' in
            elim res [ err e ↦ some (m', err e) | ok u ↦ rest ]
      ]

  -- The descriptor is only read: `pos` stays.
  pub fat16_read :
      (fuel : ℕ)
      → FatPrivate
      → FatDescriptor
      → (size nmemb out : ℕ) → Memory
      → Option (Memory × Result ℕ)
  unfolding counted descriptor_item
  fat16_read fuel private desc size nmemb out m = counted nmemb (
      read_loop fuel private (fat16_get_first_cluster (descriptor_item desc.item) 0) desc.pos size
        out nmemb m)
