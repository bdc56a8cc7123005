-- ===== src/Fat16/Volume.antt =====
-- The FAT16 driver of src/fs/fat/fat16.c on the disk: the volume that fat16_resolve finds, clusters,
-- directories, and the reading of files. Allocations are taken to succeed. Each use of a stream
-- starts with a seek, so its position is kept within an operation only. `none` is that the fuel of
-- a loop ran out, or a sector before the first one of the disk.
pub mod Examples
pub mod Delivery
pub mod Entries
use slob_os.Prelude.{
  ℕ, zero, suc, ◌+◌, ◌-◌, ◌*◌, ◌/◌, ◌%◌, ◌^◌, Bool, true, false, not, ◌||◌, Option, none, some, ltb,
  leb, ◌==◌, if◌then◌else◌, List, [], ◌∷◌, get_or, bit_or,
}
use slob_os.Prelude.Int.{ℤ, pos, negsuc, sub_ℕ}
use slob_os.Prelude.Memory.{Memory}
use slob_os.Status.{Errno, eio, einvarg, enomem, efsnotus, erdonly, Result, ok, err}
use slob_os.Disk.{
  Controller, DiskStream, Read, sector_size, diskstreamer_new, diskstreamer_seek, diskstreamer_read,
}
use slob_os.Text.{istrncmp}
use slob_os.Fat16.{fat16_get_full_relative_filename}

-- `struct fat_directory`; the items are 32 bytes each. A negative total, with which no loop runs,
-- is 0.
pub record FatDirectory : Type 0 where
  pub item : Memory
  pub total : ℕ
  pub sector_pos : ℕ
  pub ending_sector_pos : ℕ

-- `struct fat_header`, the fields that the driver reads.
pub record FatHeader : Type 0 where
  pub sectors_per_cluster : ℕ
  pub reserved_sectors : ℕ
  pub fat_copies : ℕ
  pub root_dir_entries : ℕ
  pub sectors_per_fat : ℕ

-- `struct fat_private`; the three streams are streams of one disk.
pub record FatPrivate : Type 0 where
  pub header : FatHeader
  pub root_directory : FatDirectory
  pub stream : DiskStream

-- `struct fat_item`: a copy of the directory's item, or a directory.
pub data FatItem : Type 0 where
  file_item : (item : Memory) → FatItem
  directory_item : FatDirectory → FatItem

-- `struct fat_file_descriptor`
pub record FatDescriptor : Type 0 where
  pub item : FatItem
  pub pos : ℕ

-- The size of `struct fat_directory_item`.
abbrev pub item_size : ℕ
item_size = 32

-- A 16-bit field.
unfoldable pub word16 : Memory → ℕ → ℕ
word16 m a = m a + 2 ^ 8 * m (a + 1)

pub header_at : Memory → FatHeader
unfolding word16
header_at m = record {
  sectors_per_cluster = m 13;
  reserved_sectors = word16 m 14;
  fat_copies = m 16;
  root_dir_entries = word16 m 17;
  sectors_per_fat = word16 m 22;
}

pub fat16_sector_to_absolute : ℕ → ℕ
fat16_sector_to_absolute sector = sector * sector_size % 2 ^ 32

unfoldable pub fat16_get_first_cluster : Memory → (item : ℕ) → ℕ
unfolding word16
fat16_get_first_cluster m item = bit_or (word16 m (item + 20)) (word16 m (item + 26))

pub fat16_cluster_to_sector : FatPrivate → (cluster : ℕ) → ℤ
unfolding sub_ℕ
fat16_cluster_to_sector private cluster =
    sub_ℕ (private.root_directory.ending_sector_pos + cluster * private.header.sectors_per_cluster)
      (2 * private.header.sectors_per_cluster)

pub fat16_get_first_fat_sector : FatPrivate → ℕ
fat16_get_first_fat_sector private = private.header.reserved_sectors

-- `sectors_per_cluster * sector_size`
unfoldable pub cluster_bytes : FatPrivate → ℕ
cluster_bytes private = private.header.sectors_per_cluster * sector_size

-- The attribute FAT_FILE_SUBDIRECTORY of an item.
pub is_subdirectory : Memory → (item : ℕ) → Bool
is_subdirectory m item = m (item + 11) / 2 ^ 4 % 2 == 1

-- The entries that end a chain with an error.
pub ends_chain : ℕ → Bool
ends_chain entry =
    entry == 0xff8
    || entry == 0xfff
    || entry == 0xff7
    || entry == 0xff0
    || entry == 0xff6
    || entry == 0

-- The position of an offset in a cluster.
pub cluster_position : FatPrivate → (cluster offset : ℕ) → Option ℕ
cluster_position private cluster offset = elim (fat16_cluster_to_sector private cluster) [
  | negsuc n ↦ none
  | pos sector ↦ some (sector * sector_size + offset % cluster_bytes private)
]

module _ (controller : Controller) where
  -- A seek and a read.
  pub read_at : (fuel : ℕ) → DiskStream → (start out total : ℕ) → Memory → Option Read
  read_at fuel stream start out total m =
      diskstreamer_read controller fuel (diskstreamer_seek stream start).0 out total m

  -- The loop of fat16_get_total_items_for_directory, with the count so far; a read of 32 bytes takes
  -- two calls at most.
  pub items_loop : (fuel : ℕ) → DiskStream → (i : ℕ) → Option (Result ℕ)
  items_loop zero stream i = none
  items_loop (suc fuel) stream i =
      elim (diskstreamer_read controller 2 stream 0 item_size (λ a. 0)) [
        | none ↦ none
        | some r ↦
            let unused = items_loop fuel r.stream i in
            let used = items_loop fuel r.stream (i + 1) in
            elim r.status [
              | err e ↦ some (err eio)
              | ok u ↦
                  if r.memory 0 == 0
                  then some (ok i)
                  else if r.memory 0 == 0xe5
                  then unused
                  else used
            ]
      ]

  pub fat16_get_total_items_for_directory :
      (fuel : ℕ) → DiskStream → (directory_start_sector : ℕ) → Option (Result ℕ)
  fat16_get_total_items_for_directory fuel stream directory_start_sector =
      items_loop fuel (diskstreamer_seek stream (directory_start_sector * sector_size % 2 ^ 32)).0 0

  pub fat16_get_fat_entry : FatPrivate → (cluster : ℕ) → Option (Result ℕ)
  unfolding word16 fat16_get_first_fat_sector
  fat16_get_fat_entry private cluster =
      let fat_table_position = fat16_get_first_fat_sector private * sector_size in
      elim (read_at 2 private.stream (fat_table_position * (cluster * 2) % 2 ^ 32) 0 2 (λ a. 0)) [
        | none ↦ none
        | some r ↦ elim r.status [ err e ↦ some (err e) | ok u ↦ some (ok (word16 r.memory 0)) ]
      ]

  -- The loop of fat16_get_cluster_for_offset with `clusters_ahead` rounds left.
  pub chain_loop : FatPrivate → (clusters_ahead cluster_to_use : ℕ) → Option (Result ℕ)
  chain_loop private zero cluster_to_use = some (ok cluster_to_use)
  chain_loop private (suc clusters_ahead) cluster_to_use =
      elim (fat16_get_fat_entry private cluster_to_use) [
        | none ↦ none
        | some (err e) ↦ some (err e)
        | some (ok entry) ↦
            let rest = chain_loop private clusters_ahead entry in
            if ends_chain entry then some (err eio) else rest
      ]

  pub fat16_get_cluster_for_offset : FatPrivate → (starting_cluster offset : ℕ) → Option (Result ℕ)
  fat16_get_cluster_for_offset private starting_cluster offset =
      chain_loop private (offset / cluster_bytes private) starting_cluster

  pub fat16_read_internal :
      (fuel : ℕ)
      → FatPrivate
      → (cluster offset total out : ℕ) → Memory
      → Option (Memory × Result (Unit {0}))
  fat16_read_internal zero private cluster offset total out m = none
  fat16_read_internal (suc fuel) private cluster offset total out m =
      let total_to_read =
        if ltb (cluster_bytes private) total then cluster_bytes private else total in
      elim (fat16_get_cluster_for_offset private cluster offset) [
        | none ↦ none
        | some (err e) ↦ some (m, err e)
        | some (ok cluster_to_use) ↦ elim (cluster_position private cluster_to_use offset) [
          | none ↦ none
          | some start ↦ elim (read_at (suc fuel) private.stream start out total_to_read m) [
            | none ↦ none
            | some r ↦
                let rest =
                  fat16_read_internal fuel private cluster (offset + total_to_read)
                    (total - total_to_read) (out + total_to_read) r.memory in
                elim r.status [
                  | err e ↦ some (r.memory, err e)
                  | ok u ↦ if total - total_to_read == 0 then some (r.memory, ok tt) else rest
                ]
          ]
        ]
      ]
