-- ===== src/Fat16/Directory/Ends.antt =====
-- The search of a directory in src/fs/fat/fat16.c ends: the names of the items end, and the
-- directories that its items name are counted and read.
use slob_os.Prelude.{
  ℕ, zero, suc, ◌+◌, ◌-◌, ◌*◌, ◌^◌, ◌≤◌, ◌<◌, ◌≡◌, refl, ◌||◌, Bool, true, false, Option, none,
  some, ◌==◌, inl, inr, Bool-cases, List, length, ◌++◌, ◌∷◌, arith,
}
use slob_os.Prelude.Memory.{Memory}
use slob_os.Disk.{Controller}
use slob_os.Disk.Sectors.{Documented}
use slob_os.Fat16.{fat16_get_full_relative_filename}
use slob_os.Fat16.Names.{Padded, to_proper_string_lem}
use slob_os.Fat16.Volume.{
  FatDirectory, FatPrivate, FatItem, file_item, is_subdirectory, item_size, cluster_bytes,
  fat16_get_first_cluster,
}
use slob_os.Fat16.Volume.Delivery.{data_position, sector_of, fat16_read_internal_lem}
use slob_os.Fat16.Volume.Entries.{IsItems, used, get_total_items-used}
use slob_os.Fat16.Directory.{
  after_load, load_total, directory_read, fat16_load_fat_directory, fat16_clone_directory_item,
  fat16_new_fat_item_for_directory_item, keep_last, found_last, find_named, same_name, find_loop,
}

-- The item's name and extension each end with a 0 or a space, and the fuel is enough for both.
pub record IsNamed (fuel : ℕ) (m : Memory) (item : ℕ) : Type 0 where
  pub name : List ℕ
  pub at_name : Padded m item name
  pub name_fuel : length name < fuel
  pub ext : List ℕ
  pub at_ext : Padded m (item + 8) ext
  pub ext_fuel : length ext < fuel

-- The first sector of the data of a cluster.
abbrev pub data_sector : FatPrivate → (cluster : ℕ) → ℕ
data_sector private cluster =
    private.root_directory.ending_sector_pos + (cluster - 2) * private.header.sectors_per_cluster

-- The items of the directory in the cluster, by their first bytes, stand on the disk; those in use
-- fill at most the cluster; the fuel is enough.
pub record IsStored (image : ℕ → ℕ) (fuel : ℕ) (private : FatPrivate) (cluster : ℕ) : Type 0 where
  pub numbered : 2 ≤ cluster
  pub firsts : List ℕ
  pub items : IsItems image (data_sector private cluster * 512) firsts
  pub items_fuel : length firsts < fuel
  pub near : data_sector private cluster * 512 + 32 * (length firsts + 1) < 2 ^ 25
  pub fits : used firsts * 32 ≤ cluster_bytes private
  pub near_data : data_position private cluster 0 + used firsts * 32 < 2 ^ 25
  pub read_fuel : used firsts * 32 + 512 ≤ 512 * fuel

-- An item of a directory with a name and, if it is a directory, with its items on the disk.
pub record IsItem (image : ℕ → ℕ) (fuel : ℕ) (private : FatPrivate) (m : Memory) (item : ℕ)
    : Type 0 where
  pub named : IsNamed fuel m item
  pub stored :
      is_subdirectory m item ≡ true → IsStored image fuel private (fat16_get_first_cluster m item)

filename_ends :
    (fuel : ℕ) (m : Memory) (item : ℕ)
    → IsNamed fuel m item
    → (tmp : List ℕ) × (fat16_get_full_relative_filename fuel m item ≡ some tmp)
unfolding fat16_get_full_relative_filename
filename_ends fuel m item n =
    let here = to_proper_string_lem fuel m item n.name n.at_name n.name_fuel in
    let there = to_proper_string_lem fuel m (item + 8) n.ext n.at_ext n.ext_fuel in
    elim (Bool-cases (m (item + 8) == 0x00 || m (item + 8) == 0x20)) [
      | inl t ↦ (n.name, rw (here, t, fat16_get_full_relative_filename) refl)
      | inr f ↦
          (n.name ++ (b'.' ∷ n.ext), rw (here, f, there, fat16_get_full_relative_filename) refl)
    ]

found_last_some :
    (matches : Bool) (item : FatItem) (found : Option FatItem)
    → (r : Option FatItem) × (found_last matches (some item) (some found) ≡ some r)
unfolding found_last keep_last
found_last_some false item found = (found, refl)
found_last_some true item none = (some item, refl)
found_last_some true item (some later) = (some later, refl)

find_named_some :
    (tmp : Option (List ℕ)) (name : List ℕ) (here : Option FatItem) (rest : Option (Option FatItem))
    (t : List ℕ) (item : FatItem) (found : Option FatItem)
    → tmp ≡ some t
    → here ≡ some item
    → rest ≡ some found
    → (r : Option FatItem) × (find_named tmp name here rest ≡ some r)
unfolding find_named
find_named_some tmp name here rest t item found e f g =
    let (r, did) = found_last_some (same_name t name) item found in (r, rw (e, f, g) did)

module _ (controller : Controller) (image : ℕ → ℕ) (doc : Documented controller image) (fuel d : ℕ)
    (private : FatPrivate) (on_disk : private.stream.disk ≡ some d)
    (sized : 0 < cluster_bytes private) where
  load_ends :
      (m : Memory) (item : ℕ)
      → is_subdirectory m item ≡ true
      → IsStored image fuel private (fat16_get_first_cluster m item)
      → (directory : FatDirectory) × (fat16_load_fat_directory controller fuel private m item
          ≡ some (some directory))
  unfolding fat16_load_fat_directory load_total directory_read
  load_ends m item sub stored =
      let cluster : ℕ = fat16_get_first_cluster m item in
      let total : ℕ = used stored.firsts in
      let counted =
        get_total_items-used controller image doc fuel d private.stream
          (data_sector private cluster) stored.firsts on_disk stored.items stored.items_fuel
          stored.near in
      let (m', (did, bytes)) =
        fat16_read_internal_lem controller image doc fuel d private cluster 0 (total * 32) 0
          (λ a. 0) on_disk stored.numbered sized stored.fits stored.near_data stored.read_fuel in
      (
        record { item = m'; total = total; sector_pos = 0; ending_sector_pos = 0 },
        rw (sub, sector_of private cluster stored.numbered, counted, did, fat16_load_fat_directory)
            refl,
      )

  new_item_ends :
      (m : Memory) (item : ℕ)
      → IsItem image fuel private m item
      → fat16_new_fat_item_for_directory_item controller fuel private m item
        ≡ some (file_item (fat16_clone_directory_item m item))
  unfolding fat16_new_fat_item_for_directory_item after_load
  new_item_ends m item is_item = elim (Bool-cases (is_subdirectory m item)) [
    | inl sub ↦
        let (directory, loaded) = load_ends m item sub (is_item.stored sub) in rw (sub, loaded) refl
    | inr file ↦ rw (file) refl
  ]

  -- The loop over the items that are left ends.
  pub find_loop_ends :
      (m : Memory) (name : List ℕ) (rounds i : ℕ)
      → ((k : ℕ) → k < i + rounds → IsItem image fuel private m (item_size * k))
      → (found : Option FatItem) × (find_loop controller fuel private m name rounds i ≡ some found)
  unfolding find_loop
  find_loop_ends m name zero i items = (none, refl)
  find_loop_ends m name (suc rounds) i items =
      let here = items i (omega arith) in
      let (tmp, named) = filename_ends fuel m (item_size * i) here.named in
      let (found, rest) = find_loop_ends m name rounds (i + 1) (λ k lt. items k (omega arith)) in
      find_named_some (fat16_get_full_relative_filename fuel m (item_size * i)) name
        (fat16_new_fat_item_for_directory_item controller fuel private m (item_size * i))
        (find_loop controller fuel private m name rounds (i + 1)) tmp
        (file_item (fat16_clone_directory_item m (item_size * i))) found named
        (new_item_ends m (item_size * i) here) rest
