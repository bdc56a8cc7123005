-- ===== src/Fat16/Directory/Search.antt =====
-- The search for paths in src/fs/fat/fat16.c: what it finds is always a file.
use slob_os.Disk.Sectors.{Documented}
use slob_os.Fat16.Directory.Ends.{IsItem, find_loop_ends}
use slob_os.Prelude.{
  ◌<◌, arith, ℕ, zero, suc, ◌≡◌, refl, Bool, true, false, Option, none, some, ◌+◌, ◌*◌, inl, inr,
  Bool-cases, List, ◌∷◌,
}
use mathlib.Core.Path.{subst}
use slob_os.Prelude.Memory.{Memory}
use slob_os.Status.{eio, err}
use slob_os.Disk.{Controller}
use slob_os.Fat16.{fat16_get_full_relative_filename}
use slob_os.Fat16.Volume.{
  FatDirectory, FatPrivate, FatItem, file_item, directory_item, is_subdirectory, item_size,
  cluster_bytes,
}
use slob_os.Fat16.Directory.{
  after_load, fat16_load_fat_directory, fat16_clone_directory_item,
  fat16_new_fat_item_for_directory_item, keep_last, found_last, find_named, same_name, find_loop,
  fat16_find_item_in_directory, walk_path, fat16_get_directory_entry, opened_item, fat16_open,
}

-- A result that is a file, or none.
abbrev IsFile : Option FatItem → Type 0
IsFile none = Unit {0}
IsFile (some (file_item item)) = Unit {0}
IsFile (some (directory_item directory)) = ◌≡◌ {A = Option ℕ} none (some 0)

abbrev IsFound : Option (Option FatItem) → Type 0
IsFound none = Unit {0}
IsFound (some found) = IsFile found

none_ne : ¬ (◌≡◌ {A = Option ℕ} none (some 0))
none_ne e = cc

after_load-IsFile :
    (loaded : Option (Option FatDirectory)) (item : Memory)
    → IsFile (after_load loaded (file_item item))
unfolding after_load
after_load-IsFile none item = tt
after_load-IsFile (some loaded) item = tt

keep_last-IsFound :
    (found : Option FatItem) (rest : Option (Option FatItem))
    → IsFile found
    → IsFound rest
    → IsFound (keep_last found rest)
unfolding keep_last
keep_last-IsFound found none here later = tt
keep_last-IsFound found (some none) here later = here
keep_last-IsFound found (some (some item)) here later = later

found_last-IsFound :
    (matches : Bool) (here : Option FatItem) (rest : Option (Option FatItem))
    → IsFile here
    → IsFound rest
    → IsFound (found_last matches here rest)
unfolding found_last
found_last-IsFound false here rest file later = later
found_last-IsFound true none rest file later = tt
found_last-IsFound true (some item) rest file later = keep_last-IsFound (some item) rest file later

find_named-IsFound :
    (tmp : Option (List ℕ)) (name : List ℕ) (here : Option FatItem) (rest : Option (Option FatItem))
    → IsFile here
    → IsFound rest
    → IsFound (find_named tmp name here rest)
unfolding find_named
find_named-IsFound none name here rest file later = tt
find_named-IsFound (some tmp) name here rest file later =
    found_last-IsFound (same_name tmp name) here rest file later

module _ (controller : Controller) (fuel : ℕ) (private : FatPrivate) where
  new_item-IsFile :
      (m : Memory) (item : ℕ)
      → IsFile (fat16_new_fat_item_for_directory_item controller fuel private m item)
  unfolding fat16_new_fat_item_for_directory_item
  new_item-IsFile m item = elim (Bool-cases (is_subdirectory m item)) [
    | inl e ↦ rw (e) (
        after_load-IsFile (fat16_load_fat_directory controller fuel private m item)
          (fat16_clone_directory_item m item))
    | inr e ↦ rw (e) tt
  ]

  find_loop-IsFound :
      (m : Memory) (name : List ℕ) (rounds i : ℕ)
      → IsFound (find_loop controller fuel private m name rounds i)
  unfolding find_loop
  find_loop-IsFound m name zero i = tt
  find_loop-IsFound m name (suc rounds) i =
      find_named-IsFound (fat16_get_full_relative_filename fuel m (item_size * i)) name
        (fat16_new_fat_item_for_directory_item controller fuel private m (item_size * i))
        (find_loop controller fuel private m name rounds (i + 1))
        (new_item-IsFile m (item_size * i)) (find_loop-IsFound m name rounds (i + 1))

  nested :
      (found : Option FatItem) (next : List ℕ) (parts : List (List ℕ))
      → IsFile found
      → walk_path controller fuel private (next ∷ parts) (some found) ≡ some none
  unfolding walk_path
  nested none next parts file = refl
  nested (some (file_item item)) next parts file = refl
  nested (some (directory_item directory)) next parts file = absurd (none_ne file)

  ended-nested :
      (part next : List ℕ) (parts : List (List ℕ)) (found : Option FatItem)
      → find_loop controller fuel private private.root_directory.item part
          private.root_directory.total 0
        ≡ some found
      → fat16_open controller fuel private part (next ∷ parts) 0 ≡ some (err eio)
  unfolding fat16_open fat16_get_directory_entry opened_item fat16_find_item_in_directory
  ended-nested part next parts found e =
      let file : IsFile found =
        subst IsFound e
          (find_loop-IsFound private.root_directory.item part private.root_directory.total 0) in
      rw (e, nested found next parts file) refl

-- Where each item of the root directory has a name that ends and, if it is a directory, stands on
-- the disk with its items, in one cluster within the first 2^25 bytes, with fuel enough for them,
-- fat16_open for reading of a path of two parts or more ends with EIO, whatever the parts are.
pub fat16_open-nested :
    (controller : Controller) (image : ℕ → ℕ) (fuel d : ℕ) (private : FatPrivate)
    (part next : List ℕ) (parts : List (List ℕ))
    → Documented controller image
    → private.stream.disk ≡ some d
    → 0 < cluster_bytes private
    → ((k : ℕ)
        → k < private.root_directory.total
        → IsItem image fuel private private.root_directory.item (item_size * k))
    → fat16_open controller fuel private part (next ∷ parts) 0 ≡ some (err eio)
fat16_open-nested controller image fuel d private part next parts doc on_disk sized items =
    let (found, ends) =
      find_loop_ends controller image doc fuel d private on_disk sized private.root_directory.item
        part private.root_directory.total 0 (λ k lt. items k (omega arith)) in
    ended-nested controller fuel private part next parts found ends
