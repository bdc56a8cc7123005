-- ===== src/Fat16/Directory/Examples.antt =====
-- Witnesses on a small volume: a file in cluster 3, and a root directory with a directory in it.
use slob_os.Fat16.Volume.Entries.{used}
use slob_os.Fat16.Directory.Ends.{IsItem}
use slob_os.Prelude.{
  zero, suc, inl, ℕ, ◌+◌, ◌-◌, ◌*◌, ◌^◌, ◌≤◌, ◌<◌, ◌≡◌, refl, some, ◌==◌, leb, ltb, ◌&&◌,
  if◌then◌else◌, [], ◌∷◌, arith,
}
use slob_os.Prelude.Memory.{Memory}
use slob_os.Status.{eio, ok, err}
use slob_os.Fat16.Volume.{
  FatPrivate, item_size, file_item, cluster_bytes, word16, fat16_get_first_cluster,
}
use slob_os.Fat16.Volume.Examples.{image, ata, ata-Documented, volume}
use slob_os.Fat16.Volume.Delivery.{data_position}
use slob_os.Fat16.Directory.{fat16_open, fat16_read}
use slob_os.Fat16.Directory.Whole.{fat16_read-bytes}
use slob_os.Fat16.Directory.Search.{fat16_open-nested}

abbrev item : Memory
item a = if a == 26 then 3 else 0

third : 2 ≤ fat16_get_first_cluster item 0
unfolding fat16_get_first_cluster word16
third = omega arith

inside : 100 + 16 * 2 ≤ cluster_bytes volume
unfolding cluster_bytes
inside = omega arith

near : data_position volume (fat16_get_first_cluster item 0) 100 + 16 * 2 < 2 ^ 25
unfolding fat16_get_first_cluster word16
near = omega arith

fat16_read-bytes_example :
    (m' : Memory) × ((fat16_read ata 2 volume
          (record { item = file_item item; pos = 100 })
          16
          2
          0x2000
          (λ a. 0)
        ≡ some (m', ok 2))
      × ((x : ℕ)
          → m' x ≡ (
              if leb 0x2000 x && ltb x (0x2000 + 16 * 2)
              then image (data_position volume (fat16_get_first_cluster item 0) 100 + (x - 0x2000))
              else 0)))
fat16_read-bytes_example =
    fat16_read-bytes ata image ata-Documented 2 0 volume item 100 16 2 0x2000 (λ a. 0) refl third
      (omega arith) inside near (omega arith)

-- The root directory has one item, the directory `a` in the cluster 3, which has one item.
abbrev root : Memory
root x = if x == 0 then 97 else if x == 11 then 0x10 else if x == 26 then 3 else 0

abbrev nested : FatPrivate
nested = record volume {
  root_directory = record { item = root; total = 1; sector_pos = 17; ending_sector_pos = 20 };
}

sized : 0 < cluster_bytes nested
unfolding cluster_bytes
sized = omega arith

root-IsItem :
    (k : ℕ)
    → k < nested.root_directory.total
    → IsItem image 4 nested nested.root_directory.item (item_size * k)
unfolding cluster_bytes used fat16_get_first_cluster word16
root-IsItem zero lt = record {
  named = record {
    name = 97 ∷ [];
    at_name = (refl, (omega arith, (omega arith, inl refl)));
    name_fuel = omega arith;
    ext = [];
    at_ext = inl refl;
    ext_fuel = omega arith;
  };
  stored = λ sub. record {
    numbered = omega arith;
    firsts = 66 ∷ [];
    items = (refl, (omega arith, refl));
    items_fuel = omega arith;
    near = omega arith;
    fits = omega arith;
    near_data = omega arith;
    read_fuel = omega arith;
  };
}
root-IsItem (suc k) lt = absurd (omega arith)

fat16_open-nested_example : fat16_open ata 4 nested (97 ∷ []) ((66 ∷ []) ∷ []) 0 ≡ some (err eio)
fat16_open-nested_example =
    fat16_open-nested ata image 4 0 nested (97 ∷ []) (66 ∷ []) [] ata-Documented refl sized
      root-IsItem
