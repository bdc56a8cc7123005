-- ===== src/Fat16/Volume/Examples.antt =====
-- Witnesses on a disk with two items in its sector 2.
use slob_os.Prelude.{ℕ, ◌+◌, ◌*◌, ◌%◌, ◌^◌, ◌<◌, ◌≡◌, refl, some, ◌==◌, if◌then◌else◌, ◌∷◌, arith}
use slob_os.Status.{ok}
use slob_os.Disk.{Controller, DiskStream}
use slob_os.Disk.Sectors.{Documented}
use slob_os.Fat16.Volume.{FatPrivate, word16, fat16_get_first_fat_sector, fat16_get_fat_entry}
use slob_os.Fat16.Volume.Delivery.{fat16_get_fat_entry-product}

-- An item in use and a deleted one, and an item in the cluster 3.
abbrev pub image : ℕ → ℕ
image a =
    if a == 1024
    then 65
    else if a == 1056
    then 0xe5
    else if a == 2048
    then 9
    else if a == 12288
    then 66
    else 0

abbrev pub ata : Controller
ata ((r, drive) ∷ (s, count) ∷ (t, low) ∷ (u, mid) ∷ (v, high) ∷ command) i =
    image ((low + 2 ^ 8 * mid + 2 ^ 16 * high + 2 ^ 24 * (drive % 16)) * 512 + i)
ata other i = 0

pub ata-Documented : Documented ata image
ata-Documented drive count low mid high i lt = refl

abbrev pub stream : DiskStream
stream = record { pos = 0; disk = some 0 }

-- Clusters of four sectors behind the sector 20.
abbrev pub volume : FatPrivate
volume = record {
  header = record {
    sectors_per_cluster = 4;
    reserved_sectors = 1;
    fat_copies = 2;
    root_dir_entries = 16;
    sectors_per_fat = 8;
  };
  root_directory = record { item = λ a. 0; total = 0; sector_pos = 17; ending_sector_pos = 20 };
  stream = stream;
}

first : fat16_get_first_fat_sector volume * 512 * (2 * 2) + 2 < 2 ^ 25
unfolding fat16_get_first_fat_sector
first = omega arith

fat16_get_fat_entry-product_example :
    fat16_get_fat_entry ata volume 2
    ≡ some (ok (word16 image (fat16_get_first_fat_sector volume * 512 * (2 * 2))))
fat16_get_fat_entry-product_example =
    fat16_get_fat_entry-product ata image ata-Documented 0 volume 2 refl first
