-- ===== src/Disk/Examples.antt =====
-- The theorems on the disk at a controller that follows the documentation.
use slob_os.Prelude.{ℕ, ◌+◌, ◌*◌, ◌^◌, ◌%◌, ◌≡◌, refl, arith, some, ◌∷◌}
use slob_os.Disk.{Controller, DiskStream, Read, diskstreamer_read}
use slob_os.Disk.Sectors.{Documented}
use slob_os.Disk.Stream.{Delivered, diskstreamer_read_lem}

abbrev image : ℕ → ℕ
image a = a % 251

-- The registers of the six commands give the block.
abbrev ata : Controller
ata ((r, drive) ∷ (s, count) ∷ (t, low) ∷ (u, mid) ∷ (v, high) ∷ command) i =
    image ((low + 2 ^ 8 * mid + 2 ^ 16 * high + 2 ^ 24 * (drive % 16)) * 512 + i)
ata other i = 0

ata-Documented : Documented ata image
ata-Documented drive count low mid high i lt = refl

abbrev stream : DiskStream
stream = record { pos = 500; disk = some 0 }

-- A read over the end of a sector.
diskstreamer_read_lem_example :
    (r : Read) × (diskstreamer_read ata 3 stream 0x2000 600 (λ a. 0) ≡ some r)
    × Delivered image stream 0x2000 600 (λ a. 0) r
diskstreamer_read_lem_example =
    diskstreamer_read_lem ata image ata-Documented 3 0 stream 0x2000 600 (λ a. 0) refl (omega arith)
      (omega arith)
