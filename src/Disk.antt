-- ===== src/Disk.antt =====
-- The disk driver of src/disk/disk.c and the byte stream of src/disk/streamer.c. The ATA controller
-- is a parameter: the commands that it was sent determine the bytes that it then delivers.
mod Examples
pub mod Sectors
pub mod Stream
use slob_os.Prelude.{
  ℕ, zero, suc, ◌+◌, ◌-◌, ◌*◌, ◌/◌, ◌%◌, ◌^◌, Bool, true, false, Option, none, some, ltb, leb, ◌==◌,
  if◌then◌else◌, List, [], ◌∷◌, bit_or,
}
use slob_os.Prelude.Memory.{Memory, write}
use slob_os.Status.{Errno, eio, Result, ok, err}

-- SLOBOS_SECTOR_SIZE
abbrev pub sector_size : ℕ
sector_size = 512

-- A byte written to a port.
abbrev pub Outb : Type 0
Outb = ℕ × ℕ

-- `controller commands i` is the byte `i` of the data that follow the commands.
abbrev pub Controller : Type 0
Controller = List Outb → ℕ → ℕ

-- The commands of disk_read_sector; outb takes an `unsigned char`.
pub read_commands : ℕ → ℕ → List Outb
read_commands lba total =
    (0x1f6, bit_or (lba / 2 ^ 24) 0xe0 % 256)
    ∷ (0x1f2, total % 256)
    ∷ (0x1f3, lba % 256)
    ∷ (0x1f4, lba / 2 ^ 8 % 256)
    ∷ (0x1f5, lba / 2 ^ 24 % 256)
    ∷ (0x1f7, 0x20)
    ∷ []

-- `n` bytes of the data stream from byte `i` on are stored at `buf`.
store_bytes : (ℕ → ℕ) → (n i buf : ℕ) → Memory → Memory
store_bytes stream zero i buf m = m
store_bytes stream (suc n) i buf m = store_bytes stream n (i + 1) (buf + 1) (write m buf (stream i))

pub disk_read_sector : Controller → ℕ → ℕ → ℕ → Memory → Memory
unfolding read_commands store_bytes
disk_read_sector controller lba total buf m =
    store_bytes (controller (read_commands lba total)) (total * sector_size) 0 buf m

-- disk_get: the one disk has the number 0. The disk is its number.
pub disk_get : ℕ → Option ℕ
disk_get index = if index == 0 then some 0 else none

-- `idisk` is the disk's number, or `none` for any other pointer.
pub disk_read_block : Controller → Option ℕ → ℕ → ℕ → ℕ → Memory → Memory × Result (Unit {0})
disk_read_block controller none lba total buf m = (m, err eio)
disk_read_block controller (some d) lba total buf m =
    (disk_read_sector controller lba total buf m, ok tt)

-- `struct disk_stream`
pub record DiskStream : Type 0 where
  pub pos : ℕ
  pub disk : Option ℕ

-- diskstreamer_new, with the allocation of the structure taken to succeed.
pub diskstreamer_new : ℕ → Option DiskStream
unfolding disk_get
diskstreamer_new disk_id = elim (disk_get disk_id) [
  | none ↦ none
  | some d ↦ some (record { pos = 0; disk = some d })
]

unfoldable pub diskstreamer_seek : DiskStream → ℕ → DiskStream × Result (Unit {0})
diskstreamer_seek stream pos = (record stream { pos = pos }, ok tt)

-- The loop that copies `n` bytes of the sector buffer from index `i` to `out`.
copy_out : Memory → (n i out : ℕ) → Memory → Memory
copy_out buf zero i out m = m
copy_out buf (suc n) i out m = copy_out buf n (i + 1) (out + 1) (write m out (buf i))

-- What a call leaves: the memory of the caller, the stream and the status.
pub record Read : Type 0 where
  pub memory : Memory
  pub stream : DiskStream
  pub status : Result (Unit {0})

-- The sector goes to a buffer of the call's own. `none` is that the fuel for the recursion ran out.
pub diskstreamer_read : Controller → ℕ → DiskStream → ℕ → ℕ → Memory → Option Read
diskstreamer_read controller zero stream out total m = none
diskstreamer_read controller (suc fuel) stream out total m =
    let sector = stream.pos / sector_size in
    let offset = stream.pos % sector_size in
    let overflow = leb sector_size (offset + total) in
    let total_to_read = if overflow then total - (offset + total - sector_size) else total in
    let (buf, res) = disk_read_block controller stream.disk sector 1 0 (λ a. 0) in
    let copied = copy_out buf total_to_read offset out m in
    let moved = record stream { pos = stream.pos + total_to_read } in
    let rest =
      diskstreamer_read controller fuel moved (out + total_to_read) (total - total_to_read)
        copied in
    elim res [
      | err e ↦ some (record { memory = m; stream = stream; status = err e })
      | ok u ↦
          if overflow
          then rest
          else some (record { memory = copied; stream = moved; status = ok tt })
    ]
