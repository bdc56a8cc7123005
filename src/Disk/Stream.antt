-- ===== src/Disk/Stream.antt =====
-- diskstreamer_read against the disk as one array of bytes.
use slob_os.Prelude.{
  ℕ, zero, suc, ◌+◌, ◌-◌, ◌*◌, ◌/◌, ◌%◌, ◌^◌, ◌≤◌, ◌<◌, ◌≡◌, inl, inr, refl, ◌∙◌, true, false,
  Option, none, some, ltb, leb, ◌&&◌, if◌then◌else◌, arith, eq_cases, lt_cases,
}
use slob_os.Prelude.Memory.{Memory, write}
use slob_os.Status.{eio, ok, err}
use slob_os.Disk.{
  Controller, DiskStream, Read, copy_out, disk_read_sector, disk_read_block, diskstreamer_read,
}
use slob_os.Disk.Sectors.{Documented, sent_block, disk_read_sector_lem}

copy_out_lem :
    (buf : Memory) (n i out : ℕ) (m : Memory) (x : ℕ)
    → copy_out buf n i out m x ≡ (if leb out x && ltb x (out + n) then buf (i + (x - out)) else m x)
unfolding copy_out
copy_out_lem buf zero i out m x = ground arith
copy_out_lem buf (suc n) i out m x =
    copy_out_lem buf n (i + 1) (out + 1) (write m out (buf i)) x ∙ elim (eq_cases x out) [
      | inl e ↦ let first : i + (x - out) ≡ i = omega arith in rw (first) (ground arith)
      | inr (inl lt) ↦ ground arith
      | inr (inr gt) ↦
          let index : i + 1 + (x - (out + 1)) ≡ i + (x - out) = omega arith in
          rw (index) (ground arith)
    ]

-- What a read of `total` bytes at `pos` into `out` leaves.
pub record Delivered (image : ℕ → ℕ) (s : DiskStream) (out total : ℕ) (m : Memory) (r : Read)
    : Type 0 where
  pub status : r.status ≡ ok tt
  pub pos : r.stream.pos ≡ s.pos + total
  pub disk : r.stream.disk ≡ s.disk
  pub bytes :
      (x : ℕ)
      → r.memory x ≡ (if leb out x && ltb x (out + total) then image (s.pos + (x - out)) else m x)

module _ (controller : Controller) (image : ℕ → ℕ) (doc : Documented controller image) where
  -- The sector buffer of a call.
  sector_buffer : ℕ → Memory
  sector_buffer lba = disk_read_sector controller lba 1 0 (λ a. 0)

  -- The part of a sector that a call copies is that part of the disk.
  copied_bytes :
      (pos n out : ℕ) (m : Memory) (x : ℕ)
      → pos < 2 ^ 25
      → pos % 512 + n ≤ 512
      → copy_out (sector_buffer (pos / 512)) n (pos % 512) out m x
        ≡ (if leb out x && ltb x (out + n) then image (pos + (x - out)) else m x)
  unfolding sector_buffer
  copied_bytes pos n out m x small fits =
      copy_out_lem (sector_buffer (pos / 512)) n (pos % 512) out m x ∙ elim (lt_cases x out) [
        | inl before ↦ ground arith
        | inr from ↦ elim (lt_cases x (out + n)) [
          | inr past ↦ ground arith
          | inl inside ↦
              let place : sent_block (pos / 512) * 512 + (pos % 512 + (x - out) - 0)
                  ≡ pos + (x - out) =
                omega arith in
              let here =
                disk_read_sector_lem controller image (pos / 512) 1 0 (λ a. 0)
                  (pos % 512 + (x - out)) doc (omega arith) (omega arith) in
              let value : sector_buffer (pos / 512) (pos % 512 + (x - out))
                  ≡ image (pos + (x - out)) =
                here ∙ rw (place) (ground arith) in
              ground arith
        ]
      ]

  -- The stream moved on by `n` bytes.
  moved : DiskStream → ℕ → DiskStream
  moved s n = record s { pos = s.pos + n }

  block_ok :
      (o : Option ℕ) (lba d : ℕ)
      → o ≡ some d
      → (disk_read_block controller o lba 1 0 (λ a. 0)).1 ≡ ok tt
  unfolding disk_read_block
  block_ok o lba d e = rw e

  block_buffer :
      (o : Option ℕ) (lba d : ℕ)
      → o ≡ some d
      → (disk_read_block controller o lba 1 0 (λ a. 0)).0 ≡ sector_buffer lba
  unfolding disk_read_block sector_buffer
  block_buffer o lba d e = rw e

  read-inside :
      (fuel d : ℕ) (s : DiskStream) (out total : ℕ) (m : Memory)
      → s.disk ≡ some d
      → s.pos % 512 + total < 512
      → diskstreamer_read controller (suc fuel) s out total m
        ≡ some (record {
          memory = copy_out (sector_buffer (s.pos / 512)) total (s.pos % 512) out m;
          stream = moved s total;
          status = ok tt;
        })
  unfolding moved diskstreamer_read
  read-inside fuel d s out total m e lt =
      let test : leb 512 (s.pos % 512 + total) ≡ false = ground arith in
      rw
        (
          block_ok s.disk (s.pos / 512) d e,
          block_buffer s.disk (s.pos / 512) d e,
          test,
          diskstreamer_read,
        )
        refl

  read-overflow :
      (fuel d : ℕ) (s : DiskStream) (out total n : ℕ) (m : Memory)
      → s.disk ≡ some d
      → 512 ≤ s.pos % 512 + total
      → n ≡ 512 - s.pos % 512
      → diskstreamer_read controller (suc fuel) s out total m
        ≡ diskstreamer_read controller fuel
            (moved s n)
            (out + n)
            (total - n)
            (copy_out (sector_buffer (s.pos / 512)) n (s.pos % 512) out m)
  unfolding moved diskstreamer_read
  read-overflow fuel d s out total n m e le size =
      let test : leb 512 (s.pos % 512 + total) ≡ true = ground arith in
      let part : total - (s.pos % 512 + total - 512) ≡ n = omega arith in
      rw
        (
          block_ok s.disk (s.pos / 512) d e,
          block_buffer s.disk (s.pos / 512) d e,
          test,
          part,
          diskstreamer_read,
        )
        refl

  joined :
      (pos n total out : ℕ) (m m' : Memory) (x : ℕ)
      → n ≤ total
      → m' x ≡ (if leb out x && ltb x (out + n) then image (pos + (x - out)) else m x)
      → (if leb (out + n) x && ltb x (out + n + (total - n))
          then image (pos + n + (x - (out + n)))
          else m' x)
        ≡ (if leb out x && ltb x (out + total) then image (pos + (x - out)) else m x)
  joined pos n total out m m' x le first = elim (lt_cases x (out + n)) [
    | inl early ↦ ground arith
    | inr late ↦
        let index : pos + n + (x - (out + n)) ≡ pos + (x - out) = omega arith in
        rw (index) (ground arith)
  ]

  -- On the disk itself, and within the first 2 ^ 25 bytes, a read ends with success: `out` gets the
  -- bytes of the disk from the stream's position on, nothing else changes, and the position moves by
  -- the number of bytes. A call for each sector is enough fuel.
  pub diskstreamer_read_lem :
      (fuel d : ℕ) (s : DiskStream) (out total : ℕ) (m : Memory)
      → s.disk ≡ some d
      → s.pos + total < 2 ^ 25
      → s.pos % 512 + total < 512 * fuel
      → (r : Read) × (diskstreamer_read controller fuel s out total m ≡ some r)
        × Delivered image s out total m r
  unfolding moved
  diskstreamer_read_lem zero d s out total m e small enough = absurd (omega arith)
  diskstreamer_read_lem (suc fuel) d s out total m e small enough =
      elim (lt_cases (s.pos % 512 + total) 512) [
        | inl inside ↦ (
          _,
          read-inside fuel d s out total m e inside,
          record {
            status = refl;
            pos = refl;
            disk = refl;
            bytes = λ x. copied_bytes s.pos total out m x (omega arith) (omega arith);
          },
        )
        | inr over ↦
            let n = 512 - s.pos % 512 in
            let first = copy_out (sector_buffer (s.pos / 512)) n (s.pos % 512) out m in
            let (r, did, rest) =
              diskstreamer_read_lem fuel d (moved s n) (out + n) (total - n) first e (omega arith)
                (omega arith) in
            (
              r,
              read-overflow fuel d s out total n m e over refl ∙ did,
              record {
                status = rest.status;
                pos = omega (arith, rest.pos);
                disk = rest.disk;
                bytes = λ x.
                    rest.bytes x
                    ∙ joined s.pos n total out m first x (omega arith)
                        (copied_bytes s.pos n out m x (omega arith) (omega arith));
              },
            )
      ]

block_err :
    (controller : Controller) (o : Option ℕ) (lba : ℕ)
    → o ≡ none
    → (disk_read_block controller o lba 1 0 (λ a. 0)).1 ≡ err eio
unfolding disk_read_block
block_err controller o lba e = rw e

-- A stream whose disk is not the disk fails with EIO and changes nothing.
pub diskstreamer_read-no_disk :
    (controller : Controller) (fuel : ℕ) (s : DiskStream) (out total : ℕ) (m : Memory)
    → s.disk ≡ none
    → diskstreamer_read controller (suc fuel) s out total m
      ≡ some (record { memory = m; stream = s; status = err eio })
unfolding diskstreamer_read
diskstreamer_read-no_disk controller fuel s out total m e =
    rw (block_err controller s.disk (s.pos / 512) e, diskstreamer_read) refl
