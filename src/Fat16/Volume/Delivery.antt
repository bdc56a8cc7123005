-- ===== src/Fat16/Volume/Delivery.antt =====
-- What the reads of src/fs/fat/fat16.c deliver of the disk.
use slob_os.Prelude.{
  ℕ, zero, suc, ◌+◌, ◌-◌, ◌*◌, ◌%◌, ◌^◌, ◌≤◌, ◌<◌, ◌≡◌, refl, ap, ◌∙◌, some, leb, ltb, ◌&&◌, ◌==◌,
  if◌then◌else◌, arith, true, false,
}
use native.Mathlib.Nat.{add-mul, div-eq_of_lt, mod-eq_of_lt}
use slob_os.Prelude.Int.{pos, sub_ℕ}
use slob_os.Prelude.Memory.{Memory}
use slob_os.Status.{ok}
use slob_os.Disk.{Controller, DiskStream, Read, diskstreamer_seek}
use slob_os.Disk.Sectors.{Documented}
use slob_os.Disk.Stream.{diskstreamer_read_lem}
use slob_os.Fat16.Volume.{
  FatPrivate, word16, cluster_bytes, fat16_cluster_to_sector, fat16_get_first_fat_sector, read_at,
  fat16_get_fat_entry, chain_loop, fat16_get_cluster_for_offset, cluster_position,
  fat16_read_internal,
}

-- The disk's position of an offset in a cluster.
abbrev pub data_position : FatPrivate → (cluster offset : ℕ) → ℕ
data_position private cluster offset =
    (private.root_directory.ending_sector_pos + (cluster - 2) * private.header.sectors_per_cluster)
      * 512
    + offset

sub_ℕ-le : (a b : ℕ) → b ≤ a → sub_ℕ a b ≡ pos (a - b)
unfolding sub_ℕ
sub_ℕ-le a b h = ground arith

clusters_from : (cluster n : ℕ) → 2 ≤ cluster → cluster * n ≡ (cluster - 2) * n + 2 * n
clusters_from cluster n h =
    let split : cluster ≡ cluster - 2 + 2 = omega arith in
    ap (λ (c : ℕ). c * n) split ∙ add-mul (cluster - 2) 2 n

pub sector_of :
    (private : FatPrivate) (cluster : ℕ)
    → 2 ≤ cluster
    → fat16_cluster_to_sector private cluster
      ≡ pos (
          private.root_directory.ending_sector_pos
          + (cluster - 2) * private.header.sectors_per_cluster)
unfolding fat16_cluster_to_sector
sector_of private cluster h =
    let size : ℕ = private.header.sectors_per_cluster in
    let ending : ℕ = private.root_directory.ending_sector_pos in
    let from = clusters_from cluster size h in
    sub_ℕ-le (ending + cluster * size) (2 * size) (omega (arith, from))
    ∙ ap pos (omega (arith, from))

position_of :
    (private : FatPrivate) (cluster offset : ℕ)
    → 2 ≤ cluster
    → offset < cluster_bytes private
    → cluster_position private cluster offset ≡ some (data_position private cluster offset)
unfolding cluster_position
position_of private cluster offset h inside =
    rw (sector_of private cluster h, mod-eq_of_lt inside, cluster_position) refl

same_cluster :
    (controller : Controller) (private : FatPrivate) (cluster offset : ℕ)
    → offset < cluster_bytes private
    → fat16_get_cluster_for_offset controller private cluster offset ≡ some (ok cluster)
unfolding fat16_get_cluster_for_offset chain_loop
same_cluster controller private cluster offset inside = rw (div-eq_of_lt inside) refl

-- The memory that has got `total` bytes of the disk from `start` on at `out`.
abbrev pub with_bytes : (image : ℕ → ℕ) → Memory → (start out total x : ℕ) → ℕ
with_bytes image m start out total x =
    if leb out x && ltb x (out + total) then image (start + (x - out)) else m x

module _ (controller : Controller) (image : ℕ → ℕ) (doc : Documented controller image) where
  read_at_lem :
      (fuel d : ℕ) (s : DiskStream) (start out total : ℕ) (m : Memory)
      → s.disk ≡ some d
      → start + total < 2 ^ 25
      → start % 512 + total < 512 * fuel
      → (r : Read) × ((read_at controller fuel s start out total m ≡ some r)
          × ((r.status ≡ ok tt) × ((x : ℕ) → r.memory x ≡ with_bytes image m start out total x)))
  unfolding read_at diskstreamer_seek
  read_at_lem fuel d s start out total m e small enough =
      let (r, did, got) =
        diskstreamer_read_lem controller image doc fuel d (record s { pos = start }) out total m e
          small enough in
      (r, (did, (got.status, got.bytes)))

  -- The run inside a cluster.
  internal_run :
      (fuel : ℕ) (private : FatPrivate) (cluster offset total out : ℕ) (m : Memory) (r : Read)
      → 2 ≤ cluster
      → offset < cluster_bytes private
      → total ≤ cluster_bytes private
      → read_at controller
          (suc fuel)
          private.stream
          (data_position private cluster offset)
          out
          total
          m
        ≡ some r
      → r.status ≡ ok tt
      → fat16_read_internal controller (suc fuel) private cluster offset total out m
        ≡ some (r.memory, ok tt)
  unfolding fat16_read_internal
  internal_run fuel private cluster offset total out m r h inside fits did status =
      let whole : ltb (cluster_bytes private) total ≡ false = ground arith in
      let done : (total - total == 0) ≡ true = ground arith in
      rw
        (
          same_cluster controller private cluster offset inside,
          position_of private cluster offset h inside,
          whole,
          did,
          status,
          whole,
          done,
          fat16_read_internal,
        )
        refl

  -- A piece that lies in the first cluster of a chain is read as it stands on the disk.
  pub fat16_read_internal_lem :
      (fuel d : ℕ) (private : FatPrivate) (cluster offset total out : ℕ) (m : Memory)
      → private.stream.disk ≡ some d
      → 2 ≤ cluster
      → offset < cluster_bytes private
      → total ≤ cluster_bytes private
      → data_position private cluster offset + total < 2 ^ 25
      → total + 512 ≤ 512 * fuel
      → (m' : Memory) × ((fat16_read_internal controller fuel private cluster offset total out m
            ≡ some (m', ok tt))
          × ((x : ℕ)
              → m' x ≡ with_bytes image m (data_position private cluster offset) out total x))
  fat16_read_internal_lem zero d private cluster offset total out m e h inside fits small enough =
      absurd (omega arith)
  fat16_read_internal_lem (suc fuel) d private cluster offset total out m e h inside fits small
        enough =
      let (r, (did, (status, bytes))) =
        read_at_lem (suc fuel) d private.stream (data_position private cluster offset) out total m e
          small (omega arith) in
      (
        r.memory,
        (internal_run fuel private cluster offset total out m r h inside fits did status, bytes),
      )

  -- Where the product of the table's position and twice the cluster lies in the first 2^25 bytes of
  -- the disk, fat16_get_fat_entry gives the word of the disk at this product.
  pub fat16_get_fat_entry-product :
      (d : ℕ) (private : FatPrivate) (cluster : ℕ)
      → private.stream.disk ≡ some d
      → fat16_get_first_fat_sector private * 512 * (cluster * 2) + 2 < 2 ^ 25
      → fat16_get_fat_entry controller private cluster
        ≡ some (ok (word16 image (fat16_get_first_fat_sector private * 512 * (cluster * 2))))
  unfolding word16 fat16_get_fat_entry
  fat16_get_fat_entry-product d private cluster e small =
      let start : ℕ = fat16_get_first_fat_sector private * 512 * (cluster * 2) in
      let here : start % 2 ^ 32 ≡ start = mod-eq_of_lt (omega arith) in
      let (r, (did, (status, bytes))) =
        read_at_lem 2 d private.stream start 0 2 (λ a. 0) e small (omega arith) in
      let low : r.memory 0 ≡ image start = bytes 0 ∙ ap image (omega arith) in
      let high : r.memory 1 ≡ image (start + 1) = bytes 1 ∙ refl in
      rw (here, did, status, fat16_get_fat_entry)
        (ap (λ (v : ℕ). some (ok v))
          (ap (λ (v : ℕ). v + 256 * r.memory 1) low ∙ ap (λ (v : ℕ). image start + 256 * v) high))
