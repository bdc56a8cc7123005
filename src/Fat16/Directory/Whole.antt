-- ===== src/Fat16/Directory/Whole.antt =====
-- fat16_read of src/fs/fat/fat16.c on a file in one cluster.
use slob_os.Prelude.{
  ℕ, zero, suc, ◌+◌, ◌-◌, ◌*◌, ◌^◌, ◌≤◌, ◌<◌, ◌≡◌, inl, inr, refl, ap, ◌∙◌, some, leb, ltb, ◌&&◌,
  if◌then◌else◌, arith, lt_cases,
}
use native.Mathlib.Nat.{mul-suc}
use slob_os.Prelude.Memory.{Memory}
use slob_os.Status.{ok}
use slob_os.Disk.{Controller}
use slob_os.Disk.Sectors.{Documented}
use slob_os.Fat16.Volume.{
  FatPrivate, file_item, cluster_bytes, fat16_get_first_cluster, fat16_read_internal,
}
use slob_os.Fat16.Volume.Delivery.{data_position, with_bytes, fat16_read_internal_lem}
use slob_os.Fat16.Directory.{read_loop, counted, descriptor_item, fat16_read}

-- Two pieces, one behind the other, in memory and on the disk.
two_pieces :
    (image : ℕ → ℕ) (m m' : Memory) (start out size more x : ℕ)
    → m' x ≡ with_bytes image m start out size x
    → with_bytes image m' (start + size) (out + size) more x
      ≡ with_bytes image m start out (size + more) x
two_pieces image m m' start out size more x first = elim (lt_cases x (out + size)) [
  | inl early ↦ ground arith
  | inr late ↦
      let index : start + size + (x - (out + size)) ≡ start + (x - out) = omega arith in
      rw (index) (ground arith)
]

module _ (controller : Controller) (image : ℕ → ℕ) (doc : Documented controller image) where
  read_loop_step :
      (fuel : ℕ) (private : FatPrivate) (cluster offset size out rounds : ℕ) (m m' : Memory)
      → fat16_read_internal controller fuel private cluster offset size out m ≡ some (m', ok tt)
      → read_loop controller fuel private cluster offset size out (suc rounds) m
        ≡ read_loop controller fuel private cluster (offset + size) size (out + size) rounds m'
  unfolding read_loop
  read_loop_step fuel private cluster offset size out rounds m m' e = rw (e, read_loop) refl

  read_loop_lem :
      (fuel d : ℕ) (private : FatPrivate) (cluster offset size out rounds : ℕ) (m : Memory)
      → private.stream.disk ≡ some d
      → 2 ≤ cluster
      → 0 < size
      → offset + size * rounds ≤ cluster_bytes private
      → data_position private cluster offset + size * rounds < 2 ^ 25
      → size + 512 ≤ 512 * fuel
      → (m' : Memory) × ((read_loop controller fuel private cluster offset size out rounds m
            ≡ some (m', ok tt))
          × ((x : ℕ)
              → m' x
                ≡ with_bytes image m (data_position private cluster offset) out (size * rounds) x))
  unfolding read_loop
  read_loop_lem fuel d private cluster offset size out zero m e h p fits small enough =
      (m, (refl, λ x. ground arith))
  read_loop_lem fuel d private cluster offset size out (suc rounds) m e h p fits small enough =
      let product = mul-suc size rounds in
      let (m1, (did, bytes)) =
        fat16_read_internal_lem controller image doc fuel d private cluster offset size out m e h
          (omega (arith, product)) (omega (arith, product)) (omega (arith, product)) enough in
      let (m', (rest, more)) =
        read_loop_lem fuel d private cluster (offset + size) size (out + size) rounds m1 e h p
          (omega (arith, product)) (omega (arith, product)) enough in
      let place : data_position private cluster (offset + size)
          ≡ data_position private cluster offset + size =
        omega arith in
      let count : size + size * rounds ≡ size * suc rounds = omega (arith, product) in
      (
        m',
        (
          read_loop_step fuel private cluster offset size out rounds m m1 did ∙ rest,
          λ x.
              more x
              ∙ ap (λ (t : ℕ). with_bytes image m1 t (out + size) (size * rounds) x) place
              ∙ two_pieces image m m1 (data_position private cluster offset) out size
                  (size * rounds) x (bytes x)
              ∙ ap (λ (t : ℕ). with_bytes image m (data_position private cluster offset) out t x)
                  count,
        ),
      )

  -- When the pieces that are asked for, none of them empty, lie in the first cluster of a file, which
  -- is number 2 or later, and in the first 2^25 bytes of the disk, and the fuel is enough for the
  -- sectors of a piece, fat16_read returns their number, `out` gets the bytes of the disk from the
  -- file's position in its first cluster on, and no other byte changes.
  pub fat16_read-bytes :
      (fuel d : ℕ) (private : FatPrivate) (item : Memory) (pos size nmemb out : ℕ) (m : Memory)
      → private.stream.disk ≡ some d
      → 2 ≤ fat16_get_first_cluster item 0
      → 0 < size
      → pos + size * nmemb ≤ cluster_bytes private
      → data_position private (fat16_get_first_cluster item 0) pos + size * nmemb < 2 ^ 25
      → size + 512 ≤ 512 * fuel
      → (m' : Memory) × ((fat16_read controller fuel private
              (record { item = file_item item; pos = pos })
              size
              nmemb
              out
              m
            ≡ some (m', ok nmemb))
          × ((x : ℕ)
              → m' x ≡ (
                  if leb out x && ltb x (out + size * nmemb)
                  then image
                      (data_position private (fat16_get_first_cluster item 0) pos + (x - out))
                  else m x)))
  unfolding fat16_read counted descriptor_item
  fat16_read-bytes fuel d private item pos size nmemb out m e h p fits small enough =
      let (m', (did, bytes)) =
        read_loop_lem fuel d private (fat16_get_first_cluster item 0) pos size out nmemb m e h p
          fits small enough in
      (m', (rw (did) refl, bytes))
