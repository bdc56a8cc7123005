-- ===== src/Fat16/Seek.antt =====
-- What fat16_seek does to an open file.
use slob_os.Prelude.{
  ℕ, ◌+◌, ◌%◌, ◌^◌, ◌≤◌, ◌<◌, ◌≡◌, ◌≢◌, ◌⊎◌, ◌==◌, leb, inl, inr, refl, arith, Bool-cases,
  eq_of_test,
}
use slob_os.Status.{Errno, einvarg, eio, eunimp, ok, err}
use slob_os.Fat16.{
  FatFileDescriptor, FatItemType, fat16_seek, fat_item_type_file, fat_item_type_directory,
}

type_cases : (t : FatItemType) → (t ≡ fat_item_type_directory) ⊎ (t ≡ fat_item_type_file)
type_cases fat_item_type_directory = inl refl
type_cases fat_item_type_file = inr refl

-- fat16_seek fails and changes nothing for a directory, an offset at or behind the end of the file,
-- and every mode but SEEK_SET and SEEK_CUR; else the offset becomes the position (SEEK_SET) or is
-- added to it (SEEK_CUR), and the sum is not compared with the size.
pub fat16_seek_lem :
    (desc : FatFileDescriptor) (offset seek_mode : ℕ)
    → (((desc.type ≡ fat_item_type_directory)
          ⊎ ((desc.filesize ≤ offset) ⊎ ((seek_mode ≢ 0) × (seek_mode ≢ 1))))
        × ((e : Errno) × (fat16_seek desc offset seek_mode ≡ (desc, err e))))
      ⊎ ((desc.type ≡ fat_item_type_file)
          × ((offset < desc.filesize)
              × (((seek_mode ≡ 0)
                    × (fat16_seek desc offset seek_mode ≡ (record desc { pos = offset }, ok tt)))
                  ⊎ ((seek_mode ≡ 1)
                      × (fat16_seek desc offset seek_mode
                          ≡ (record desc { pos = (desc.pos + offset) % 2 ^ 32 }, ok tt))))))
unfolding fat16_seek
fat16_seek_lem desc offset seek_mode = elim (type_cases desc.type) [
  | inl directory ↦ inl (inl directory, (einvarg, rw (directory) refl))
  | inr file ↦ rw (file) (elim (Bool-cases (leb desc.filesize offset)) [
    | inl behind ↦ inl (inr (inl (ground arith)), (eio, rw (behind) refl))
    | inr inside ↦
        let below : offset < desc.filesize = ground arith in
        rw (inside) (elim (Bool-cases (seek_mode == 0)) [
          | inl t ↦ inr (refl, (below, inl (eq_of_test _ _ t, rw (t) refl)))
          | inr f ↦ rw (f) (elim (Bool-cases (seek_mode == 2)) [
            | inl t ↦ inl (inr (inr (ground arith, ground arith)), (eunimp, rw (t) refl))
            | inr g ↦ rw (g) (elim (Bool-cases (seek_mode == 1)) [
              | inl t ↦ inr (refl, (below, inr (eq_of_test _ _ t, rw (t) refl)))
              | inr h ↦ inl (inr (inr (ground arith, ground arith)), (einvarg, rw (h) refl))
            ])
          ])
        ])
  ])
]
