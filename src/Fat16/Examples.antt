-- ===== src/Fat16/Examples.antt =====
-- The theorems on the FAT16 driver at the items `sh.elf` and `programs.elf`, and an open file.
use slob_os.Prelude.{ℕ, ◌<◌, ◌≡◌, ◌≢◌, inr, refl, arith, some, List, [], ◌∷◌, ◌++◌, get_or}
use slob_os.Prelude.Memory.{Memory}
use slob_os.Fat16.{fat16_get_full_relative_filename}
use slob_os.Fat16.Names.{Padded, Stands, full_relative_filename_eight}

-- `sh      elf` with the attribute of an archived file.
abbrev sh_item : Memory
sh_item a = get_or (b's' ∷ b'h' ∷ 32 ∷ 32 ∷ 32 ∷ 32 ∷ 32 ∷ 32 ∷ b'e' ∷ b'l' ∷ b'f' ∷ 32 ∷ []) a 0

-- `programself` with the same attribute.
abbrev programs_item : Memory
programs_item a =
    get_or (b'p' ∷ b'r' ∷ b'o' ∷ b'g' ∷ b'r' ∷ b'a' ∷ b'm' ∷ b's' ∷ b'e' ∷ b'l' ∷ b'f' ∷ 32 ∷ []) a
      0

ne : (a b : ℕ) → b < a → a ≢ b
ne a b lt e = absurd (omega arith)

elf : Padded sh_item 8 (b'e' ∷ b'l' ∷ b'f' ∷ [])
elf = (
  refl,
  (
    ne _ _ (omega arith),
    (
      ne _ _ (omega arith),
      (
        refl,
        (
          ne _ _ (omega arith),
          (ne _ _ (omega arith), (refl, (ne _ _ (omega arith), (ne _ _ (omega arith), inr refl)))),
        ),
      ),
    ),
  ),
)

programs_elf : Padded programs_item 8 (b'e' ∷ b'l' ∷ b'f' ∷ [])
programs_elf = (
  refl,
  (
    ne _ _ (omega arith),
    (
      ne _ _ (omega arith),
      (
        refl,
        (
          ne _ _ (omega arith),
          (ne _ _ (omega arith), (refl, (ne _ _ (omega arith), (ne _ _ (omega arith), inr refl)))),
        ),
      ),
    ),
  ),
)

abbrev programs : List ℕ
programs = b'p' ∷ b'r' ∷ b'o' ∷ b'g' ∷ b'r' ∷ b'a' ∷ b'm' ∷ b's' ∷ []

stands : Stands programs_item 0 programs
stands = (
  refl,
  (
    ne _ _ (omega arith),
    (
      ne _ _ (omega arith),
      (
        refl,
        (
          ne _ _ (omega arith),
          (
            ne _ _ (omega arith),
            (
              refl,
              (
                ne _ _ (omega arith),
                (
                  ne _ _ (omega arith),
                  (
                    refl,
                    (
                      ne _ _ (omega arith),
                      (
                        ne _ _ (omega arith),
                        (
                          refl,
                          (
                            ne _ _ (omega arith),
                            (
                              ne _ _ (omega arith),
                              (
                                refl,
                                (
                                  ne _ _ (omega arith),
                                  (
                                    ne _ _ (omega arith),
                                    (
                                      refl,
                                      (
                                        ne _ _ (omega arith),
                                        (
                                          ne _ _ (omega arith),
                                          (
                                            refl,
                                            (ne _ _ (omega arith), (ne _ _ (omega arith), tt)),
                                          ),
                                        ),
                                      ),
                                    ),
                                  ),
                                ),
                              ),
                            ),
                          ),
                        ),
                      ),
                    ),
                  ),
                ),
              ),
            ),
          ),
        ),
      ),
    ),
  ),
)

full_relative_filename_eight_example :
    fat16_get_full_relative_filename 13 programs_item 0
    ≡ some ((programs ++ (b'e' ∷ b'l' ∷ b'f' ∷ [])) ++ (b'.' ∷ b'e' ∷ b'l' ∷ b'f' ∷ []))
full_relative_filename_eight_example =
    full_relative_filename_eight 13 programs_item 0 programs b'e' (b'l' ∷ b'f' ∷ []) stands refl
      programs_elf (omega arith)
