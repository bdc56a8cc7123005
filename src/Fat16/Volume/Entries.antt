-- ===== src/Fat16/Volume/Entries.antt =====
-- fat16_get_total_items_for_directory of src/fs/fat/fat16.c against the items on the disk.
use slob_os.Prelude.{
  ℕ, zero, suc, ◌+◌, ◌*◌, ◌%◌, ◌^◌, ◌<◌, ◌≡◌, ◌≢◌, inl, inr, sym, ap, ◌∙◌, some, ◌==◌,
  if◌then◌else◌, List, [], ◌∷◌, length, arith, Bool-cases, same_test, ne_test, true, false,
}
use mathlib.Core.Path.{subst}
use native.Mathlib.Nat.{mod-eq_of_lt}
use slob_os.Status.{ok}
use slob_os.Disk.{Controller, DiskStream, Read, diskstreamer_read, diskstreamer_seek}
use slob_os.Disk.Sectors.{Documented}
use slob_os.Disk.Stream.{diskstreamer_read_lem}
use slob_os.Fat16.Volume.{items_loop, fat16_get_total_items_for_directory}

-- The first bytes of the items that stand on the disk from `start` on, 32 bytes each, and behind them
-- an item that starts with 0.
abbrev pub IsItems : (image : ℕ → ℕ) → (start : ℕ) → List ℕ → Type 0
IsItems image start [] = image start ≡ 0
IsItems image start (b ∷ bs) = (image start ≡ b) × ((b ≢ 0) × IsItems image (start + 32) bs)

-- The items that are in use: the first byte of the others is 0xe5.
unfoldable pub used : List ℕ → ℕ
used [] = 0
used (b ∷ bs) = if b == 0xe5 then used bs else suc (used bs)

module _ (controller : Controller) (image : ℕ → ℕ) (doc : Documented controller image) where
  one_item :
      (d : ℕ) (s : DiskStream)
      → s.disk ≡ some d
      → s.pos + 32 < 2 ^ 25
      → (r : Read) × ((diskstreamer_read controller 2 s 0 32 (λ a. 0) ≡ some r)
          × ((r.status ≡ ok tt)
              × ((r.memory 0 ≡ image s.pos)
                  × ((r.stream.pos ≡ s.pos + 32) × (r.stream.disk ≡ s.disk)))))
  one_item d s e small =
      let (r, did, got) =
        diskstreamer_read_lem controller image doc 2 d s 0 32 (λ a. 0) e small (omega arith) in
      let first : s.pos + 0 ≡ s.pos = omega arith in
      (r, (did, (got.status, (got.bytes 0 ∙ ap image first, (got.pos, got.disk)))))

  items_loop_lem :
      (fuel d : ℕ) (s : DiskStream) (i : ℕ) (bs : List ℕ)
      → s.disk ≡ some d
      → IsItems image s.pos bs
      → length bs < fuel
      → s.pos + 32 * (length bs + 1) < 2 ^ 25
      → items_loop controller fuel s i ≡ some (ok (i + used bs))
  unfolding items_loop used
  items_loop_lem zero d s i bs e items enough small = absurd (omega arith)
  items_loop_lem (suc fuel) d s i [] e items enough small =
      let (r, (did, (status, (first, (moved, disk))))) = one_item d s e (omega arith) in
      let ends : (r.memory 0 == 0) ≡ true = same_test (r.memory 0) 0 (first ∙ items) in
      let sum : i ≡ i + 0 = omega arith in
      rw (did, status, ends, items_loop) (ap (λ (n : ℕ). some (ok n)) sum)
  items_loop_lem (suc fuel) d s i (b ∷ bs) e items enough small =
      let (r, (did, (status, (first, (moved, disk))))) = one_item d s e (omega arith) in
      let goes_on : (r.memory 0 == 0) ≡ false =
        ne_test (r.memory 0) 0 (λ z. items.1.0 (sym (first ∙ items.0) ∙ z)) in
      let next : IsItems image r.stream.pos bs =
        subst (λ p. IsItems image p bs) (sym moved) items.1.1 in
      let room : r.stream.pos + 32 * (length bs + 1) < 2 ^ 25 = omega (arith, moved) in
      let byte : r.memory 0 ≡ b = first ∙ items.0 in
      let rest : (n : ℕ) → items_loop controller fuel r.stream n ≡ some (ok (n + used bs)) =
        λ n. items_loop_lem fuel d r.stream n bs (disk ∙ e) next (omega arith) room in
      rw (did, status, goes_on, byte, items_loop)
        (elim (Bool-cases (b == 0xe5)) [
          | inl deleted ↦ rw (deleted) (rest i)
          | inr kept ↦
              let sum : i + 1 + used bs ≡ i + suc (used bs) = omega arith in
              rw (kept) (rest (i + 1) ∙ ap (λ (n : ℕ). some (ok n)) sum)
        ])

  pub get_total_items-used :
      (fuel d : ℕ) (s : DiskStream) (directory_start_sector : ℕ) (bs : List ℕ)
      → s.disk ≡ some d
      → IsItems image (directory_start_sector * 512) bs
      → length bs < fuel
      → directory_start_sector * 512 + 32 * (length bs + 1) < 2 ^ 25
      → fat16_get_total_items_for_directory controller fuel s directory_start_sector
        ≡ some (ok (used bs))
  unfolding fat16_get_total_items_for_directory diskstreamer_seek
  get_total_items-used fuel d s directory_start_sector bs e items enough small =
      let start : directory_start_sector * 512 % 2 ^ 32 ≡ directory_start_sector * 512 =
        mod-eq_of_lt (omega arith) in
      let zero : 0 + used bs ≡ used bs = omega arith in
      rw (start) (
        items_loop_lem fuel d (record s { pos = directory_start_sector * 512 }) 0 bs e items enough
          small
        ∙ ap (λ (n : ℕ). some (ok n)) zero)
