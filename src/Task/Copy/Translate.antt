-- ===== src/Task/Copy/Translate.antt =====
-- The addresses that a task sees while copy_string_from_task of src/task/task.c has its buffer's
-- page mapped.
use slob_os.Prelude.{
  ℕ, ◌+◌, ◌-◌, ◌*◌, ◌/◌, ◌%◌, ◌^◌, ◌≤◌, ◌<◌, ◌≡◌, ◌≢◌, inl, inr, sym, ap, ◌∙◌, arith, ◌==◌,
  if◌then◌else◌, eq_cases,
}
use slob_os.Prelude.Memory.{write, write_self, write_ne}
use slob_os.Status.{Result, ok}
use slob_os.Paging.{Words, paging_set, paging_get, paging_map}
use slob_os.Paging.Mapping.{
  IsDirectory, IsPage, page_slot, paging_set-page, paging_get-page, paging_map-page, stored,
  stored-directory, stored-page, page_slot-same,
}
use slob_os.Task.Copy.{Translation, shared_flags}

-- The page of an address.
abbrev pub page_of : ℕ → ℕ
page_of a = a - a % 4096

-- The present bits of the two words that translate an address.
pub record IsPresent (w : Words) (directory a : ℕ) : Type 0 where
  pub in_space : a < 2 ^ 32
  pub table : w (directory + 4 * (page_of a / (1024 * 4096))) % 2 ≡ 1
  pub page : w (page_slot w directory (page_of a)) % 2 ≡ 1

-- The processor's documented translation of the addresses that are present.
abbrev pub IsDocumented : Translation → Type 0
IsDocumented mmu =
    (w : Words) (directory a : ℕ)
    → IsPresent w directory a
    → mmu w directory a ≡ w (page_slot w directory (page_of a)) / 4096 * 4096 + a % 4096

pub page_of-IsPage : (a : ℕ) → a < 2 ^ 32 → IsPage (page_of a)
page_of-IsPage a h = record { on_page = omega arith; in_space = omega arith }

if_other : (other tmp a b : ℕ) → other ≢ tmp → (if other == tmp then a else b) ≡ b
if_other other tmp a b ne = ground arith

module _ (w : Words) (directory tmp : ℕ) (d : IsDirectory w directory) (p : IsPage tmp) where
  -- The page tables while the buffer is mapped.
  abbrev pub shared : Words
  shared = stored w directory tmp (tmp + 7)

  pub paging_map-shared : paging_map w directory tmp tmp shared_flags ≡ (shared, ok tt)
  paging_map-shared =
      paging_map-page w directory tmp tmp shared_flags p p (omega arith)
      ∙ paging_set-page w directory tmp (tmp + 7) p

  shared_entry : (i : ℕ) → i < 1024 → shared (directory + 4 * i) ≡ w (directory + 4 * i)
  shared_entry i lt = stored-directory w directory tmp (tmp + 7) i d p lt

  shared_slot :
      (other : ℕ) → IsPage other → page_slot shared directory other ≡ page_slot w directory other
  shared_slot other q = page_slot-same w shared directory other q shared_entry

  -- The word of the buffer's page, and of every other page.
  shared_buffer : shared (page_slot shared directory tmp) ≡ tmp + 7
  shared_buffer = ap shared (shared_slot tmp p) ∙ write_self w (page_slot w directory tmp) (tmp + 7)

  shared_other :
      (other : ℕ)
      → IsPage other
      → other ≢ tmp
      → shared (page_slot shared directory other) ≡ w (page_slot w directory other)
  shared_other other q ne =
      ap shared (shared_slot other q)
      ∙ stored-page w directory tmp (tmp + 7) other d p q
      ∙ if_other other tmp (tmp + 7) (w (page_slot w directory other)) ne

  put_back : (x : ℕ) → write shared (page_slot w directory tmp) (paging_get w directory tmp) x ≡ w x
  put_back x = elim (eq_cases x (page_slot w directory tmp)) [
    | inl e ↦
        ap (write shared (page_slot w directory tmp) (paging_get w directory tmp)) e
        ∙ write_self shared (page_slot w directory tmp) (paging_get w directory tmp)
        ∙ paging_get-page w directory tmp d p
        ∙ ap w (sym e)
    | inr apart ↦
        let ne : x ≢ page_slot w directory tmp = omega arith in
        write_ne shared (page_slot w directory tmp) (paging_get w directory tmp) x ne
        ∙ write_ne w (page_slot w directory tmp) (tmp + 7) x ne
  ]

  -- paging_set puts the old word back.
  pub paging_set-restored :
      (r : Words)
      → paging_set shared directory tmp (paging_get w directory tmp) ≡ (r, ok tt)
      → (x : ℕ) → r x ≡ w x
  paging_set-restored r e x =
      ap (λ (u : Words × Result (Unit {0})). u.0 x)
        (sym e ∙ paging_set-page shared directory tmp (paging_get w directory tmp) p)
      ∙ ap (λ (t : ℕ). write shared t (paging_get w directory tmp) x) (shared_slot tmp p)
      ∙ put_back x

  module _ (mmu : Translation) (doc : IsDocumented mmu) where
    -- In the buffer's page an address is itself.
    pub translate-shared :
        (a : ℕ)
        → w (directory + 4 * (tmp / (1024 * 4096))) % 2 ≡ 1
        → tmp ≤ a
        → a < tmp + 4096
        → mmu shared directory a ≡ a
    translate-shared a present from below =
        let page : tmp ≡ page_of a = omega (arith, p.on_page) in
        let word : shared (page_slot shared directory (page_of a)) ≡ tmp + 7 =
          ap (λ (b : ℕ). shared (page_slot shared directory b)) (sym page) ∙ shared_buffer in
        let entry =
          shared_entry (page_of a / (1024 * 4096)) (omega (arith, p.in_space, p.on_page)) in
        let there : IsPresent shared directory a = record {
          in_space = omega (arith, p.in_space, p.on_page);
          table =
              ap (λ (t : ℕ). t % 2) entry
              ∙ ap (λ (b : ℕ). w (directory + 4 * (b / (1024 * 4096))) % 2) (sym page)
              ∙ present;
          page = ap (λ (t : ℕ). t % 2) word ∙ omega (arith, p.on_page);
        } in
        doc shared directory a there
        ∙ ap (λ (t : ℕ). t / 4096 * 4096 + a % 4096) word
        ∙ omega (arith, p.on_page)

    -- Elsewhere it is what it was.
    pub translate-other :
        (a : ℕ)
        → IsPresent w directory a
        → page_of a ≢ tmp
        → mmu shared directory a ≡ mmu w directory a
    translate-other a present ne =
        let word = shared_other (page_of a) (page_of-IsPage a present.in_space) ne in
        let entry = shared_entry (page_of a / (1024 * 4096)) (omega (arith, present.in_space)) in
        let there : IsPresent shared directory a = record {
          in_space = present.in_space;
          table = ap (λ (t : ℕ). t % 2) entry ∙ present.table;
          page = ap (λ (t : ℕ). t % 2) word ∙ present.page;
        } in
        doc shared directory a there
        ∙ ap (λ (t : ℕ). t / 4096 * 4096 + a % 4096) word
        ∙ sym (doc w directory a present)
