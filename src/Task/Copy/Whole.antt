-- ===== src/Task/Copy/Whole.antt =====
-- copy_string_from_task of src/task/task.c from the task's string to the kernel's copy of it.
use slob_os.Prelude.{
  ne_test, ℕ, zero, suc, ◌+◌, ◌-◌, ◌*◌, ◌/◌, ◌%◌, ◌≤◌, ◌<◌, ◌≡◌, ◌≢◌, ◌⊎◌, refl, sym, ap, ◌∙◌,
  arith, if◌then◌else◌, leb, ltb, ◌&&◌, false, List, [], ◌∷◌, length, take,
}
use mathlib.Core.Path.{subst}
use slob_os.Prelude.Memory.{Memory, write}
use slob_os.Status.{ok}
use slob_os.Paging.{Words, paging_set, paging_get, page_size}
use slob_os.Paging.Mapping.{IsDirectory, IsPage, paging_set-page, page_slot}
use slob_os.Text.{strncpy, memset}
use slob_os.Text.Strings.{CString, strncpy-take}
use slob_os.Text.Bytes.{memset_lem}
use slob_os.Task.Copy.{
  Translation, Space, strncpy_task_loop, strncpy_task, copy_restored, copy_through, copy_allocated,
  copy_string_from_task,
}
use slob_os.Task.Copy.Translate.{
  IsDocumented, IsPresent, page_of, shared, paging_map-shared, paging_set-restored,
  translate-shared, translate-other,
}
use slob_os.Task.Copy.Loop.{seen_same, strncpy_task_loop_lem}

apart_buffer :
    (tmp max y : ℕ) (m : Memory)
    → (y < tmp) ⊎ (tmp + max ≤ y)
    → (if leb tmp y && ltb y (tmp + max) then 0 % 256 else m y) ≡ m y
apart_buffer tmp max y m o = ground arith

off_written :
    (tmp max y : ℕ)
    → 0 < max
    → (y < tmp) ⊎ (tmp + max ≤ y)
    → (y < tmp + 0) ⊎ (tmp + 0 + (max - 1) < y)
off_written tmp max y p o = omega arith

take-take : (n : ℕ) (s : List ℕ) → take n (take n s) ≡ take n s
take-take zero s = refl
take-take (suc n) [] = refl
take-take (suc n) (c ∷ s) = ap (λ t. c ∷ t) (take-take n s)

length-take : (n : ℕ) (s : List ℕ) → length (take n s) ≤ n
length-take zero s = omega arith
length-take (suc n) [] = omega arith
length-take (suc n) (c ∷ s) = omega (arith, length-take n s)

-- The task sees the string at `virtual`, on pages that are present and not the buffer's, and its
-- bytes lie outside the `max` bytes of the buffer.
pub record IsTaskString (w : Words) (m : Memory) (mmu : Translation) (directory tmp max virtual : ℕ)
    (s : List ℕ) : Type 0 where
  pub seen : CString (λ a. m (mmu w directory a)) virtual s
  pub present : (k : ℕ) → k ≤ length s → IsPresent w directory (virtual + k)
  pub off_page : (k : ℕ) → k ≤ length s → page_of (virtual + k) ≢ tmp
  pub off_buffer :
      (k : ℕ)
      → k ≤ length s
      → (mmu w directory (virtual + k) < tmp) ⊎ (tmp + max ≤ mmu w directory (virtual + k))

-- The buffer: a page that the directory can map.
pub record IsBuffer (w : Words) (directory tmp max : ℕ) : Type 0 where
  pub page : IsPage tmp
  pub nonzero : tmp ≢ 0
  pub some : 0 < max
  pub fits : max < page_size
  pub present : w (directory + 4 * (tmp / (1024 * 4096))) % 2 ≡ 1

-- The buffer's string after the copy under the task's directory.
copied_in :
    (w : Words) (m : Memory) (mmu : Translation) (directory tmp max virtual : ℕ) (s : List ℕ)
    (d : IsDirectory w directory) (b : IsBuffer w directory tmp max)
    → IsDocumented mmu
    → IsTaskString w m mmu directory tmp max virtual s
    → CString
        (strncpy_task
          (mmu (shared w directory tmp d b.page) directory)
          (memset m tmp 0 max)
          tmp
          virtual
          max)
        tmp
        (take (max - 1) s)
unfolding strncpy_task
copied_in w m mmu directory tmp max virtual s d b doc t =
    let at : ℕ → ℕ = mmu (shared w directory tmp d b.page) directory in
    let same : (k : ℕ) → k ≤ length s → at (virtual + k) ≡ mmu w directory (virtual + k) = λ k l.
      translate-other w directory tmp d b.page mmu doc (virtual + k) (t.present k l)
        (t.off_page k l) in
    let start : virtual ≡ virtual + 0 = omega arith in
    let seen =
      seen_same (λ a. m (mmu w directory a)) (λ a. memset m tmp 0 max (at a)) virtual s t.seen
        λ k l.
          memset_lem max m tmp 0 (at (virtual + k))
          ∙ apart_buffer tmp max (at (virtual + k)) m
              (subst (λ y. (y < tmp) ⊎ (tmp + max ≤ y)) (sym (same k l)) (t.off_buffer k l))
          ∙ ap m (same k l) in
    let (string, kept) =
      strncpy_task_loop_lem at (max - 1) (memset m tmp 0 max) tmp virtual 0 s
        (subst (λ y. CString (λ a. memset m tmp 0 max (at a)) y s) start seen)
        (λ k l.
          translate-shared w directory tmp d b.page mmu doc (tmp + k) b.present (omega arith)
            (omega (arith, b.fits, b.some)))
        (λ k l.
          let place : virtual + k ≡ virtual + 0 + k = omega arith in
          subst (λ y. (at y < tmp + 0) ⊎ (tmp + 0 + (max - 1) < at y)) place
            (off_written tmp max (at (virtual + k)) b.some
              (subst (λ y. (y < tmp) ⊎ (tmp + max ≤ y)) (sym (same k l)) (t.off_buffer k l)))) in
    let first : tmp + 0 ≡ tmp = omega arith in
    subst
      (λ y.
        CString (strncpy_task_loop at (memset m tmp 0 max) tmp virtual (max - 1) 0) y
          (take (max - 1) s))
      first string

module _ {S : Type 0} (place : S → ℕ → S × ℕ) (kfree : S → ℕ → S) where
  -- The run of copy_string_from_task on a buffer that can be had.
  copied :
      (g : Space S) (mmu : Translation) (directory virtual phys max tmp : ℕ) (s' : S) (r : Words)
      (d : IsDirectory g.words directory) (b : IsBuffer g.words directory tmp max)
      → place g.allocator max ≡ (s', tmp)
      → paging_set
          (shared g.words directory tmp d b.page)
          directory
          tmp
          (paging_get g.words directory tmp)
        ≡ (r, ok tt)
      → copy_string_from_task kfree place mmu g directory virtual phys max ≡ (
        record {
          allocator = kfree s' tmp;
          words = r;
          memory =
              strncpy
                (strncpy_task
                  (mmu (shared g.words directory tmp d b.page) directory)
                  (memset g.memory tmp 0 max)
                  tmp
                  virtual
                  max)
                phys
                tmp
                max;
        },
        ok tt,
      )
  unfolding copy_string_from_task copy_allocated copy_through copy_restored
  copied g mmu directory virtual phys max tmp s' r d b placed restored =
      let small : leb page_size max ≡ false = ground (arith, b.fits) in
      rw
        (
          small,
          placed,
          ne_test tmp 0 b.nonzero,
          paging_map-shared g.words directory tmp d b.page,
          restored,
        )
        refl

  -- When the task sees a string at `virtual`, and the buffer that kzalloc gives is a page apart from
  -- the string and from the kernel's copy, copy_string_from_task succeeds; the kernel's copy at
  -- `phys` is the string's first `max - 1` characters, the page tables are the same, word by word,
  -- and the buffer is given back.
  pub copy_string_from_task-CString :
      (g : Space S) (mmu : Translation) (directory virtual phys max tmp : ℕ) (s' : S) (s : List ℕ)
      → IsDocumented mmu
      → place g.allocator max ≡ (s', tmp)
      → IsDirectory g.words directory
      → IsBuffer g.words directory tmp max
      → IsTaskString g.words g.memory mmu directory tmp max virtual s
      → (phys + max ≤ tmp) ⊎ (tmp + max ≤ phys)
      → (g' : Space S) × ((copy_string_from_task kfree place mmu g directory virtual phys max
            ≡ (g', ok tt))
          × (CString g'.memory phys (take (max - 1) s)
              × (((x : ℕ) → g'.words x ≡ g.words x) × (g'.allocator ≡ kfree s' tmp))))
  copy_string_from_task-CString g mmu directory virtual phys max tmp s' s doc placed d b t apart =
      let put : Words =
        write (shared g.words directory tmp d b.page)
          (page_slot (shared g.words directory tmp d b.page) directory tmp)
          (paging_get g.words directory tmp) in
      let restored =
        paging_set-page (shared g.words directory tmp d b.page) directory tmp
          (paging_get g.words directory tmp) b.page in
      let inside = copied_in g.words g.memory mmu directory tmp max virtual s d b doc t in
      let buffered : Memory =
        strncpy_task (mmu (shared g.words directory tmp d b.page) directory)
          (memset g.memory tmp 0 max) tmp virtual max in
      let whole =
        strncpy-take buffered phys tmp max phys (take (max - 1) s) inside b.some
          (omega (arith, length-take (max - 1) s, b.some)) in
      (
        _,
        (
          copied g mmu directory virtual phys max tmp s' put d b placed restored,
          (
            subst (λ u. CString (strncpy buffered phys tmp max) phys u) (take-take (max - 1) s)
                whole.0,
            (paging_set-restored g.words directory tmp d b.page put restored, refl),
          ),
        ),
      )
