-- ===== src/Paging/Mapping.antt =====
-- One page: paging_set and paging_get meet in the same word, and pages do not share words.
use slob_os.Prelude.{
  ltb, lt_cases, refl, ℕ, ◌+◌, ◌-◌, ◌*◌, ◌/◌, ◌%◌, ◌^◌, ◌<◌, ◌≡◌, ◌≢◌, inl, inr, sym, ap, ◌∙◌,
  arith, ◌==◌, if◌then◌else◌, eq_cases,
}
use slob_os.Prelude.Bits.{bit_or_page}
use slob_os.Prelude.Memory.{write, write_ne, write_self}
use slob_os.Status.{Result, ok}
use slob_os.Paging.{Words, table_slot, paging_set, paging_get, paging_map}

-- The address of the page table that the directory's entry `i` names.
abbrev pub table_at : Words → ℕ → ℕ → ℕ
table_at w directory i = w (directory + 4 * i) / 4096 * 4096

-- A directory as paging_new_4gb builds it: its page and its 1024 tables are different pages, and the
-- tables lie in the first 256 MB, which the mask of paging_get can reach.
pub record IsDirectory (w : Words) (directory : ℕ) : Type 0 where
  pub aligned : directory % 4096 ≡ 0
  pub apart :
      (i j : ℕ) → i < 1024 → j < 1024 → i ≢ j → table_at w directory i ≢ table_at w directory j
  pub off_directory : (i : ℕ) → i < 1024 → table_at w directory i ≢ directory
  pub low : (i : ℕ) → i < 1024 → w (directory + 4 * i) < 2 ^ 28

-- The address of the word that maps the page of `virt`.
abbrev pub page_slot : Words → ℕ → ℕ → ℕ
page_slot w directory virt =
    table_slot (w (directory + 4 * (virt / (1024 * 4096)))) (virt % (1024 * 4096) / 4096)

-- A 32-bit address of a page.
pub record IsPage (virt : ℕ) : Type 0 where
  pub on_page : virt % 4096 ≡ 0
  pub in_space : virt < 2 ^ 32

pub paging_set-page :
    (w : Words) (directory virt val : ℕ)
    → IsPage virt
    → paging_set w directory virt val ≡ (write w (page_slot w directory virt) val, ok tt)
unfolding paging_set
paging_set-page w directory virt val p = ground arith

pub paging_get-page :
    (w : Words) (directory virt : ℕ)
    → IsDirectory w directory
    → IsPage virt
    → paging_get w directory virt ≡ w (page_slot w directory virt)
unfolding paging_get
paging_get-page w directory virt d p = ground (arith, d.low (virt / (1024 * 4096)) (omega arith))

-- Two pages are mapped by two words.
page_slot-ne :
    (w : Words) (directory virt other : ℕ)
    → IsDirectory w directory
    → IsPage virt
    → IsPage other
    → virt ≢ other
    → page_slot w directory virt ≢ page_slot w directory other
page_slot-ne w directory virt other d p q ne e =
    elim (eq_cases (virt / (1024 * 4096)) (other / (1024 * 4096))) [
      | inl same ↦ ne (omega (arith, ap (table_at w directory) same))
      | inr differ ↦
          d.apart (virt / (1024 * 4096)) (other / (1024 * 4096)) (omega arith) (omega arith)
            (omega arith) (omega arith)
    ]

-- The word of a page lies outside the directory.
slot-off_directory :
    (w : Words) (directory virt i : ℕ)
    → IsDirectory w directory
    → IsPage virt
    → i < 1024
    → directory + 4 * i ≢ page_slot w directory virt
slot-off_directory w directory virt i d p lt e =
    d.off_directory (virt / (1024 * 4096)) (omega arith) (omega (arith, d.aligned))

-- A directory whose own words stay is still one.
IsDirectory-same :
    (w w' : Words) (directory : ℕ)
    → IsDirectory w directory
    → ((i : ℕ) → i < 1024 → w' (directory + 4 * i) ≡ w (directory + 4 * i))
    → IsDirectory w' directory
IsDirectory-same w w' directory d same = record {
  aligned = d.aligned;
  apart = λ i j li lj ne. rw (same i li, same j lj) (d.apart i j li lj ne);
  off_directory = λ i li. rw (same i li) (d.off_directory i li);
  low = λ i li. rw (same i li) (d.low i li);
}

-- The words after paging_set at the page `virt`.
abbrev pub stored : Words → ℕ → ℕ → ℕ → Words
stored w directory virt val = write w (page_slot w directory virt) val

pub stored-directory :
    (w : Words) (directory virt val i : ℕ)
    → IsDirectory w directory
    → IsPage virt
    → i < 1024
    → stored w directory virt val (directory + 4 * i) ≡ w (directory + 4 * i)
stored-directory w directory virt val i d p lt =
    let off = slot-off_directory w directory virt i d p lt in ground arith

pub stored-page :
    (w : Words) (directory virt val other : ℕ)
    → IsDirectory w directory
    → IsPage virt
    → IsPage other
    → stored w directory virt val (page_slot w directory other)
      ≡ (if other == virt then val else w (page_slot w directory other))
stored-page w directory virt val other d p q = elim (eq_cases other virt) [
  | inl e ↦ rw e (ground arith)
  | inr ne ↦
      let differ = page_slot-ne w directory other virt d q p (omega arith) in
      write_ne w _ val _ differ ∙ ground arith
]

-- paging_set at a page of the directory keeps the directory.
pub paging_set-IsDirectory :
    (w : Words) (directory virt val : ℕ)
    → IsDirectory w directory
    → IsPage virt
    → IsDirectory (paging_set w directory virt val).0 directory
paging_set-IsDirectory w directory virt val d p = rw (paging_set-page w directory virt val p) (
    IsDirectory-same w (stored w directory virt val) directory d
      λ i lt. stored-directory w directory virt val i d p lt)

pub page_slot-same :
    (w w' : Words) (directory virt : ℕ)
    → IsPage virt
    → ((i : ℕ) → i < 1024 → w' (directory + 4 * i) ≡ w (directory + 4 * i))
    → page_slot w' directory virt ≡ page_slot w directory virt
page_slot-same w w' directory virt p same =
    ap (λ t. table_slot t (virt % (1024 * 4096) / 4096)) (same (virt / (1024 * 4096)) (omega arith))

-- What paging_get finds after paging_set: the value at that page, the old value at every other.
pub paging_get-paging_set :
    (w : Words) (directory virt val other : ℕ)
    → IsDirectory w directory
    → IsPage virt
    → IsPage other
    → paging_get (paging_set w directory virt val).0 directory other
      ≡ (if other == virt then val else paging_get w directory other)
paging_get-paging_set w directory virt val other d p q =
    paging_get-page _ directory other (paging_set-IsDirectory w directory virt val d p) q
    ∙ ap (λ (r : Words × Result (Unit {0})). r.0 (page_slot r.0 directory other))
        (paging_set-page w directory virt val p)
    ∙ ap (stored w directory virt val) (
        page_slot-same w (stored w directory virt val) directory other q
          λ i lt. stored-directory w directory virt val i d p lt)
    ∙ stored-page w directory virt val other d p q
    ∙ ap (λ t. if other == virt then val else t) (sym (paging_get-page w directory other d q))

-- paging_map accepts a page and a page frame only, and stores the frame's address with the flags.
pub paging_map-page :
    (w : Words) (directory virt phys flags : ℕ)
    → IsPage virt
    → IsPage phys
    → flags < 4096
    → paging_map w directory virt phys flags ≡ paging_set w directory virt (phys + flags)
unfolding paging_map
paging_map-page w directory virt phys flags p q f =
    rw (bit_or_page phys flags q.on_page f) (ground arith)

-- paging_get reads the word that maps the page, less the top four bits of the directory's entry.
pub paging_get-mask :
    (w : Words) (directory virt : ℕ)
    → IsPage virt
    → paging_get w directory virt
      ≡ w (
          page_slot w directory virt - w (directory + 4 * (virt / (1024 * 4096))) / 2 ^ 28 * 2 ^ 28)
unfolding paging_get
paging_get-mask w directory virt p = rw (aligned p) (ap w (omega arith))
  where
    aligned :
        IsPage virt
        → paging_get w directory virt
          ≡ w (
              table_slot
                (w (directory + 4 * (virt / (1024 * 4096))) % 2 ^ 28)
                (virt % (1024 * 4096) / 4096))
    aligned p = ground arith

-- What paging_get finds at a page after paging_set there, whose word is not the directory's entry:
-- the value where the table lies in the first 256 MB, and else the old word that lies by a multiple of
-- 256 MB below the one that was set.
pub paging_get-paging_set_high :
    (w : Words) (directory virt val : ℕ)
    → IsPage virt
    → directory + 4 * (virt / (1024 * 4096)) ≢ page_slot w directory virt
    → paging_get (paging_set w directory virt val).0 directory virt ≡ (
        if ltb (w (directory + 4 * (virt / (1024 * 4096)))) (2 ^ 28)
        then val
        else w (
            page_slot w directory virt
            - w (directory + 4 * (virt / (1024 * 4096))) / 2 ^ 28 * 2 ^ 28))
paging_get-paging_set_high w directory virt val p off =
    let place : ℕ = directory + 4 * (virt / (1024 * 4096)) in
    let slot : ℕ = page_slot w directory virt in
    let entry : stored w directory virt val place ≡ w place = write_ne w slot val place off in
    rw (paging_set-page w directory virt val p) (
      paging_get-mask (stored w directory virt val) directory virt p
      ∙ ap
          (λ (e : ℕ).
            stored w directory virt val
              (table_slot e (virt % (1024 * 4096) / 4096) - e / 2 ^ 28 * 2 ^ 28))
          entry
      ∙ below w slot (w place) (virt % (1024 * 4096) / 4096) val refl)
  where
    below :
        (w : Words) (slot e index val : ℕ)
        → slot ≡ table_slot e index
        → write w slot val (slot - e / 2 ^ 28 * 2 ^ 28)
          ≡ (if ltb e (2 ^ 28) then val else w (slot - e / 2 ^ 28 * 2 ^ 28))
    below w slot e index val at = elim (lt_cases e (2 ^ 28)) [
      | inl lt ↦
          let same : slot - e / 2 ^ 28 * 2 ^ 28 ≡ slot = omega arith in
          rw (same) (write_self w slot val ∙ ground arith)
      | inr le ↦
          write_ne w slot val (slot - e / 2 ^ 28 * 2 ^ 28) (λ s. absurd (omega arith))
          ∙ ground arith
    ]
