-- ===== src/Paging/Range.antt =====
-- Ranges of pages: paging_map_range, paging_map_to and the translation of an address.
use slob_os.Prelude.Memory.{write}
use slob_os.Prelude.{
  bit_or, ◌==◌, ℕ, zero, suc, ◌+◌, ◌-◌, ◌*◌, ◌/◌, ◌%◌, ◌^◌, ◌≤◌, ◌<◌, ◌≡◌, ◌⊎◌, inl, inr, refl, ap,
  ◌∙◌, Bool, arith, ◌==◌, if◌then◌else◌, eq_cases, ◌&&◌, leb, ltb,
}
use slob_os.Status.{einvarg, ok, err}
use slob_os.Paging.{
  Words, paging_get, paging_map, paging_map_range, paging_map_to, paging_align_address,
  paging_align_to_lower_page, paging_get_physical_address,
}
use slob_os.Paging.Mapping.{
  paging_set-page, page_slot, IsDirectory, IsPage, paging_set-page, paging_set-IsDirectory,
  paging_get-paging_set, paging_map-page,
}

abbrev pub within : ℕ → ℕ → ℕ → Bool
within start bytes a = leb start a && ltb a (start + bytes)

-- `w'` is `w` with the pages of `bytes` bytes from `virt` on mapped to the frames from `phys` on.
pub record Mapped (w w' : Words) (directory virt phys bytes flags : ℕ) : Type 0 where
  pub is_directory : IsDirectory w' directory
  pub pages :
      (other : ℕ)
      → IsPage other
      → paging_get w' directory other ≡ (
          if within virt bytes other
          then phys + (other - virt) + flags
          else paging_get w directory other)

one_page :
    (virt other a a' b : ℕ)
    → virt % 4096 ≡ 0
    → other % 4096 ≡ 0
    → (other ≡ virt → a ≡ a')
    → (if other == virt then a else b) ≡ (if within virt 4096 other then a' else b)
one_page virt other a a' b p o same = elim (eq_cases other virt) [
  | inl e ↦ ground (arith, same e)
  | inr ne ↦ ground arith
]

-- paging_map of one page.
map_one :
    (w : Words) (directory virt phys flags : ℕ)
    → IsDirectory w directory
    → IsPage virt
    → IsPage phys
    → flags < 4096
    → ((paging_map w directory virt phys flags).1 ≡ ok tt)
      × Mapped w (paging_map w directory virt phys flags).0 directory virt phys 4096 flags
map_one w directory virt phys flags d p q f =
    rw (paging_map-page w directory virt phys flags p q f) (
      ap (λ r. r.1) (paging_set-page w directory virt (phys + flags) p),
      record {
        is_directory = paging_set-IsDirectory w directory virt (phys + flags) d p;
        pages = λ other o.
            paging_get-paging_set w directory virt (phys + flags) other d p o
            ∙ one_page virt other (phys + flags) (phys + (other - virt) + flags)
                (paging_get w directory other) p.on_page o.on_page (λ e. omega arith);
      },
    )

wrapped_fits :
    (a count : ℕ) → a + suc count * 4096 ≤ 2 ^ 32 → (a + 4096) % 2 ^ 32 + count * 4096 ≤ 2 ^ 32
wrapped_fits a zero f = omega arith
wrapped_fits a (suc count) f = omega arith

-- The pages of a range, one page and the rest.
next_pages :
    (virt phys count other flags old : ℕ)
    → virt + suc count * 4096 ≤ 2 ^ 32
    → phys + suc count * 4096 ≤ 2 ^ 32
    → (if within ((virt + 4096) % 2 ^ 32) (count * 4096) other
        then (phys + 4096) % 2 ^ 32 + (other - (virt + 4096) % 2 ^ 32) + flags
        else if within virt 4096 other
        then phys + (other - virt) + flags
        else old)
      ≡ (if within virt (suc count * 4096) other then phys + (other - virt) + flags else old)
next_pages virt phys zero other flags old f g = ground arith
next_pages virt phys (suc count) other flags old f g = ground arith

-- A range of pages that fits the address space is mapped completely, and no other page is touched.
pub paging_map_range_lem :
    (w : Words) (directory virt phys count flags : ℕ)
    → IsDirectory w directory
    → virt % 4096 ≡ 0
    → phys % 4096 ≡ 0
    → virt + count * 4096 ≤ 2 ^ 32
    → phys + count * 4096 ≤ 2 ^ 32
    → flags < 4096
    → ((paging_map_range w directory virt phys count flags).1 ≡ ok tt)
      × Mapped w
          (paging_map_range w directory virt phys count flags).0
          directory
          virt
          phys
          (count * 4096)
          flags
unfolding paging_map_range
paging_map_range_lem w directory virt phys zero flags d p q fv fp f =
    (refl, record { is_directory = d; pages = λ other o. ground arith })
paging_map_range_lem w directory virt phys (suc count) flags d p q fv fp f =
    let (done, one) =
      map_one w directory virt phys flags d (record { on_page = p; in_space = omega arith })
        (record { on_page = q; in_space = omega arith }) f in
    let (did, rest) =
      paging_map_range_lem (paging_map w directory virt phys flags).0 directory
        ((virt + 4096) % 2 ^ 32) ((phys + 4096) % 2 ^ 32) count flags one.is_directory (omega arith)
        (omega arith) (wrapped_fits virt count fv) (wrapped_fits phys count fp) f in
    rw (done, paging_map_range)
      (
        did,
        record {
          is_directory = rest.is_directory;
          pages = λ other o.
              rest.pages other o
              ∙ ap
                  (λ t.
                    if within ((virt + 4096) % 2 ^ 32) (count * 4096) other
                    then (phys + 4096) % 2 ^ 32 + (other - (virt + 4096) % 2 ^ 32) + flags
                    else t)
                  (one.pages other o)
              ∙ next_pages virt phys count other flags (paging_get w directory other) fv fp;
        },
      )

-- paging_map_to refuses, and changes nothing, unless all three addresses are page-aligned and the end
-- does not lie before the start.
pub paging_map_to-refused :
    (w : Words) (directory virt phys phys_end flags : ℕ)
    → ¬ ((virt % 4096 ≡ 0) × (phys % 4096 ≡ 0) × (phys_end % 4096 ≡ 0) × (phys ≤ phys_end))
    → paging_map_to w directory virt phys phys_end flags ≡ (w, err einvarg)
unfolding paging_map_to
paging_map_to-refused w directory virt phys phys_end flags bad = ground arith

paging_map_to-range :
    (w : Words) (directory virt phys phys_end flags : ℕ)
    → virt % 4096 ≡ 0
    → phys % 4096 ≡ 0
    → phys_end % 4096 ≡ 0
    → phys ≤ phys_end
    → paging_map_to w directory virt phys phys_end flags
      ≡ paging_map_range w directory virt phys ((phys_end - phys) / 4096) flags
unfolding paging_map_to
paging_map_to-range w directory virt phys phys_end flags p q e le = ground arith

-- paging_map_to, on a directory and at page-aligned addresses within the address space, maps the
-- pages from `virt` on to the frames from `phys` up to `phys_end`, with the flags, and leaves every
-- other page as it was.
pub paging_map_to-Mapped :
    (w : Words) (directory virt phys phys_end flags : ℕ)
    → IsDirectory w directory
    → virt % 4096 ≡ 0
    → phys % 4096 ≡ 0
    → phys_end % 4096 ≡ 0
    → phys ≤ phys_end
    → phys_end < 2 ^ 32
    → virt + (phys_end - phys) ≤ 2 ^ 32
    → flags < 4096
    → ((paging_map_to w directory virt phys phys_end flags).1 ≡ ok tt)
      × Mapped w
          (paging_map_to w directory virt phys phys_end flags).0
          directory
          virt
          phys
          (phys_end - phys)
          flags
paging_map_to-Mapped w directory virt phys phys_end flags d p q e le lt fits f =
    let bytes : (phys_end - phys) / 4096 * 4096 ≡ phys_end - phys = omega arith in
    let (did, mapped) =
      paging_map_range_lem w directory virt phys ((phys_end - phys) / 4096) flags d p q
        (omega arith) (omega arith) f in
    rw (paging_map_to-range w directory virt phys phys_end flags p q e le) (
      did,
      record {
        is_directory = mapped.is_directory;
        pages = λ other o.
            mapped.pages other o
            ∙ ap
                (λ b.
                  if within virt b other
                  then phys + (other - virt) + flags
                  else paging_get w directory other)
                bytes;
      },
    )

paging_map_ok :
    (w : Words) (directory virt phys flags : ℕ)
    → IsPage virt
    → IsPage phys
    → paging_map w directory virt phys flags
      ≡ (write w (page_slot w directory virt) (bit_or phys flags), ok tt)
unfolding paging_map
paging_map_ok w directory virt phys flags p q = rw (p.on_page, q.on_page) refl

paging_map_range_ok :
    (w : Words) (directory virt phys count flags : ℕ)
    → IsPage virt
    → IsPage phys
    → (t : Words) × (paging_map_range w directory virt phys count flags ≡ (t, ok tt))
unfolding paging_map_range
paging_map_range_ok w directory virt phys zero flags p q = (w, refl)
paging_map_range_ok w directory virt phys (suc count) flags p q =
    let done : (paging_map w directory virt phys flags).1 ≡ ok tt =
      ap (λ r. r.1) (paging_map_ok w directory virt phys flags p q) in
    let v = p.on_page in
    let f = q.on_page in
    let (t, did) =
      paging_map_range_ok (paging_map w directory virt phys flags).0 directory
        ((virt + 4096) % 2 ^ 32) ((phys + 4096) % 2 ^ 32) count flags
        (record { on_page = omega arith; in_space = omega arith })
        (record { on_page = omega arith; in_space = omega arith }) in
    (t, rw (done, paging_map_range) did)

-- paging_map_to succeeds on every directory, whatever its words, at page-aligned addresses the last
-- of which is the end.
pub paging_map_to_ok :
    (w : Words) (directory virt phys phys_end flags : ℕ)
    → IsPage virt
    → IsPage phys
    → phys_end % 4096 ≡ 0
    → phys ≤ phys_end
    → (t : Words) × (paging_map_to w directory virt phys phys_end flags ≡ (t, ok tt))
paging_map_to_ok w directory virt phys phys_end flags p q e le =
    let (t, did) = paging_map_range_ok w directory virt phys ((phys_end - phys) / 4096) flags p q in
    (t, paging_map_to-range w directory virt phys phys_end flags p.on_page q.on_page e le ∙ did)

-- In a mapped range an address is translated to the same offset from the first frame.
pub get_physical_address-Mapped :
    (w w' : Words) (directory virt phys bytes flags address : ℕ)
    → Mapped w w' directory virt phys bytes flags
    → virt % 4096 ≡ 0
    → phys % 4096 ≡ 0
    → bytes % 4096 ≡ 0
    → virt + bytes ≤ 2 ^ 32
    → phys + bytes ≤ 2 ^ 32
    → flags < 4096
    → virt ≤ address
    → address < virt + bytes
    → paging_get_physical_address w' directory address ≡ phys + (address - virt)
unfolding paging_get_physical_address
get_physical_address-Mapped w w' directory virt phys bytes flags address m p q b fv fp f lo hi =
    ground (
      arith,
      m.pages (address - address % 4096) (record { on_page = omega arith; in_space = omega arith }),
    )

-- paging_align_address gives the next page boundary, or 0 behind the last page;
-- paging_align_to_lower_page the boundary before.
pub align_lem :
    (a : ℕ)
    → a < 2 ^ 32
    → (paging_align_to_lower_page a % 4096 ≡ 0)
      × (paging_align_to_lower_page a ≤ a)
      × (a < paging_align_to_lower_page a + 4096)
      × (paging_align_address a % 4096 ≡ 0)
      × (((a ≤ paging_align_address a) × (paging_align_address a < a + 4096))
          ⊎ ((2 ^ 32 - 4096 < a) × (paging_align_address a ≡ 0)))
unfolding paging_align_to_lower_page paging_align_address
align_lem a lt = ground arith
