-- ===== src/Paging.antt =====
-- Address translation of src/memory/paging/paging.c. Page directories and page tables are arrays of
-- 32-bit words in physical memory; `Words` gives the word at an address that is a multiple of 4.
-- A pointer to a directory is its address. Pointer arithmetic is that of 32-bit addresses.
pub mod Chunk
mod Examples
pub mod Mapping
pub mod Range
use slob_os.Prelude.{
  ℕ, zero, suc, ◌+◌, ◌-◌, ◌*◌, ◌/◌, ◌%◌, ◌^◌, Bool, true, false, not, ◌||◌, ltb, ◌==◌,
  if◌then◌else◌, bit_or,
}
use slob_os.Prelude.Memory.{write}
use slob_os.Status.{einvarg, Result, ok, err}

abbrev pub Words : Type 0
Words = ℕ → ℕ

-- PAGING_PAGE_SIZE, PAGING_TOTAL_ENTRIES_PER_TABLE
abbrev pub page_size : ℕ
page_size = 4096

abbrev pub entries_per_table : ℕ
entries_per_table = 1024

pub paging_is_aligned : ℕ → Bool
paging_is_aligned addr = addr % page_size == 0

-- The indexes into the directory and into the table.
pub paging_get_indexes : ℕ → Result (ℕ × ℕ)
unfolding paging_is_aligned
paging_get_indexes virt =
    if not (paging_is_aligned virt)
    then err einvarg
    else ok
        (virt / (entries_per_table * page_size), virt % (entries_per_table * page_size) / page_size)

-- `&((uint32_t*)(entry & 0xfffff000))[table_index]`
abbrev pub table_slot : ℕ → ℕ → ℕ
table_slot entry table_index = entry / 4096 * 4096 + 4 * table_index

set_at : Words → ℕ → ℕ → Result (ℕ × ℕ) → Words × Result (Unit {0})
set_at w directory val (err e) = (w, err e)
set_at w directory val (ok (directory_index, table_index)) =
    (write w (table_slot (w (directory + 4 * directory_index)) table_index) val, ok tt)

pub paging_set : Words → ℕ → ℕ → ℕ → Words × Result (Unit {0})
unfolding paging_is_aligned paging_get_indexes set_at
paging_set w directory virt val =
    if not (paging_is_aligned virt)
    then (w, err einvarg)
    else set_at w directory val (paging_get_indexes virt)

-- The indexes stay 0 where paging_get_indexes refuses the address.
indexes_or_zero : Result (ℕ × ℕ) → ℕ × ℕ
indexes_or_zero (err e) = (0, 0)
indexes_or_zero (ok i) = i

-- The mask is `0xffff000`, of 28 bits, unlike the mask of paging_set.
pub paging_get : Words → ℕ → ℕ → ℕ
unfolding paging_get_indexes indexes_or_zero
paging_get w directory virt =
    let (directory_index, table_index) = indexes_or_zero (paging_get_indexes virt) in
    w (table_slot (w (directory + 4 * directory_index) % 2 ^ 28) table_index)

pub paging_map : Words → ℕ → ℕ → ℕ → ℕ → Words × Result (Unit {0})
unfolding paging_set
paging_map w directory virt phys flags =
    if not (virt % page_size == 0) || not (phys % page_size == 0)
    then (w, err einvarg)
    else paging_set w directory virt (bit_or phys flags)

-- The loop with `count` rounds left; it stops at the first error.
pub paging_map_range : Words → ℕ → ℕ → ℕ → ℕ → ℕ → Words × Result (Unit {0})
paging_map_range w directory virt phys zero flags = (w, ok tt)
paging_map_range w directory virt phys (suc count) flags =
    let (w', res) = paging_map w directory virt phys flags in
    let rest =
      paging_map_range w' directory ((virt + page_size) % 2 ^ 32) ((phys + page_size) % 2 ^ 32)
        count flags in
    elim res [ err e ↦ (w', err e) | ok u ↦ rest ]

pub paging_map_to : Words → ℕ → ℕ → ℕ → ℕ → ℕ → Words × Result (Unit {0})
paging_map_to w directory virt phys phys_end flags =
    if not (virt % page_size == 0)
    then (w, err einvarg)
    else if not (phys % page_size == 0)
    then (w, err einvarg)
    else if not (phys_end % page_size == 0)
    then (w, err einvarg)
    else if ltb phys_end phys
    then (w, err einvarg)
    else paging_map_range w directory virt phys ((phys_end - phys) / page_size) flags

pub paging_align_address : ℕ → ℕ
paging_align_address ptr =
    if not (ptr % page_size == 0) then (ptr + page_size - ptr % page_size) % 2 ^ 32 else ptr

pub paging_align_to_lower_page : ℕ → ℕ
paging_align_to_lower_page addr = addr - addr % page_size

pub paging_get_physical_address : Words → ℕ → ℕ → ℕ
unfolding paging_get paging_align_to_lower_page
paging_get_physical_address w directory virt =
    let virt_addr_new = paging_align_to_lower_page virt in
    (paging_get w directory virt_addr_new / 4096 * 4096 + (virt - virt_addr_new)) % 2 ^ 32
