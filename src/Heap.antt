-- ===== src/Heap.antt =====
-- The block allocator of src/memory/heap/heap.c, as kheap.c uses it: a byte of flags for each
-- 4096-byte block of the pool. The table stands in physical memory at `entries`, so that a write
-- through an index past its ends is a write to the memory beside it, as in the source.
pub mod Alloc
pub mod Examples
pub mod Layout
pub mod Live
pub mod Marks
pub mod Search
use slob_os.Prelude.{
  ℕ, zero, suc, ◌+◌, ◌-◌, ◌*◌, ◌/◌, ◌%◌, ◌^◌, Bool, not, ◌||◌, Option, none, some, ltb, ◌==◌,
  if◌then◌else◌, bit_or,
}
use slob_os.Prelude.Int.{ℤ, pos, negsuc, next}
use slob_os.Prelude.Memory.{Memory, write}
use slob_os.Status.{einvarg, Result, ok, err}

-- SLOBOS_HEAP_BLOCK_SIZE
abbrev pub block_size : ℕ
block_size = 4096

-- HEAP_BLOCK_TABLE_ENTRY_TAKEN, HEAP_BLOCK_HAS_NEXT, HEAP_BLOCK_IS_FIRST
abbrev pub entry_taken : ℕ
entry_taken = 0x01

abbrev pub block_has_next : ℕ
block_has_next = 0x80

abbrev pub block_is_first : ℕ
block_is_first = 0x40

-- `struct heap` with its `struct heap_table`; `mem` is the memory that `entries` points into.
pub record Heap : Type 0 where
  pub mem : Memory
  pub entries : ℕ
  pub total : ℕ
  pub saddr : ℕ

-- `table->entries[i]`
abbrev pub entry : Heap → ℕ → ℕ
entry h i = h.mem (h.entries + i)

-- `&entries[i]` for an index that may be negative; below address 0 it wraps.
abbrev pub slot : ℕ → ℤ → ℕ
slot base (pos n) = base + n
slot base (negsuc n) = (base + 2 ^ 32 - suc n) % 2 ^ 32

heap_validate_table : ℕ → ℕ → ℕ → Result (Unit {0})
heap_validate_table ptr end total =
    let table_size = (end + 2 ^ 32 - ptr) % 2 ^ 32 in
    if total == table_size / block_size then ok tt else err einvarg

heap_validate_alignment : ℕ → Bool
heap_validate_alignment ptr = ptr % block_size == 0

-- `memset(entries, HEAP_BLOCK_TABLE_ENTRY_FREE, n)`
clear_entries : ℕ → ℕ → Memory → Memory
clear_entries zero a m = m
clear_entries (suc n) a m = clear_entries n (a + 1) (write m a 0)

-- `res = heap_validate_table(...)` and what follows it.
create_validated : Heap → Result (Unit {0}) → Heap × Result (Unit {0})
unfolding clear_entries
create_validated h (err e) = (h, err e)
create_validated h (ok u) = (record h { mem = clear_entries h.total h.entries h.mem }, ok u)

-- The heap is returned beside the status: `saddr` is stored before the table is validated.
pub heap_create : Heap → ℕ → ℕ → Heap × Result (Unit {0})
unfolding heap_validate_table heap_validate_alignment create_validated
heap_create h ptr end =
    if not (heap_validate_alignment ptr) || not (heap_validate_alignment end)
    then (h, err einvarg)
    else create_validated (record h { saddr = ptr }) (heap_validate_table ptr end h.total)

-- `uint32_t`: the sum wraps.
pub heap_align_value_to_upper : ℕ → ℕ
heap_align_value_to_upper val =
    if val % block_size == 0 then val else (val - val % block_size + block_size) % 2 ^ 32

-- `entry & 0x0f`
abbrev pub heap_get_entry_type : ℕ → ℕ
heap_get_entry_type e = e % 16

-- `if (bs == -1) bs = i;`
abbrev pub start_or : Option ℕ → ℕ → ℕ
start_or none i = i
start_or (some s) i = s

-- The loop of heap_get_start_block with `rounds` entries left from index `i`; `bs` is `none` for -1.
start_block_loop : Heap → ℕ → (rounds i bc : ℕ) → Option ℕ → Option ℕ
start_block_loop h need zero i bc bs = bs
start_block_loop h need (suc rounds) i bc bs =
    let reset = start_block_loop h need rounds (i + 1) 0 none in
    let counted = start_block_loop h need rounds (i + 1) (bc + 1) (some (start_or bs i)) in
    if not (heap_get_entry_type (entry h i) == 0)
    then reset
    else if bc + 1 == need
    then some (start_or bs i)
    else counted

-- `none` is -ENOMEM.
pub heap_get_start_block : Heap → ℕ → Option ℕ
unfolding start_block_loop
heap_get_start_block h need = start_block_loop h need h.total 0 0 none

pub heap_block_to_address : Heap → ℕ → ℕ
heap_block_to_address h block = (h.saddr + block * block_size) % 2 ^ 32

-- The loop writes `e` at index `i`; the index after the last is `stop`, so `i != end_block - 1` is
-- `i + 2 != stop`.
mark_taken_loop : (entries rounds i stop e : ℕ) → Memory → Memory
mark_taken_loop entries zero i stop e m = m
mark_taken_loop entries (suc rounds) i stop e m =
    mark_taken_loop entries rounds (i + 1) stop
      (if i + 2 == stop then entry_taken else bit_or entry_taken block_has_next)
      (write m (entries + i) e)

pub heap_mark_blocks_taken : Heap → ℕ → ℕ → Heap
unfolding mark_taken_loop
heap_mark_blocks_taken h start total_blocks =
    let first = bit_or entry_taken block_is_first in
    record h {
      mem =
          mark_taken_loop h.entries total_blocks start (start + total_blocks)
            (if ltb 1 total_blocks then bit_or first block_has_next else first) h.mem;
    }

-- The new heap and the address; address 0 is the failure.
pub heap_malloc_blocks : Heap → ℕ → Heap × ℕ
heap_malloc_blocks h total_blocks = elim (heap_get_start_block h total_blocks) [
  | none ↦ (h, 0)
  | some s ↦ (heap_mark_blocks_taken h s total_blocks, heap_block_to_address h s)
]

-- `entry & HEAP_BLOCK_HAS_NEXT`
abbrev pub has_next : ℕ → Bool
has_next e = (e / 128) % 2 == 1

-- The loop of heap_mark_blocks_free with `rounds` indices left below `total`.
mark_free_loop : ℕ → (rounds : ℕ) → ℤ → Memory → Memory
mark_free_loop entries zero i m = m
mark_free_loop entries (suc rounds) i m =
    let a = slot entries i in
    let freed = write m a 0 in
    let rest = mark_free_loop entries rounds (next i) freed in
    if has_next (m a) then rest else freed

-- How often `for (i = start; i < total; i++)` can run.
abbrev pub rounds_below : ℕ → ℤ → ℕ
rounds_below total (pos n) = total - n
rounds_below total (negsuc n) = total + suc n

pub heap_mark_blocks_free : Heap → ℤ → Heap
unfolding mark_free_loop next
heap_mark_blocks_free h start = record h {
  mem = mark_free_loop h.entries (rounds_below h.total start) start h.mem;
}

-- -n, as an `int`
abbrev pub negated : ℕ → ℤ
negated zero = pos 0
negated (suc n) = negsuc n

-- `(int)(address - heap->saddr) / SLOBOS_HEAP_BLOCK_SIZE`: signed, rounded towards zero.
pub heap_address_to_block : Heap → ℕ → ℤ
heap_address_to_block h address =
    let difference = (address + 2 ^ 32 - h.saddr) % 2 ^ 32 in
    if ltb difference (2 ^ 31)
    then pos (difference / block_size)
    else negated ((2 ^ 32 - difference) / block_size)

pub heap_malloc : Heap → ℕ → Heap × ℕ
heap_malloc h size = heap_malloc_blocks h (heap_align_value_to_upper size / block_size)

pub heap_free : Heap → ℕ → Heap
heap_free h ptr = heap_mark_blocks_free h (heap_address_to_block h ptr)
