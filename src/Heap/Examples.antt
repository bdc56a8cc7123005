-- ===== src/Heap/Examples.antt =====
-- The theorems on the allocator at a small heap.
use slob_os.Prelude.{ℕ, ◌+◌, ◌-◌, ◌≤◌, ◌<◌, ◌≡◌, inl, refl, ap, arith, leb, if◌then◌else◌, [], ◌∷◌}
use slob_os.Heap.{
  Heap, heap_malloc, heap_free, heap_block_to_address, heap_get_start_block, start_block_loop,
  heap_malloc_blocks, heap_align_value_to_upper,
}
use slob_os.Heap.Search.{FreeRun}
use slob_os.Heap.Marks.{marked_entry}
use slob_os.Heap.Layout.{Layout, erase}
use slob_os.Heap.Alloc.{blocks_for, IsPlaced, Allocated, heap_malloc_first_fit, heap_malloc_overrun}
use slob_os.Heap.Live.{heap_free-Layout}

-- Three free blocks.
abbrev pub free_heap : Heap
free_heap = record { mem = λ x. 0; entries = 0x7e00; total = 3; saddr = 0x1000000 }

-- The first block is taken, the last is free.
abbrev full_heap : Heap
full_heap = record {
  mem = λ x. if leb 0x7e02 x then 0 else 0x41;
  entries = 0x7e00;
  total = 3;
  saddr = 0x1000000;
}

pub free_heap-IsPlaced : IsPlaced free_heap
free_heap-IsPlaced = record { nonzero = omega arith; fits = omega arith }

pub blocks_for_5000 : blocks_for 5000 ≡ 2
unfolding heap_align_value_to_upper
blocks_for_5000 = refl

free_run : (s n : ℕ) → FreeRun free_heap s n
free_run s n j low high = refl

heap_malloc_first_fit_example : (s : ℕ) × (s ≤ 1) × Allocated free_heap 5000 s
heap_malloc_first_fit_example =
    heap_malloc_first_fit free_heap 5000 1 (omega (arith, blocks_for_5000))
      (omega (arith, blocks_for_5000)) (free_run 1 (blocks_for 5000))

pub allocated : Allocated free_heap 5000 0
unfolding heap_malloc heap_malloc_blocks heap_get_start_block start_block_loop
    heap_align_value_to_upper
allocated = record { in_table = omega arith; was_free = free_run 0 2; result = refl }

-- One allocation of two blocks and a free block.
abbrev used_heap : Heap
used_heap = record {
  mem = λ x. marked_entry 0 2 (x - 0x7e00);
  entries = 0x7e00;
  total = 2;
  saddr = 0x1000000;
}

one_allocation : Layout used_heap.mem 0x7e00 2 0 ((0, 2) ∷ [])
one_allocation =
    Layout.used (omega arith)
      (λ j low high.
        let index : 0x7e00 + j - 0x7e00 ≡ j = omega arith in ap (marked_entry 0 2) index)
      refl (Layout.end refl)

heap_free-Layout_example :
    Layout
      (heap_free used_heap (heap_block_to_address used_heap 0)).mem
      0x7e00
      2
      0
      (erase 0 ((0, 2) ∷ []))
heap_free-Layout_example =
    heap_free-Layout used_heap 0 2 ((0, 2) ∷ [])
      (record { nonzero = omega arith; fits = omega arith }) one_allocation (inl (refl, refl))

last_free : FreeRun full_heap 2 1
last_free j low high = ground arith

-- Each run of two blocks has a taken one.
taken_1 : (r : ℕ) → r ≤ 1 → ¬ FreeRun full_heap r (blocks_for 5000)
taken_1 r small run = ground (arith, run r (omega arith) (omega (arith, blocks_for_5000)))

no_run : (r : ℕ) → r + blocks_for 5000 ≤ 3 → ¬ FreeRun full_heap r (blocks_for 5000)
no_run r fits run = taken_1 r (omega (arith, blocks_for_5000)) run

heap_malloc_overrun_example :
    (s : ℕ) × ((heap_malloc full_heap 5000).1 ≡ heap_block_to_address full_heap s)
    × (3 < s + blocks_for 5000)
    × ((heap_malloc full_heap 5000).0.mem (0x7e00 + 3) ≡ marked_entry s (blocks_for 5000) 3)
heap_malloc_overrun_example = heap_malloc_overrun full_heap 5000 2 refl last_free no_run
