-- ===== src/Kheap/Examples.antt =====
-- The theorems on the kernel's heap at a pool of three free blocks.
use slob_os.Prelude.{◌+◌, ◌≡◌, arith, leb, ltb, ◌&&◌, if◌then◌else◌}
use slob_os.Heap.{heap_malloc, heap_block_to_address}
use slob_os.Heap.Examples.{free_heap, free_heap-IsPlaced, blocks_for_5000, allocated}
use slob_os.Kheap.{kzalloc}
use slob_os.Kheap.Zero.{kzalloc_lem}

kzalloc_lem_example :
    ((kzalloc free_heap 5000).1 ≡ heap_block_to_address free_heap 0)
    × ((kzalloc free_heap 5000).0.mem 0x1000010 ≡ (
        if leb (heap_block_to_address free_heap 0) 0x1000010
          && ltb 0x1000010 (heap_block_to_address free_heap 0 + 5000)
        then 0
        else (heap_malloc free_heap 5000).0.mem 0x1000010))
kzalloc_lem_example =
    kzalloc_lem free_heap 5000 0 0x1000010 free_heap-IsPlaced (omega (arith, blocks_for_5000))
      allocated
