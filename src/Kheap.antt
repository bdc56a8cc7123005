-- ===== src/Kheap.antt =====
-- The kernel's heap of src/memory/heap/kheap.c: one heap of 100 MB, and allocations that are cleared.
pub mod Zero
mod Examples
use slob_os.Prelude.{ℕ, ◌+◌, ◌/◌, ◌==◌, if◌then◌else◌}
use slob_os.Prelude.Memory.{Memory}
use slob_os.Status.{Result}
use slob_os.Text.{memset}
use slob_os.Heap.{Heap, block_size, heap_create, heap_malloc, heap_free}

-- SLOBOS_HEAP_SIZE_BYTES, SLOBOS_HEAP_ADDRESS and SLOBOS_HEAP_TABLE_ADDRESS
abbrev pub heap_size_bytes : ℕ
heap_size_bytes = 104857600

abbrev pub heap_address : ℕ
heap_address = 0x02000000

abbrev pub heap_table_address : ℕ
heap_table_address = 0x00007e00

-- An error is only printed.
pub kheap_init : Memory → Heap × Result (Unit {0})
kheap_init m =
    heap_create
      (record {
        mem = m;
        entries = heap_table_address;
        total = heap_size_bytes / block_size;
        saddr = 0;
      })
      heap_address (heap_address + heap_size_bytes)

pub kmalloc : Heap → ℕ → Heap × ℕ
kmalloc h size = heap_malloc h size

pub kfree : Heap → ℕ → Heap
kfree h ptr = heap_free h ptr

pub kzalloc : Heap → ℕ → Heap × ℕ
unfolding kmalloc
kzalloc h size =
    let (h', ptr) = kmalloc h size in
    if ptr == 0 then (h', 0) else (record h' { mem = memset h'.mem ptr 0 size }, ptr)
