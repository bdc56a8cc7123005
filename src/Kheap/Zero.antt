-- ===== src/Kheap/Zero.antt =====
-- What kheap_init and kzalloc leave in memory.
use slob_os.Prelude.{
  ℕ, ◌+◌, ◌<◌, ◌≡◌, inl, inr, refl, leb, ltb, ◌==◌, ◌&&◌, if◌then◌else◌, arith, false,
}
use slob_os.Prelude.Memory.{Memory}
use slob_os.Status.{ok}
use slob_os.Text.Bytes.{memset_lem}
use slob_os.Heap.{Heap, heap_malloc, heap_block_to_address}
use slob_os.Heap.Alloc.{IsPlaced, Allocated, blocks_for, heap_create_lem, block_to_address_lem}
use slob_os.Kheap.{kheap_init, kmalloc, kzalloc}

-- kheap_init succeeds: the pool starts at 32 MB, the 25600 entries of its table are free, and no
-- other byte changes.
pub kheap_init_lem :
    (m : Memory) (x : ℕ)
    → ((kheap_init m).1 ≡ ok tt)
      × ((kheap_init m).0.saddr ≡ 0x2000000)
      × ((kheap_init m).0.mem x ≡ (if leb 0x7e00 x && ltb x (0x7e00 + 25600) then 0 else m x))
unfolding kheap_init
kheap_init_lem m x =
    let h : Heap = record { mem = m; entries = 0x7e00; total = 25600; saddr = 0 } in
    elim (heap_create_lem h 0x2000000 0x8400000 x (omega arith) (omega arith)) [
      | inl (aligned, end, status, start, bytes) ↦ (status, start, bytes)
      | inr (refused, status, bytes) ↦ absurd (refused (refl, refl))
    ]

-- kzalloc of a size that heap_malloc can place, in a pool that does not start at 0: it returns the
-- same address, the bytes of the size there are 0, and every other byte is as heap_malloc leaves it.
pub kzalloc_lem :
    (h : Heap) (size s x : ℕ)
    → IsPlaced h
    → 0 < blocks_for size
    → Allocated h size s
    → ((kzalloc h size).1 ≡ heap_block_to_address h s)
      × ((kzalloc h size).0.mem x ≡ (
          if leb (heap_block_to_address h s) x && ltb x (heap_block_to_address h s + size)
          then 0
          else (heap_malloc h size).0.mem x))
unfolding kzalloc kmalloc
kzalloc_lem h size s x placed p a =
    let in_table : s < h.total = omega (arith, a.in_table) in
    let above_0 : 0 < heap_block_to_address h s =
      omega (arith, block_to_address_lem h s placed in_table, placed.nonzero) in
    let not_0 : (heap_block_to_address h s == 0) ≡ false = ground arith in
    rw (a.result, not_0) (refl, memset_lem size _ (heap_block_to_address h s) 0 x)
