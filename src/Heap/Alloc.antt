-- ===== src/Heap/Alloc.antt =====
-- heap_malloc, heap_free and heap_create as a client of the heap sees them.
use slob_os.Prelude.{
  ℕ, zero, suc, ◌+◌, ◌-◌, ◌*◌, ◌/◌, ◌%◌, ◌^◌, ◌≤◌, ◌<◌, ◌≡◌, ◌⊎◌, inl, inr, ap, ◌∙◌, arith,
  if◌then◌else◌, lt_cases, ltb, leb, ◌&&◌, some, none,
}
use slob_os.Prelude.Int.{pos}
use slob_os.Prelude.Memory.{Memory, write}
use slob_os.Status.{ok, err, einvarg}
use slob_os.Heap.{
  Heap, block_size, clear_entries, heap_create, heap_align_value_to_upper, heap_get_start_block,
  heap_block_to_address, heap_mark_blocks_taken, heap_malloc_blocks, heap_address_to_block,
  heap_malloc,
}
use slob_os.Heap.Search.{
  FreeRun, get_start_block_sound, get_start_block_complete, get_start_block_overrun,
  get_start_block_some,
}
use slob_os.Heap.Marks.{Chain, marked_entry, entry-mark_blocks_taken, mem-mark_blocks_taken}

-- The number of blocks that heap_malloc asks for.
abbrev pub blocks_for : ℕ → ℕ
blocks_for size = heap_align_value_to_upper size / block_size

-- The blocks for a size are the fewest that hold it, unless rounding up wraps a `uint32_t`; then
-- there are none.
pub blocks_for_bounds :
    (size : ℕ)
    → size < 2 ^ 32
    → ((size ≤ 2 ^ 32 - 4096)
        × (size ≤ blocks_for size * 4096)
        × (blocks_for size * 4096 < size + 4096))
      ⊎ ((2 ^ 32 - 4096 < size) × (blocks_for size ≡ 0))
unfolding heap_align_value_to_upper
blocks_for_bounds size lt = ground arith

-- The pool fits the address space, and its blocks have addresses that are not 0.
pub record IsPlaced (h : Heap) : Type 0 where
  pub nonzero : 0 < h.saddr
  pub fits : h.saddr + h.total * 4096 ≤ 2 ^ 31

pub block_to_address_lem :
    (h : Heap) (s : ℕ) → IsPlaced h → s < h.total → heap_block_to_address h s ≡ h.saddr + s * 4096
unfolding heap_block_to_address
block_to_address_lem h s p lt = omega arith

-- The address of a block leads back to the block.
pub address_to_block-block_to_address :
    (h : Heap) (s : ℕ)
    → IsPlaced h
    → s < h.total
    → heap_address_to_block h (heap_block_to_address h s) ≡ pos s
unfolding heap_address_to_block heap_block_to_address
address_to_block-block_to_address h s p lt = ground arith

-- Memory with the marks of an allocation holds its chain.
pub Chain-marked :
    (m : Memory) (entries s n : ℕ)
    → 0 < n
    → ((j : ℕ) → s ≤ j → j < s + n → m (entries + j) ≡ marked_entry s n j)
    → Chain m entries s n
Chain-marked m entries s n p marks = record {
  nonempty = p;
  linked = λ j l u. rw (marks j l (omega arith)) (ground arith);
  ended = λ t e. rw (marks t (omega arith) (omega arith)) (ground arith);
}

malloc_blocks-some :
    (h : Heap) (n s : ℕ)
    → heap_get_start_block h n ≡ some s
    → heap_malloc_blocks h n ≡ (heap_mark_blocks_taken h s n, heap_block_to_address h s)
unfolding heap_malloc_blocks
malloc_blocks-some h n s e = rw (e, heap_malloc_blocks)

malloc_blocks-none :
    (h : Heap) (n : ℕ) → heap_get_start_block h n ≡ none → heap_malloc_blocks h n ≡ (h, 0)
unfolding heap_malloc_blocks
malloc_blocks-none h n e = rw (e, heap_malloc_blocks)

-- What heap_malloc did for `n` blocks: it took the run from block `s`, which was free, and gave its
-- address.
pub record Allocated (h : Heap) (size s : ℕ) : Type 0 where
  pub in_table : s + blocks_for size ≤ h.total
  pub was_free : FreeRun h s (blocks_for size)
  pub result :
      heap_malloc h size ≡ (heap_mark_blocks_taken h s (blocks_for size), heap_block_to_address h s)

heap_malloc-Allocated :
    (h : Heap) (size s : ℕ)
    → heap_get_start_block h (blocks_for size) ≡ some s
    → s + blocks_for size ≤ h.total
    → Allocated h size s
unfolding heap_malloc
heap_malloc-Allocated h size s found fits = record {
  in_table = fits;
  was_free = λ j l u. (get_start_block_sound h (blocks_for size) found).1 j l u (omega arith);
  result = malloc_blocks-some h (blocks_for size) s found;
}

-- Where the table has a run of free blocks that is long enough for the size, heap_malloc takes a
-- run of free blocks that starts no later, and returns its address.
pub heap_malloc_first_fit :
    (h : Heap) (size r : ℕ)
    → 0 < blocks_for size
    → r + blocks_for size ≤ h.total
    → FreeRun h r (blocks_for size)
    → (s : ℕ) × (s ≤ r) × Allocated h size s
heap_malloc_first_fit h size r p fits run =
    let (s, found, le) = get_start_block_complete h (blocks_for size) r p fits run in
    (s, le, heap_malloc-Allocated h size s found (omega arith))

-- Where no run is long enough and the last block is free, heap_malloc does not fail: it returns the
-- address of a block whose run reaches past the pool, and marks an entry behind the table.
pub heap_malloc_overrun :
    (h : Heap) (size last : ℕ)
    → h.total ≡ suc last
    → FreeRun h last 1
    → ((r : ℕ) → r + blocks_for size ≤ h.total → ¬ FreeRun h r (blocks_for size))
    → (s : ℕ) × ((heap_malloc h size).1 ≡ heap_block_to_address h s)
      × (h.total < s + blocks_for size)
      × ((heap_malloc h size).0.mem (h.entries + h.total)
          ≡ marked_entry s (blocks_for size) h.total)
unfolding heap_malloc
heap_malloc_overrun h size last e free no_run =
    let (s, found, past) =
      get_start_block_overrun h (blocks_for size) last e (free last (omega arith) (omega arith))
        no_run in
    let did = malloc_blocks-some h (blocks_for size) s found in
    (
      s,
      ap (λ r. r.1) did,
      past,
      ap (λ r. r.0.mem (h.entries + h.total)) did
          ∙ entry-mark_blocks_taken h s (blocks_for size) h.total
              (omega (arith, (get_start_block_sound h (blocks_for size) found).0)) past,
    )

-- A size that rounds to no block, 0 or one so large that rounding up wraps, changes no byte of
-- memory; still, where the last block of the table is free, its heap_malloc returns an address of
-- the pool and not 0.
pub heap_malloc_no_blocks :
    (h : Heap) (size last : ℕ)
    → IsPlaced h
    → blocks_for size ≡ 0
    → h.total ≡ suc last
    → FreeRun h last 1
    → (s : ℕ) × (s < h.total)
      × ((heap_malloc h size).1 ≡ h.saddr + s * 4096)
      × ((x : ℕ) → (heap_malloc h size).0.mem x ≡ h.mem x)
unfolding heap_malloc
heap_malloc_no_blocks h size last placed z e free =
    let (s, found) =
      get_start_block_some h (blocks_for size) last e (free last (omega arith) (omega arith)) in
    let did = malloc_blocks-some h (blocks_for size) s found in
    let within = (get_start_block_sound h (blocks_for size) found).0 in
    (
      s,
      within,
      ap (λ r. r.1) did ∙ block_to_address_lem h s placed within,
      λ x.
          ap (λ r. r.0.mem x) did
          ∙ mem-mark_blocks_taken h s (blocks_for size) x
              (elim (lt_cases x (h.entries + s)) [ inl l ↦ inl l | inr g ↦ inr (omega arith) ]),
    )

clear_entries_lem :
    (n a x : ℕ) (m : Memory) → clear_entries n a m x ≡ (if leb a x && ltb x (a + n) then 0 else m x)
unfolding clear_entries
clear_entries_lem zero a x m = ground arith
clear_entries_lem (suc n) a x m = ground (arith, clear_entries_lem n (a + 1) x (write m a 0))

-- heap_create at block-aligned ends that match the table's size succeeds and frees the whole table,
-- and no other byte; at any other ends it reports EINVARG and changes no memory.
pub heap_create_lem :
    (h : Heap) (ptr end x : ℕ)
    → ptr ≤ end
    → end < 2 ^ 32
    → ((ptr % 4096 ≡ 0)
        × (end ≡ ptr + h.total * 4096)
        × ((heap_create h ptr end).1 ≡ ok tt)
        × ((heap_create h ptr end).0.saddr ≡ ptr)
        × ((heap_create h ptr end).0.mem x
            ≡ (if leb h.entries x && ltb x (h.entries + h.total) then 0 else h.mem x)))
      ⊎ ((¬ ((ptr % 4096 ≡ 0) × (end ≡ ptr + h.total * 4096)))
          × ((heap_create h ptr end).1 ≡ err einvarg)
          × ((heap_create h ptr end).0.mem x ≡ h.mem x))
unfolding heap_create
heap_create_lem h ptr end x le lt = ground (arith, clear_entries_lem h.total h.entries x h.mem)
