-- ===== src/Heap/Live.antt =====
-- heap_malloc and heap_free keep the table's layout: one adds an allocation, the other drops it.
use mathlib.Core.Path.{subst}
use slob_os.Prelude.{ℕ, zero, suc, ◌+◌, ◌≤◌, ◌<◌, ◌≡◌, ◌⊎◌, inl, inr, ◌∙◌, arith}
use slob_os.Prelude.Memory.{Memory}
use slob_os.Heap.{Heap, heap_free, heap_block_to_address}
use slob_os.Heap.Marks.{marked_entry, mem-mark_blocks_free}
use slob_os.Heap.Layout.{
  Allocations, Layout, end, free, used, Holds, erase, erase-first, erase-later, Layout-frame,
}
use slob_os.Heap.Alloc.{Chain-marked, address_to_block-block_to_address, IsPlaced}

-- `m'` is `m` with the marks of an allocation of `n` blocks from `s` on.
record Marked (m m' : Memory) (entries s n : ℕ) : Type 0 where
  inside : (j : ℕ) → s ≤ j → j < s + n → m' (entries + j) ≡ marked_entry s n j
  outside : (j : ℕ) → (j < s) ⊎ (s + n ≤ j) → m' (entries + j) ≡ m (entries + j)

-- The entries of the allocation are cleared, all others kept.
record Cleared (m m' : Memory) (entries s n : ℕ) : Type 0 where
  inside : (j : ℕ) → s ≤ j → j < s + n → m' (entries + j) ≡ 0
  outside : (j : ℕ) → (j < s) ⊎ (s + n ≤ j) → m' (entries + j) ≡ m (entries + j)

module _ {entries total : ℕ} {m : Memory} where
  Layout-stop : {i : ℕ} {live : Allocations} → Layout m entries total i live → i ≤ total
  Layout-stop (end e) = omega arith
  Layout-stop (free z rest) = omega (arith, Layout-stop rest)
  Layout-stop (used q marks e rest) = omega (arith, Layout-stop rest)

  -- An allocation lies in the table, behind the blocks before it, with the marks of its run.
  Holds-bounds :
      {i : ℕ} {live : Allocations} (s n : ℕ)
      → Layout m entries total i live
      → Holds s n live
      → (i ≤ s)
        × (0 < n)
        × (s + n ≤ total)
        × ((j : ℕ) → s ≤ j → j < s + n → m (entries + j) ≡ marked_entry s n j)
  Holds-bounds s n (end e) h = absurd h
  Holds-bounds s n (free z rest) h =
      let (a, b, c, d) = Holds-bounds s n rest h in (omega arith, b, c, d)
  Holds-bounds s n (used {i} {n = k} q marks e rest) (inl (es, en)) = (
    omega arith,
    omega arith,
    omega (arith, Layout-stop rest),
    λ j a b. rw (← es, ← en) (marks j (omega arith) (omega arith)),
  )
  Holds-bounds s n (used q marks e rest) (inr h) =
      let (a, b, c, d) = Holds-bounds s n rest h in (omega arith, b, c, d)

module _ {entries total s n : ℕ} {m m' : Memory} (cleared : Cleared m m' entries s n) where
  -- Cleared blocks in front of a layout are free.
  Layout-cleared :
      (c i k : ℕ) {live : Allocations}
      → i + c ≡ k
      → s ≤ i
      → k ≤ s + n
      → Layout m' entries total k live
      → Layout m' entries total i live
  Layout-cleared zero i k {live} e l u layout =
      subst (λ t. Layout m' entries total t live) (omega arith) layout
  Layout-cleared (suc c) i k e l u layout =
      free (cleared.inside i l (omega arith))
        (Layout-cleared c (suc i) k (omega arith) (omega arith) u layout)

  Layout-erase :
      {i : ℕ} {live : Allocations}
      → Layout m entries total i live
      → Holds s n live
      → Layout m' entries total i (erase s live)
  unfolding erase
  Layout-erase (end e) h = absurd h
  Layout-erase (free {i} z rest) h =
      let (after, q, _, _) = Holds-bounds s n rest h in
      free (cleared.outside i (omega arith) ∙ z) (Layout-erase rest h)
  Layout-erase (used {i} {n = c} {k} {live} q marks e rest) (inl (es, en)) =
      rw (erase-first s i c live es) (
        Layout-cleared c i k (omega arith) (omega arith) (omega arith)
          (Layout-frame m' rest λ j l. cleared.outside j (inr (omega arith))))
  Layout-erase (used {i} {n = c} {k} {live} q marks e rest) (inr h) =
      let (after, _, _, _) = Holds-bounds s n rest h in
      rw (erase-later s i c live (omega arith))
        (used q (λ j a b. cleared.outside j (omega arith) ∙ marks j a b) e (Layout-erase rest h))

-- heap_free of the address of a live allocation keeps the layout and drops that allocation alone.
pub heap_free-Layout :
    (h : Heap) (s n : ℕ) (live : Allocations)
    → IsPlaced h
    → Layout h.mem h.entries h.total 0 live
    → Holds s n live
    → Layout (heap_free h (heap_block_to_address h s)).mem h.entries h.total 0 (erase s live)
unfolding heap_free
heap_free-Layout h s n live placed layout holds =
    let (_, p, fits, marks) = Holds-bounds s n layout holds in
    rw (address_to_block-block_to_address h s placed (omega arith)) (
      Layout-erase {m = h.mem}
        (record {
          inside = λ j l u.
              mem-mark_blocks_free h s n (h.entries + j) (Chain-marked h.mem h.entries s n p marks)
                fits
              ∙ ground arith;
          outside = λ j o.
              mem-mark_blocks_free h s n (h.entries + j) (Chain-marked h.mem h.entries s n p marks)
                fits
              ∙ ground arith;
        })
        layout holds)
