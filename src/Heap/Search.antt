-- ===== src/Heap/Search.antt =====
-- heap_get_start_block: which run of free blocks the search of the table finds.
use slob_os.Prelude.{
  ℕ, zero, suc, ◌+◌, ◌≤◌, ◌<◌, ◌≡◌, inl, inr, refl, sym, ◌∙◌, true, false, Option, none, some,
  arith, some_inj, eq_of_test, ne_of_test, ◌==◌, Bool-cases, lt_cases,
}
use mathlib.Core.Path.{subst}
use slob_os.Heap.{
  Heap, entry, heap_get_entry_type, start_or, start_block_loop, heap_get_start_block,
}

-- The search tests the low four bits of an entry only.
abbrev pub IsFree : Heap → ℕ → Type 0
IsFree h i = heap_get_entry_type (entry h i) ≡ 0

-- The `n` blocks from `s` on are free.
abbrev pub FreeRun : Heap → ℕ → ℕ → Type 0
FreeRun h s n = (j : ℕ) → s ≤ j → j < s + n → IsFree h j

-- Before index `i` the loop has counted `bc` free blocks, the first of them at `bs`.
abbrev Counted : Heap → ℕ → ℕ → Option ℕ → Type 0
Counted h i bc none = bc ≡ 0
Counted h i bc (some s) = (s + bc ≡ i) × (0 < bc) × ((j : ℕ) → s ≤ j → j < i → IsFree h j)

module _ (h : Heap) (need : ℕ) where
  Counted-next :
      (i bc : ℕ) (bs : Option ℕ)
      → Counted h i bc bs
      → IsFree h i
      → Counted h (i + 1) (bc + 1) (some (start_or bs i))
  Counted-next i bc none c free =
      (omega arith, omega arith, λ j l u. let e : j ≡ i = omega arith in rw e free)
  Counted-next i bc (some s) c free = (
    omega arith,
    omega arith,
    λ j l u. elim (lt_cases j i) [
      | inl earlier ↦ c.2 j l earlier
      | inr last ↦ let e : j ≡ i = omega arith in rw e free
    ],
  )

  start_block_loop-taken :
      (rounds i bc : ℕ) (bs : Option ℕ)
      → (heap_get_entry_type (entry h i) == 0) ≡ false
      → start_block_loop h need (suc rounds) i bc bs ≡ start_block_loop h need rounds (i + 1) 0 none
  unfolding start_block_loop
  start_block_loop-taken rounds i bc bs t = rw t

  start_block_loop-hit :
      (rounds i bc : ℕ) (bs : Option ℕ)
      → (heap_get_entry_type (entry h i) == 0) ≡ true
      → (bc + 1 == need) ≡ true
      → start_block_loop h need (suc rounds) i bc bs ≡ some (start_or bs i)
  unfolding start_block_loop
  start_block_loop-hit rounds i bc bs t e = rw (t, e)

  start_block_loop-more :
      (rounds i bc : ℕ) (bs : Option ℕ)
      → (heap_get_entry_type (entry h i) == 0) ≡ true
      → (bc + 1 == need) ≡ false
      → start_block_loop h need (suc rounds) i bc bs
        ≡ start_block_loop h need rounds (i + 1) (bc + 1) (some (start_or bs i))
  unfolding start_block_loop
  start_block_loop-more rounds i bc bs t e = rw (t, e)

  -- What the loop gives starts at a free block, and as far as the search has seen all is free.
  abbrev Found : (stop s : ℕ) → Type 0
  Found stop s = (s < stop) × ((j : ℕ) → s ≤ j → j < s + need → j < stop → IsFree h j)

  hit_Found :
      (i bc : ℕ) (bs : Option ℕ) (stop : ℕ)
      → i < stop
      → Counted h (i + 1) (bc + 1) (some (start_or bs i))
      → bc + 1 ≡ need
      → Found stop (start_or bs i)
  hit_Found i bc bs stop lt c e = (omega arith, λ j l u k. c.2 j l (omega arith))

  start_block_loop_sound :
      (rounds i bc : ℕ) (bs : Option ℕ) {s : ℕ} (stop : ℕ)
      → i + rounds ≡ stop
      → Counted h i bc bs
      → start_block_loop h need rounds i bc bs ≡ some s
      → Found stop s
  unfolding start_block_loop
  start_block_loop_sound zero i bc none stop st c e = cc
  start_block_loop_sound zero i bc (some t) stop st c e =
      subst (Found stop) (some_inj e) (omega arith, λ j l u k. c.2 j l (omega arith))
  start_block_loop_sound (suc rounds) i bc bs stop st c e =
      elim (Bool-cases (heap_get_entry_type (entry h i) == 0)) [
        | inl t ↦ elim (Bool-cases (bc + 1 == need)) [
          | inl hit ↦
              subst (Found stop) (some_inj (sym (start_block_loop-hit rounds i bc bs t hit) ∙ e)) (
                hit_Found i bc bs stop (omega arith) (Counted-next i bc bs c (eq_of_test _ _ t))
                  (eq_of_test _ _ hit))
          | inr more ↦
              start_block_loop_sound rounds (i + 1) (bc + 1) (some (start_or bs i)) stop
                (omega arith) (Counted-next i bc bs c (eq_of_test _ _ t))
                (sym (start_block_loop-more rounds i bc bs t more) ∙ e)
        ]
        | inr t ↦
            start_block_loop_sound rounds (i + 1) 0 none stop (omega arith) refl
              (sym (start_block_loop-taken rounds i bc bs t) ∙ e)
      ]

  -- A block that is taken does not lie in a run of free blocks.
  before :
      {bc : ℕ} (i r : ℕ)
      → (heap_get_entry_type (entry h i) == 0) ≡ false
      → i ≤ r + bc
      → bc < need
      → FreeRun h r need
      → i + 1 ≤ r + 0
  before i r t le lt run = elim (lt_cases i r) [
    | inl l ↦ omega arith
    | inr g ↦ absurd (ne_of_test _ _ t (run i g (omega arith)))
  ]

  -- A run of `need` free blocks that the search has not passed is never passed over.
  start_block_loop_complete :
      (rounds i bc : ℕ) (bs : Option ℕ) (r : ℕ)
      → Counted h i bc bs
      → bc < need
      → i ≤ r + bc
      → r + need ≤ i + rounds
      → FreeRun h r need
      → (s : ℕ) × (start_block_loop h need rounds i bc bs ≡ some s) × (s ≤ r)
  start_block_loop_complete zero i bc bs r c lt le fits run = absurd (omega arith)
  start_block_loop_complete (suc rounds) i bc bs r c lt le fits run =
      elim (Bool-cases (heap_get_entry_type (entry h i) == 0)) [
        | inl t ↦ elim (Bool-cases (bc + 1 == need)) [
          | inl hit ↦ (
            start_or bs i,
            start_block_loop-hit rounds i bc bs t hit,
            omega (arith, (Counted-next i bc bs c (eq_of_test _ _ t)).0),
          )
          | inr more ↦ rw (start_block_loop-more rounds i bc bs t more) (
              start_block_loop_complete rounds (i + 1) (bc + 1) (some (start_or bs i)) r
                (Counted-next i bc bs c (eq_of_test _ _ t)) (ground arith) (omega arith)
                (omega arith) run)
        ]
        | inr t ↦ rw (start_block_loop-taken rounds i bc bs t) (
            start_block_loop_complete rounds (i + 1) 0 none r refl (omega arith)
              (before i r t le lt run) (omega arith) run)
      ]

  -- The search is sound: the block it gives is in the table, and `need` blocks from it on are free
  -- as far as the table reaches.
  pub get_start_block_sound :
      {s : ℕ}
      → heap_get_start_block h need ≡ some s
      → (s < h.total) × ((j : ℕ) → s ≤ j → j < s + need → j < h.total → IsFree h j)
  unfolding heap_get_start_block
  get_start_block_sound e = start_block_loop_sound h.total 0 0 none h.total (omega arith) refl e

  -- The search is first fit: it gives a block no later than any run that is long enough.
  pub get_start_block_complete :
      (r : ℕ)
      → 0 < need
      → r + need ≤ h.total
      → FreeRun h r need
      → (s : ℕ) × (heap_get_start_block h need ≡ some s) × (s ≤ r)
  unfolding heap_get_start_block
  get_start_block_complete r p fits run =
      start_block_loop_complete h.total 0 0 none r refl p (omega arith) (omega arith) run

  -- With its last block free the table's search always gives a block.
  start_block_loop_last :
      (rounds i bc : ℕ) (bs : Option ℕ) (last : ℕ)
      → i + rounds ≡ suc last
      → IsFree h last
      → ((rounds ≡ 0) → (s : ℕ) × (bs ≡ some s))
      → (s : ℕ) × (start_block_loop h need rounds i bc bs ≡ some s)
  unfolding start_block_loop
  start_block_loop_last zero i bc bs last e free some_yet = some_yet refl
  start_block_loop_last (suc rounds) i bc bs last e free some_yet =
      elim (Bool-cases (heap_get_entry_type (entry h i) == 0)) [
        | inl t ↦ elim (Bool-cases (bc + 1 == need)) [
          | inl hit ↦ (start_or bs i, start_block_loop-hit rounds i bc bs t hit)
          | inr more ↦ rw (start_block_loop-more rounds i bc bs t more) (
              start_block_loop_last rounds (i + 1) (bc + 1) (some (start_or bs i)) last
                (omega arith) free (λ z. (start_or bs i, refl)))
        ]
        | inr t ↦ rw (start_block_loop-taken rounds i bc bs t) (
            start_block_loop_last rounds (i + 1) 0 none last (omega arith) free
              (λ z. let same : i ≡ last = omega arith in absurd (ne_of_test _ _ t (rw same free))))
      ]

  pub get_start_block_some :
      (last : ℕ)
      → h.total ≡ suc last
      → IsFree h last
      → (s : ℕ) × (heap_get_start_block h need ≡ some s)
  unfolding heap_get_start_block
  get_start_block_some last e free =
      start_block_loop_last h.total 0 0 none last (omega arith) free (λ z. absurd (omega arith))

  -- Where no run is long enough but the last block is free, the search still gives a block, and
  -- `need` blocks from it reach past the end of the table.
  pub get_start_block_overrun :
      (last : ℕ)
      → h.total ≡ suc last
      → IsFree h last
      → ((r : ℕ) → r + need ≤ h.total → ¬ FreeRun h r need)
      → (s : ℕ) × (heap_get_start_block h need ≡ some s) × (h.total < s + need)
  get_start_block_overrun last e free no_run =
      let (s, found) = get_start_block_some last e free in
      (
        s,
        found,
        elim (lt_cases h.total (s + need)) [
          | inl past ↦ past
          | inr fits ↦
              absurd (no_run s fits λ j l u. (get_start_block_sound found).1 j l u (omega arith))
        ],
      )
