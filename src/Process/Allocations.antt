-- ===== src/Process/Allocations.antt =====
-- The allocations of a process, of src/task/process.c: what process_malloc enters into the table,
-- process_free finds there and takes out again.
use slob_os.Prelude.{
  ℕ, suc, ◌+◌, ◌<◌, ◌≡◌, ◌⊎◌, inl, inr, refl, sym, ap, ◌∙◌, true, false, some, ◌==◌, List, [], ◌∷◌,
  set, arith,
}
use slob_os.Status.{enomem, ok, err}
use slob_os.Paging.{paging_align_address}
use slob_os.Process.{
  ProcessAllocation, Kernel, user_flags, find_free_loop, process_find_free_allocation_index,
  process_is_process_pointer, process_get_allocation_by_addr, process_unjoin_allocation_array,
  malloc_mapped, malloc_allocated, process_malloc, free_unmapped, process_free,
}

abbrev pub empty : ProcessAllocation
empty = record { ptr = 0; size = 0 }

-- A slot without a pointer is empty.
unfoldable pub IsClean : List ProcessAllocation → Type 0
IsClean [] = Unit {0}
IsClean (a ∷ allocations) = ((a ≡ empty) ⊎ (0 < a.ptr)) × IsClean allocations

-- Every slot has a pointer.
unfoldable pub IsFull : List ProcessAllocation → Type 0
IsFull [] = Unit {0}
IsFull (a ∷ allocations) = (0 < a.ptr) × IsFull allocations

-- How the table with `a` in slot `j` relates to the table without.
pub record Entered (allocations : List ProcessAllocation) (a : ProcessAllocation) (j : ℕ)
    : Type 0 where
  pub found : process_is_process_pointer (set allocations j a) a.ptr ≡ true
  pub looked_up : process_get_allocation_by_addr (set allocations j a) a.ptr ≡ some a
  pub left : process_unjoin_allocation_array (set allocations j a) a.ptr ≡ allocations

fresh_split :
    (b : ProcessAllocation) (allocations : List ProcessAllocation) (ptr : ℕ)
    → process_is_process_pointer (b ∷ allocations) ptr ≡ false
    → ((b.ptr == ptr) ≡ false) × (process_is_process_pointer allocations ptr ≡ false)
unfolding process_is_process_pointer
fresh_split b allocations ptr fresh = ground arith

unjoin_fresh :
    (allocations : List ProcessAllocation) (ptr : ℕ)
    → process_is_process_pointer allocations ptr ≡ false
    → process_unjoin_allocation_array allocations ptr ≡ allocations
unfolding process_unjoin_allocation_array
unjoin_fresh [] ptr fresh = refl
unjoin_fresh (b ∷ allocations) ptr fresh =
    let (other, rest) = fresh_split b allocations ptr fresh in
    rw (other) (ap (λ bs. b ∷ bs) (unjoin_fresh allocations ptr rest))

-- The search finds a slot that the allocation can enter, unless every slot is taken.
find_free_loop-Entered :
    (allocations : List ProcessAllocation) (a : ProcessAllocation) (i : ℕ)
    → 0 < a.ptr
    → process_is_process_pointer allocations a.ptr ≡ false
    → IsClean allocations
    → (IsFull allocations × (find_free_loop allocations i ≡ err enomem))
      ⊎ ((j : ℕ) × ((find_free_loop allocations i ≡ ok (i + j)) × Entered allocations a j))
unfolding find_free_loop process_is_process_pointer process_get_allocation_by_addr
    process_unjoin_allocation_array IsClean IsFull
find_free_loop-Entered [] a i nonzero fresh clean = inl (tt, refl)
find_free_loop-Entered (b ∷ allocations) a i nonzero fresh (clean, rest_clean) =
    let (other, rest) = fresh_split b allocations a.ptr fresh in
    let same : (a.ptr == a.ptr) ≡ true = ground arith in
    elim clean [
      | inl is_empty ↦
          let free : (b.ptr == 0) ≡ true = ap (λ c. c.ptr == 0) is_empty in
          let here : i ≡ i + 0 = omega arith in
          inr (
            0,
            (
              rw (free) (ap ok here),
              record {
                found = rw (same) refl;
                looked_up = rw (same) refl;
                left =
                    rw (same, unjoin_fresh allocations a.ptr rest)
                      (ap (λ c. c ∷ allocations) (sym is_empty));
              },
            ),
          )
      | inr taken ↦
          let not_free : (b.ptr == 0) ≡ false = ground arith in
          elim (find_free_loop-Entered allocations a (i + 1) nonzero rest rest_clean) [
            | inl (full, e) ↦ inl ((taken, full), rw (not_free) e)
            | inr (j, (e, entered)) ↦
                let there : i + 1 + j ≡ i + suc j = omega arith in
                inr (
                  suc j,
                  (
                    rw (not_free) (e ∙ ap ok there),
                    record {
                      found = rw (other) entered.found;
                      looked_up = rw (other) entered.looked_up;
                      left = rw (other) (ap (λ bs. b ∷ bs) entered.left);
                    },
                  ),
                )
          ]
    ]

module _ {S : Type 0} (kernel : Kernel S) where
  -- What process_malloc does for a pointer that kzalloc gives and that the process does not hold:
  -- with a full table the pointer is given back and the result is 0. Else, when the pages can be
  -- mapped, the result is the pointer, which the table then holds with its size; when they cannot,
  -- the pointer is given back and the result is 0.
  pub process_malloc_lem :
      (s s' : S) (allocations : List ProcessAllocation) (size ptr : ℕ)
      → kernel.kzalloc s size ≡ (s', ptr)
      → 0 < ptr
      → process_is_process_pointer allocations ptr ≡ false
      → IsClean allocations
      → (IsFull allocations
          × (process_malloc kernel s allocations size ≡ (kernel.kfree s' ptr, (allocations, 0))))
        ⊎ ((j : ℕ) × (Entered allocations (record { ptr = ptr; size = size }) j
              × (process_malloc kernel s allocations size
                  ≡ malloc_mapped kernel allocations j ptr size
                      (kernel.map_identity s' ptr (paging_align_address (ptr + size)) user_flags))))
  unfolding process_malloc malloc_allocated process_find_free_allocation_index
  process_malloc_lem s s' allocations size ptr allocated nonzero fresh clean =
      let not_0 : (ptr == 0) ≡ false = ground arith in
      elim (find_free_loop-Entered allocations (record { ptr = ptr; size = size }) 0 nonzero fresh
        clean) [
          | inl (full, e) ↦ inl (
            full,
            ap (malloc_allocated kernel allocations size) allocated
                ∙ rw (not_0, e, malloc_allocated) refl,
          )
          | inr (j, (e, entered)) ↦
              let start : 0 + j ≡ j = omega arith in
              inr (
                j,
                (
                  entered,
                  ap (malloc_allocated kernel allocations size) allocated
                      ∙ rw (not_0, e, start, malloc_allocated) refl,
                ),
              )
        ]

  -- process_free undoes process_malloc: when kzalloc gives a new pointer and its pages can be mapped
  -- and unmapped, then, unless every slot is taken, the pointer is found with its size, and freeing
  -- it gives back the pointer and leaves the table as it was.
  pub process_free-process_malloc :
      (s s' t u : S) (allocations : List ProcessAllocation) (size ptr : ℕ)
      → kernel.kzalloc s size ≡ (s', ptr)
      → kernel.map_identity s' ptr (paging_align_address (ptr + size)) user_flags ≡ (t, ok tt)
      → kernel.map_identity t ptr (paging_align_address (ptr + size)) 0 ≡ (u, ok tt)
      → 0 < ptr
      → process_is_process_pointer allocations ptr ≡ false
      → IsClean allocations
      → IsFull allocations
        ⊎ ((held : List ProcessAllocation) × ((process_malloc kernel s allocations size
                ≡ (t, (held, ptr)))
              × ((process_get_allocation_by_addr held ptr
                    ≡ some (record { ptr = ptr; size = size }))
                  × (process_free kernel t held ptr ≡ (kernel.kfree u ptr, allocations)))))
  unfolding malloc_mapped process_free free_unmapped
  process_free-process_malloc s s' t u allocations size ptr allocated mapped unmapped nonzero fresh
        clean =
      elim (process_malloc_lem s s' allocations size ptr allocated nonzero fresh clean) [
        | inl (full, e) ↦ inl full
        | inr (j, (entered, e)) ↦ inr (
          set allocations j (record { ptr = ptr; size = size }),
          (
            e ∙ ap (malloc_mapped kernel allocations j ptr size) mapped,
            (
              entered.looked_up,
              rw (entered.found, entered.looked_up, process_free)
                  (ap
                      (free_unmapped kernel (set allocations j (record { ptr = ptr; size = size }))
                        ptr)
                      unmapped
                    ∙ ap (λ rest. (kernel.kfree u ptr, rest)) entered.left),
            ),
          ),
        )
      ]
