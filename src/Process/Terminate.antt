-- ===== src/Process/Terminate.antt =====
-- process_terminate_allocations of src/task/process.c: the loop over all slots leaves none in use.
use slob_os.Prelude.{
  ℕ, zero, suc, ◌+◌, ◌%◌, ◌^◌, ◌≤◌, sym, ◌<◌, ◌≡◌, inl, inr, refl, ap, ◌∙◌, true, some, ◌==◌,
  if◌then◌else◌, List, [], ◌∷◌, get_or, length, arith, Bool-cases, eq_cases, ne_of_test,
}
use mathlib.Core.Path.{subst}
use slob_os.Status.{ok}
use slob_os.Paging.{paging_align_address}
use slob_os.Paging.Range.{align_lem}
use slob_os.Process.{
  ProcessAllocation, Kernel, max_program_allocations, process_is_process_pointer,
  process_get_allocation_by_addr, process_unjoin_allocation_array, free_unmapped, process_free,
  terminate_loop, process_terminate_allocations,
}
use slob_os.Process.Allocations.{empty}

get_or-unjoin :
    (allocations : List ProcessAllocation) (ptr k : ℕ)
    → get_or (process_unjoin_allocation_array allocations ptr) k empty
      ≡ (if (get_or allocations k empty).ptr == ptr then empty else get_or allocations k empty)
unfolding process_unjoin_allocation_array
get_or-unjoin [] ptr k = ground arith
get_or-unjoin (a ∷ allocations) ptr zero = refl
get_or-unjoin (a ∷ allocations) ptr (suc k) = get_or-unjoin allocations ptr k

length-unjoin :
    (allocations : List ProcessAllocation) (ptr : ℕ)
    → length (process_unjoin_allocation_array allocations ptr) ≡ length allocations
unfolding process_unjoin_allocation_array
length-unjoin [] ptr = refl
length-unjoin (a ∷ allocations) ptr = ap suc (length-unjoin allocations ptr)

-- The allocation starts on a page and ends, with its last page, inside the address space.
pub record IsPlaced (a : ProcessAllocation) : Type 0 where
  pub aligned : a.ptr % 4096 ≡ 0
  pub bounded : a.ptr + a.size + 4096 ≤ 2 ^ 32

abbrev pub ArePlaced : List ProcessAllocation → Type 0
ArePlaced allocations = (k : ℕ) → IsPlaced (get_or allocations k empty)

-- The end of its last page.
end_of_pages :
    (a : ProcessAllocation)
    → IsPlaced a
    → (paging_align_address (a.ptr + a.size) % 4096 ≡ 0)
      × (a.ptr ≤ paging_align_address (a.ptr + a.size))
      × (paging_align_address (a.ptr + a.size) < 2 ^ 32)
end_of_pages a placed =
    let low = placed.aligned in
    let high = placed.bounded in
    let (lower, below, above, aligned, reached) = align_lem (a.ptr + a.size) (omega arith) in
    elim reached [
      | inl (up, lt) ↦ (aligned, omega arith, omega arith)
      | inr (late, e) ↦ absurd (omega arith)
    ]

-- A slot's pointer is one of the process, and some slot has it.
slot_pointer :
    (allocations : List ProcessAllocation) (i : ℕ)
    → i < length allocations
    → (process_is_process_pointer allocations (get_or allocations i empty).ptr ≡ true)
      × ((a : ProcessAllocation) × (k : ℕ) × (process_get_allocation_by_addr allocations
              (get_or allocations i empty).ptr
            ≡ some a)
          × (get_or allocations k empty ≡ a))
unfolding process_is_process_pointer process_get_allocation_by_addr
slot_pointer [] i small = absurd (omega arith)
slot_pointer (a ∷ allocations) zero small =
    let same : (a.ptr == a.ptr) ≡ true = ground arith in
    (rw (same) refl, (a, 0, rw (same) refl, refl))
slot_pointer (a ∷ allocations) (suc i) small =
    let (found, (b, k, looked_up, at)) = slot_pointer allocations i (omega arith) in
    elim (Bool-cases (a.ptr == (get_or allocations i empty).ptr)) [
      | inl t ↦ (rw (t) refl, (a, 0, rw (t) refl, refl))
      | inr f ↦ (rw (f) found, (b, suc k, rw (f) looked_up, at))
    ]

-- After slot `i` is freed, the slots up to it are empty.
cleared :
    (allocations : List ProcessAllocation) (i k : ℕ)
    → ((k : ℕ) → k < i → get_or allocations k empty ≡ empty)
    → k < i + 1
    → (if (get_or allocations k empty).ptr == (get_or allocations i empty).ptr
        then empty
        else get_or allocations k empty)
      ≡ empty
cleared allocations i k below lt =
    elim (Bool-cases ((get_or allocations k empty).ptr == (get_or allocations i empty).ptr)) [
      | inl t ↦ rw (t) refl
      | inr f ↦ elim (eq_cases k i) [
        | inl same ↦
            let e : (get_or allocations k empty).ptr ≡ (get_or allocations i empty).ptr =
              ap (λ n. (get_or allocations n empty).ptr) same in
            absurd (ne_of_test _ _ f e)
        | inr (inl before) ↦ rw (f) (below k before)
        | inr (inr after) ↦ absurd (omega arith)
      ]
    ]

empty-IsPlaced : IsPlaced empty
empty-IsPlaced = record { aligned = refl; bounded = omega arith }

unjoined-IsPlaced :
    (allocations : List ProcessAllocation) (i k : ℕ)
    → ArePlaced allocations
    → IsPlaced (
        if (get_or allocations k empty).ptr == (get_or allocations i empty).ptr
        then empty
        else get_or allocations k empty)
unjoined-IsPlaced allocations i k placed =
    elim (Bool-cases ((get_or allocations k empty).ptr == (get_or allocations i empty).ptr)) [
      | inl t ↦ rw (t) empty-IsPlaced
      | inr f ↦ rw (f) (placed k)
    ]

module _ {S : Type 0} (kernel : Kernel S)
    (unmaps : (s : S) (ptr end : ℕ)
      → ptr % 4096 ≡ 0
      → end % 4096 ≡ 0
      → ptr ≤ end
      → end < 2 ^ 32
      → (t : S) × (kernel.map_identity s ptr end 0 ≡ (t, ok tt))) where
  process_free-slot :
      (s : S) (allocations : List ProcessAllocation) (i : ℕ)
      → i < length allocations
      → ArePlaced allocations
      → (process_free kernel s allocations (get_or allocations i empty).ptr).1
        ≡ process_unjoin_allocation_array allocations (get_or allocations i empty).ptr
  unfolding process_free free_unmapped
  process_free-slot s allocations i small placed =
      let (found, (a, k, looked_up, at)) = slot_pointer allocations i small in
      let here : IsPlaced a = subst IsPlaced at (placed k) in
      let (aligned, after, inside) = end_of_pages a here in
      let (t, unmapped) =
        unmaps s a.ptr (paging_align_address (a.ptr + a.size)) here.aligned aligned after inside in
      rw (found, looked_up, process_free)
        (ap (λ r. (free_unmapped kernel allocations (get_or allocations i empty).ptr r).1) unmapped)

  terminate_loop-empty :
      (rounds i : ℕ) (s : S) (allocations : List ProcessAllocation)
      → length allocations ≡ i + rounds
      → ArePlaced allocations
      → ((k : ℕ) → k < i → get_or allocations k empty ≡ empty)
      → (k : ℕ) → k < i + rounds
      → get_or (terminate_loop kernel rounds i s allocations).1 k empty ≡ empty
  unfolding terminate_loop
  terminate_loop-empty zero i s allocations len placed below k lt = below k (omega arith)
  terminate_loop-empty (suc rounds) i s allocations len placed below k lt =
      let next : List ProcessAllocation =
        (process_free kernel s allocations (get_or allocations i empty).ptr).1 in
      let e : next ≡ process_unjoin_allocation_array allocations (get_or allocations i empty).ptr =
        process_free-slot s allocations i (omega arith) placed in
      terminate_loop-empty rounds (i + 1)
        (process_free kernel s allocations (get_or allocations i empty).ptr).0 next
        (ap length e ∙ length-unjoin allocations (get_or allocations i empty).ptr ∙ omega arith)
        (λ k.
          subst IsPlaced
            (sym (
              ap (λ slots. get_or slots k empty) e
              ∙ get_or-unjoin allocations (get_or allocations i empty).ptr k))
            (unjoined-IsPlaced allocations i k placed))
        (λ k lt.
          ap (λ slots. get_or slots k empty) e
          ∙ get_or-unjoin allocations (get_or allocations i empty).ptr k
          ∙ cleared allocations i k below lt)
        k (omega arith)

  -- Where the kernel can unmap every range of whole pages of the address space, and every allocation
  -- of the table starts on a page and ends, with its last page, inside the address space, no slot of
  -- the table holds an allocation once the allocations are terminated.
  pub process_terminate_allocations-empty :
      (s : S) (allocations : List ProcessAllocation) (k : ℕ)
      → length allocations ≡ max_program_allocations
      → ArePlaced allocations
      → k < max_program_allocations
      → get_or (process_terminate_allocations kernel s allocations).1 k empty ≡ empty
  unfolding process_terminate_allocations
  process_terminate_allocations-empty s allocations k len placed small =
      terminate_loop-empty 1024 0 s allocations len placed (λ i lt. absurd (omega arith)) k small
