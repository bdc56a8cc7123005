-- ===== src/Process/Examples.antt =====
-- The theorems on processes at a kernel whose calls succeed and count themselves.
use slob_os.Prelude.{
  ◌%◌, ◌^◌, ◌≤◌, ◌<◌, ℕ, zero, suc, ◌+◌, ◌≡◌, ◌≢◌, ◌⊎◌, inl, inr, refl, arith, ap, some_inj, false,
  Option, none, some, List, [], ◌∷◌, get_or, replicate, length,
}
use slob_os.Prelude.Int.{pos}
use slob_os.Status.{eistkn, ok, err}
use slob_os.Process.{
  ProcessAllocation, Kernel, Processes, process_malloc, process_free,
  process_get_allocation_by_addr, process_is_process_pointer, process_terminate_allocations,
  process_get, process_get_free_slot, store_process, process_unlink,
}
use slob_os.Process.Allocations.{empty, IsClean, IsFull, process_free-process_malloc}
use slob_os.Paging.{Words, paging_map_to}
use slob_os.Paging.Range.{paging_map_to_ok}
use slob_os.Process.Terminate.{ArePlaced, process_terminate_allocations-empty}
use slob_os.Process.Table.{AreTaken, store_process-free_slot, process_unlink_lem}

abbrev counting : Kernel ℕ
counting = record {
  kzalloc = λ s size. (s + 1, 4096);
  kfree = λ s ptr. s + 1;
  map_identity = λ s ptr end flags. (s + 1, ok tt);
}

-- A slot in use, and a free one.
abbrev allocations : List ProcessAllocation
allocations = record { ptr = 8192; size = 10 } ∷ empty ∷ []

allocations-IsClean : IsClean allocations
unfolding IsClean
allocations-IsClean = (inr (omega arith), (inl refl, tt))

not_held : process_is_process_pointer allocations 4096 ≡ false
unfolding process_is_process_pointer
not_held = refl

process_free-process_malloc_example :
    IsFull allocations
    ⊎ ((held : List ProcessAllocation) × ((process_malloc counting 0 allocations 20
            ≡ (2, (held, 4096)))
          × ((process_get_allocation_by_addr held 4096 ≡ some (record { ptr = 4096; size = 20 }))
              × (process_free counting 2 held 4096 ≡ (4, allocations)))))
process_free-process_malloc_example =
    process_free-process_malloc counting 0 1 2 3 allocations 20 4096 refl refl refl (omega arith)
      not_held allocations-IsClean

length-replicate {ℓ} : {A : Type ℓ} (n : ℕ) (a : A) → length (replicate n a) ≡ n
length-replicate zero a = refl
length-replicate (suc n) a = ap suc (length-replicate n a)

-- The kernel's page tables, with the directory at 0x1000; kzalloc gives one address.
abbrev paged : Kernel Words
paged = record {
  kzalloc = λ w size. (w, 0x2000);
  kfree = λ w ptr. w;
  map_identity = λ w ptr end flags. paging_map_to w 0x1000 ptr ptr end flags;
}

paged-unmaps :
    (w : Words) (ptr end : ℕ)
    → ptr % 4096 ≡ 0
    → end % 4096 ≡ 0
    → ptr ≤ end
    → end < 2 ^ 32
    → (t : Words) × (paged.map_identity w ptr end 0 ≡ (t, ok tt))
paged-unmaps w ptr end p e le lt =
    paging_map_to_ok w 0x1000 ptr ptr end 0 (record { on_page = p; in_space = omega arith })
      (record { on_page = p; in_space = omega arith }) e le

abbrev all_used : List ProcessAllocation
all_used = replicate 1024 (record { ptr = 8192; size = 10 })

used-ArePlaced : (n : ℕ) → ArePlaced (replicate n (record { ptr = 8192; size = 10 }))
used-ArePlaced zero k = record { aligned = refl; bounded = omega arith }
used-ArePlaced (suc n) zero = record { aligned = refl; bounded = omega arith }
used-ArePlaced (suc n) (suc k) = used-ArePlaced n k

process_terminate_allocations-empty_example :
    get_or (process_terminate_allocations paged (λ a. 0) all_used).1 5 empty ≡ empty
process_terminate_allocations-empty_example =
    process_terminate_allocations-empty paged paged-unmaps (λ a. 0) all_used 5
      (length-replicate {A = ProcessAllocation} 1024 (record { ptr = 8192; size = 10 }))
      (used-ArePlaced 1024) (omega arith)

-- Two processes, the first of them current.
abbrev table : Processes
table = record { processes = some 100 ∷ some 200 ∷ replicate 10 none; current_process = some 100 }

store_process-free_slot_example :
    (AreTaken table.processes 12 × (process_get_free_slot table ≡ err eistkn))
    ⊎ ((j : ℕ) × ((process_get_free_slot table ≡ ok j)
          × (AreTaken table.processes j
              × ((process_get table (pos j) ≡ none)
                  × ((process_get (store_process table 300 j) (pos j) ≡ some 300)
                      × ((◌≡◌ {A = ℕ} 1 j)
                          ⊎ (process_get (store_process table 300 j) (pos 1)
                              ≡ process_get table (pos 1))))))))
store_process-free_slot_example = store_process-free_slot table 300 1 refl

no_process : (n k : ℕ) → ¬ (get_or {A = Option ℕ} (replicate n none) k none ≡ some 100)
no_process zero k e = absurd cc
no_process (suc n) zero e = absurd cc
no_process (suc n) (suc k) e = no_process n k e

only_first : (k : ℕ) → get_or table.processes k none ≡ some 100 → k ≡ 0
only_first zero e = refl
only_first (suc zero) e = let same : ◌≡◌ {A = ℕ} 200 100 = some_inj e in absurd (omega arith)
only_first (suc (suc k)) e = absurd (no_process 10 k e)

process_unlink_lem_example :
    ((table.current_process ≡ some 100)
      × (((k : ℕ) → get_or {A = Option ℕ} (none ∷ some 200 ∷ replicate 10 none) k none ≡ none)
          × (process_unlink table 100 0 ≡ none)))
    ⊎ ((table' : Processes) × ((process_unlink table 100 0 ≡ some table')
          × ((table'.processes ≡ none ∷ some 200 ∷ replicate 10 none)
              × ((process_get table' (pos 0) ≡ none)
                  × ((table'.current_process ≢ some 100)
                      × (((table.current_process ≡ some 100)
                            × ((p i : ℕ) × ((get_or {A = Option ℕ}
                                      (none ∷ some 200 ∷ replicate 10 none)
                                      i
                                      none
                                    ≡ some p)
                                  × (table'.current_process ≡ some p))))
                          ⊎ (table'.current_process ≡ table.current_process)))))))
process_unlink_lem_example = process_unlink_lem table 100 0 (omega arith) (omega arith) only_first
