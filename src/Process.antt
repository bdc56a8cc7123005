-- ===== src/Process.antt =====
-- The process table and the allocations of processes of src/task/process.c. A process is its number
-- or address; kzalloc, kfree and paging_map_to act on a machine state and are an interface, which
-- the heap and the paging of the kernel fill.
pub mod Allocations
mod Examples
mod Terminate
pub mod Table
use slob_os.Prelude.{
  ℕ, zero, suc, ◌+◌, ◌*◌, ◌%◌, Bool, true, false, not, Option, none, some, ltb, leb, ◌==◌,
  if◌then◌else◌, List, [], ◌∷◌, replicate, set, get_or,
}
use slob_os.Prelude.Int.{ℤ, pos, negsuc}
use slob_os.Status.{Errno, eistkn, enomem, Result, ok, err}
use slob_os.Paging.{paging_align_address}

-- `struct process_allocation`
pub record ProcessAllocation : Type 0 where
  pub ptr : ℕ
  pub size : ℕ

-- SLOBOS_MAX_PROGRAM_ALLOCATIONS and SLOBOS_MAX_PROCESSES
abbrev pub max_program_allocations : ℕ
max_program_allocations = 1024

abbrev pub max_processes : ℕ
max_processes = 12

-- The kernel's calls that process_malloc and process_free make; `map_identity` is paging_map_to with
-- the virtual and the physical start equal, up to an end, with the flags.
pub record Kernel (S : Type 0) : Type 0 where
  pub kzalloc : S → ℕ → S × ℕ
  pub kfree : S → ℕ → S
  pub map_identity : S → (ptr end flags : ℕ) → S × Result (Unit {0})

-- PAGING_IS_WRITEABLE | PAGING_IS_PRESENT | PAGING_ACCESS_FROM_ALL
abbrev pub user_flags : ℕ
user_flags = 7

-- The loop from slot `i` on.
pub find_free_loop : List ProcessAllocation → ℕ → Result ℕ
find_free_loop [] i = err enomem
find_free_loop (a ∷ allocations) i =
    let rest = find_free_loop allocations (i + 1) in if a.ptr == 0 then ok i else rest

pub process_find_free_allocation_index : List ProcessAllocation → Result ℕ
unfolding find_free_loop
process_find_free_allocation_index allocations = find_free_loop allocations 0

pub process_is_process_pointer : List ProcessAllocation → ℕ → Bool
process_is_process_pointer [] ptr = false
process_is_process_pointer (a ∷ allocations) ptr =
    let rest = process_is_process_pointer allocations ptr in if a.ptr == ptr then true else rest

pub process_get_allocation_by_addr : List ProcessAllocation → ℕ → Option ProcessAllocation
process_get_allocation_by_addr [] addr = none
process_get_allocation_by_addr (a ∷ allocations) addr =
    let rest = process_get_allocation_by_addr allocations addr in
    if a.ptr == addr then some a else rest

-- Every slot with the pointer is cleared.
pub process_unjoin_allocation_array : List ProcessAllocation → ℕ → List ProcessAllocation
process_unjoin_allocation_array [] ptr = []
process_unjoin_allocation_array (a ∷ allocations) ptr =
    (if a.ptr == ptr then record { ptr = 0; size = 0 } else a)
    ∷ process_unjoin_allocation_array allocations ptr

module _ {S : Type 0} (kernel : Kernel S) where
  -- The pointer is given back when a later step fails.
  pub malloc_mapped :
      List ProcessAllocation
      → (index ptr size : ℕ) → S × Result (Unit {0})
      → S × (List ProcessAllocation × ℕ)
  malloc_mapped allocations index ptr size (s, ok u) =
      (s, (set allocations index (record { ptr = ptr; size = size }), ptr))
  malloc_mapped allocations index ptr size (s, err e) = (kernel.kfree s ptr, (allocations, 0))

  pub malloc_allocated :
      List ProcessAllocation → (size : ℕ) → S × ℕ → S × (List ProcessAllocation × ℕ)
  unfolding process_find_free_allocation_index malloc_mapped
  malloc_allocated allocations size (s, ptr) =
      if ptr == 0
      then (s, (allocations, 0))
      else elim (process_find_free_allocation_index allocations) [
        | err e ↦ (kernel.kfree s ptr, (allocations, 0))
        | ok index ↦
            malloc_mapped allocations index ptr size
              (kernel.map_identity s ptr (paging_align_address (ptr + size)) user_flags)
      ]

  pub process_malloc : S → List ProcessAllocation → ℕ → S × (List ProcessAllocation × ℕ)
  unfolding malloc_allocated
  process_malloc s allocations size = malloc_allocated allocations size (kernel.kzalloc s size)

  pub free_unmapped :
      List ProcessAllocation → ℕ → S × Result (Unit {0}) → S × List ProcessAllocation
  free_unmapped allocations ptr (s, err e) = (s, allocations)
  free_unmapped allocations ptr (s, ok u) =
      (kernel.kfree s ptr, process_unjoin_allocation_array allocations ptr)

  pub process_free : S → List ProcessAllocation → ℕ → S × List ProcessAllocation
  unfolding free_unmapped
  process_free s allocations ptr =
      if process_is_process_pointer allocations ptr
      then elim (process_get_allocation_by_addr allocations ptr) [
        | none ↦ (s, allocations)
        | some a ↦
            free_unmapped allocations ptr
              (kernel.map_identity s a.ptr (paging_align_address (a.ptr + a.size)) 0)
      ]
      else (s, allocations)

  -- process_terminate_allocations: each slot's pointer at the time the loop comes to it, from slot
  -- `i` on.
  pub terminate_loop : (rounds i : ℕ) → S → List ProcessAllocation → S × List ProcessAllocation
  terminate_loop zero i s allocations = (s, allocations)
  terminate_loop (suc rounds) i s allocations =
      let (s', rest) =
        process_free s allocations (get_or allocations i (record { ptr = 0; size = 0 })).ptr in
      terminate_loop rounds (i + 1) s' rest

  pub process_terminate_allocations : S → List ProcessAllocation → S × List ProcessAllocation
  unfolding terminate_loop
  process_terminate_allocations s allocations =
      terminate_loop max_program_allocations 0 s allocations

-- A linked list of arguments is a list; the loop counts it.
count_loop {ℓ} : {A : Type ℓ} → List A → ℕ → ℕ
count_loop [] i = i
count_loop (current ∷ next) i = count_loop next (i + 1)

pub process_count_command_arguments {ℓ} : {A : Type ℓ} → List A → ℕ
unfolding count_loop
process_count_command_arguments root_argument = count_loop root_argument 0

-- `processes` and `current_process`, by the processes' addresses; `none` for an empty slot.
pub record Processes : Type 0 where
  pub processes : List (Option ℕ)
  pub current_process : Option ℕ

pub process_get : Processes → ℤ → Option ℕ
process_get table (negsuc n) = none
process_get table (pos id) = if leb max_processes id then none else get_or table.processes id none

-- The loop from slot `i` on.
pub free_slot_loop : List (Option ℕ) → ℕ → Result ℕ
free_slot_loop [] i = err eistkn
free_slot_loop (none ∷ rest) i = ok i
free_slot_loop (some p ∷ rest) i = free_slot_loop rest (i + 1)

pub process_get_free_slot : Processes → Result ℕ
unfolding free_slot_loop
process_get_free_slot table = free_slot_loop table.processes 0

pub process_switch : Processes → ℕ → Processes
process_switch table process = record table { current_process = some process }

-- The last step of process_load_for_slot, once the process is loaded.
pub store_process : Processes → ℕ → ℕ → Processes
store_process table process slot = record table {
  processes = set table.processes slot (some process);
}

first_process : List (Option ℕ) → Option ℕ
first_process [] = none
first_process (none ∷ rest) = first_process rest
first_process (some p ∷ rest) = some p

-- `none` is the panic that no process is left.
pub process_switch_to_any : Processes → Option Processes
unfolding first_process process_switch
process_switch_to_any table = elim (first_process table.processes) [
  | none ↦ none
  | some p ↦ some (process_switch table p)
]

current_is : Option ℕ → ℕ → Bool
current_is none process = false
current_is (some p) process = p == process

-- The process with number `id`.
pub process_unlink : Processes → (process id : ℕ) → Option Processes
unfolding process_switch_to_any current_is
process_unlink table process id =
    let cleared : Processes = record table { processes = set table.processes id none } in
    if current_is table.current_process process then process_switch_to_any cleared else some cleared
