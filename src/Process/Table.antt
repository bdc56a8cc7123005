-- ===== src/Process/Table.antt =====
-- The table of processes of src/task/process.c: a process goes into the first free slot, is found
-- there by its number, and leaves the table with a valid current process.
use slob_os.Prelude.{
  ℕ, zero, suc, ◌+◌, ◌<◌, ◌≡◌, ◌≢◌, ◌⊎◌, inl, inr, refl, sym, ap, ◌∙◌, false, true, Option, none,
  some, leb, List, [], ◌∷◌, get_or, set, length, arith, Bool-cases, eq_cases, ne_of_test,
  eq_of_test, some_inj,
}
use slob_os.Prelude.Int.{pos}
use mathlib.Core.Path.{subst}
use slob_os.Status.{ok, err, eistkn}
use slob_os.Process.{
  Processes, max_processes, process_get, free_slot_loop, process_get_free_slot, store_process,
  first_process, process_switch_to_any, current_is, process_unlink, process_switch, count_loop,
  process_count_command_arguments,
}

-- The slots before `n` all have a process.
pub AreTaken : List (Option ℕ) → ℕ → Type 0
AreTaken slots n = (k : ℕ) → k < n → ¬ (get_or slots k none ≡ none)

taken_cons :
    (p : ℕ) (slots : List (Option ℕ)) (n : ℕ) → AreTaken slots n → AreTaken (some p ∷ slots) (suc n)
unfolding AreTaken
taken_cons p slots n taken zero lt e = absurd cc
taken_cons p slots n taken (suc k) lt e = taken k (omega arith) e

free_slot_lem :
    (slots : List (Option ℕ)) (i : ℕ)
    → (AreTaken slots (length slots) × (free_slot_loop slots i ≡ err eistkn))
      ⊎ ((j : ℕ) × ((j < length slots)
            × ((get_or slots j none ≡ none)
                × (AreTaken slots j × (free_slot_loop slots i ≡ ok (i + j))))))
unfolding free_slot_loop AreTaken
free_slot_lem [] i = inl ((λ k lt. absurd (omega arith)), refl)
free_slot_lem (none ∷ slots) i =
    inr (0, (omega arith, (refl, ((λ k lt. absurd (omega arith)), ap ok (omega arith)))))
free_slot_lem (some p ∷ slots) i = elim (free_slot_lem slots (i + 1)) [
  | inl (full, e) ↦ inl (taken_cons p slots (length slots) full, e)
  | inr (j, (small, (free, (taken, e)))) ↦
      inr (suc j, (omega arith, (free, (taken_cons p slots j taken, e ∙ ap ok (omega arith)))))
]

get_or-set_self :
    (slots : List (Option ℕ)) (j : ℕ) (v : Option ℕ)
    → j < length slots
    → get_or (set slots j v) j none ≡ v
get_or-set_self [] j v lt = absurd (omega arith)
get_or-set_self (x ∷ slots) zero v lt = refl
get_or-set_self (x ∷ slots) (suc j) v lt = get_or-set_self slots j v (omega arith)

get_or-set_ne :
    (slots : List (Option ℕ)) (j k : ℕ) (v : Option ℕ)
    → j ≢ k
    → get_or (set slots j v) k none ≡ get_or slots k none
get_or-set_ne [] j k v ne = refl
get_or-set_ne (x ∷ slots) zero zero v ne = absurd (ne refl)
get_or-set_ne (x ∷ slots) zero (suc k) v ne = refl
get_or-set_ne (x ∷ slots) (suc j) zero v ne = refl
get_or-set_ne (x ∷ slots) (suc j) (suc k) v ne = get_or-set_ne slots j k v (λ e. ne (ap suc e))

process_get-small :
    (table : Processes) (i : ℕ)
    → i < max_processes
    → process_get table (pos i) ≡ get_or table.processes i none
unfolding process_get
process_get-small table i small =
    let in_table : leb 12 i ≡ false = ground arith in rw (in_table) refl

others :
    (table : Processes) (process j k : ℕ)
    → (k ≡ j)
      ⊎ (process_get (record table { processes = set table.processes j (some process) }) (pos k)
          ≡ process_get table (pos k))
unfolding process_get
others table process j k = elim (eq_cases k j) [
  | inl same ↦ inl same
  | inr other ↦
      let ne : j ≢ k =
        λ e. elim other [ inl lt ↦ absurd (omega arith) | inr gt ↦ absurd (omega arith) ] in
      inr (rw (get_or-set_ne table.processes j k (some process) ne) refl)
]

-- What loading a process does to the table of 12 slots. Either each slot has a process and the
-- search fails with EISTKN; or the first free slot is found, has no process when it is tested, and
-- takes the new one, which process_get then finds there; every other number finds what it found
-- before.
pub store_process-free_slot :
    (table : Processes) (process k : ℕ)
    → length table.processes ≡ max_processes
    → (AreTaken table.processes max_processes × (process_get_free_slot table ≡ err eistkn))
      ⊎ ((j : ℕ) × ((process_get_free_slot table ≡ ok j)
            × (AreTaken table.processes j
                × ((process_get table (pos j) ≡ none)
                    × ((process_get (store_process table process j) (pos j) ≡ some process)
                        × ((k ≡ j)
                            ⊎ (process_get (store_process table process j) (pos k)
                                ≡ process_get table (pos k))))))))
unfolding process_get_free_slot store_process
store_process-free_slot table process k len = elim (free_slot_lem table.processes 0) [
  | inl (full, e) ↦ inl (subst (AreTaken table.processes) len full, e)
  | inr (j, (small, (free, (taken, e)))) ↦
      let stored : process_get (store_process table process j) (pos j) ≡ some process =
        process_get-small (store_process table process j) j (omega arith)
        ∙ get_or-set_self table.processes j (some process) small in
      inr (
        j,
        (
          e ∙ ap ok (omega arith),
          (
            taken,
            (process_get-small table j (omega arith) ∙ free, (stored, others table process j k)),
          ),
        ),
      )
]

none_cons :
    (slots : List (Option ℕ))
    → ((k : ℕ) → get_or slots k none ≡ none)
    → (k : ℕ) → get_or (none ∷ slots) k none ≡ none
none_cons slots empty zero = refl
none_cons slots empty (suc k) = empty k

not_current :
    (current : Option ℕ) (process : ℕ) → current_is current process ≡ false → current ≢ some process
unfolding current_is
not_current none process f e = absurd cc
not_current (some p) process f e = ne_of_test p process f (some_inj e)

is_current :
    (current : Option ℕ) (process : ℕ) → current_is current process ≡ true → current ≡ some process
unfolding current_is
is_current none process t = absurd cc
is_current (some p) process t = ap some (eq_of_test p process t)

first_process_lem :
    (slots : List (Option ℕ))
    → (((k : ℕ) → get_or slots k none ≡ none) × (first_process slots ≡ none))
      ⊎ ((p i : ℕ) × ((get_or slots i none ≡ some p) × (first_process slots ≡ some p)))
unfolding first_process
first_process_lem [] = inl ((λ k. refl), refl)
first_process_lem (none ∷ slots) = elim (first_process_lem slots) [
  | inl (empty, e) ↦ inl (none_cons slots empty, e)
  | inr (p, i, (at, e)) ↦ inr (p, suc i, (at, e))
]
first_process_lem (some p ∷ slots) = inr (p, 0, (refl, refl))

-- A slot that is cleared does not hold the process.
not_cleared :
    (slots : List (Option ℕ)) (id process i : ℕ)
    → id < length slots
    → ((k : ℕ) → get_or slots k none ≡ some process → k ≡ id)
    → get_or (set slots id none) i none ≢ some process
not_cleared slots id process i small only e = elim (eq_cases id i) [
  | inl same ↦
      let at_id : get_or (set slots id none) i none ≡ none =
        subst (λ k. get_or (set slots id none) k none ≡ none) same
          (get_or-set_self slots id none small) in
      absurd cc
  | inr other ↦
      let ne : id ≢ i =
        λ e. elim other [ inl lt ↦ absurd (omega arith) | inr gt ↦ absurd (omega arith) ] in
      let back : i ≡ id = only i (sym (get_or-set_ne slots id i none ne) ∙ e) in
      absurd (ne (sym back))
]

-- Unlinking a process from slot `id` of the table where no other slot has it. If it was the current
-- one and the cleared table has no process, the kernel panics. Else the table that is left is the
-- cleared one, in which slot `id` is free, and the current process is another one: if the process
-- was the current one it stands in the cleared table, if not it is the one from before.
pub process_unlink_lem :
    (table : Processes) (process id : ℕ)
    → id < length table.processes
    → id < max_processes
    → ((k : ℕ) → get_or table.processes k none ≡ some process → k ≡ id)
    → ((table.current_process ≡ some process)
        × (((k : ℕ) → get_or (set table.processes id none) k none ≡ none)
            × (process_unlink table process id ≡ none)))
      ⊎ ((table' : Processes) × ((process_unlink table process id ≡ some table')
            × ((table'.processes ≡ set table.processes id none)
                × ((process_get table' (pos id) ≡ none)
                    × ((table'.current_process ≢ some process)
                        × (((table.current_process ≡ some process)
                              × ((p i : ℕ) × ((get_or (set table.processes id none) i none ≡ some p)
                                    × (table'.current_process ≡ some p))))
                            ⊎ (table'.current_process ≡ table.current_process)))))))
unfolding process_unlink process_switch_to_any process_switch current_is process_get
process_unlink_lem table process id small in_table only =
    let cleared : Processes = record table { processes = set table.processes id none } in
    let gone : process_get cleared (pos id) ≡ none =
      process_get-small cleared id in_table ∙ get_or-set_self table.processes id none small in
    elim (Bool-cases (current_is table.current_process process)) [
      | inl t ↦ elim (first_process_lem (set table.processes id none)) [
        | inl (empty, e) ↦ inl (
          is_current table.current_process process t,
          (empty, rw (t, e, process_switch_to_any) refl),
        )
        | inr (p, i, (at, e)) ↦ inr (
          process_switch cleared p,
          (
            rw (t, e, process_switch_to_any) refl,
            (
              refl,
              (
                gone,
                (
                  λ same. not_cleared table.processes id process i small only (at ∙ same),
                  inl (is_current table.current_process process t, (p, i, (at, refl))),
                ),
              ),
            ),
          ),
        )
      ]
      | inr f ↦ inr (
        cleared,
        (rw (f) refl, (refl, (gone, (not_current table.current_process process f, inr refl)))),
      )
    ]

count_loop_lem :
    {A : Type 0} (arguments : List A) (i : ℕ) → count_loop arguments i ≡ i + length arguments
unfolding count_loop
count_loop_lem [] i = omega arith
count_loop_lem (a ∷ arguments) i = count_loop_lem arguments (i + 1) ∙ omega arith

-- The count of a linked list of arguments is its length.
pub process_count_command_arguments-length :
    {A : Type 0} (arguments : List A) → process_count_command_arguments arguments ≡ length arguments
unfolding process_count_command_arguments
process_count_command_arguments-length arguments = count_loop_lem arguments 0 ∙ omega arith
