-- ===== src/Isr80h/Dispatch.antt =====
-- isr80h_register_commands of src/isr80h/isr80h.c with the dispatch of src/idt/idt.c.
use slob_os.Prelude.{
  ℕ, zero, suc, ◌+◌, ◌≤◌, ◌<◌, ◌≡◌, inl, inr, refl, sym, ap, ◌∙◌, Option, none, some, List, [], ◌∷◌,
  get_elem?, length, arith, Option-cases, lt_cases,
}
use slob_os.Prelude.Int.{pos}
use slob_os.Prelude.Store.{put, put_self, put_ne}
use slob_os.Task.Switch.{InterruptFrame}
use slob_os.Idt.{Interrupts, Machine, Outcome, returned, isr80h_handle_command}
use slob_os.Idt.Commands.{register_step, handle_found, handle_none, handle_large}
use slob_os.Isr80h.{
  Command, sum, print, getkey, putchar, malloc, free, process_load_from_shell,
  invoke_system_command, get_program_arguments, exit, Services, run_command, then_register,
  isr80h_register_commands,
}

-- The commands in the order of the enum SystemCommands.
abbrev pub commands : List Command
commands =
    sum ∷ print ∷ getkey ∷ putchar ∷ malloc ∷ free ∷ process_load_from_shell ∷ invoke_system_command
    ∷ get_program_arguments ∷ exit ∷ []

-- The commands of a list registered one after the other, from number `i` on.
register_all :
    {H : Type 0}
    → List Command
    → (i : ℕ) → Option (Interrupts Command H)
    → Option (Interrupts Command H)
unfolding then_register
register_all [] i o = o
register_all (c ∷ cs) i o = register_all cs (i + 1) (then_register o i c)

entry :
    (i : ℕ) (c : Command) (cs : List Command) (after : ℕ → Option Command)
    → after (i + 0) ≡ some c
    → ((j : ℕ) → after (i + 1 + j) ≡ get_elem? cs j)
    → (j : ℕ) → after (i + j) ≡ get_elem? (c ∷ cs) j
entry i c cs after first rest zero = first
entry i c cs after first rest (suc j) =
    let place : i + suc j ≡ i + 1 + j = omega arith in ap after place ∙ rest j

-- The function of a number, or none.
abbrev pub run_numbered :
    {S : Type 0} → Services S → Option Command → InterruptFrame → Machine S → Outcome S ℕ
run_numbered services none frame m = returned m 0
run_numbered services (some c) frame m = run_command services c frame m

get_elem?_above : {A : Type 0} (xs : List A) (i : ℕ) → length xs ≤ i → get_elem? xs i ≡ none
get_elem?_above [] i h = refl
get_elem?_above (x ∷ xs) zero h = absurd (omega arith)
get_elem?_above (x ∷ xs) (suc i) h = get_elem?_above xs i (omega arith)

module _ {H : Type 0} where
  registered_as_list :
      (idt : Interrupts Command H)
      → isr80h_register_commands idt ≡ register_all commands 0 (some idt)
  unfolding isr80h_register_commands register_all then_register
  registered_as_list idt = refl

  -- What registering a list from number `i` on leaves, where nothing stood from there on.
  record Registered (cs : List Command) (i : ℕ) (idt : Interrupts Command H) : Type 0 where
    after : Interrupts Command H
    result : register_all cs i (some idt) ≡ some after
    before : (k : ℕ) → k < i → after.commands k ≡ idt.commands k
    entries : (j : ℕ) → after.commands (i + j) ≡ get_elem? cs j

  register_all-Registered :
      (cs : List Command) (i : ℕ) (idt : Interrupts Command H)
      → i + length cs ≤ 1024
      → ((j : ℕ) → idt.commands (i + j) ≡ none)
      → Registered cs i idt
  unfolding register_all then_register
  register_all-Registered [] i idt h unused = record {
    after = idt;
    result = refl;
    before = λ k lt. refl;
    entries = unused;
  }
  register_all-Registered (c ∷ cs) i idt h unused =
      let here : i + 0 ≡ i = omega arith in
      let stepped : Interrupts Command H = record idt { commands = put idt.commands i (some c) } in
      let step = register_step idt i c (omega arith) (sym (ap idt.commands here) ∙ unused 0) in
      let rest = register_all-Registered cs (i + 1) stepped (omega arith) λ j.
        let place : i + 1 + j ≡ i + (j + 1) = omega arith in
        put_ne idt.commands i (some c) (i + 1 + j) (omega arith)
        ∙ ap idt.commands place
        ∙ unused (j + 1) in
      record {
        after = rest.after;
        result = rw (step) rest.result;
        before =
            λ k lt. rest.before k (omega arith) ∙ put_ne idt.commands i (some c) k (omega arith);
        entries = λ j.
            entry i c cs rest.after.commands
              (ap rest.after.commands here
                ∙ rest.before i (omega arith)
                ∙ put_self idt.commands i (some c))
              rest.entries j;
      }

  module _ {S : Type 0} (services : Services S) where
    handled :
        (idt : Interrupts Command H) (command : ℕ) (frame : InterruptFrame) (m : Machine S)
        → idt.commands command ≡ get_elem? commands command
        → isr80h_handle_command (run_command services) idt (pos command) frame m
          ≡ run_numbered services (get_elem? commands command) frame m
    handled idt command frame m e = elim (lt_cases command 1024) [
      | inr large ↦
          handle_large (run_command services) idt command frame m large
          ∙ ap (λ (o : Option Command). run_numbered services o frame m)
              (sym (get_elem?_above commands command (omega arith)))
      | inl small ↦ elim (Option-cases (get_elem? commands command)) [
        | inl absent ↦
            handle_none (run_command services) idt command frame m small (e ∙ absent)
            ∙ ap (λ (o : Option Command). run_numbered services o frame m) (sym absent)
        | inr (c, present) ↦
            handle_found (run_command services) idt command frame m c small (e ∙ present)
            ∙ ap (λ (o : Option Command). run_numbered services o frame m) (sym present)
      ]
    ]

    -- In a kernel without commands isr80h_register_commands succeeds, and then a system call with
    -- any number from 0 on runs the function that the enum SystemCommands numbers so; from number 10
    -- on nothing happens and the result is 0.
    pub isr80h_handle_command-commands :
        (idt : Interrupts Command H) (command : ℕ) (frame : InterruptFrame) (m : Machine S)
        → ((k : ℕ) → idt.commands k ≡ none)
        → (idt' : Interrupts Command H) × ((isr80h_register_commands idt ≡ some idt')
            × (isr80h_handle_command (run_command services) idt' (pos command) frame m
                ≡ run_numbered services (get_elem? commands command) frame m))
    isr80h_handle_command-commands idt command frame m unused =
        let registered =
          register_all-Registered commands 0 idt (omega arith) (λ j. unused (0 + j)) in
        let place : command ≡ 0 + command = omega arith in
        (
          registered.after,
          (
            registered_as_list idt ∙ registered.result,
            handled registered.after command frame m
                (ap registered.after.commands place ∙ registered.entries command),
          ),
        )
