-- ===== src/Idt/Commands.antt =====
-- The table of commands of src/idt/idt.c.
use slob_os.Prelude.{ℕ, ◌≤◌, ◌<◌, ◌≡◌, refl, none, some, leb, arith, false, true}
use slob_os.Prelude.Int.{pos}
use slob_os.Prelude.Store.{put}
use slob_os.Task.Switch.{InterruptFrame}
use slob_os.Idt.{
  Interrupts, Machine, Outcome, returned, isr80h_register_command, register_free, run_found,
  isr80h_handle_command,
}

-- A number that is free.
pub register_step :
    {C H : Type 0} (idt : Interrupts C H) (i : ℕ) (c : C)
    → i < 1024
    → idt.commands i ≡ none
    → isr80h_register_command idt (pos i) c
      ≡ some (record idt { commands = put idt.commands i (some c) })
unfolding isr80h_register_command register_free
register_step idt i c h e = let inside : leb 1024 i ≡ false = ground arith in rw (inside, e) refl

module _ {S C H : Type 0} (run : C → InterruptFrame → Machine S → Outcome S ℕ)
    (idt : Interrupts C H) (command : ℕ) (frame : InterruptFrame) (m : Machine S) where
  pub handle_found :
      (c : C)
      → command < 1024
      → idt.commands command ≡ some c
      → isr80h_handle_command run idt (pos command) frame m ≡ run c frame m
  unfolding isr80h_handle_command run_found
  handle_found c h e = let inside : leb 1024 command ≡ false = ground arith in rw (inside, e) refl

  pub handle_none :
      command < 1024
      → idt.commands command ≡ none
      → isr80h_handle_command run idt (pos command) frame m ≡ returned m 0
  unfolding isr80h_handle_command run_found
  handle_none h e = let inside : leb 1024 command ≡ false = ground arith in rw (inside, e) refl

  pub handle_large :
      1024 ≤ command → isr80h_handle_command run idt (pos command) frame m ≡ returned m 0
  unfolding isr80h_handle_command run_found
  handle_large h = let outside : leb 1024 command ≡ true = ground arith in rw (outside) refl
