-- ===== src/Keyboard/Startup.antt =====
-- keyboard_init of src/keyboard/keyboard.c with the PS/2 driver of src/keyboard/ps2.c.
use slob_os.Prelude.{ℕ, ◌≡◌, ◌≢◌, refl, ap, arith, some, List, [], ◌∷◌, ◌++◌}
use slob_os.Prelude.Int.{pos}
use slob_os.Prelude.Store.{put}
use slob_os.Prelude.Distinct.{IsNew}
use slob_os.Status.{Result, ok}
use slob_os.Idt.{Interrupts, idt_register_interrupt_callback}
use slob_os.Idt.Gates.{register_callback}
use slob_os.Keyboard.Drivers.{
  Keyboard, Drivers, keyboard_insert, IsDrivers, keyboard_insert-IsDrivers,
}

-- The interrupt tables and the bytes that outb sent, each with its port, the first one first.
pub record Board (C H : Type 0) : Type 0 where
  pub idt : Interrupts C H
  pub sent : List (ℕ × ℕ)

-- ISR_KEYBOARD_INTERRUPT, PS2_PORT and PS2_COMMAND_ENABLE_FIRST_PORT
abbrev pub isr_keyboard_interrupt : ℕ
isr_keyboard_interrupt = 0x21

abbrev pub ps2_port : ℕ
ps2_port = 0x64

abbrev pub ps2_command_enable_first_port : ℕ
ps2_command_enable_first_port = 0xae

module _ {C H : Type 0} (ps2_keyboard_handle_interrupt : H) where
  -- The status of the registration is ignored.
  pub ps2_keyboard_init : Board C H → Board C H × Result (Unit {0})
  ps2_keyboard_init m =
      let r =
        idt_register_interrupt_callback m.idt (pos isr_keyboard_interrupt)
          ps2_keyboard_handle_interrupt in
      (record { idt = r.0; sent = m.sent ++ (ps2_port, ps2_command_enable_first_port) ∷ [] }, ok tt)

  -- The structure that ps2_init returns the address of.
  unfoldable pub ps2_keyboard : Keyboard (Board C H)
  ps2_keyboard = record { init = some ps2_keyboard_init; next = 0 }

  -- `address` is that of ps2_keyboard.
  pub keyboard_init :
      (address : ℕ) → Board C H → Drivers (Board C H) → Board C H × Drivers (Board C H)
  keyboard_init address m d = let r = keyboard_insert m d address in (r.0, r.1.0)

  ps2_keyboard_init_lem :
      (m : Board C H)
      → ps2_keyboard_init m ≡ (
        record {
          idt = record m.idt {
            callbacks = put m.idt.callbacks 0x21 (some ps2_keyboard_handle_interrupt);
          };
          sent = m.sent ++ (0x64, 0xae) ∷ [];
        },
        ok tt,
      )
  unfolding ps2_keyboard_init
  ps2_keyboard_init_lem m =
      rw (register_callback m.idt 0x21 ps2_keyboard_handle_interrupt (omega arith)) refl

  init_of :
      (address : ℕ) (d : Drivers (Board C H))
      → d.store address ≡ ps2_keyboard
      → (d.store address).init ≡ some ps2_keyboard_init
  unfolding ps2_keyboard
  init_of address d stands = ap (λ (k : Keyboard (Board C H)). k.init) stands

  next_of :
      (address : ℕ) (d : Drivers (Board C H))
      → d.store address ≡ ps2_keyboard
      → (d.store address).next ≡ 0
  unfolding ps2_keyboard
  next_of address d stands = ap (λ (k : Keyboard (Board C H)). k.next) stands

  -- At an address in which ps2_keyboard stands and which is not in the list, keyboard_init puts the
  -- driver behind the others, makes the handler that of interrupt 0x21 and of no other one, changes
  -- no other table of interrupts, and sends one byte, 0xae, to port 0x64.
  pub keyboard_init-IsDrivers :
      (address : ℕ) (m : Board C H) (d : Drivers (Board C H)) (xs : List ℕ)
      → IsDrivers d xs
      → d.store address ≡ ps2_keyboard
      → address ≢ 0
      → IsNew address xs
      → (d' : Drivers (Board C H)) × ((keyboard_init address m d ≡ (
        record {
          idt = record m.idt {
            callbacks = put m.idt.callbacks 0x21 (some ps2_keyboard_handle_interrupt);
          };
          sent = m.sent ++ (0x64, 0xae) ∷ [];
        },
        d',
      ))
          × IsDrivers d' (xs ++ address ∷ []))
  unfolding keyboard_init
  keyboard_init-IsDrivers address m d xs q stands nonzero new =
      let r =
        keyboard_insert-IsDrivers m d address xs ps2_keyboard_init q (init_of address d stands)
          nonzero (next_of address d stands) new in
      (r.0, (rw (r.1.0, ps2_keyboard_init_lem m) refl, r.1.1))
