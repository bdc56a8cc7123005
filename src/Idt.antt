-- ===== src/Idt.antt =====
-- The interrupts of src/idt/idt.c: the descriptor table, the tables of callbacks and of commands,
-- and the handlers that the assembly calls. What a command and a callback do are arguments, as are
-- the addresses that the linker fixes. A function that does not return enters a task or panics.
mod Examples
pub mod Commands
pub mod Dispatch
pub mod Gates
use slob_os.Prelude.{
  ℕ, zero, suc, ◌+◌, ◌-◌, ◌*◌, ◌/◌, ◌%◌, ◌^◌, Option, none, some, leb, if◌then◌else◌,
}
use slob_os.Prelude.Int.{ℤ, pos, negsuc}
use slob_os.Prelude.Store.{put}
use slob_os.Status.{einvarg, Result, ok, err}
use slob_os.Task.{Tasks, Registers}
use slob_os.Task.Switch.{Processor, InterruptFrame, task_current_save_state, task_page, task_next}

-- `struct idt_desc`
pub record IdtDesc : Type 0 where
  pub offset_1 : ℕ
  pub selector : ℕ
  pub zero : ℕ
  pub type_attr : ℕ
  pub offset_2 : ℕ

-- SLOBOS_TOTAL_INTERRUPTS, SLOBOS_MAX_ISR80H_COMMANDS and KERNEL_CODE_SELECTOR
abbrev pub total_interrupts : ℕ
total_interrupts = 512

abbrev pub max_isr80h_commands : ℕ
max_isr80h_commands = 1024

abbrev pub kernel_code_selector : ℕ
kernel_code_selector = 8

-- `idt_descriptors`, `idtr_descriptor`, `interrupt_callbacks` and `isr80h_commands`.
pub record Interrupts (C H : Type 0) : Type 0 where
  pub descriptors : ℕ → IdtDesc
  pub limit : ℕ
  pub base : ℕ
  pub callbacks : ℕ → Option H
  pub commands : ℕ → Option C

-- The descriptor that idt_set writes.
unfoldable pub gate : (address : ℕ) → IdtDesc
gate address = record {
  offset_1 = address % 2 ^ 16;
  selector = kernel_code_selector;
  zero = 0;
  type_attr = 0xee;
  offset_2 = address / 2 ^ 16 % 2 ^ 16;
}

abbrev no_gate : IdtDesc
no_gate = record { offset_1 = 0; selector = 0; zero = 0; type_attr = 0; offset_2 = 0 }

-- The addresses that idt_init uses; `entries` is interrupt_pointer_table.
pub record Entries (H : Type 0) : Type 0 where
  pub idt_descriptors : ℕ
  pub entries : ℕ → ℕ
  pub idt_zero : ℕ
  pub isr80h_wrapper : ℕ
  pub idt_handle_exception : H

module _ {C H : Type 0} where
  pub idt_set : Interrupts C H → (interrupt_no address : ℕ) → Interrupts C H
  unfolding gate
  idt_set idt interrupt_no address = record idt {
    descriptors = put idt.descriptors interrupt_no (gate address);
  }

  pub idt_register_interrupt_callback : Interrupts C H → ℤ → H → Interrupts C H × Result (Unit {0})
  idt_register_interrupt_callback idt (negsuc n) callback = (idt, err einvarg)
  idt_register_interrupt_callback idt (pos interrupt) callback =
      if leb total_interrupts interrupt
      then (idt, err einvarg)
      else (record idt { callbacks = put idt.callbacks interrupt (some callback) }, ok tt)

  -- The two loops of idt_init with `rounds` interrupts left from number `i`.
  pub entries_loop : (ℕ → ℕ) → (rounds i : ℕ) → Interrupts C H → Interrupts C H
  entries_loop entries zero i idt = idt
  entries_loop entries (suc rounds) i idt =
      entries_loop entries rounds (i + 1) (idt_set idt i (entries i))

  pub exceptions_loop : H → (rounds i : ℕ) → Interrupts C H → Interrupts C H
  exceptions_loop callback zero i idt = idt
  exceptions_loop callback (suc rounds) i idt =
      exceptions_loop callback rounds (i + 1)
        (idt_register_interrupt_callback idt (pos i) callback).0

  -- After the memset.
  pub cleared_table : (base : ℕ) → Interrupts C H → Interrupts C H
  cleared_table base idt = record idt {
    descriptors = λ i. no_gate;
    limit = total_interrupts * 8 - 1;
    base = base;
  }

  pub idt_init : Entries H → Interrupts C H → Interrupts C H
  idt_init at idt = exceptions_loop at.idt_handle_exception 0x20 0 (
      idt_set
        (idt_set (entries_loop at.entries total_interrupts 0 (cleared_table at.idt_descriptors idt))
          0 at.idt_zero)
        0x80 at.isr80h_wrapper)

  register_free : Interrupts C H → (command_id : ℕ) → C → Option C → Option (Interrupts C H)
  register_free idt command_id command (some c) = none
  register_free idt command_id command none =
      some (record idt { commands = put idt.commands command_id (some command) })

  -- `none` is a panic: no such number, or a command that is taken.
  pub isr80h_register_command : Interrupts C H → ℤ → C → Option (Interrupts C H)
  unfolding register_free
  isr80h_register_command idt (negsuc n) command = none
  isr80h_register_command idt (pos command_id) command =
      if leb max_isr80h_commands command_id
      then none
      else register_free idt command_id command (idt.commands command_id)

-- The processor, the tasks and the rest of the machine.
pub record Machine (S : Type 0) : Type 0 where
  pub cpu : Processor
  pub tasks : Tasks
  pub rest : S

pub data Outcome (S : Type 0) (A : Type 0) : Type 0 where
  returned : Machine S → A → Outcome S A
  -- task_return with these registers.
  entered : Machine S → Registers → Outcome S A
  panicked : Outcome S A

-- The selector that kernel_registers loads.
abbrev pub kernel_data_selector : ℕ
kernel_data_selector = 0x10

module _ {S : Type 0} where
  -- kernel_registers, and the switch to the kernel's chunk.
  pub kernel_page : (kernel_chunk : ℕ) → Machine S → Machine S
  kernel_page kernel_chunk m = record m {
    cpu = record { directory = kernel_chunk; segments = kernel_data_selector };
  }

  pub current_saved : Machine S → InterruptFrame → Machine S
  unfolding task_current_save_state
  current_saved m frame = record m { tasks = task_current_save_state m.tasks frame }

  pub current_paged : Machine S → Machine S
  unfolding task_page
  current_paged m = record m {
    cpu = (task_page (m.cpu, m.tasks)).0;
    tasks = (task_page (m.cpu, m.tasks)).1;
  }

  -- What follows a function that returns.
  pub then_leave : {A : Type 0} → (Machine S → Machine S) → Outcome S A → Outcome S A
  then_leave leave (returned m a) = returned (leave m) a
  then_leave leave (entered m registers) = entered m registers
  then_leave leave panicked = panicked

  module _ {C : Type 0} (run : C → InterruptFrame → Machine S → Outcome S ℕ) where
    run_found : Option C → InterruptFrame → Machine S → Outcome S ℕ
    run_found none frame m = returned m 0
    run_found (some command) frame m = run command frame m

    pub isr80h_handle_command :
        {H : Type 0} → Interrupts C H → ℤ → InterruptFrame → Machine S → Outcome S ℕ
    unfolding run_found
    isr80h_handle_command idt (negsuc n) frame m = returned m 0
    isr80h_handle_command idt (pos command) frame m =
        if leb max_isr80h_commands command
        then returned m 0
        else run_found (idt.commands command) frame m

    pub isr80h_handler :
        {H : Type 0} (kernel_chunk : ℕ)
        → Interrupts C H
        → ℤ
        → InterruptFrame
        → Machine S
        → Outcome S ℕ
    unfolding isr80h_handle_command kernel_page current_saved current_paged then_leave
    isr80h_handler kernel_chunk idt command frame m =
        then_leave current_paged (
          isr80h_handle_command idt command frame
            (current_saved (kernel_page kernel_chunk m) frame))

  -- The end of interrupt_handler: task_page, and the acknowledgement to the interrupt controller.
  acknowledged : (outb : S → (port val : ℕ) → S) → Machine S → Machine S
  unfolding current_paged
  acknowledged outb m = record (current_paged m) { rest = outb m.rest 0x20 0x20 }

  module _ {H : Type 0} (callback : H → InterruptFrame → Machine S → Outcome S (Unit {0})) where
    call_found : Option H → InterruptFrame → Machine S → Outcome S (Unit {0})
    unfolding current_saved
    call_found none frame m = returned m tt
    call_found (some h) frame m = callback h frame (current_saved m frame)

    pub interrupt_handler :
        {C : Type 0} (outb : S → (port val : ℕ) → S) (kernel_chunk : ℕ)
        → Interrupts C H
        → (interrupt : ℕ) → InterruptFrame
        → Machine S
        → Outcome S (Unit {0})
    unfolding call_found acknowledged kernel_page then_leave
    interrupt_handler outb kernel_chunk idt interrupt frame m =
        then_leave (acknowledged outb)
          (call_found (idt.callbacks interrupt) frame (kernel_page kernel_chunk m))

  next_entered : {A : Type 0} → Machine S → Option ((Processor × Tasks) × Registers) → Outcome S A
  next_entered m none = panicked
  next_entered m (some ((cpu, tasks), registers)) =
      entered (record m { cpu = cpu; tasks = tasks }) registers

  -- task_next after process_terminate, which panics where no process is left.
  unfoldable pub after_terminate : {A : Type 0} → Option (Machine S) → Outcome S A
  unfolding next_entered task_next
  after_terminate none = panicked
  after_terminate (some m) = next_entered m (task_next (m.cpu, m.tasks))

  pub idt_handle_exception :
      (process_terminate : Machine S → ℕ → Option (Machine S)) → Machine S → Outcome S (Unit {0})
  unfolding after_terminate
  idt_handle_exception process_terminate m =
      after_terminate (process_terminate m (m.tasks.store m.tasks.current_task).process)
