-- ===== src/Isr80h/Examples.antt =====
-- Witnesses on services that find nothing.
use slob_os.Prelude.{◌+◌, ◌==◌, if◌then◌else◌, ℕ, ◌≡◌, refl, none, some, [], ◌∷◌, get_elem?}
use slob_os.Prelude.Int.{pos}
use slob_os.Status.{eio, ok, err}
use slob_os.Task.{no_task}
use slob_os.Task.Switch.{InterruptFrame}
use slob_os.Idt.{Interrupts, Machine, gate, isr80h_handle_command}
use slob_os.Isr80h.{Command, Services, run_command, isr80h_register_commands}
use slob_os.Isr80h.Dispatch.{commands, run_numbered, isr80h_handle_command-commands}

-- The stack holds 30 and then 20; programs cannot be loaded.
abbrev services : Services ℕ
services = record {
  stack_item = λ m index. if index == 0 then 30 else 20;
  copy_string = λ m virtual max. (m, (ok tt, []));
  print = λ m str. m;
  keyboard_pop = λ m. (m, 0);
  terminal_writechar = λ m c colour. m;
  process_malloc = λ m process size. (m, 0);
  process_free = λ m process ptr. m;
  physical = λ m task virtual. virtual;
  argument_at = λ m argument. 97 ∷ [];
  process_load_switch = λ m path. (m, err eio);
  process_inject_arguments = λ m process argument. (m, ok tt);
  process_get_arguments = λ m process arguments. m;
  process_terminate = λ m process. none;
  task_of = λ m process. process;
}

abbrev no_commands : Interrupts Command ℕ
no_commands = record {
  descriptors = λ i. gate 0;
  limit = 0;
  base = 0;
  callbacks = λ i. none;
  commands = λ i. none;
}

abbrev machine : Machine ℕ
machine = record {
  cpu = record { directory = 0x2000; segments = 0x10 };
  tasks = record { store = λ a. no_task; task_head = 64; task_tail = 64; current_task = 64 };
  rest = 0;
}

abbrev frame : InterruptFrame
frame = record {
  edi = 0;
  esi = 0;
  ebp = 0;
  reserved = 0;
  ebx = 0;
  edx = 0;
  ecx = 0;
  eax = 0;
  ip = 0x400000;
  cs = 0x1b;
  flags = 0;
  esp = 0x3ff000;
  ss = 0x23;
}

isr80h_handle_command-commands_example :
    (idt' : Interrupts Command ℕ) × ((isr80h_register_commands no_commands ≡ some idt')
      × (isr80h_handle_command (run_command services) idt' (pos 0) frame machine
          ≡ run_numbered services (get_elem? commands 0) frame machine))
isr80h_handle_command-commands_example =
    isr80h_handle_command-commands services no_commands 0 frame machine (λ k. refl)

-- Every program loads as the process 128, whose task is 160.
abbrev loading : Services ℕ
loading = record services {
  process_load_switch = λ m path. (record m { rest = 1 }, ok 128);
  task_of = λ m process. process + 32;
}
