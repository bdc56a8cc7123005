-- ===== src/Idt/Examples.antt =====
-- Witnesses on a kernel with one command and one task.
use slob_os.Prelude.{
  ℕ, ◌+◌, ◌*◌, ◌≡◌, Bool, true, Option, none, some, ltb, ◌==◌, if◌then◌else◌, arith,
}
use slob_os.Task.{Tasks, no_task}
use slob_os.Task.Switch.{InterruptFrame}
use slob_os.Idt.{
  Interrupts, Entries, Machine, Outcome, returned, gate, idt_init, idt_handle_exception,
}
use slob_os.Idt.Gates.{IsGate, handler_of, idt_init-IsGate}

abbrev entries : Entries Bool
entries = record {
  idt_descriptors = 0x120000;
  entries = λ i. 0x100000 + 16 * i;
  idt_zero = 0x110000;
  isr80h_wrapper = 0x111000;
  idt_handle_exception = true;
}

-- The command 1 answers 7.
abbrev one_command : Interrupts Bool Bool
one_command = record {
  descriptors = λ i. gate 0;
  limit = 0;
  base = 0;
  callbacks = λ i. none;
  commands = λ i. if i == 1 then some true else none;
}

idt_init-IsGate_example :
    IsGate ((idt_init entries one_command).descriptors 0x80) (handler_of entries 0x80)
    × ((idt_init entries one_command).callbacks 0x80 ≡ (if ltb 0x80 32 then some true else none))
idt_init-IsGate_example = idt_init-IsGate entries one_command 0x80 (omega arith) (omega arith)

abbrev one_task : Tasks
one_task = record {
  store = λ a. record no_task { page_directory = 4096; process = 8192 };
  task_head = 64;
  task_tail = 64;
  current_task = 64;
}

abbrev machine : Machine ℕ
machine = record { cpu = record { directory = 4096; segments = 0x23 }; tasks = one_task; rest = 5 }

abbrev frame : InterruptFrame
frame = record {
  edi = 0;
  esi = 0;
  ebp = 0;
  reserved = 0;
  ebx = 0;
  edx = 0;
  ecx = 0;
  eax = 1;
  ip = 0x400000;
  cs = 0x1b;
  flags = 0;
  esp = 0x3ff000;
  ss = 0x23;
}

abbrev seven : Bool → InterruptFrame → Machine ℕ → Outcome ℕ ℕ
seven c f m = returned m 7

-- Two tasks are left, at 96 and at 128; 128 is the current one.
abbrev two_tasks : Tasks
two_tasks = record {
  store = λ a.
      if a == 96
      then record no_task { page_directory = 4096; process = 8192; next = 128 }
      else record no_task { page_directory = 0x3000; process = 0x4000; prev = 96 };
  task_head = 96;
  task_tail = 128;
  current_task = 128;
}

abbrev left : Machine ℕ → Machine ℕ
left m = record m { tasks = two_tasks }

abbrev terminate : Machine ℕ → ℕ → Option (Machine ℕ)
terminate m process = some (left m)
