-- ===== src/Task/Switch.antt =====
-- The switch to a task and the saving of its registers, of src/task/task.c and src/task/task.asm.
use slob_os.Prelude.{ℕ, Option, none, some, ◌==◌, if◌then◌else◌, bit_or}
use slob_os.Prelude.Store.{put}
use slob_os.Task.{Tasks, Registers, task_get_next, user_data_segment}

-- The processor's side of a switch: the chunk whose directory is loaded, and the data segments.
pub record Processor : Type 0 where
  pub directory : ℕ
  pub segments : ℕ

unfoldable pub task_switch : Processor × Tasks → ℕ → Processor × Tasks
task_switch (cpu, tasks) task = (
  record cpu { directory = (tasks.store task).page_directory },
  record tasks { current_task = task },
)

-- user_registers and then task_switch.
unfoldable pub task_page : Processor × Tasks → Processor × Tasks
unfolding task_switch
task_page (cpu, tasks) =
    task_switch (record cpu { segments = user_data_segment }, tasks) tasks.current_task

pub task_page_task : Processor × Tasks → ℕ → Processor
task_page_task (cpu, tasks) task = record {
  directory = (tasks.store task).page_directory;
  segments = user_data_segment;
}

-- The registers that a program runs with after task_return. `kernel_esp` is the stack pointer at the
-- call, which restore_general_purpose_registers pops into ebp after the task's ebp; the flags are
-- the kernel's, with the interrupt flag set.
pub task_return : (kernel_esp kernel_flags : ℕ) → Registers → Registers
task_return kernel_esp kernel_flags regs = record regs {
  ebp = kernel_esp;
  flags = bit_or kernel_flags 0x200;
}

-- The state after the switch, and the registers that task_return gets; `none` is the panic.
unfoldable pub task_next : Processor × Tasks → Option ((Processor × Tasks) × Registers)
unfolding task_get_next task_switch
task_next (cpu, tasks) =
    let next_task = task_get_next tasks in
    if next_task == 0
    then none
    else some (task_switch (cpu, tasks) next_task, (tasks.store next_task).registers)

pub task_run_first_ever_task : Processor × Tasks → Option ((Processor × Tasks) × Registers)
unfolding task_switch
task_run_first_ever_task (cpu, tasks) =
    if tasks.current_task == 0
    then none
    else some (task_switch (cpu, tasks) tasks.task_head, (tasks.store tasks.task_head).registers)

-- `struct interrupt_frame`; `reserved` is the stack pointer that pusha pushes.
pub record InterruptFrame : Type 0 where
  pub edi : ℕ
  pub esi : ℕ
  pub ebp : ℕ
  pub reserved : ℕ
  pub ebx : ℕ
  pub edx : ℕ
  pub ecx : ℕ
  pub eax : ℕ
  pub ip : ℕ
  pub cs : ℕ
  pub flags : ℕ
  pub esp : ℕ
  pub ss : ℕ

unfoldable pub saved_registers : InterruptFrame → Registers
saved_registers frame = record {
  ip = frame.ip;
  cs = frame.cs;
  flags = frame.flags;
  esp = frame.esp;
  ss = frame.ss;
  eax = frame.eax;
  ebp = frame.ebp;
  ebx = frame.ebx;
  ecx = frame.ecx;
  edi = frame.edi;
  edx = frame.edx;
  esi = frame.esi;
}

unfoldable pub task_save_state : Tasks → ℕ → InterruptFrame → Tasks
unfolding saved_registers
task_save_state tasks task frame = record tasks {
  store = put tasks.store task (record (tasks.store task) { registers = saved_registers frame });
}

-- The source's test is on the address of the function task_current, which is never 0, so the panic
-- is never reached.
unfoldable pub task_current_save_state : Tasks → InterruptFrame → Tasks
unfolding task_save_state
task_current_save_state tasks frame = task_save_state tasks tasks.current_task frame
