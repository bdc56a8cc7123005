-- ===== src/Isr80h.antt =====
-- The system calls of src/isr80h: the commands' numbers and the functions that they run. What the
-- commands call of the process, task, keyboard and terminal parts is an interface. A command runs
-- with the kernel's page tables, which task_get_stack_item loads again when it is done.
pub mod Dispatch
mod Examples
pub mod Results
use slob_os.Prelude.{
  ℕ, zero, suc, ◌+◌, ◌-◌, ◌*◌, ◌%◌, ◌^◌, Bool, true, false, Option, none, some, ltb, ◌==◌, ◌||◌,
  if◌then◌else◌, List, [], ◌∷◌, ◌++◌, take,
}
use slob_os.Prelude.Int.{pos}
use slob_os.Status.{
  Errno, eio, einvarg, enomem, ebadpath, efsnotus, erdonly, eunimp, eistkn, einformat, Result, ok,
  err,
}
use slob_os.Task.{Tasks}
use slob_os.Task.Switch.{InterruptFrame, task_switch}
use slob_os.PathParser.{max_path}
use slob_os.Idt.{
  Interrupts, Machine, Outcome, returned, entered, panicked, isr80h_register_command,
  after_terminate,
}

-- The functions that isr80h_register_commands binds.
pub data Command : Type 0 where
  sum print getkey putchar malloc free process_load_from_shell : Command
  invoke_system_command get_program_arguments exit : Command

-- The codes of src/status.h.
pub errno_code : Errno → ℕ
errno_code eio = 1
errno_code einvarg = 2
errno_code enomem = 3
errno_code ebadpath = 4
errno_code efsnotus = 5
errno_code erdonly = 6
errno_code eunimp = 7
errno_code eistkn = 8
errno_code einformat = 9

-- `ERROR(res)` of a negated code, as the 32 bits that the program gets.
pub error_value : Errno → ℕ
unfolding errno_code
error_value e = 2 ^ 32 - errno_code e

-- A `char` as an `int` of 32 bits.
pub char_value : ℕ → ℕ
char_value c = if ltb c 128 then c else c + (2 ^ 32 - 256)

-- What the commands call. `stack_item` is task_get_stack_item of the current task. A copy gives its
-- status and the characters that the buffer then holds, whatever the status; `argument_at` is the
-- string of a command argument, and `task_of` the task of a process.
pub record Services (S : Type 0) : Type 0 where
  pub stack_item : Machine S → (index : ℕ) → ℕ
  pub copy_string : Machine S → (virtual max : ℕ) → Machine S × (Result (Unit {0}) × List ℕ)
  pub print : Machine S → List ℕ → Machine S
  pub keyboard_pop : Machine S → Machine S × ℕ
  pub terminal_writechar : Machine S → (c colour : ℕ) → Machine S
  pub process_malloc : Machine S → (process size : ℕ) → Machine S × ℕ
  pub process_free : Machine S → (process ptr : ℕ) → Machine S
  pub physical : Machine S → (task virtual : ℕ) → ℕ
  pub argument_at : Machine S → (argument : ℕ) → List ℕ
  pub process_load_switch : Machine S → (path : List ℕ) → Machine S × Result ℕ
  pub process_inject_arguments : Machine S → (process argument : ℕ) → Machine S × Result (Unit {0})
  pub process_get_arguments : Machine S → (process arguments : ℕ) → Machine S
  pub process_terminate : Machine S → (process : ℕ) → Option (Machine S)
  pub task_of : Machine S → (process : ℕ) → ℕ

-- "0:/"
abbrev pub drive_prefix : List ℕ
drive_prefix = 48 ∷ 58 ∷ 47 ∷ []

-- `strlen(argument) == 0`
pub no_program_name : List ℕ → Bool
no_program_name [] = true
no_program_name (c ∷ s) = false

-- `task_current()->process`
pub task_process : {S : Type 0} → Machine S → ℕ
task_process m = (m.tasks.store m.tasks.current_task).process

module _ {S : Type 0} (services : Services S) where
  pub isr80h_commando_sum : Machine S → Outcome S ℕ
  isr80h_commando_sum m = returned m ((services.stack_item m 0 + services.stack_item m 1) % 2 ^ 32)

  printed : Machine S × (Result (Unit {0}) × List ℕ) → Outcome S ℕ
  printed (m, (status, buf)) = returned (services.print m buf) 0

  -- The status of the copy is not read.
  pub isr80h_command1_print : Machine S → Outcome S ℕ
  unfolding printed
  isr80h_command1_print m = printed (services.copy_string m (services.stack_item m 0) 1024)

  got_key : Machine S × ℕ → Outcome S ℕ
  unfolding char_value
  got_key (m, c) = returned m (char_value c)

  pub isr80h_command2_getkey : Machine S → Outcome S ℕ
  unfolding got_key
  isr80h_command2_getkey m = got_key (services.keyboard_pop m)

  pub isr80h_command3_putchar : Machine S → Outcome S ℕ
  isr80h_command3_putchar m =
      returned (services.terminal_writechar m (services.stack_item m 0 % 256) 15) 0

  malloced : Machine S × ℕ → Outcome S ℕ
  malloced (m, ptr) = returned m ptr

  pub isr80h_command4_malloc : Machine S → Outcome S ℕ
  unfolding malloced task_process
  isr80h_command4_malloc m =
      malloced (services.process_malloc m (task_process m) (services.stack_item m 0))

  pub isr80h_command5_free : Machine S → Outcome S ℕ
  unfolding task_process
  isr80h_command5_free m =
      returned (services.process_free m (task_process m) (services.stack_item m 0)) 0

  -- task_switch to a process's task, and task_return with its registers.
  pub enter_process : Machine S → (process : ℕ) → Outcome S ℕ
  enter_process m process =
      entered
        (record m {
          cpu = (task_switch (m.cpu, m.tasks) (services.task_of m process)).0;
          tasks = (task_switch (m.cpu, m.tasks) (services.task_of m process)).1;
        })
        (m.tasks.store (services.task_of m process)).registers

  shell_loaded : Machine S × Result ℕ → Outcome S ℕ
  unfolding enter_process
  shell_loaded (m, err e) = returned m 0
  shell_loaded (m, ok process) = enter_process m process

  shell_named : Machine S × (Result (Unit {0}) × List ℕ) → Outcome S ℕ
  unfolding shell_loaded
  shell_named (m, (err e, filename)) = returned m 0
  shell_named (m, (ok u, filename)) =
      shell_loaded (services.process_load_switch m (drive_prefix ++ filename))

  -- The two copies into `path` of 108 bytes are not bounded, and the path is whole.
  pub isr80h_command6_process_load_from_shell : Machine S → Outcome S ℕ
  unfolding shell_named
  isr80h_command6_process_load_from_shell m =
      shell_named (services.copy_string m (services.stack_item m 0) max_path)

  invoke_injected : (process : ℕ) → Machine S × Result (Unit {0}) → Outcome S ℕ
  unfolding enter_process error_value
  invoke_injected process (m, err e) = returned m (error_value e)
  invoke_injected process (m, ok u) = enter_process m process

  invoke_loaded : (arguments : ℕ) → Machine S × Result ℕ → Outcome S ℕ
  unfolding invoke_injected error_value
  invoke_loaded arguments (m, err e) = returned m (error_value e)
  invoke_loaded arguments (m, ok process) =
      invoke_injected process (services.process_inject_arguments m process arguments)

  -- strncpy keeps 107 characters behind the prefix.
  invoke_at : Machine S → (arguments : ℕ) → Outcome S ℕ
  unfolding invoke_loaded error_value no_program_name
  invoke_at m arguments =
      if arguments == 0 || no_program_name (services.argument_at m arguments)
      then returned m (error_value einvarg)
      else invoke_loaded arguments (
          services.process_load_switch m
            (drive_prefix ++ take (max_path - 1) (services.argument_at m arguments)))

  pub isr80h_command7_invoke_system_command : Machine S → Outcome S ℕ
  unfolding invoke_at
  isr80h_command7_invoke_system_command m =
      invoke_at m (services.physical m m.tasks.current_task (services.stack_item m 0))

  pub isr80h_command8_get_program_arguments : Machine S → Outcome S ℕ
  unfolding task_process
  isr80h_command8_get_program_arguments m =
      returned
        (services.process_get_arguments m (task_process m)
          (services.physical m m.tasks.current_task (services.stack_item m 0)))
        0

  pub irh80h_command9_exit : Machine S → Outcome S ℕ
  unfolding task_process
  irh80h_command9_exit m = after_terminate (services.process_terminate m (task_process m))

  -- The frame is read by no command.
  pub run_command : Command → InterruptFrame → Machine S → Outcome S ℕ
  run_command sum frame m = isr80h_commando_sum m
  run_command print frame m = isr80h_command1_print m
  run_command getkey frame m = isr80h_command2_getkey m
  run_command putchar frame m = isr80h_command3_putchar m
  run_command malloc frame m = isr80h_command4_malloc m
  run_command free frame m = isr80h_command5_free m
  run_command process_load_from_shell frame m = isr80h_command6_process_load_from_shell m
  run_command invoke_system_command frame m = isr80h_command7_invoke_system_command m
  run_command get_program_arguments frame m = isr80h_command8_get_program_arguments m
  run_command exit frame m = irh80h_command9_exit m

module _ {H : Type 0} where
  then_register :
      Option (Interrupts Command H) → (command_id : ℕ) → Command → Option (Interrupts Command H)
  then_register none command_id command = none
  then_register (some idt) command_id command = isr80h_register_command idt (pos command_id) command

  -- The numbers are those of the enum SystemCommands.
  pub isr80h_register_commands : Interrupts Command H → Option (Interrupts Command H)
  unfolding then_register
  isr80h_register_commands idt =
      let o0 = isr80h_register_command idt (pos 0) sum in
      let o1 = then_register o0 1 print in
      let o2 = then_register o1 2 getkey in
      let o3 = then_register o2 3 putchar in
      let o4 = then_register o3 4 malloc in
      let o5 = then_register o4 5 free in
      let o6 = then_register o5 6 process_load_from_shell in
      let o7 = then_register o6 7 invoke_system_command in
      let o8 = then_register o7 8 get_program_arguments in then_register o8 9 exit
