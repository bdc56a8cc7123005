-- ===== src/Task.antt =====
-- The tasks of src/task/task.c: their doubly linked list, the switch to a task and the saving of its
-- registers. A task is its address, 0 for none, and the store gives the structure at an address,
-- also at 0, through which the source reads and writes where it does not test. kzalloc, kfree and
-- the two operations on page directories act on a machine state and are an interface.
mod Examples
pub mod Copy
pub mod Create
pub mod Next
pub mod Queue
pub mod Remove
pub mod Stale
pub mod Switch
pub mod Turns
pub mod Unlink
use slob_os.Prelude.{
  ℕ, zero, suc, ◌+◌, ◌*◌, ◌%◌, ◌^◌, Bool, true, false, not, Option, none, some, ◌==◌, if◌then◌else◌,
  bit_or,
}
use slob_os.Prelude.Store.{put}
use slob_os.Status.{Errno, eio, enomem, Result, ok, err}

pub record Registers : Type 0 where
  pub edi : ℕ
  pub esi : ℕ
  pub ebp : ℕ
  pub ebx : ℕ
  pub edx : ℕ
  pub ecx : ℕ
  pub eax : ℕ
  pub ip : ℕ
  pub cs : ℕ
  pub flags : ℕ
  pub esp : ℕ
  pub ss : ℕ

-- `struct task`
pub record Task : Type 0 where
  pub page_directory : ℕ
  pub registers : Registers
  pub process : ℕ
  pub next : ℕ
  pub prev : ℕ

-- `task_head`, `task_tail` and `current_task`, and the structures they lead to.
pub record Tasks : Type 0 where
  pub store : ℕ → Task
  pub task_head : ℕ
  pub task_tail : ℕ
  pub current_task : ℕ

-- The calls of the kernel. `paging_new_4gb` is the call with the flags of task_init.
pub record TaskKernel (S : Type 0) : Type 0 where
  pub kzalloc : S → ℕ → S × ℕ
  pub kfree : S → ℕ → S
  pub paging_new_4gb : S → (flags : ℕ) → S × ℕ
  pub paging_free_4gb : S → ℕ → S

-- What task_init reads of a process: PROCESS_FILETYPE_ELF with the entry of the file's header, or
-- PROCESS_FILETYPE_BINARY.
pub data Filetype : Type 0 where
  elf : (e_entry : ℕ) → Filetype
  binary : Filetype

pub record Program : Type 0 where
  pub address : ℕ
  pub filetype : Filetype

-- sizeof(struct task)
abbrev pub size_of_task : ℕ
size_of_task = 64

-- PAGING_IS_PRESENT | PAGING_ACCESS_FROM_ALL
abbrev pub directory_flags : ℕ
directory_flags = 5

-- SLOBOS_PROGRAM_VIRTUAL_ADDRESS, SLOBOS_PROGRAM_VIRTUAL_STACK_ADDRESS_START, USER_DATA_SEGMENT and
-- USER_CODE_SEGMENT
abbrev pub program_virtual_address : ℕ
program_virtual_address = 0x400000

abbrev pub program_virtual_stack_address_start : ℕ
program_virtual_stack_address_start = 0x3ff000

abbrev pub user_data_segment : ℕ
user_data_segment = 0x23

abbrev pub user_code_segment : ℕ
user_code_segment = 0x1b

abbrev pub no_registers : Registers
no_registers = record {
  edi = 0;
  esi = 0;
  ebp = 0;
  ebx = 0;
  edx = 0;
  ecx = 0;
  eax = 0;
  ip = 0;
  cs = 0;
  flags = 0;
  esp = 0;
  ss = 0;
}

-- The task after the memset of task_init.
abbrev pub no_task : Task
no_task = record { page_directory = 0; registers = no_registers; process = 0; next = 0; prev = 0 }

abbrev pub set_next : (ℕ → Task) → (task next : ℕ) → ℕ → Task
set_next store task next = put store task (record (store task) { next = next })

abbrev pub set_prev : (ℕ → Task) → (task prev : ℕ) → ℕ → Task
set_prev store task prev = put store task (record (store task) { prev = prev })

pub first_ip : Filetype → ℕ
first_ip binary = program_virtual_address
first_ip (elf e_entry) = e_entry

pub first_registers : Filetype → Registers
unfolding first_ip
first_registers filetype = record no_registers {
  ip = first_ip filetype;
  ss = user_data_segment;
  cs = user_code_segment;
  esp = program_virtual_stack_address_start;
}

-- The rest of task_init once paging_new_4gb has answered.
pub init_mapped : ℕ → Program → ℕ → Task × Result (Unit {0})
unfolding first_registers
init_mapped task program page_directory = if page_directory == 0 then (no_task, err eio) else (
  record no_task {
    page_directory = page_directory;
    registers = first_registers program.filetype;
    process = program.address;
  },
  ok tt,
)

-- At the end of the list, or as the first and the current task.
pub link_task : Tasks → ℕ → Tasks
link_task tasks task =
    if tasks.task_head == 0
    then record tasks { task_head = task; task_tail = task; current_task = task }
    else record tasks {
      store = set_prev (set_next tasks.store tasks.task_tail task) task tasks.task_tail;
      task_tail = task;
    }

unfoldable pub task_get_next : Tasks → ℕ
task_get_next tasks =
    if (tasks.store tasks.current_task).next == 0
    then tasks.task_head
    else (tasks.store tasks.current_task).next

-- The four steps of task_list_remove, one after the other.
pub unlink_prev : Tasks → ℕ → Tasks
unlink_prev tasks task = if (tasks.store task).prev == 0 then tasks else record tasks {
  store = set_next tasks.store (tasks.store task).prev (tasks.store task).next;
}

pub unlink_head : Tasks → ℕ → Tasks
unlink_head tasks task =
    if task == tasks.task_head then record tasks { task_head = (tasks.store task).next } else tasks

pub unlink_tail : Tasks → ℕ → Tasks
unlink_tail tasks task =
    if task == tasks.task_tail then record tasks { task_tail = (tasks.store task).prev } else tasks

pub unlink_current : Tasks → ℕ → Tasks
unfolding task_get_next
unlink_current tasks task =
    if task == tasks.current_task
    then record tasks { current_task = task_get_next tasks }
    else tasks

pub task_list_remove : Tasks → ℕ → Tasks
unfolding unlink_prev unlink_head unlink_tail unlink_current
task_list_remove tasks task =
    unlink_current (unlink_tail (unlink_head (unlink_prev tasks task) task) task) task

module _ {S : Type 0} (kernel : TaskKernel S) where
  pub task_free : S × Tasks → ℕ → S × Tasks
  unfolding task_list_remove
  task_free (s, tasks) task = (
    kernel.kfree (kernel.paging_free_4gb s (tasks.store task).page_directory) task,
    task_list_remove tasks task,
  )

  pub freed_task : Errno → S × Tasks → S × (Tasks × Result ℕ)
  freed_task e (s, tasks) = (s, (tasks, err e))

  -- The rest of task_new: a failure frees the task.
  pub new_initialized : S → Tasks → (task : ℕ) → Task × Result (Unit {0}) → S × (Tasks × Result ℕ)
  unfolding link_task task_free freed_task
  new_initialized s tasks task (t, ok u) =
      (s, (link_task (record tasks { store = put tasks.store task t }) task, ok task))
  new_initialized s tasks task (t, err e) =
      freed_task e (task_free (s, record tasks { store = put tasks.store task t }) task)

  pub new_directory : Tasks → Program → (task : ℕ) → S × ℕ → S × (Tasks × Result ℕ)
  unfolding init_mapped new_initialized
  new_directory tasks program task (s, page_directory) =
      new_initialized s tasks task (init_mapped task program page_directory)

  -- Without memory the source frees the task at address 0.
  pub new_allocated : Tasks → Program → S × ℕ → S × (Tasks × Result ℕ)
  unfolding new_directory task_free freed_task
  new_allocated tasks program (s, task) =
      if task == 0
      then freed_task enomem (task_free (s, tasks) 0)
      else new_directory tasks program task (kernel.paging_new_4gb s directory_flags)

  pub task_new : S → Tasks → Program → S × (Tasks × Result ℕ)
  unfolding new_allocated
  task_new s tasks program = new_allocated tasks program (kernel.kzalloc s size_of_task)
