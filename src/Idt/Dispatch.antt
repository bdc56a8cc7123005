-- ===== src/Idt/Dispatch.antt =====
-- The system calls and the exceptions of src/idt/idt.c from the entry into the kernel to the way out.
use slob_os.Prelude.{ℕ, ◌≡◌, ◌≢◌}
use slob_os.Task.{Task}
use slob_os.Task.Switch.{InterruptFrame, saved_registers}
use slob_os.Idt.{Machine, Outcome, returned, entered, panicked, kernel_page, current_saved}

module _ {S : Type 0} where
  -- The machine that a command finds: the kernel's page tables and data segments, and the program's
  -- registers in the current task.
  pub record IsInKernel (kernel_chunk : ℕ) (frame : InterruptFrame) (m entry : Machine S)
      : Type 0 where
    pub directory : entry.cpu.directory ≡ kernel_chunk
    pub segments : entry.cpu.segments ≡ 0x10
    pub current : entry.tasks.current_task ≡ m.tasks.current_task
    pub head : entry.tasks.task_head ≡ m.tasks.task_head
    pub tail : entry.tasks.task_tail ≡ m.tasks.task_tail
    pub others : (a : ℕ) → a ≢ m.tasks.current_task → entry.tasks.store a ≡ m.tasks.store a
    pub saved : (entry.tasks.store m.tasks.current_task).registers ≡ saved_registers frame
    pub kept : entry.rest ≡ m.rest

  -- The machine that a program finds: the page tables of the current task and the data segments of
  -- programs.
  pub record IsInProgram (m : Machine S) : Type 0 where
    pub directory : m.cpu.directory ≡ (m.tasks.store m.tasks.current_task).page_directory
    pub segments : m.cpu.segments ≡ 0x23

  entry_of : (kernel_chunk : ℕ) → InterruptFrame → Machine S → Machine S
  entry_of kernel_chunk frame m = current_saved (kernel_page kernel_chunk m) frame

  -- What a program gets from a command that has this outcome.
  abbrev pub IsLeft : Outcome S ℕ → Outcome S ℕ → Type 0
  IsLeft (returned m a) result =
      (m' : Machine S) × ((result ≡ returned m' a)
        × (IsInProgram m' × ((m'.rest ≡ m.rest) × (m'.tasks ≡ m.tasks))))
  IsLeft (entered m registers) result = result ≡ entered m registers
  IsLeft panicked result = result ≡ panicked

  -- The processor enters a task with its registers and its memory; the machine is else the one that
  -- the termination left.
  pub record EntersTask (m after : Machine S) (result : Outcome S (Unit {0})) : Type 0 where
    pub registers : result ≡ entered after (after.tasks.store after.tasks.current_task).registers
    pub directory :
        after.cpu.directory ≡ (after.tasks.store after.tasks.current_task).page_directory
    pub tasks : after.tasks ≡ record m.tasks { current_task = after.tasks.current_task }
    pub rest : after.rest ≡ m.rest
