-- ===== src/Isr80h/Results.antt =====
-- The ways out of the system calls of src/isr80h/process.c.
use slob_os.Prelude.{ℕ, ◌-◌, ◌^◌, ◌≤◌, ◌<◌, ◌≡◌, ◌==◌, ◌||◌, take, ◌++◌, ◌⊎◌, true, List}
use slob_os.Status.{Errno, einvarg, ok, err}
use slob_os.Task.{Registers}
use slob_os.Idt.{Machine, Outcome, returned, entered, panicked}
use slob_os.PathParser.{max_path}
use slob_os.Isr80h.{Services, error_value, no_program_name, drive_prefix}

module _ {S : Type 0} (services : Services S) where
  -- The processor goes on in the task of the process, with its registers and its memory; the machine
  -- is else `m`.
  pub record IsRunning (m after : Machine S) (process : ℕ) (regs : Registers) : Type 0 where
    pub current : after.tasks.current_task ≡ services.task_of m process
    pub tasks : after.tasks ≡ record m.tasks { current_task = services.task_of m process }
    pub directory :
        after.cpu.directory ≡ (m.tasks.store (services.task_of m process)).page_directory
    pub registers : regs ≡ (m.tasks.store (services.task_of m process)).registers
    pub rest : after.rest ≡ m.rest

  -- The path of the program that the argument names.
  abbrev pub program_path : Machine S → (arguments : ℕ) → List ℕ
  program_path m arguments = drive_prefix ++ take (max_path - 1) (services.argument_at m arguments)

  -- No argument or no name, a failed load, or a failure to give the arguments to the process.
  abbrev pub IsRefused : Machine S → (arguments : ℕ) → Machine S → Errno → Type 0
  IsRefused m arguments m' e =
      ((m' ≡ m)
        × (e ≡ einvarg)
        × ((arguments == 0 || no_program_name (services.argument_at m arguments)) ≡ true))
      ⊎ ((services.process_load_switch m (program_path m arguments) ≡ (m', err e))
          ⊎ ((loaded : Machine S) × (process : ℕ) × (services.process_load_switch m
                  (program_path m arguments)
                ≡ (loaded, ok process))
              × (services.process_inject_arguments loaded process arguments ≡ (m', err e))))

  -- The caller gets the negated code of an error; or the program that the argument names is loaded,
  -- the arguments are given to the process that the load reports, and this process runs.
  abbrev pub IsStarted : Machine S → (arguments : ℕ) → Outcome S ℕ → Type 0
  IsStarted m arguments (returned m' v) =
      (e : Errno) × (v ≡ error_value e)
      × (2 ^ 32 - 9 ≤ v)
      × (v < 2 ^ 32)
      × IsRefused m arguments m' e
  IsStarted m arguments (entered after registers) =
      (loaded injected : Machine S) × (process : ℕ) × (services.process_load_switch m
          (program_path m arguments)
        ≡ (loaded, ok process))
      × (services.process_inject_arguments loaded process arguments ≡ (injected, ok tt))
      × IsRunning injected after process registers
  IsStarted m arguments panicked = 1 ≤ 0
