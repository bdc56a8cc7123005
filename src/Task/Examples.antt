-- ===== src/Task/Examples.antt =====
-- Witnesses on a list of three tasks, on a kernel that always has memory, and on a task that sees
-- memory as it is.
use slob_os.Prelude.{ℕ, ◌+◌, ◌≤◌, ◌≡◌, inl, inr, refl, ◌==◌, if◌then◌else◌, [], ◌∷◌, arith}
use slob_os.Status.{ok}
use slob_os.Task.{Task, Tasks, TaskKernel, Program, binary, no_task, task_new, task_list_remove}
use slob_os.Task.Switch.{Processor}
use slob_os.Task.Queue.{IsForward, IsQueue}
use slob_os.Task.Create.{task_new-IsQueue}
use slob_os.Task.Remove.{task_list_remove-IsForward}
use slob_os.Task.Unlink.{IsCurrent}
use slob_os.Task.Stale.{task_list_remove_stale}
use slob_os.Task.Turns.{Turn, task_next-Turn}

abbrev linked_task : (next prev : ℕ) → Task
linked_task next prev = record no_task { page_directory = 4096; next = next; prev = prev }

-- The tasks 64, 128 and 192; the second one is the current task.
abbrev three_tasks : Tasks
three_tasks = record {
  store = λ a.
      if a == 64
      then linked_task 128 0
      else if a == 128
      then linked_task 192 64
      else if a == 192
      then linked_task 0 128
      else no_task;
  task_head = 64;
  task_tail = 192;
  current_task = 128;
}

three_tasks-IsQueue : IsQueue three_tasks (64 ∷ 128 ∷ 192 ∷ [])
three_tasks-IsQueue = record {
  forward = (refl, (omega arith, (refl, (omega arith, (refl, (omega arith, refl))))));
  backward = (refl, (refl, (refl, refl)));
  distinct = ((omega arith, (omega arith, tt)), ((omega arith, tt), (tt, tt)));
}

-- An allocator that counts up in steps of 64.
abbrev counting_kernel : TaskKernel ℕ
counting_kernel = record {
  kzalloc = λ s size. (s + 64, s);
  kfree = λ s ptr. s;
  paging_new_4gb = λ s flags. (s + 64, s);
  paging_free_4gb = λ s chunk. s;
}

abbrev program : Program
program = record { address = 4096; filetype = binary }

task_new-IsQueue_example :
    (tasks' : Tasks) × ((task_new counting_kernel 256 three_tasks program ≡ (384, (tasks', ok 256)))
      × IsQueue tasks' (64 ∷ 128 ∷ 192 ∷ 256 ∷ []))
task_new-IsQueue_example =
    task_new-IsQueue counting_kernel 256 320 384 three_tasks program 256 320 (64 ∷ 128 ∷ 192 ∷ [])
      refl (omega arith) refl (omega arith) three_tasks-IsQueue
      (omega arith, (omega arith, (omega arith, tt)))

task_list_remove-IsForward_example :
    IsForward
      (task_list_remove three_tasks 128).store
      (task_list_remove three_tasks 128).task_head
      (64 ∷ 192 ∷ [])
    × IsCurrent (task_list_remove three_tasks 128).current_task (64 ∷ 192 ∷ [])
task_list_remove-IsForward_example =
    task_list_remove-IsForward three_tasks 128 (64 ∷ []) (192 ∷ []) three_tasks-IsQueue
      (inr (inl refl))

task_list_remove_stale_example :
    (((task_list_remove (task_list_remove three_tasks 128) 192).store 64).next ≡ 192)
    × ((task_list_remove (task_list_remove three_tasks 128) 192).task_tail ≡ 128)
task_list_remove_stale_example =
    task_list_remove_stale three_tasks 64 128 192 [] three_tasks-IsQueue

abbrev processor : Processor
processor = record { directory = 4096; segments = 0x23 }

task_next-Turn_example : (n : ℕ) × ((1 ≤ n) × ((n ≤ 3) × Turn (processor, three_tasks) n 64))
task_next-Turn_example =
    task_next-Turn (processor, three_tasks) (64 ∷ 128 ∷ 192 ∷ []) 1 0 128 64
      three_tasks-IsQueue.forward refl refl refl
