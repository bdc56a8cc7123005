-- ===== src/Task/Create.antt =====
-- task_new of src/task/task.c on the list of tasks.
use slob_os.Prelude.{ne_test, ℕ, ◌≡◌, ◌≢◌, refl, ap, List, [], ◌∷◌, ◌++◌, arith}
use slob_os.Prelude.Store.{put, put_self}
use slob_os.Status.{eio, err, ok}
use slob_os.Task.{
  task_list_remove, task_free, freed_task, unlink_prev, unlink_head, unlink_tail, unlink_current,
  Task, Tasks, TaskKernel, Program, no_task, directory_flags, first_registers, init_mapped,
  new_initialized, new_directory, new_allocated, task_new, size_of_task, link_task,
}
use slob_os.Prelude.Distinct.{IsNew}
use slob_os.Task.Queue.{IsQueue, same-IsForward, same-IsBackward, put-IsSame, link_task-IsQueue}

-- A structure written where no task of the list is leaves the list.
pub put-IsQueue :
    (tasks : Tasks) (task : ℕ) (t : Task) (xs : List ℕ)
    → IsQueue tasks xs
    → IsNew task xs
    → IsQueue (record tasks { store = put tasks.store task t }) xs
put-IsQueue tasks task t xs q new =
    let same = put-IsSame tasks.store task t xs new in
    record {
      forward =
          same-IsForward (put tasks.store task t) tasks.store tasks.task_head xs same q.forward;
      backward =
          same-IsBackward (put tasks.store task t) tasks.store 0 tasks.task_tail xs same q.backward;
      distinct = q.distinct;
    }

-- What task_init leaves.
abbrev pub initialized : Program → (page_directory : ℕ) → Task
initialized program page_directory = record no_task {
  page_directory = page_directory;
  registers = first_registers program.filetype;
  process = program.address;
}

module _ {S : Type 0} (kernel : TaskKernel S) where
  -- When kzalloc gives an address that no task of the list has, and a page directory can be made,
  -- task_new returns the address, and the list, linked in both directions, has the new task behind
  -- the others.
  pub task_new-IsQueue :
      (s s' s'' : S) (tasks : Tasks) (program : Program) (task page_directory : ℕ) (xs : List ℕ)
      → kernel.kzalloc s size_of_task ≡ (s', task)
      → task ≢ 0
      → kernel.paging_new_4gb s' directory_flags ≡ (s'', page_directory)
      → page_directory ≢ 0
      → IsQueue tasks xs
      → IsNew task xs
      → (tasks' : Tasks) × ((task_new kernel s tasks program ≡ (s'', (tasks', ok task)))
          × IsQueue tasks' (xs ++ task ∷ []))
  unfolding task_new new_allocated new_directory init_mapped new_initialized
  task_new-IsQueue s s' s'' tasks program task page_directory xs placed nonzero made has queue new =
      let entered : Tasks = record tasks {
        store = put tasks.store task (initialized program page_directory);
      } in
      let at_task = put_self tasks.store task (initialized program page_directory) in
      (
        link_task entered task,
        (
          rw (placed, ne_test task 0 nonzero, made, ne_test page_directory 0 has) refl,
          link_task-IsQueue entered task xs
              (put-IsQueue tasks task (initialized program page_directory) xs queue new) nonzero new
              (ap (λ (t : Task). t.next) at_task) (ap (λ (t : Task). t.prev) at_task),
        ),
      )

  -- task_list_remove of a task that no link and no variable leads to.
  remove_absent :
      (tasks : Tasks) (task : ℕ)
      → (tasks.store task).prev ≡ 0
      → task ≢ tasks.task_head
      → task ≢ tasks.task_tail
      → task ≢ tasks.current_task
      → task_list_remove tasks task ≡ tasks
  unfolding task_list_remove unlink_prev unlink_head unlink_tail unlink_current
  remove_absent tasks task first head tail current = ground arith

  -- When the page directory cannot be made, task_new gives the new task back to the allocator and
  -- returns the error EIO; the list is the same.
  pub task_new-failed :
      (s s' s'' : S) (tasks : Tasks) (program : Program) (task : ℕ)
      → kernel.kzalloc s size_of_task ≡ (s', task)
      → task ≢ 0
      → kernel.paging_new_4gb s' directory_flags ≡ (s'', 0)
      → task ≢ tasks.task_head
      → task ≢ tasks.task_tail
      → task ≢ tasks.current_task
      → task_new kernel s tasks program ≡ (
        kernel.kfree (kernel.paging_free_4gb s'' 0) task,
        (record tasks { store = put tasks.store task no_task }, err eio),
      )
  unfolding task_new new_allocated new_directory init_mapped new_initialized task_free freed_task
  task_new-failed s s' s'' tasks program task placed nonzero made head tail current =
      let cleared : Tasks = record tasks { store = put tasks.store task no_task } in
      let at_task = put_self tasks.store task no_task in
      rw
        (
          placed,
          ne_test task 0 nonzero,
          made,
          remove_absent cleared task (ap (λ (t : Task). t.prev) at_task) head tail current,
          at_task,
        )
        refl
