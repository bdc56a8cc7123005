-- ===== src/Task/Remove.antt =====
-- task_list_remove of src/task/task.c on the list of tasks.
use slob_os.Prelude.{
  same_test, ne_test, ℕ, ◌≡◌, ◌≢◌, inl, inr, refl, sym, ap, ◌∙◌, ◌==◌, if◌then◌else◌, List, [], ◌∷◌,
  ◌++◌, Bool-cases, eq_of_test, ne_of_test,
}
use mathlib.Core.Path.{subst}
use slob_os.Prelude.Paths.{subst2}
use slob_os.Task.{Task, Tasks, task_list_remove, unlink_prev}
use slob_os.Prelude.Distinct.{IsDistinct}
use slob_os.Task.Queue.{IsForward, IsBackward, IsQueue}
use slob_os.Task.Unlink.{
  prev-unlink_prev, tail_removed, IsCurrent, new_middle, IsDistinct-without, jump-IsForward,
  remove-store, remove-current, after_task, first-IsCurrent, in-IsCurrent, IsIn-without, IsIn-right,
  some-IsIn, next-unlink_prev, prev_nonzero, unlinked_first, unlinked_behind, head_removed,
  head_kept,
}

-- The head and the links after the removal.
remove-IsForward :
    (tasks : Tasks) (t : ℕ) (xs ys : List ℕ)
    → IsQueue tasks (xs ++ t ∷ ys)
    → IsForward (unlink_prev tasks t).store (task_list_remove tasks t).task_head (xs ++ ys)
remove-IsForward tasks t [] ys q =
    subst2 (λ s h. IsForward s h ys) (sym (unlinked_first tasks t q.backward.0))
      (sym (head_removed tasks t (sym q.forward.0))) q.forward.1.1
remove-IsForward tasks t (x ∷ xs) ys q =
    subst2 (λ s h. IsForward s h (x ∷ xs ++ ys))
      (sym (
        unlinked_behind tasks t (
          prev_nonzero tasks.store tasks.task_head 0 tasks.task_tail x t xs ys q.forward
            q.backward)))
      (sym (head_kept tasks t (λ e. new_middle x t xs ys q.distinct.0 (sym (e ∙ q.forward.0)))))
      (jump-IsForward tasks.store tasks.task_head 0 tasks.task_tail x t xs ys q.forward q.backward
        q.distinct)

-- The task that task_get_next finds from the removed one.
next-IsCurrent :
    (tasks : Tasks) (t head : ℕ) (xs ys : List ℕ)
    → IsForward tasks.store (tasks.store t).next ys
    → IsCurrent head (xs ++ ys)
    → IsCurrent (if (tasks.store t).next == 0 then head else (tasks.store t).next) (xs ++ ys)
next-IsCurrent tasks t head xs [] ends current = rw (same_test (tasks.store t).next 0 ends) current
next-IsCurrent tasks t head xs (y ∷ ys) f current =
    rw (ne_test (tasks.store t).next 0 (λ e. f.1.0 (sym f.0 ∙ e))) (
      in-IsCurrent (tasks.store t).next (xs ++ y ∷ ys)
        (IsIn-right (tasks.store t).next xs (y ∷ ys) (inl f.0)))

current_kept :
    (tasks : Tasks) (t : ℕ)
    → t ≢ tasks.current_task
    → (task_list_remove tasks t).current_task ≡ tasks.current_task
current_kept tasks t ne = remove-current tasks t ∙ rw (ne_test t tasks.current_task ne) refl

current_removed :
    (tasks : Tasks) (t : ℕ)
    → t ≡ tasks.current_task
    → (task_list_remove tasks t).current_task ≡ (
        if (tasks.store t).next == 0
        then (task_list_remove tasks t).task_head
        else (tasks.store t).next)
current_removed tasks t e =
    remove-current tasks t ∙ rw (same_test t tasks.current_task e, next-unlink_prev tasks t) refl

remove-IsCurrent :
    (tasks : Tasks) (t : ℕ) (xs ys : List ℕ)
    → IsQueue tasks (xs ++ t ∷ ys)
    → IsCurrent tasks.current_task (xs ++ t ∷ ys)
    → IsCurrent (task_list_remove tasks t).current_task (xs ++ ys)
remove-IsCurrent tasks t xs ys q current = elim (Bool-cases (t == tasks.current_task)) [
  | inr other ↦
      let ne = ne_of_test t tasks.current_task other in
      subst (λ a. IsCurrent a (xs ++ ys)) (sym (current_kept tasks t ne))
        (in-IsCurrent tasks.current_task (xs ++ ys) (
          IsIn-without tasks.current_task t xs ys (some-IsIn tasks.current_task t xs ys current)
            ne))
  | inl same ↦
      let e = eq_of_test t tasks.current_task same in
      subst (λ a. IsCurrent a (xs ++ ys)) (sym (current_removed tasks t e))
        (next-IsCurrent tasks t (task_list_remove tasks t).task_head xs ys
          (after_task tasks.store tasks.task_head t xs ys q.forward)
          (first-IsCurrent (unlink_prev tasks t).store (task_list_remove tasks t).task_head
            (xs ++ ys) (remove-IsForward tasks t xs ys q)))
]

-- When a task of a list that is linked in both directions is taken out, the links from the head on
-- are those of the list without it, and the current task is one of the tasks that are left, or 0
-- when none is left.
pub task_list_remove-IsForward :
    (tasks : Tasks) (t : ℕ) (xs ys : List ℕ)
    → IsQueue tasks (xs ++ t ∷ ys)
    → IsCurrent tasks.current_task (xs ++ t ∷ ys)
    → IsForward (task_list_remove tasks t).store (task_list_remove tasks t).task_head (xs ++ ys)
      × IsCurrent (task_list_remove tasks t).current_task (xs ++ ys)
task_list_remove-IsForward tasks t xs ys q current = (
  subst (λ s. IsForward s (task_list_remove tasks t).task_head (xs ++ ys))
      (sym (remove-store tasks t)) (remove-IsForward tasks t xs ys q),
  remove-IsCurrent tasks t xs ys q current,
)

-- The last task and the rest of the list.
IsBackward-front :
    (s : ℕ → Task) (before last t : ℕ) (xs : List ℕ)
    → IsBackward s before last (xs ++ t ∷ [])
    → IsBackward s before (s t).prev xs × (last ≡ t)
IsBackward-front s before last t [] b = (b.0, b.1)
IsBackward-front s before last t (x ∷ xs) b =
    let rest = IsBackward-front s x last t xs b.1 in ((b.0, rest.0), rest.1)

prevs-IsBackward :
    (tasks : Tasks) (t before last : ℕ) (xs : List ℕ)
    → IsBackward tasks.store before last xs
    → IsBackward (unlink_prev tasks t).store before last xs
prevs-IsBackward tasks t before last [] b = b
prevs-IsBackward tasks t before last (x ∷ xs) b =
    (prev-unlink_prev tasks t x ∙ b.0, prevs-IsBackward tasks t x last xs b.1)

without_last : (xs : List ℕ) → xs ++ [] ≡ xs
without_last [] = refl
without_last (x ∷ xs) = ap (λ ys. x ∷ ys) (without_last xs)

-- When the last task of a list that is linked in both directions is taken out, the list without it
-- is linked in both directions.
pub task_list_remove-IsQueue :
    (tasks : Tasks) (t : ℕ) (xs : List ℕ)
    → IsQueue tasks (xs ++ t ∷ [])
    → IsQueue (task_list_remove tasks t) xs
task_list_remove-IsQueue tasks t xs q =
    let front = IsBackward-front tasks.store 0 tasks.task_tail t xs q.backward in
    record {
      forward =
          subst2 (λ s ys. IsForward s (task_list_remove tasks t).task_head ys)
            (sym (remove-store tasks t)) (without_last xs) (remove-IsForward tasks t xs [] q);
      backward =
          subst2 (λ s last. IsBackward s 0 last xs) (sym (remove-store tasks t))
            (sym (tail_removed tasks t (sym front.1)))
            (prevs-IsBackward tasks t 0 (tasks.store t).prev xs front.0);
      distinct = subst IsDistinct (without_last xs) (IsDistinct-without t xs [] q.distinct);
    }
