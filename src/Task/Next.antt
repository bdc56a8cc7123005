-- ===== src/Task/Next.antt =====
-- The task that task_get_next of src/task/task.c finds, by its number in the list.
use slob_os.Prelude.{
  ℕ, suc, ◌+◌, ◌≡◌, ◌≢◌, sym, ap, ◌∙◌, some, ltb, if◌then◌else◌, true, false, List, [], ◌∷◌, length,
  get_elem?, arith,
}
use slob_os.Task.{Tasks, task_get_next}
use slob_os.Task.Queue.{IsForward}
use slob_os.Task.Turns.{next_of, wrapped, none_ne, From-index}

-- The number behind `i`, around the end.
abbrev pub around : (xs : List ℕ) (i : ℕ) → ℕ
around xs i = if ltb (i + 1) (length xs) then i + 1 else 0

-- The next task is not missing, and stands behind the current one.
pub record Follows (tasks : Tasks) (xs : List ℕ) (i : ℕ) : Type 0 where
  pub nonzero : task_get_next tasks ≢ 0
  pub place : get_elem? xs (around xs i) ≡ some (task_get_next tasks)

from-Follows :
    (tasks : Tasks) (x : ℕ) (xs : List ℕ) (i : ℕ) (rest : List ℕ)
    → IsForward tasks.store tasks.task_head (x ∷ xs)
    → IsForward tasks.store tasks.current_task (tasks.current_task ∷ rest)
    → i + suc (length rest) ≡ length (x ∷ xs)
    → ((k : ℕ) → get_elem? (tasks.current_task ∷ rest) k ≡ get_elem? (x ∷ xs) (i + k))
    → Follows tasks (x ∷ xs) i
from-Follows tasks x xs i [] f here count elements =
    let found : task_get_next tasks ≡ tasks.task_head = wrapped tasks here.1.1 in
    let last : ltb (i + 1) (length (x ∷ xs)) ≡ false = ground arith in
    record {
      nonzero = λ e. f.1.0 (sym f.0 ∙ sym found ∙ e);
      place = rw (last) (ap some (sym (found ∙ f.0)));
    }
from-Follows tasks x xs i (z ∷ zs) f here count elements =
    let next : (tasks.store tasks.current_task).next ≡ z = here.1.1.0 in
    let found : task_get_next tasks ≡ z = next_of tasks (λ e. here.1.1.1.0 (sym next ∙ e)) ∙ next in
    let more : ltb (i + 1) (length (x ∷ xs)) ≡ true = ground arith in
    record {
      nonzero = λ e. here.1.1.1.0 (sym found ∙ e);
      place = rw (more) (sym (elements 1) ∙ ap some (sym found));
    }

pub task_get_next-Follows :
    (tasks : Tasks) (xs : List ℕ) (i : ℕ)
    → IsForward tasks.store tasks.task_head xs
    → get_elem? xs i ≡ some tasks.current_task
    → Follows tasks xs i
task_get_next-Follows tasks [] i f e = absurd (none_ne e)
task_get_next-Follows tasks (x ∷ xs) i f e =
    let from = From-index tasks.store tasks.task_head tasks.current_task i (x ∷ xs) f e in
    from-Follows tasks x xs i from.rest f from.forward from.count from.elements
