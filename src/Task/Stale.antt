-- ===== src/Task/Stale.antt =====
-- Two removals with task_list_remove of src/task/task.c, the second behind the first.
use slob_os.Prelude.{ℕ, ◌≡◌, ◌≢◌, sym, ap, ◌∙◌, List, [], ◌∷◌, ◌++◌}
use slob_os.Prelude.Store.{put_self, put_ne}
use slob_os.Task.{Task, Tasks, task_list_remove, set_next}
use slob_os.Prelude.Distinct.{IsDistinct}
use slob_os.Task.Queue.{IsForward, IsBackward, IsQueue}
use slob_os.Task.Unlink.{remove-store, prev-unlink_prev, unlinked_behind, tail_removed, tail_kept}

-- The links among the last three tasks of a list.
record Three (s : ℕ → Task) (last a b c : ℕ) : Type 0 where
  some_a : a ≢ 0
  some_b : b ≢ 0
  before_b : (s b).prev ≡ a
  before_c : (s c).prev ≡ b
  behind_b : (s b).next ≡ c
  is_last : last ≡ c
  a_b : a ≢ b
  b_c : b ≢ c

last-Three :
    (s : ℕ → Task) (first before last a b c : ℕ) (xs : List ℕ)
    → IsForward s first (xs ++ a ∷ b ∷ c ∷ [])
    → IsBackward s before last (xs ++ a ∷ b ∷ c ∷ [])
    → IsDistinct (xs ++ a ∷ b ∷ c ∷ [])
    → Three s last a b c
last-Three s first before last a b c [] f k d = record {
  some_a = f.1.0;
  some_b = f.1.1.1.0;
  before_b = k.1.0;
  before_c = k.1.1.0;
  behind_b = f.1.1.1.1.0;
  is_last = k.1.1.1;
  a_b = d.0.0;
  b_c = d.1.0.0;
}
last-Three s first before last a b c (x ∷ xs) f k d =
    last-Three s (s x).next x last a b c xs f.1.1 k.1 d.1

-- A removal with a task before: that task's `next` jumps over, every other task keeps its own.
next_jumped :
    (tasks : Tasks) (t a : ℕ)
    → (tasks.store t).prev ≡ a
    → a ≢ 0
    → ((task_list_remove tasks t).store a).next ≡ (tasks.store t).next
next_jumped tasks t a e nonzero =
    let jump : Task = record (tasks.store (tasks.store t).prev) { next = (tasks.store t).next } in
    ap (λ (s : ℕ → Task). (s a).next)
      (remove-store tasks t ∙ unlinked_behind tasks t (λ z. nonzero (sym e ∙ z)))
    ∙ ap (λ (p : ℕ). (set_next tasks.store (tasks.store t).prev (tasks.store t).next p).next)
        (sym e)
    ∙ ap (λ (u : Task). u.next) (put_self tasks.store (tasks.store t).prev jump)

next_left :
    (tasks : Tasks) (t a : ℕ)
    → (tasks.store t).prev ≢ 0
    → a ≢ (tasks.store t).prev
    → ((task_list_remove tasks t).store a).next ≡ (tasks.store a).next
next_left tasks t a nonzero ne =
    let jump : Task = record (tasks.store (tasks.store t).prev) { next = (tasks.store t).next } in
    ap (λ (s : ℕ → Task). (s a).next) (remove-store tasks t ∙ unlinked_behind tasks t nonzero)
    ∙ ap (λ (u : Task). u.next) (put_ne tasks.store (tasks.store t).prev jump a ne)

prev_left :
    (tasks : Tasks) (t a : ℕ) → ((task_list_remove tasks t).store a).prev ≡ (tasks.store a).prev
prev_left tasks t a =
    ap (λ (s : ℕ → Task). (s a).prev) (remove-store tasks t) ∙ prev-unlink_prev tasks t a

-- In a list that ends with `a`, `b` and `c`, after `b` and then `c` have been taken out, the `next`
-- of `a` is `c` and the tail is `b`, which are both freed: the first removal leaves the `prev` of `c`
-- at `b`, and the second writes through it.
pub task_list_remove_stale :
    (tasks : Tasks) (a b c : ℕ) (xs : List ℕ)
    → IsQueue tasks (xs ++ a ∷ b ∷ c ∷ [])
    → (((task_list_remove (task_list_remove tasks b) c).store a).next ≡ c)
      × ((task_list_remove (task_list_remove tasks b) c).task_tail ≡ b)
task_list_remove_stale tasks a b c xs q =
    let three =
      last-Three tasks.store tasks.task_head 0 tasks.task_tail a b c xs q.forward q.backward
        q.distinct in
    let once : Tasks = task_list_remove tasks b in
    let before : (once.store c).prev ≡ b = prev_left tasks b c ∙ three.before_c in
    let tail : once.task_tail ≡ c =
      tail_kept tasks b (λ e. three.b_c (e ∙ three.is_last)) ∙ three.is_last in
    (
      next_left once c a (λ e. three.some_b (sym before ∙ e)) (λ e. three.a_b (e ∙ before))
          ∙ next_jumped tasks b a three.before_b three.some_a
          ∙ three.behind_b,
      tail_removed once c (sym tail) ∙ before,
    )
