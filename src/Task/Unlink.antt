-- ===== src/Task/Unlink.antt =====
-- The steps of task_list_remove of src/task/task.c: what each leaves of the list.
use slob_os.Prelude.{
  same_test, ne_test, ℕ, ◌≡◌, ◌≢◌, ◌⊎◌, inl, inr, refl, sym, ap, ◌∙◌, ◌==◌, if◌then◌else◌, List, [],
  ◌∷◌, ◌++◌, arith,
}
use mathlib.Core.Path.{subst}
use slob_os.Prelude.Store.{put, put_self, put_ne}
use slob_os.Task.{
  Task, Tasks, set_next, task_get_next, task_list_remove, unlink_prev, unlink_head, unlink_tail,
  unlink_current,
}
use slob_os.Prelude.Distinct.{IsNew, IsDistinct}
use slob_os.Task.Queue.{IsForward, IsBackward, same-IsForward, put-IsSame}

-- `a` is one of the list.
abbrev pub IsIn : ℕ → List ℕ → Type 0
IsIn a [] = a ≢ a
IsIn a (x ∷ xs) = (a ≡ x) ⊎ IsIn a xs

-- The current task is one of the list, and none when the list is empty.
abbrev pub IsCurrent : ℕ → List ℕ → Type 0
IsCurrent a [] = a ≡ 0
IsCurrent a (x ∷ xs) = IsIn a (x ∷ xs)

-- The parts of a list without repetitions.
IsNew-right : (a : ℕ) (xs ys : List ℕ) → IsNew a (xs ++ ys) → IsNew a ys
IsNew-right a [] ys new = new
IsNew-right a (x ∷ xs) ys (ne, new) = IsNew-right a xs ys new

pub new_middle : (a t : ℕ) (xs ys : List ℕ) → IsNew a (xs ++ t ∷ ys) → a ≢ t
new_middle a t [] ys new = new.0
new_middle a t (x ∷ xs) ys (ne, new) = new_middle a t xs ys new

IsNew-without : (a t : ℕ) (xs ys : List ℕ) → IsNew a (xs ++ t ∷ ys) → IsNew a (xs ++ ys)
IsNew-without a t [] ys new = new.1
IsNew-without a t (x ∷ xs) ys (ne, new) = (ne, IsNew-without a t xs ys new)

pub IsDistinct-without :
    (t : ℕ) (xs ys : List ℕ) → IsDistinct (xs ++ t ∷ ys) → IsDistinct (xs ++ ys)
IsDistinct-without t [] ys d = d.1
IsDistinct-without t (x ∷ xs) ys (new, d) =
    (IsNew-without x t xs ys new, IsDistinct-without t xs ys d)

-- The `prev` of a task is the task before it, so no task that is not before it.
prev-IsNew :
    (s : ℕ → Task) (before last a x t : ℕ) (xs ys : List ℕ)
    → IsBackward s before last (x ∷ xs ++ t ∷ ys)
    → IsNew a (x ∷ xs ++ t ∷ ys)
    → a ≢ (s t).prev
prev-IsNew s before last a x t [] ys b new = λ e. new.0 (e ∙ b.1.0)
prev-IsNew s before last a x t (y ∷ xs) ys b new = prev-IsNew s x last a y t xs ys b.1 new.1

-- The `next` of the task before `t` jumps over `t`.
pub jump-IsForward :
    (s : ℕ → Task) (first before last x t : ℕ) (xs ys : List ℕ)
    → IsForward s first (x ∷ xs ++ t ∷ ys)
    → IsBackward s before last (x ∷ xs ++ t ∷ ys)
    → IsDistinct (x ∷ xs ++ t ∷ ys)
    → IsForward (set_next s (s t).prev (s t).next) first (x ∷ xs ++ ys)
jump-IsForward s first before last x t [] ys f b d =
    let skip : Task = record (s x) { next = (s t).next } in
    let rest =
      same-IsForward (put s x skip) s (s t).next ys (put-IsSame s x skip ys d.0.1) f.1.1.1.1 in
    let at_x = ap (λ (u : Task). u.next) (put_self s x skip) in
    subst (λ (p : ℕ). IsForward (set_next s p (s t).next) first (x ∷ ys)) (sym b.1.0)
      (f.0, (f.1.0, rw (at_x) rest))
jump-IsForward s first before last x t (y ∷ xs) ys f b d =
    let ne : x ≢ (s t).prev = prev-IsNew s x last x y t xs ys b.1 d.0 in
    let same = put_ne s (s t).prev (record (s (s t).prev) { next = (s t).next }) x ne in
    let rest = jump-IsForward s (s x).next x last y t xs ys f.1.1 b.1 d.1 in
    (f.0, (f.1.0, rw (same) rest))

-- The four steps write four different fields, and read what the first has left.
pub remove-store :
    (tasks : Tasks) (t : ℕ) → (task_list_remove tasks t).store ≡ (unlink_prev tasks t).store
unfolding task_list_remove unlink_head unlink_tail unlink_current
remove-store tasks t = ground arith

remove-head :
    (tasks : Tasks) (t : ℕ)
    → (task_list_remove tasks t).task_head ≡ (
        if t == (unlink_prev tasks t).task_head
        then ((unlink_prev tasks t).store t).next
        else (unlink_prev tasks t).task_head)
unfolding task_list_remove unlink_head unlink_tail unlink_current
remove-head tasks t = ground arith

pub remove-tail :
    (tasks : Tasks) (t : ℕ)
    → (task_list_remove tasks t).task_tail ≡ (
        if t == (unlink_prev tasks t).task_tail
        then ((unlink_prev tasks t).store t).prev
        else (unlink_prev tasks t).task_tail)
unfolding task_list_remove unlink_head unlink_tail unlink_current
remove-tail tasks t = ground arith

pub remove-current :
    (tasks : Tasks) (t : ℕ)
    → (task_list_remove tasks t).current_task ≡ (
        if t == tasks.current_task
        then (if ((unlink_prev tasks t).store t).next == 0
            then (task_list_remove tasks t).task_head
            else ((unlink_prev tasks t).store t).next)
        else tasks.current_task)
unfolding task_list_remove unlink_prev unlink_head unlink_tail unlink_current task_get_next
remove-current tasks t = ground arith

-- The list behind one of its tasks.
pub after_task :
    (s : ℕ → Task) (first t : ℕ) (xs ys : List ℕ)
    → IsForward s first (xs ++ t ∷ ys)
    → IsForward s (s t).next ys
after_task s first t [] ys f = f.1.1
after_task s first t (x ∷ xs) ys f = after_task s (s x).next t xs ys f.1.1

pub first-IsCurrent :
    (s : ℕ → Task) (first : ℕ) (xs : List ℕ) → IsForward s first xs → IsCurrent first xs
first-IsCurrent s first [] f = f
first-IsCurrent s first (x ∷ xs) f = inl f.0

pub in-IsCurrent : (a : ℕ) (xs : List ℕ) → IsIn a xs → IsCurrent a xs
in-IsCurrent a [] i = absurd (i refl)
in-IsCurrent a (x ∷ xs) i = i

pub IsIn-without : (a t : ℕ) (xs ys : List ℕ) → IsIn a (xs ++ t ∷ ys) → t ≢ a → IsIn a (xs ++ ys)
IsIn-without a t [] ys (inl e) ne = absurd (ne (sym e))
IsIn-without a t [] ys (inr i) ne = i
IsIn-without a t (x ∷ xs) ys (inl e) ne = inl e
IsIn-without a t (x ∷ xs) ys (inr i) ne = inr (IsIn-without a t xs ys i ne)

pub IsIn-right : (a : ℕ) (xs ys : List ℕ) → IsIn a ys → IsIn a (xs ++ ys)
IsIn-right a [] ys i = i
IsIn-right a (x ∷ xs) ys i = inr (IsIn-right a xs ys i)

pub some-IsIn : (a t : ℕ) (xs ys : List ℕ) → IsCurrent a (xs ++ t ∷ ys) → IsIn a (xs ++ t ∷ ys)
some-IsIn a t [] ys i = i
some-IsIn a t (x ∷ xs) ys i = i

-- The store that the removal leaves has the same `next` and `prev` of the removed task.
pub next-unlink_prev :
    (tasks : Tasks) (t : ℕ) → ((unlink_prev tasks t).store t).next ≡ (tasks.store t).next
unfolding unlink_prev
next-unlink_prev tasks t = ground arith

pub prev-unlink_prev :
    (tasks : Tasks) (t a : ℕ) → ((unlink_prev tasks t).store a).prev ≡ (tasks.store a).prev
unfolding unlink_prev
prev-unlink_prev tasks t a = ground arith

pub ends-unlink_prev :
    (tasks : Tasks) (t : ℕ)
    → ((unlink_prev tasks t).task_head ≡ tasks.task_head)
      × ((unlink_prev tasks t).task_tail ≡ tasks.task_tail)
unfolding unlink_prev
ends-unlink_prev tasks t = ground arith

-- The task before `t` is one of the list, and none is 0.
pub prev_nonzero :
    (s : ℕ → Task) (first before last x t : ℕ) (xs ys : List ℕ)
    → IsForward s first (x ∷ xs ++ t ∷ ys)
    → IsBackward s before last (x ∷ xs ++ t ∷ ys)
    → (s t).prev ≢ 0
prev_nonzero s first before last x t [] ys f b = λ e. f.1.0 (sym b.1.0 ∙ e)
prev_nonzero s first before last x t (y ∷ xs) ys f b =
    prev_nonzero s (s x).next x last y t xs ys f.1.1 b.1

-- The store after the step on the task before.
pub unlinked_first :
    (tasks : Tasks) (t : ℕ) → (tasks.store t).prev ≡ 0 → (unlink_prev tasks t).store ≡ tasks.store
unfolding unlink_prev
unlinked_first tasks t e = rw (same_test (tasks.store t).prev 0 e) refl

pub unlinked_behind :
    (tasks : Tasks) (t : ℕ)
    → (tasks.store t).prev ≢ 0
    → (unlink_prev tasks t).store ≡ set_next tasks.store (tasks.store t).prev (tasks.store t).next
unfolding unlink_prev
unlinked_behind tasks t ne = rw (ne_test (tasks.store t).prev 0 ne) refl

pub head_removed :
    (tasks : Tasks) (t : ℕ)
    → t ≡ tasks.task_head
    → (task_list_remove tasks t).task_head ≡ (tasks.store t).next
head_removed tasks t e =
    remove-head tasks t
    ∙ rw ((ends-unlink_prev tasks t).0, same_test t tasks.task_head e) (next-unlink_prev tasks t)

pub head_kept :
    (tasks : Tasks) (t : ℕ)
    → t ≢ tasks.task_head
    → (task_list_remove tasks t).task_head ≡ tasks.task_head
head_kept tasks t ne =
    remove-head tasks t ∙ rw ((ends-unlink_prev tasks t).0, ne_test t tasks.task_head ne) refl

pub tail_removed :
    (tasks : Tasks) (t : ℕ)
    → t ≡ tasks.task_tail
    → (task_list_remove tasks t).task_tail ≡ (tasks.store t).prev
tail_removed tasks t e =
    remove-tail tasks t
    ∙ rw ((ends-unlink_prev tasks t).1, same_test t tasks.task_tail e) (prev-unlink_prev tasks t t)

pub tail_kept :
    (tasks : Tasks) (t : ℕ)
    → t ≢ tasks.task_tail
    → (task_list_remove tasks t).task_tail ≡ tasks.task_tail
tail_kept tasks t ne =
    remove-tail tasks t ∙ rw ((ends-unlink_prev tasks t).1, ne_test t tasks.task_tail ne) refl
