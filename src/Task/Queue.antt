-- ===== src/Task/Queue.antt =====
-- The list of tasks of src/task/task.c as a list of addresses: task_new appends and
-- task_list_remove takes out.
use slob_os.Prelude.{ℕ, ◌≡◌, ◌≢◌, refl, sym, ap, ◌∙◌, false, ◌==◌, List, [], ◌∷◌, ◌++◌, arith}
use slob_os.Prelude.Distinct.{IsNew, IsDistinct, append-IsDistinct}
use slob_os.Prelude.Store.{put, put_self, put_ne}
use slob_os.Task.{Task, Tasks, set_next, set_prev, link_task}

-- From `first`, along `next`, the tasks are those of the list and the last one's `next` is 0.
abbrev pub IsForward : (ℕ → Task) → (first : ℕ) → List ℕ → Type 0
IsForward store first [] = first ≡ 0
IsForward store first (x ∷ xs) = (first ≡ x) × ((x ≢ 0) × IsForward store (store x).next xs)

-- The `prev` of the first task is `before`, that of every other one is the task before it, and the
-- last task is `last`.
abbrev pub IsBackward : (ℕ → Task) → (before last : ℕ) → List ℕ → Type 0
IsBackward store before last [] = last ≡ before
IsBackward store before last (x ∷ xs) = ((store x).prev ≡ before) × IsBackward store x last xs

-- The tasks hold the list, linked in both directions.
pub record IsQueue (tasks : Tasks) (xs : List ℕ) : Type 0 where
  pub forward : IsForward tasks.store tasks.task_head xs
  pub backward : IsBackward tasks.store 0 tasks.task_tail xs
  pub distinct : IsDistinct xs

-- The links are those of another store that agrees on the list.
abbrev pub IsSame : (ℕ → Task) → (ℕ → Task) → List ℕ → Type 0
IsSame s t [] = Unit {0}
IsSame s t (x ∷ xs) = (s x ≡ t x) × IsSame s t xs

pub put-IsSame :
    (s : ℕ → Task) (a : ℕ) (v : Task) (xs : List ℕ) → IsNew a xs → IsSame (put s a v) s xs
put-IsSame s a v [] new = tt
put-IsSame s a v (x ∷ xs) (ne, new) = (put_ne s a v x (λ e. ne (sym e)), put-IsSame s a v xs new)

pub same-IsForward :
    (s t : ℕ → Task) (first : ℕ) (xs : List ℕ)
    → IsSame s t xs
    → IsForward t first xs
    → IsForward s first xs
same-IsForward s t first [] same forward = forward
same-IsForward s t first (x ∷ xs) (e, same) (is_first, (nonzero, forward)) =
    (is_first, (nonzero, rw (e) (same-IsForward s t (t x).next xs same forward)))

pub same-IsBackward :
    (s t : ℕ → Task) (before last : ℕ) (xs : List ℕ)
    → IsSame s t xs
    → IsBackward t before last xs
    → IsBackward s before last xs
same-IsBackward s t before last [] same backward = backward
same-IsBackward s t before last (x ∷ xs) (e, same) (prev, backward) =
    (rw (e) prev, same-IsBackward s t x last xs same backward)

-- The last task of a list with a first one is in the list.
pub last-IsNew :
    (s : ℕ → Task) (before last a x : ℕ) (xs : List ℕ)
    → IsBackward s before last (x ∷ xs)
    → IsNew a (x ∷ xs)
    → a ≢ last
last-IsNew s before last a x [] (prev, e) (ne, new) = λ same. ne (same ∙ e)
last-IsNew s before last a x (y ∷ ys) (prev, backward) (ne, new) =
    last-IsNew s x last a y ys backward new

-- The store after task_new's two writes.
abbrev pub behind : (ℕ → Task) → (last task : ℕ) → ℕ → Task
behind s last task = set_prev (set_next s last task) task last

behind-last :
    (s : ℕ → Task) (last task : ℕ)
    → task ≢ last
    → behind s last task last ≡ record (s last) { next = task }
behind-last s last task ne =
    put_ne (set_next s last task) task (record (set_next s last task task) { prev = last }) last
      (λ e. ne (sym e))
    ∙ put_self s last (record (s last) { next = task })

behind-task :
    (s : ℕ → Task) (last task : ℕ)
    → task ≢ last
    → behind s last task task ≡ record (s task) { prev = last }
behind-task s last task ne =
    put_self (set_next s last task) task (record (set_next s last task task) { prev = last })
    ∙ ap (λ (t : Task). record t { prev = last })
        (put_ne s last (record (s last) { next = task }) task ne)

behind-other : (s : ℕ → Task) (last task a : ℕ) → a ≢ last → a ≢ task → behind s last task a ≡ s a
behind-other s last task a not_last not_task =
    put_ne (set_next s last task) task (record (set_next s last task task) { prev = last }) a
      not_task
    ∙ put_ne s last (record (s last) { next = task }) a not_last

-- A task appended behind the last one.
pub append-IsForward :
    (s : ℕ → Task) (first before last task x : ℕ) (xs : List ℕ)
    → IsForward s first (x ∷ xs)
    → IsBackward s before last (x ∷ xs)
    → IsDistinct (x ∷ xs)
    → task ≢ 0
    → (s task).next ≡ 0
    → IsNew task (x ∷ xs)
    → IsForward (behind s last task) first (x ∷ xs ++ task ∷ [])
append-IsForward s first before last task x [] f b d nonzero ends new =
    let ne : task ≢ last = last-IsNew s before last task x [] b new in
    let at_x : behind s last task x ≡ record (s last) { next = task } =
      ap (behind s last task) (sym b.1) ∙ behind-last s last task ne in
    let at_task = behind-task s last task ne in
    (
      f.0,
      (
        f.1.0,
        (ap (λ (t : Task). t.next) at_x, (nonzero, ap (λ (t : Task). t.next) at_task ∙ ends)),
      ),
    )
append-IsForward s first before last task x (y ∷ ys) f b d nonzero ends new =
    let ne : x ≢ last = last-IsNew s x last x y ys b.1 d.0 in
    let at_x : behind s last task x ≡ s x = behind-other s last task x ne (λ e. new.0 (sym e)) in
    let rest = append-IsForward s (s x).next x last task y ys f.1.1 b.1 d.1 nonzero ends new.1 in
    (f.0, (f.1.0, rw (at_x) rest))

pub append-IsBackward :
    (s : ℕ → Task) (before last task x : ℕ) (xs : List ℕ)
    → IsBackward s before last (x ∷ xs)
    → IsDistinct (x ∷ xs)
    → IsNew task (x ∷ xs)
    → IsBackward (behind s last task) before task (x ∷ xs ++ task ∷ [])
append-IsBackward s before last task x [] b d new =
    let ne : task ≢ last = last-IsNew s before last task x [] b new in
    let at_x : behind s last task x ≡ record (s last) { next = task } =
      ap (behind s last task) (sym b.1) ∙ behind-last s last task ne in
    let prev : (s last).prev ≡ before = ap (λ (a : ℕ). (s a).prev) b.1 ∙ b.0 in
    let at_task = behind-task s last task ne in
    (ap (λ (t : Task). t.prev) at_x ∙ prev, (ap (λ (t : Task). t.prev) at_task ∙ b.1, refl))
append-IsBackward s before last task x (y ∷ ys) b d new =
    let ne : x ≢ last = last-IsNew s x last x y ys b.1 d.0 in
    let at_x : behind s last task x ≡ s x = behind-other s last task x ne (λ e. new.0 (sym e)) in
    (ap (λ (t : Task). t.prev) at_x ∙ b.0, append-IsBackward s x last task y ys b.1 d.1 new.1)

head_test : (tasks : Tasks) (x : ℕ) → tasks.task_head ≡ x → x ≢ 0 → (tasks.task_head == 0) ≡ false
head_test tasks x e nonzero = rw (e) (grind arith)

-- A task that is not in the list, linked.
pub link_task-IsQueue :
    (tasks : Tasks) (task : ℕ) (xs : List ℕ)
    → IsQueue tasks xs
    → task ≢ 0
    → IsNew task xs
    → (tasks.store task).next ≡ 0
    → (tasks.store task).prev ≡ 0
    → IsQueue (link_task tasks task) (xs ++ task ∷ [])
unfolding link_task
link_task-IsQueue tasks task [] q nonzero new ends starts =
    rw (q.forward)
      (record { forward = (refl, (nonzero, ends)); backward = (starts, refl); distinct = (tt, tt) })
link_task-IsQueue tasks task (x ∷ xs) q nonzero new ends starts =
    rw (head_test tasks x q.forward.0 q.forward.1.0) (record {
      forward =
          append-IsForward tasks.store tasks.task_head 0 tasks.task_tail task x xs q.forward
            q.backward q.distinct nonzero ends new;
      backward =
          append-IsBackward tasks.store 0 tasks.task_tail task x xs q.backward q.distinct new;
      distinct = append-IsDistinct task (x ∷ xs) q.distinct new;
    })
