-- ===== src/Task/Turns.antt =====
-- The turns that task_next of src/task/task.c gives to the tasks of the list.
use slob_os.Prelude.{
  same_test, ne_test, ℕ, zero, suc, ◌+◌, ◌-◌, ◌≤◌, ◌<◌, ◌≡◌, ◌≢◌, inl, inr, refl, sym, ap, ◌∙◌,
  none, some, List, [], ◌∷◌, length, get_elem?, arith, some_inj, lt_cases,
}
use mathlib.Core.Path.{subst}
use slob_os.Prelude.Paths.{subst2}
use slob_os.Task.{Task, Tasks, Registers, task_get_next}
use slob_os.Task.Switch.{Processor, task_switch, task_next}
use slob_os.Task.Queue.{IsForward}

-- A number of calls of task_next, one after the other, none of which panics.
pub data Switches : ℕ → Processor × Tasks → Processor × Tasks → Type 0 where
  stay : (m : Processor × Tasks) → Switches 0 m m
  switch :
      {n : ℕ} {m m' m'' : Processor × Tasks} (registers : Registers)
      → task_next m ≡ some (m', registers)
      → Switches n m' m''
      → Switches (suc n) m m''

pub append-Switches :
    {a b : ℕ} {m m' m'' : Processor × Tasks} (n : ℕ)
    → a + b ≡ n
    → Switches a m m'
    → Switches b m' m''
    → Switches n m m''
append-Switches {a} {b} {m} {m'} {m''} n e (stay _) second =
    let same : b ≡ n = omega arith in subst (λ k. Switches k m' m'') same second
append-Switches zero e (switch registers step first) second = absurd (omega arith)
append-Switches (suc n) e (switch registers step first) second =
    switch registers step (append-Switches n (omega arith) first second)

-- After `n` switches `task` is the current task, its page directory is loaded, and the list is as it
-- was.
pub record Turn (m : Processor × Tasks) (n task : ℕ) : Type 0 where
  pub after : Processor × Tasks
  pub run : Switches n m after
  pub current : after.1.current_task ≡ task
  pub store : after.1.store ≡ m.1.store
  pub head : after.1.task_head ≡ m.1.task_head

-- One switch to the task that task_get_next finds.
one-Turn :
    (cpu : Processor) (tasks : Tasks) (task : ℕ)
    → task_get_next tasks ≡ task
    → task ≢ 0
    → Turn (cpu, tasks) 1 task
unfolding task_next task_switch
one-Turn cpu tasks task e nonzero = record {
  after = task_switch (cpu, tasks) task;
  run =
      switch (tasks.store task).registers (rw (e, ne_test task 0 nonzero) refl)
        (stay (task_switch (cpu, tasks) task));
  current = refl;
  store = refl;
  head = refl;
}

then-Turn :
    (m : Processor × Tasks) (a b n t u : ℕ) (first : Turn m a t)
    → a + b ≡ n
    → Turn first.after b u
    → Turn m n u
then-Turn m a b n t u first e second = record {
  after = second.after;
  run = append-Switches n e first.run second.run;
  current = second.current;
  store = second.store ∙ first.store;
  head = second.head ∙ first.head;
}

pub next_of :
    (tasks : Tasks)
    → (tasks.store tasks.current_task).next ≢ 0
    → task_get_next tasks ≡ (tasks.store tasks.current_task).next
unfolding task_get_next
next_of tasks ne = rw (ne_test (tasks.store tasks.current_task).next 0 ne) refl

pub wrapped :
    (tasks : Tasks)
    → (tasks.store tasks.current_task).next ≡ 0
    → task_get_next tasks ≡ tasks.task_head
unfolding task_get_next
wrapped tasks e = rw (same_test (tasks.store tasks.current_task).next 0 e) refl

pub none_ne : {t : ℕ} → ¬ (none ≡ some t)
none_ne e = cc

get_elem?_lt : (xs : List ℕ) (i a : ℕ) → get_elem? xs i ≡ some a → i < length xs
get_elem?_lt [] i a e = absurd (none_ne e)
get_elem?_lt (x ∷ xs) zero a e = omega arith
get_elem?_lt (x ∷ xs) (suc i) a e = omega (arith, get_elem?_lt xs i a e)

-- Along the list, one switch for each task.
walk :
    (m : Processor × Tasks) (c t i : ℕ) (zs : List ℕ)
    → m.1.current_task ≡ c
    → IsForward m.1.store c (c ∷ zs)
    → get_elem? (c ∷ zs) i ≡ some t
    → Turn m i t
walk (cpu, tasks) c t zero zs current f e = record {
  after = (cpu, tasks);
  run = stay (cpu, tasks);
  current = current ∙ some_inj e;
  store = refl;
  head = refl;
}
walk (cpu, tasks) c t (suc i) [] current f e = absurd (none_ne e)
walk (cpu, tasks) c t (suc i) (z ∷ zs) current f e =
    let next : (tasks.store tasks.current_task).next ≡ z =
      ap (λ (a : ℕ). (tasks.store a).next) current ∙ f.1.1.0 in
    let first =
      one-Turn cpu tasks z (next_of tasks (λ o. f.1.1.1.0 (sym next ∙ o)) ∙ next) f.1.1.1.0 in
    then-Turn (cpu, tasks) 1 i (suc i) z t first (omega arith)
      (walk first.after z t i zs first.current
        (subst (λ s. IsForward s z (z ∷ zs)) (sym first.store) (refl, f.1.1.1)) e)

-- The list from one of its tasks on.
pub record From (s : ℕ → Task) (xs : List ℕ) (i c : ℕ) : Type 0 where
  pub rest : List ℕ
  pub forward : IsForward s c (c ∷ rest)
  pub count : i + suc (length rest) ≡ length xs
  pub elements : (k : ℕ) → get_elem? (c ∷ rest) k ≡ get_elem? xs (i + k)

zero_place : (c x k : ℕ) (xs : List ℕ) → x ≡ c → get_elem? (c ∷ xs) k ≡ get_elem? (x ∷ xs) (0 + k)
zero_place c x k xs e = let index : 0 + k ≡ k = omega arith in rw (index, e) refl

suc_place : (x i k : ℕ) (xs : List ℕ) → get_elem? xs (i + k) ≡ get_elem? (x ∷ xs) (suc i + k)
suc_place x i k xs = let index : suc i + k ≡ suc (i + k) = omega arith in rw (index) refl

-- The last task from one on, behind which there is none.
last_of :
    (s : ℕ → Task) (c : ℕ) (zs : List ℕ)
    → IsForward s c (c ∷ zs)
    → (l : ℕ) × ((get_elem? (c ∷ zs) (length zs) ≡ some l) × ((s l).next ≡ 0))
last_of s c [] f = (c, (refl, f.1.1))
last_of s c (z ∷ zs) f = last_of s z zs (refl, f.1.1.1)

-- From the last task of the list to its head.
from_last :
    (m : Processor × Tasks) (x : ℕ) (xs : List ℕ)
    → IsForward m.1.store m.1.task_head (x ∷ xs)
    → (m.1.store m.1.current_task).next ≡ 0
    → Turn m 1 x
from_last (cpu, tasks) x xs f ends = one-Turn cpu tasks x (wrapped tasks ends ∙ f.0) f.1.0

pub From-index :
    (s : ℕ → Task) (first c i : ℕ) (xs : List ℕ)
    → IsForward s first xs
    → get_elem? xs i ≡ some c
    → From s xs i c
From-index s first c i [] f e = absurd (none_ne e)
From-index s first c zero (x ∷ xs) f e =
    let same : x ≡ c = some_inj e in
    record {
      rest = xs;
      forward = subst (λ (a : ℕ). IsForward s a (a ∷ xs)) same (refl, f.1);
      count = omega arith;
      elements = λ k. zero_place c x k xs same;
    }
From-index s first c (suc i) (x ∷ xs) f e =
    let from = From-index s (s x).next c i xs f.1.1 e in
    record {
      rest = from.rest;
      forward = from.forward;
      count = omega (arith, from.count);
      elements = λ k. from.elements k ∙ suc_place x i k xs;
    }

-- The current task is at number `i` and the task is behind it, at number `j`.
later-Turn :
    (m : Processor × Tasks) (xs : List ℕ) (i j c t : ℕ)
    → IsForward m.1.store m.1.task_head xs
    → m.1.current_task ≡ c
    → get_elem? xs i ≡ some c
    → get_elem? xs j ≡ some t
    → i < j
    → Turn m (j - i) t
later-Turn m xs i j c t f current at_i at_j lt =
    let from = From-index m.1.store m.1.task_head c i xs f at_i in
    let index : i + (j - i) ≡ j = omega arith in
    walk m c t (j - i) from.rest current from.forward (from.elements (j - i) ∙ rw (index) at_j)

-- The task is not behind the current one: the turns go to the last task, to the head, and on.
wrapped-Turn :
    (m : Processor × Tasks) (xs : List ℕ) (i j c t : ℕ)
    → IsForward m.1.store m.1.task_head xs
    → m.1.current_task ≡ c
    → get_elem? xs i ≡ some c
    → get_elem? xs j ≡ some t
    → Turn m (length xs - i + j) t
wrapped-Turn m [] i j c t f current at_i at_j = absurd (none_ne at_i)
wrapped-Turn m (x ∷ xs) i j c t f current at_i at_j =
    let from = From-index m.1.store m.1.task_head c i (x ∷ xs) f at_i in
    let (l, (at_last, ends)) = last_of m.1.store c from.rest from.forward in
    let to_last = walk m c l (length from.rest) from.rest current from.forward at_last in
    let to_head =
      from_last to_last.after x xs
        (subst2 (λ s h. IsForward s h (x ∷ xs)) (sym to_last.store) (sym to_last.head) f)
        (ap (λ (a : ℕ). (to_last.after.1.store a).next) to_last.current
          ∙ ap (λ (s : ℕ → Task). (s l).next) to_last.store
          ∙ ends) in
    let around =
      then-Turn m (length from.rest) 1 (length xs + 1 - i) l x to_last (omega (arith, from.count))
        to_head in
    then-Turn m (length xs + 1 - i) j (length (x ∷ xs) - i + j) x t around (omega arith) (
      walk around.after x t j xs around.current
        (subst (λ s. IsForward s x (x ∷ xs)) (sym around.store) (refl, f.1)) at_j)

-- In a list of tasks that is linked forward from the head, with the current task and another one, or
-- the current one itself, in the list, the other one is the current task after a number of calls of
-- task_next that is at least one and at most the length of the list; none of the calls panics, and
-- the list is the same.
pub task_next-Turn :
    (m : Processor × Tasks) (xs : List ℕ) (i j c t : ℕ)
    → IsForward m.1.store m.1.task_head xs
    → m.1.current_task ≡ c
    → get_elem? xs i ≡ some c
    → get_elem? xs j ≡ some t
    → (n : ℕ) × ((1 ≤ n) × ((n ≤ length xs) × Turn m n t))
task_next-Turn m xs i j c t f current at_i at_j =
    let in_i = get_elem?_lt xs i c at_i in
    let in_j = get_elem?_lt xs j t at_j in
    elim (lt_cases i j) [
      | inl lt ↦
          (j - i, (omega arith, (omega arith, later-Turn m xs i j c t f current at_i at_j lt)))
      | inr le ↦ (
        length xs - i + j,
        (omega arith, (omega arith, wrapped-Turn m xs i j c t f current at_i at_j)),
      )
    ]
