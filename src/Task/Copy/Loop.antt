-- ===== src/Task/Copy/Loop.antt =====
-- The loop of strncpy under the translation of a task, for src/task/task.c.
use slob_os.Prelude.{
  same_test, ne_test, ℕ, zero, suc, ◌+◌, ◌-◌, ◌≤◌, ◌<◌, ◌≡◌, ◌≢◌, ◌⊎◌, refl, sym, ◌∙◌, arith, List,
  [], ◌∷◌, length, take,
}
use mathlib.Core.Path.{subst}
use slob_os.Prelude.Memory.{Memory, write, write_self, write_ne}
use slob_os.Text.Strings.{CString, CString-frame}
use slob_os.Task.Copy.{strncpy_task_loop}

-- A string seen through two translations.
pub seen_same :
    (m m' : Memory) (p : ℕ) (s : List ℕ)
    → CString m p s
    → ((k : ℕ) → k ≤ length s → m' (p + k) ≡ m (p + k))
    → CString m' p s
seen_same m m' p s h same = CString-frame m m' p s h λ x l u.
    let place : p + (x - p) ≡ x = omega arith in
    subst (λ y. m' y ≡ m y) place (same (x - p) (omega arith))

strncpy_task_loop-step :
    (at : ℕ → ℕ) (rounds : ℕ) (m : Memory) (dest src i : ℕ)
    → at (dest + i) ≡ dest + i
    → m (at (src + i)) ≢ 0
    → strncpy_task_loop at m dest src (suc rounds) i
      ≡ strncpy_task_loop at (write m (dest + i) (m (at (src + i)))) dest src rounds (i + 1)
unfolding strncpy_task_loop
strncpy_task_loop-step at rounds m dest src i own ne =
    rw (ne_test (m (at (src + i))) 0 ne, own) refl

strncpy_task_loop-end :
    (at : ℕ → ℕ) (rounds : ℕ) (m : Memory) (dest src i : ℕ)
    → at (dest + i) ≡ dest + i
    → m (at (src + i)) ≡ 0
    → strncpy_task_loop at m dest src (suc rounds) i ≡ write m (dest + i) 0
unfolding strncpy_task_loop
strncpy_task_loop-end at rounds m dest src i own e = rw (same_test (m (at (src + i))) 0 e, own) refl

strncpy_task_loop-last :
    (at : ℕ → ℕ) (m : Memory) (dest src i : ℕ)
    → at (dest + i) ≡ dest + i
    → strncpy_task_loop at m dest src 0 i ≡ write m (dest + i) 0
unfolding strncpy_task_loop
strncpy_task_loop-last at m dest src i own = rw (own) refl

outside : (d rounds y : ℕ) → (y < d) ⊎ (d + suc rounds < y) → y ≢ d
outside d rounds y o = omega arith

further :
    (dest i rounds y : ℕ)
    → (y < dest + i) ⊎ (dest + i + suc rounds < y)
    → (y < dest + (i + 1)) ⊎ (dest + (i + 1) + rounds < y)
further dest i rounds y o = omega arith

-- Where the buffer's addresses are themselves and the string lies outside the bytes that are
-- written, the loop leaves the string's first `rounds` characters and nothing else before `dest + i`.
pub strncpy_task_loop_lem :
    (at : ℕ → ℕ) (rounds : ℕ) (m : Memory) (dest src i : ℕ) (s : List ℕ)
    → CString (λ a. m (at a)) (src + i) s
    → ((k : ℕ) → k ≤ i + rounds → at (dest + k) ≡ dest + k)
    → ((k : ℕ)
        → k ≤ length s
        → (at (src + i + k) < dest + i) ⊎ (dest + i + rounds < at (src + i + k)))
    → CString (strncpy_task_loop at m dest src rounds i) (dest + i) (take rounds s)
      × ((x : ℕ) → x < dest + i → strncpy_task_loop at m dest src rounds i x ≡ m x)
strncpy_task_loop_lem at zero m dest src i s h own apart =
    subst (λ r. (r (dest + i) ≡ 0) × ((x : ℕ) → x < dest + i → r x ≡ m x))
      (sym (strncpy_task_loop-last at m dest src i (own i (omega arith))))
      (write_self m (dest + i) 0, λ x lt. write_ne m (dest + i) 0 x (omega arith))
strncpy_task_loop_lem at (suc rounds) m dest src i [] h own apart =
    subst (λ r. (r (dest + i) ≡ 0) × ((x : ℕ) → x < dest + i → r x ≡ m x))
      (sym (strncpy_task_loop-end at rounds m dest src i (own i (omega arith)) h))
      (write_self m (dest + i) 0, λ x lt. write_ne m (dest + i) 0 x (omega arith))
strncpy_task_loop_lem at (suc rounds) m dest src i (c ∷ s) (e, ne, h) own apart =
    let m1 : Memory = write m (dest + i) (m (at (src + i))) in
    let index : src + i + 1 ≡ src + (i + 1) = omega arith in
    let seen =
      seen_same (λ a. m (at a)) (λ a. m1 (at a)) (src + i + 1) s h
        λ k l.
          let place : src + i + 1 + k ≡ src + i + (k + 1) = omega arith in
          write_ne m (dest + i) (m (at (src + i))) (at (src + i + 1 + k)) (
            subst (λ y. at y ≢ dest + i) (sym place)
              (outside (dest + i) rounds (at (src + i + (k + 1))) (apart (k + 1) (omega arith)))) in
    let (string, kept) =
      strncpy_task_loop_lem at rounds m1 dest src (i + 1) s
        (subst (λ y. CString (λ a. m1 (at a)) y s) index seen) (λ k l. own k (omega arith))
        (λ k l.
          let place : src + i + (k + 1) ≡ src + (i + 1) + k = omega arith in
          subst (λ y. (at y < dest + (i + 1)) ⊎ (dest + (i + 1) + rounds < at y)) place
            (further dest i rounds (at (src + i + (k + 1))) (apart (k + 1) (omega arith)))) in
    let here : dest + (i + 1) ≡ dest + i + 1 = omega arith in
    subst
      (λ r. CString r (dest + i) (take (suc rounds) (c ∷ s)) × ((x : ℕ) → x < dest + i → r x ≡ m x))
      (sym
        (strncpy_task_loop-step at rounds m dest src i (own i (omega arith)) (λ z. ne (sym e ∙ z))))
      (
        (
          kept (dest + i) (omega arith) ∙ write_self m (dest + i) (m (at (src + i))) ∙ e,
          ne,
          subst (λ y. CString (strncpy_task_loop at m1 dest src rounds (i + 1)) y (take rounds s))
              here string,
        ),
        λ x lt. kept x (omega arith) ∙ write_ne m (dest + i) (m (at (src + i))) x (omega arith),
      )
