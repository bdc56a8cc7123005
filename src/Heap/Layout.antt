-- ===== src/Heap/Layout.antt =====
-- The block table read as a list of allocations: where each starts and how many blocks it has.
use slob_os.Prelude.{
  ℕ, zero, suc, ◌+◌, ◌≤◌, ◌<◌, ◌≡◌, ◌⊎◌, refl, sym, ap, ◌∙◌, arith, ◌==◌, if◌then◌else◌, ltb, List,
  [], ◌∷◌,
}
use mathlib.Core.Path.{subst}
use slob_os.Prelude.Memory.{Memory}
use slob_os.Heap.{heap_get_entry_type}
use slob_os.Heap.Marks.{marked_entry}

-- Allocations as (first block, number of blocks), in the order of the table.
abbrev pub Allocations : Type 0
Allocations = List (ℕ × ℕ)

-- From block `i` to the end of the table the entries are those of free blocks and of `live`.
pub data Layout (m : Memory) (entries total : ℕ) : ℕ → Allocations → Type 0 where
  end : {i : ℕ} → i ≡ total → Layout m entries total i []
  free :
      {i : ℕ} {live : Allocations}
      → m (entries + i) ≡ 0
      → Layout m entries total (suc i) live
      → Layout m entries total i live
  used :
      {i n k : ℕ} {live : Allocations}
      → 0 < n
      → ((j : ℕ) → i ≤ j → j < i + n → m (entries + j) ≡ marked_entry i n j)
      → k ≡ i + n
      → Layout m entries total k live
      → Layout m entries total i ((i, n) ∷ live)

-- `live` holds the allocation of `n` blocks from `s` on.
abbrev pub Holds : ℕ → ℕ → Allocations → Type 0
Holds s n [] = ⊥
Holds s n ((t, k) ∷ live) = ((t ≡ s) × (k ≡ n)) ⊎ Holds s n live

unfoldable pub insert : ℕ → ℕ → Allocations → Allocations
insert s n [] = (s, n) ∷ []
insert s n ((t, k) ∷ live) = if ltb t s then (t, k) ∷ insert s n live else (s, n) ∷ (t, k) ∷ live

unfoldable pub erase : ℕ → Allocations → Allocations
erase s [] = []
erase s ((t, k) ∷ live) = if t == s then live else (t, k) ∷ erase s live

pub marked_entry-not_free : (s n j : ℕ) → ¬ (heap_get_entry_type (marked_entry s n j) ≡ 0)
marked_entry-not_free s n j = ground arith

pub insert-later :
    (s n t k : ℕ) (live : Allocations)
    → t < s
    → insert s n ((t, k) ∷ live) ≡ (t, k) ∷ insert s n live
unfolding insert
insert-later s n t k live l = ground arith

pub erase-first : (s t k : ℕ) (live : Allocations) → t ≡ s → erase s ((t, k) ∷ live) ≡ live
unfolding erase
erase-first s t k live e = ground arith

pub erase-later :
    (s t k : ℕ) (live : Allocations) → t < s → erase s ((t, k) ∷ live) ≡ (t, k) ∷ erase s live
unfolding erase
erase-later s t k live l = ground arith

module _ {entries total : ℕ} where
  -- Only the entries from block `i` on matter.
  pub Layout-frame :
      {m : Memory} {i : ℕ} {live : Allocations} (m' : Memory)
      → Layout m entries total i live
      → ((j : ℕ) → i ≤ j → m' (entries + j) ≡ m (entries + j))
      → Layout m' entries total i live
  Layout-frame m' (end e) same = end e
  Layout-frame m' (free {i} z rest) same =
      free (same i (omega arith) ∙ z) (Layout-frame m' rest λ j l. same j (omega arith))
  Layout-frame m' (used {i} {n} {k} p marks e rest) same =
      used p (λ j l u. same j l ∙ marks j l u) e (Layout-frame m' rest λ j l. same j (omega arith))

  pub Layout-start :
      {m : Memory} {i : ℕ} {live : Allocations} (s n : ℕ)
      → Layout m entries total i live
      → s < i
      → insert s n live ≡ (s, n) ∷ live
  unfolding insert
  Layout-start s n (end e) l = refl
  Layout-start s n (free z rest) l = Layout-start s n rest (omega arith)
  Layout-start s n (used p marks e rest) l = ground arith

  -- Free blocks at the front can be passed over.
  pub Layout-skip :
      {m : Memory} (n : ℕ) {i : ℕ} {live : Allocations} (k : ℕ)
      → i + n ≡ k
      → k ≤ total
      → ((j : ℕ) → i ≤ j → j < k → heap_get_entry_type (m (entries + j)) ≡ 0)
      → Layout m entries total i live
      → Layout m entries total k live
  Layout-skip {m} zero {i} {live} k e fits run layout =
      subst (λ t. Layout m entries total t live) (omega arith) layout
  Layout-skip (suc n) k e fits run (end stop) = absurd (omega arith)
  Layout-skip (suc n) k e fits run (free z rest) =
      Layout-skip n k (omega arith) fits (λ j l u. run j (omega arith) u) rest
  Layout-skip (suc n) k e fits run (used {i} {n = c} p marks next rest) = absurd (
      marked_entry-not_free i c i (
        ap heap_get_entry_type (sym (marks i (omega arith) (omega arith)))
        ∙ run i (omega arith) (omega arith)))
