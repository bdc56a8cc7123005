-- ===== src/Heap/Marks.antt =====
-- heap_mark_blocks_taken and heap_mark_blocks_free: which entries they write, and with what.
use slob_os.Prelude.{
  ℕ, zero, suc, ◌+◌, ◌-◌, ◌≤◌, ◌<◌, ◌≡◌, ◌⊎◌, inl, inr, refl, ◌∙◌, true, false, arith, ◌==◌,
  if◌then◌else◌, eq_cases, ltb, leb, ◌&&◌,
}
use slob_os.Prelude.Int.{pos, next}
use slob_os.Prelude.Memory.{Memory, write}
use slob_os.Heap.{
  Heap, has_next, mark_taken_loop, heap_mark_blocks_taken, mark_free_loop, heap_mark_blocks_free,
}

-- The loop leaves the memory outside its indices alone.
mark_taken_loop_outside :
    (entries rounds i stop e : ℕ) (m : Memory) (x : ℕ)
    → (x < entries + i) ⊎ (entries + i + rounds ≤ x)
    → mark_taken_loop entries rounds i stop e m x ≡ m x
unfolding mark_taken_loop
mark_taken_loop_outside entries zero i stop e m x out = refl
mark_taken_loop_outside entries (suc rounds) i stop e m x out =
    mark_taken_loop_outside entries rounds (i + 1) stop _ (write m (entries + i) e) x (omega arith)
    ∙ ground arith

mark_taken_loop_first :
    (entries rounds i stop e : ℕ) (m : Memory)
    → mark_taken_loop entries (suc rounds) i stop e m (entries + i) ≡ e
unfolding mark_taken_loop
mark_taken_loop_first entries rounds i stop e m =
    mark_taken_loop_outside entries rounds (i + 1) stop _ (write m (entries + i) e) (entries + i)
      (omega arith)
    ∙ ground arith

-- What the loop writes after the first block.
abbrev pub later_entry : (stop j : ℕ) → ℕ
later_entry stop j = if j + 1 == stop then 0x01 else 0x81

mark_taken_loop_later :
    (entries rounds i stop e : ℕ) (m : Memory) (j : ℕ)
    → i < j
    → j < i + rounds
    → mark_taken_loop entries rounds i stop e m (entries + j) ≡ later_entry stop j
unfolding mark_taken_loop
mark_taken_loop_later entries zero i stop e m j l u = absurd (omega arith)
mark_taken_loop_later entries (suc zero) i stop e m j l u = absurd (omega arith)
mark_taken_loop_later entries (suc (suc rounds)) i stop e m j l u = elim (eq_cases j (i + 1)) [
  | inl same ↦
      rw same (
        mark_taken_loop_first entries rounds (i + 1) stop _ (write m (entries + i) e)
        ∙ ground arith)
  | inr other ↦
      mark_taken_loop_later entries (suc rounds) (i + 1) stop _ (write m (entries + i) e) j
        (omega arith) (omega arith)
]

-- What heap_mark_blocks_taken writes at block `j` of the `n` blocks from `s` on.
abbrev pub marked_entry : (s n j : ℕ) → ℕ
marked_entry s n j = if j == s then (if ltb 1 n then 0xc1 else 0x41) else later_entry (s + n) j

-- The blocks of the run get the marks of an allocation: the first its mark, all but the last the
-- mark that another follows.
pub entry-mark_blocks_taken :
    (h : Heap) (s n j : ℕ)
    → s ≤ j
    → j < s + n
    → (heap_mark_blocks_taken h s n).mem (h.entries + j) ≡ marked_entry s n j
unfolding heap_mark_blocks_taken
entry-mark_blocks_taken h s zero j l u = absurd (omega arith)
entry-mark_blocks_taken h s (suc n) j l u = elim (eq_cases j s) [
  | inl same ↦ rw same (mark_taken_loop_first h.entries n s (s + suc n) _ h.mem ∙ ground arith)
  | inr other ↦
      mark_taken_loop_later h.entries (suc n) s (s + suc n) _ h.mem j (omega arith) u ∙ ground arith
]

-- All other memory stays as it is.
pub mem-mark_blocks_taken :
    (h : Heap) (s n x : ℕ)
    → (x < h.entries + s) ⊎ (h.entries + s + n ≤ x)
    → (heap_mark_blocks_taken h s n).mem x ≡ h.mem x
unfolding heap_mark_blocks_taken
mem-mark_blocks_taken h s n x out = mark_taken_loop_outside h.entries n s (s + n) _ h.mem x out

-- The `n` entries from `s` on are the marks of one allocation: the last alone has no successor.
pub record Chain (m : Memory) (entries s n : ℕ) : Type 0 where
  pub nonempty : 0 < n
  pub linked : (j : ℕ) → s ≤ j → j + 1 < s + n → has_next (m (entries + j)) ≡ true
  pub ended : (t : ℕ) → t + 1 ≡ s + n → has_next (m (entries + t)) ≡ false

Chain-rest :
    (m : Memory) (entries s n : ℕ)
    → Chain m entries s (suc (suc n))
    → Chain (write m (entries + s) 0) entries (suc s) (suc n)
Chain-rest m entries s n c = record {
  nonempty = omega arith;
  linked = λ j l u. (ground arith) ∙ c.linked j (omega arith) (omega arith);
  ended = λ t e. (ground arith) ∙ c.ended t (omega arith);
}

mark_free_loop-Chain :
    (entries rounds s n : ℕ) (m : Memory) (x : ℕ)
    → Chain m entries s n
    → n ≤ rounds
    → mark_free_loop entries rounds (pos s) m x
      ≡ (if leb (entries + s) x && ltb x (entries + s + n) then 0 else m x)
unfolding mark_free_loop next
mark_free_loop-Chain entries zero s n m x c fits = absurd (omega (arith, c.nonempty))
mark_free_loop-Chain entries (suc rounds) s zero m x c fits = absurd (omega (arith, c.nonempty))
mark_free_loop-Chain entries (suc rounds) s (suc zero) m x c fits =
    rw (c.ended s (omega arith)) (ground arith)
mark_free_loop-Chain entries (suc rounds) s (suc (suc n)) m x c fits =
    rw (c.linked s (omega arith) (omega arith)) (
      mark_free_loop-Chain entries rounds (suc s) (suc n) (write m (entries + s) 0) x
        (Chain-rest m entries s n c) (omega arith)
      ∙ ground arith)

-- Freeing from the first block of an allocation clears its entries and nothing else.
pub mem-mark_blocks_free :
    (h : Heap) (s n x : ℕ)
    → Chain h.mem h.entries s n
    → s + n ≤ h.total
    → (heap_mark_blocks_free h (pos s)).mem x
      ≡ (if leb (h.entries + s) x && ltb x (h.entries + s + n) then 0 else h.mem x)
unfolding heap_mark_blocks_free
mem-mark_blocks_free h s n x c fits =
    mark_free_loop-Chain h.entries (h.total - s) s n h.mem x c (omega arith)
