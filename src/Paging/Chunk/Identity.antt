-- ===== src/Paging/Chunk/Identity.antt =====
-- paging_new_4gb gives a directory that maps every page to itself, and paging_free_4gb gives all of
-- its pages back.
use slob_os.Prelude.{
  ℕ, zero, suc, ◌+◌, ◌*◌, ◌/◌, ◌%◌, ◌^◌, ◌<◌, ◌≡◌, ◌≢◌, inl, inr, refl, sym, ap, ◌∙◌, arith,
  eq_cases, bit_or,
}
use mathlib.Core.Path.{subst}
use slob_os.Prelude.Bits.{bit_or_page, bit_or_two_page}
use slob_os.Prelude.Memory.{write_ne, write_self}
use slob_os.Paging.Mapping.{table_at}
use slob_os.Paging.Chunk.{
  Pages, clear_words, directory_loop, link_table, kzalloc_words, new_chunk, fill_directory,
  paging_new_4gb,
}
use slob_os.Paging.Chunk.Fresh.{
  page_apart, clear_words_ne, kzalloc_words_lem, link_table_ne, link_table_at, link_table_entry,
}

-- The allocator's states `state k` and the addresses `page k` of 1026 allocations: 1025 pages, all
-- different and in the first 256 MB, and the chunk, apart from them.
pub record Allocates {S : Type 0} (place : S → ℕ → S × ℕ) (state : ℕ → S) (page : ℕ → ℕ)
    : Type 0 where
  pub pages : (k : ℕ) → k < 1025 → place (state k) 4096 ≡ (state (k + 1), page k)
  pub chunk : place (state 1025) 4 ≡ (state 1026, page 1025)
  pub aligned : (k : ℕ) → k < 1026 → page k % 4096 ≡ 0
  pub nonzero : (k : ℕ) → k < 1026 → 0 < page k
  pub low : (k : ℕ) → k < 1026 → page k < 2 ^ 28
  pub apart : (j k : ℕ) → j < 1026 → k < 1026 → j ≢ k → page j ≢ page k

module _ {S : Type 0} {place : S → ℕ → S × ℕ} {state : ℕ → S} {page : ℕ → ℕ}
    (a : Allocates place state page) (flags : ℕ) (small : flags < 256) where
  -- After `i` tables.
  pub record Built (i : ℕ) (g : Pages S) : Type 0 where
    at_state : g.allocator ≡ state (i + 1)
    linked : (k : ℕ) → k < i → g.words (page 0 + 4 * k) ≡ bit_or (bit_or (page (k + 1)) flags) 2
    filled :
        (k b : ℕ)
        → k < i
        → b < 1024
        → g.words (page (k + 1) + 4 * b) ≡ bit_or (k * 4194304 + b * 4096) flags

  -- The words of two of the pages are different words.
  words_apart :
      (j k b c : ℕ)
      → j < 1026
      → k < 1026
      → j ≢ k
      → b < 1024
      → c < 1024
      → page j + 4 * b ≢ page k + 4 * c
  words_apart j k b c hj hk ne hb hc e =
      elim (page_apart (page j) (page k) b (a.aligned j hj) (a.aligned k hk) (a.apart j k hj hk ne)
        hb) [ inl below ↦ absurd (omega arith) | inr above ↦ absurd (omega arith) ]

  -- The state after kzalloc gives the page of table `i`, and after the table is linked.
  cleared : (i : ℕ) → Pages S → Pages S
  cleared i g = record {
    allocator = state (i + 2);
    words = clear_words g.words (page (i + 1)) 1024;
  }

  linked_table : (i : ℕ) → Pages S → Pages S
  unfolding cleared
  linked_table i g = link_table flags (page 0) i (i * 4194304 % 2 ^ 32) (cleared i g, page (i + 1))

  linked_table_ne :
      (i j c : ℕ) (g : Pages S)
      → i < 1024
      → j < 1025
      → j ≢ i + 1
      → c < 1024
      → page j + 4 * c ≢ page 0 + 4 * i
      → (linked_table i g).words (page j + 4 * c) ≡ g.words (page j + 4 * c)
  unfolding linked_table
  linked_table_ne i j c g hi hj ne hc off =
      link_table_ne flags (page 0) i (i * 4194304 % 2 ^ 32) (cleared i g) g.words (page (i + 1))
        (page j + 4 * c) refl
        (page_apart (page j) (page (i + 1)) c (a.aligned j (omega arith))
          (a.aligned (i + 1) (omega arith)) (a.apart j (i + 1) (omega arith) (omega arith) ne) hc)
        off

  linked_table-linked :
      (i k : ℕ) (g : Pages S)
      → i < 1024
      → Built i g
      → k < i + 1
      → (linked_table i g).words (page 0 + 4 * k) ≡ bit_or (bit_or (page (k + 1)) flags) 2
  unfolding linked_table
  linked_table-linked i k g hi built lt = elim (eq_cases k i) [
    | inl same ↦
        subst
          (λ n. (linked_table i g).words (page 0 + 4 * n) ≡ bit_or (bit_or (page (n + 1)) flags) 2)
          (sym same)
          (link_table_entry flags (page 0) i (i * 4194304 % 2 ^ 32) (cleared i g) (page (i + 1)))
    | inr other ↦
        linked_table_ne i 0 k g hi (omega arith) (λ e. absurd (omega arith)) (omega arith)
          (λ e. elim other [ inl l ↦ absurd (omega arith) | inr l ↦ absurd (omega arith) ])
        ∙ built.linked k (grind arith)
  ]

  linked_table-filled :
      (i k b : ℕ) (g : Pages S)
      → i < 1024
      → Built i g
      → k < i + 1
      → b < 1024
      → (linked_table i g).words (page (k + 1) + 4 * b) ≡ bit_or (k * 4194304 + b * 4096) flags
  unfolding linked_table
  linked_table-filled i k b g hi built lt hb = elim (eq_cases k i) [
    | inl same ↦
        let offset : (i * 4194304 % 2 ^ 32 + b * 4096) % 2 ^ 32 ≡ i * 4194304 + b * 4096 =
          omega arith in
        subst
          (λ n.
            (linked_table i g).words (page (n + 1) + 4 * b) ≡ bit_or (n * 4194304 + b * 4096) flags)
          (sym same)
          (link_table_at flags (page 0) i (i * 4194304 % 2 ^ 32) (cleared i g) (page (i + 1)) b hb (
              words_apart (i + 1) 0 b i (omega arith) (omega arith) (λ e. absurd (omega arith)) hb
                hi)
            ∙ ap (λ v. bit_or v flags) offset)
    | inr other ↦
        linked_table_ne i (k + 1) b g hi (omega arith)
          (λ e. elim other [ inl l ↦ absurd (omega arith) | inr l ↦ absurd (omega arith) ]) hb
          (words_apart (k + 1) 0 b i (omega arith) (omega arith) (λ e. absurd (omega arith)) hb hi)
        ∙ built.filled k b (grind arith) hb
  ]

  -- One more table.
  linked_table-Built :
      (i : ℕ) (g : Pages S) → i < 1024 → Built i g → Built (i + 1) (linked_table i g)
  unfolding linked_table link_table cleared
  linked_table-Built i g hi built = record {
    at_state = ap state (omega arith);
    linked = λ k lt. linked_table-linked i k g hi built lt;
    filled = λ k b lt hb. linked_table-filled i k b g hi built lt hb;
  }

  kzalloc-table :
      (i : ℕ) (g : Pages S)
      → i < 1024
      → Built i g
      → kzalloc_words place g 4096 ≡ (cleared i g, page (i + 1))
  unfolding cleared
  kzalloc-table i g hi built =
      let next : i + 1 + 1 ≡ i + 2 = omega arith in
      kzalloc_words_lem place g 4096 (state (i + 2)) (page (i + 1))
        (ap (λ s. place s 4096) built.at_state
          ∙ a.pages (i + 1) (omega arith)
          ∙ ap (λ n. (state n, page (i + 1))) next)
        (a.nonzero (i + 1) (omega arith))

  directory_loop-Built :
      (rounds i offset : ℕ) (g : Pages S)
      → i + rounds ≡ 1024
      → offset ≡ i * 4194304 % 2 ^ 32
      → Built i g
      → Built 1024 (directory_loop place flags (page 0) rounds i offset g)
  unfolding directory_loop linked_table
  directory_loop-Built zero i offset g total at built = subst (λ n. Built n g) (omega arith) built
  directory_loop-Built (suc rounds) i offset g total at built =
      rw (kzalloc-table i g (omega arith) built, at)
        (directory_loop-Built rounds (i + 1) ((i * 4194304 % 2 ^ 32 + 4194304) % 2 ^ 32)
          (linked_table i g) (omega arith) (omega arith)
          (linked_table-Built i g (omega arith) built))

  -- The last steps leave the directory and the tables.
  pub finished : Pages S → Pages S × ℕ
  unfolding new_chunk
  finished g =
      new_chunk (page 0)
        (record { allocator = state 1026; words = clear_words g.words (page 1025) 1 }, page 1025)

  finished_ne :
      (g : Pages S) (j c : ℕ)
      → j < 1025
      → c < 1024
      → (finished g).0.words (page j + 4 * c) ≡ g.words (page j + 4 * c)
  unfolding finished
  finished_ne g j c hj hc =
      let outside =
        page_apart (page j) (page 1025) c (a.aligned j (omega arith)) (a.aligned 1025 (omega arith))
          (a.apart j 1025 (omega arith) (omega arith) (λ e. absurd (omega arith))) hc in
      write_ne (clear_words g.words (page 1025) 1) (page 1025) (page 0) (page j + 4 * c)
        (λ e. absurd (omega arith))
      ∙ clear_words_ne g.words (page 1025) 1 (page j + 4 * c) (omega arith)

  pub new_4gb-finished :
      (g : Pages S)
      → g.allocator ≡ state 0
      → (b : Pages S) × (Built 1024 b × (paging_new_4gb place flags g ≡ finished b))
  unfolding paging_new_4gb fill_directory finished
  new_4gb-finished g start =
      let first : Pages S = record {
        allocator = state 1;
        words = clear_words g.words (page 0) 1024;
      } in
      let placed : kzalloc_words place g 4096 ≡ (first, page 0) =
        kzalloc_words_lem place g 4096 (state 1) (page 0)
          (ap (λ s. place s 4096) start ∙ a.pages 0 (omega arith)) (a.nonzero 0 (omega arith)) in
      let b : Pages S = directory_loop place flags (page 0) 1024 0 0 first in
      let built : Built 1024 b = directory_loop-Built 1024 0 0 first refl refl (record {
        at_state = refl;
        linked = λ k lt. absurd (omega arith);
        filled = λ k c lt. absurd (omega arith);
      }) in
      let chunk : kzalloc_words place b 4 ≡ (
        record { allocator = state 1026; words = clear_words b.words (page 1025) 1 },
        page 1025,
      ) =
        kzalloc_words_lem place b 4 (state 1026) (page 1025)
          (ap (λ s. place s 4) built.at_state ∙ a.chunk) (a.nonzero 1025 (omega arith)) in
      (b, (built, ap (fill_directory place flags) placed ∙ ap (new_chunk (page 0)) chunk))

  pub finished-table_at :
      (b : Pages S) (i : ℕ)
      → Built 1024 b
      → i < 1024
      → table_at (finished b).0.words (page 0) i ≡ page (i + 1)
  finished-table_at b i built lt =
      ap (λ v. v / 4096 * 4096) (finished_ne b 0 i (omega arith) lt ∙ built.linked i lt)
      ∙ omega (
        arith,
        bit_or_two_page (bit_or (page (i + 1)) flags),
        bit_or_page (page (i + 1)) flags (a.aligned (i + 1) (omega arith)) (omega arith),
        a.aligned (i + 1) (omega arith),
      )

  pub finished_directory : (b : Pages S) → (finished b).0.words (finished b).1 ≡ page 0
  unfolding finished new_chunk
  finished_directory b = write_self (clear_words b.words (page 1025) 1) (page 1025) (page 0)

  pub finished_chunk :
      (b : Pages S) → ((finished b).1 ≡ page 1025) × ((finished b).0.allocator ≡ state 1026)
  unfolding finished new_chunk
  finished_chunk b = (refl, refl)
