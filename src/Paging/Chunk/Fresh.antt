-- ===== src/Paging/Chunk/Fresh.antt =====
-- What the loops of paging_new_4gb write, and what they leave.
use slob_os.Prelude.{
  ℕ, zero, suc, ◌+◌, ◌*◌, ◌/◌, ◌%◌, ◌^◌, ◌≤◌, ◌<◌, ◌≡◌, ◌≢◌, ◌⊎◌, inl, inr, refl, sym, ap, ◌∙◌,
  arith, ◌==◌, false, eq_cases, bit_or,
}
use slob_os.Prelude.Memory.{write, write_ne, write_self}
use slob_os.Paging.{Words}
use slob_os.Paging.Chunk.{Pages, clear_words, table_loop, kzalloc_at, kzalloc_words, link_table}

-- The `n` words from `start` on do not hold `x`.
abbrev pub Outside : (start n x : ℕ) → Type 0
Outside start n x = (x < start) ⊎ (start + 4 * n ≤ x)

pub clear_words_ne : (w : Words) (ptr n x : ℕ) → Outside ptr n x → clear_words w ptr n x ≡ w x
unfolding clear_words
clear_words_ne w ptr zero x out = refl
clear_words_ne w ptr (suc n) x out =
    clear_words_ne (write w ptr 0) (ptr + 4) n x (omega arith)
    ∙ write_ne w ptr 0 x (λ e. absurd (omega arith))

table_loop_ne :
    (w : Words) (entry flags offset rounds b x : ℕ)
    → Outside (entry + 4 * b) rounds x
    → table_loop w entry flags offset rounds b x ≡ w x
unfolding table_loop
table_loop_ne w entry flags offset zero b x out = refl
table_loop_ne w entry flags offset (suc rounds) b x out =
    table_loop_ne (write w (entry + 4 * b) (bit_or ((offset + b * 4096) % 2 ^ 32) flags)) entry
      flags offset rounds (b + 1) x (omega arith)
    ∙ write_ne w (entry + 4 * b) _ x (λ e. absurd (omega arith))

table_loop_at :
    (w : Words) (entry flags offset rounds b j : ℕ)
    → b ≤ j
    → j < b + rounds
    → table_loop w entry flags offset rounds b (entry + 4 * j)
      ≡ bit_or ((offset + j * 4096) % 2 ^ 32) flags
unfolding table_loop
table_loop_at w entry flags offset zero b j low high = absurd (omega arith)
table_loop_at w entry flags offset (suc rounds) b j low high = elim (eq_cases b j) [
  | inl same ↦
      table_loop_ne (write w (entry + 4 * b) (bit_or ((offset + b * 4096) % 2 ^ 32) flags)) entry
        flags offset rounds (b + 1) (entry + 4 * j) (omega arith)
      ∙ ap
          (λ k.
            write w (entry + 4 * b) (bit_or ((offset + b * 4096) % 2 ^ 32) flags) (entry + 4 * k))
          (sym same)
      ∙ write_self w (entry + 4 * b) (bit_or ((offset + b * 4096) % 2 ^ 32) flags)
      ∙ ap (λ k. bit_or ((offset + k * 4096) % 2 ^ 32) flags) same
  | inr other ↦
      table_loop_at (write w (entry + 4 * b) (bit_or ((offset + b * 4096) % 2 ^ 32) flags)) entry
        flags offset rounds (b + 1) j (grind arith) (omega arith)
]

-- Two different pages share no word.
pub page_apart :
    (p q j : ℕ) → p % 4096 ≡ 0 → q % 4096 ≡ 0 → p ≢ q → j < 1024 → Outside q 1024 (p + 4 * j)
page_apart p q j hp hq ne lt = elim (eq_cases p q) [
  | inl same ↦ absurd (ne same)
  | inr (inl below) ↦ inl (omega arith)
  | inr (inr above) ↦ inr (omega arith)
]

module _ {S : Type 0} where
  pub kzalloc_words_lem :
      (place : S → ℕ → S × ℕ) (g : Pages S) (size : ℕ) (s : S) (ptr : ℕ)
      → place g.allocator size ≡ (s, ptr)
      → 0 < ptr
      → kzalloc_words place g size
        ≡ (record { allocator = s; words = clear_words g.words ptr (size / 4) }, ptr)
  unfolding kzalloc_words kzalloc_at
  kzalloc_words_lem place g size s ptr placed nonzero =
      let not_0 : (ptr == 0) ≡ false = ground arith in
      ap (kzalloc_at g size) placed ∙ rw (not_0) refl

  -- What one table leaves: every word outside its page and the directory's entry, ...
  pub link_table_ne :
      (flags directory i offset : ℕ) (g : Pages S) (w : Words) (entry x : ℕ)
      → g.words ≡ clear_words w entry 1024
      → Outside entry 1024 x
      → x ≢ directory + 4 * i
      → (link_table flags directory i offset (g, entry)).words x ≡ w x
  unfolding link_table
  link_table_ne flags directory i offset g w entry x cleared out ne =
      write_ne (table_loop g.words entry flags offset 1024 0) (directory + 4 * i)
        (bit_or (bit_or entry flags) 2) x ne
      ∙ table_loop_ne g.words entry flags offset 1024 0 x (omega arith)
      ∙ ap (λ (v : Words). v x) cleared
      ∙ clear_words_ne w entry 1024 x out

  -- ... the identity in the table, ...
  pub link_table_at :
      (flags directory i offset : ℕ) (g : Pages S) (entry j : ℕ)
      → j < 1024
      → entry + 4 * j ≢ directory + 4 * i
      → (link_table flags directory i offset (g, entry)).words (entry + 4 * j)
        ≡ bit_or ((offset + j * 4096) % 2 ^ 32) flags
  unfolding link_table
  link_table_at flags directory i offset g entry j lt ne =
      write_ne (table_loop g.words entry flags offset 1024 0) (directory + 4 * i)
        (bit_or (bit_or entry flags) 2) (entry + 4 * j) ne
      ∙ table_loop_at g.words entry flags offset 1024 0 j (omega arith) (omega arith)

  -- ... and the table in the directory.
  pub link_table_entry :
      (flags directory i offset : ℕ) (g : Pages S) (entry : ℕ)
      → (link_table flags directory i offset (g, entry)).words (directory + 4 * i)
        ≡ bit_or (bit_or entry flags) 2
  unfolding link_table
  link_table_entry flags directory i offset g entry =
      write_self (table_loop g.words entry flags offset 1024 0) (directory + 4 * i)
        (bit_or (bit_or entry flags) 2)
