-- ===== src/Paging/Chunk.antt =====
-- paging_new_4gb and paging_free_4gb of src/memory/paging/paging.c. Where kzalloc places an
-- allocation is an interface, a step on allocator states; the clearing is done here, on words.
mod Examples
pub mod Free
pub mod Fresh
pub mod Identity
use slob_os.Prelude.{ℕ, zero, suc, ◌+◌, ◌*◌, ◌/◌, ◌%◌, ◌^◌, ◌==◌, if◌then◌else◌, bit_or}
use slob_os.Prelude.Memory.{write}
use slob_os.Paging.{Words, page_size, entries_per_table}

-- PAGING_IS_WRITEABLE
abbrev pub is_writeable : ℕ
is_writeable = 2

-- The allocator and the memory of the page tables.
pub record Pages (S : Type 0) : Type 0 where
  pub allocator : S
  pub words : Words

-- `memset(ptr, 0, 4 * n)`
pub clear_words : Words → (ptr n : ℕ) → Words
clear_words w ptr zero = w
clear_words w ptr (suc n) = clear_words (write w ptr 0) (ptr + 4) n

-- The inner loop of paging_new_4gb with `rounds` entries left from number `b`.
pub table_loop : Words → (entry flags offset rounds b : ℕ) → Words
table_loop w entry flags offset zero b = w
table_loop w entry flags offset (suc rounds) b =
    table_loop (write w (entry + 4 * b) (bit_or ((offset + b * page_size) % 2 ^ 32) flags)) entry
      flags offset rounds (b + 1)

module _ {S : Type 0} where
  -- An allocation that is placed at an address, 0 for none.
  pub kzalloc_at : Pages S → (size : ℕ) → S × ℕ → Pages S × ℕ
  kzalloc_at g size (s, ptr) =
      if ptr == 0
      then (record g { allocator = s }, 0)
      else (record { allocator = s; words = clear_words g.words ptr (size / 4) }, ptr)

  -- A table is filled and put into the directory.
  pub link_table : (flags directory i offset : ℕ) → Pages S × ℕ → Pages S
  link_table flags directory i offset (g, entry) = record g {
    words =
        write (table_loop g.words entry flags offset entries_per_table 0) (directory + 4 * i)
          (bit_or (bit_or entry flags) is_writeable);
  }

  -- The last steps: the chunk points to the directory.
  pub new_chunk : ℕ → Pages S × ℕ → Pages S × ℕ
  new_chunk directory (g, chunk) = (record g { words = write g.words chunk directory }, chunk)

  module _ (place : S → ℕ → S × ℕ) where
    pub kzalloc_words : Pages S → ℕ → Pages S × ℕ
    kzalloc_words g size = kzalloc_at g size (place g.allocator size)

    -- The loop of paging_new_4gb with `rounds` tables left from number `i`.
    pub directory_loop : (flags directory rounds i offset : ℕ) → Pages S → Pages S
    directory_loop flags directory zero i offset g = g
    directory_loop flags directory (suc rounds) i offset g =
        directory_loop flags directory rounds (i + 1)
          ((offset + entries_per_table * page_size) % 2 ^ 32)
          (link_table flags directory i offset (kzalloc_words g (4 * entries_per_table)))

    -- `directory` is what the first kzalloc returns.
    pub fill_directory : ℕ → Pages S × ℕ → Pages S × ℕ
    fill_directory flags (g, directory) =
        new_chunk directory
          (kzalloc_words (directory_loop flags directory entries_per_table 0 0 g) 4)

    -- The chunk's address; its word is the directory's address.
    pub paging_new_4gb : ℕ → Pages S → Pages S × ℕ
    paging_new_4gb flags g = fill_directory flags (kzalloc_words g (4 * entries_per_table))

  module _ (kfree : S → ℕ → S) where
    pub free_loop : Words → (chunk rounds i : ℕ) → S → S
    free_loop w chunk zero i s = s
    free_loop w chunk (suc rounds) i s =
        free_loop w chunk rounds (i + 1) (kfree s (w (w chunk + 4 * i) / 4096 * 4096))

    pub paging_free_4gb : ℕ → Pages S → Pages S
    paging_free_4gb chunk g = record g {
      allocator = kfree (kfree (free_loop g.words chunk 1024 0 g.allocator) (g.words chunk)) chunk;
    }
