-- ===== src/Paging/Chunk/Free.antt =====
-- paging_free_4gb of src/memory/paging/paging.c on what paging_new_4gb built.
use slob_os.Prelude.{ℕ, zero, suc, ◌+◌, ◌*◌, ◌/◌, ◌<◌, ◌≡◌, refl, ap, ◌∙◌, arith}
use slob_os.Paging.{Words}
use slob_os.Paging.Mapping.{table_at}
use slob_os.Paging.Chunk.{Pages, free_loop, paging_new_4gb, paging_free_4gb}
use slob_os.Paging.Chunk.Identity.{
  Allocates, finished, finished-table_at, finished_directory, finished_chunk, new_4gb-finished,
}

module _ {S : Type 0} (kfree : S → ℕ → S) where
  -- The addresses `page i`, `page (i + 1)` and so on are freed, `n` of them.
  unfoldable pub free_pages : (ℕ → ℕ) → (n i : ℕ) → S → S
  free_pages page zero i s = s
  free_pages page (suc n) i s = free_pages page n (i + 1) (kfree s (page i))

  free_loop-pages :
      (w : Words) (chunk directory rounds i : ℕ) (page : ℕ → ℕ) (s : S)
      → w chunk ≡ directory
      → ((k : ℕ) → k < 1024 → table_at w directory k ≡ page (k + 1))
      → i + rounds ≡ 1024
      → free_loop kfree w chunk rounds i s ≡ free_pages page rounds (i + 1) s
  unfolding free_loop free_pages
  free_loop-pages w chunk directory zero i page s at tables total = refl
  free_loop-pages w chunk directory (suc rounds) i page s at tables total =
      free_loop-pages w chunk directory rounds (i + 1) page
        (kfree s (w (w chunk + 4 * i) / 4096 * 4096)) at tables (omega arith)
      ∙ ap (λ p. free_pages page rounds (i + 1 + 1) (kfree s p))
          (ap (λ d. w (d + 4 * i) / 4096 * 4096) at ∙ tables i (omega arith))

  module _ {place : S → ℕ → S × ℕ} {state : ℕ → S} {page : ℕ → ℕ} (a : Allocates place state page)
      (flags : ℕ) (small : flags < 256) where
    -- paging_free_4gb of what paging_new_4gb returned frees each page that it allocated once: the
    -- 1024 tables in their order, then the directory, then the chunk.
    pub paging_free_4gb-paging_new_4gb :
        (g : Pages S)
        → g.allocator ≡ state 0
        → (paging_free_4gb kfree
            (paging_new_4gb place flags g).1
            (paging_new_4gb place flags g).0).allocator
          ≡ kfree (kfree (free_pages page 1024 1 (state 1026)) (page 0)) (page 1025)
    unfolding paging_free_4gb
    paging_free_4gb-paging_new_4gb g start =
        let (b, (built, e)) = new_4gb-finished a flags small g start in
        let last : Pages S = (finished a flags small b).0 in
        let (at_chunk, at_end) = finished_chunk a flags small b in
        rw
          (
            e,
            free_loop-pages last.words (finished a flags small b).1 (page 0) 1024 0 page
                last.allocator (finished_directory a flags small b)
                (λ k lt. finished-table_at a flags small b k built lt) refl,
            finished_directory a flags small b,
            at_chunk,
            at_end,
          )
          refl
