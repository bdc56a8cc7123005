-- ===== src/Paging/Chunk/Examples.antt =====
-- The theorems on chunks at an allocator that hands out one page after the other.
use slob_os.Prelude.{ℕ, ◌+◌, ◌*◌, ◌≡◌, refl, arith}
use slob_os.Paging.Chunk.{Pages, paging_new_4gb, paging_free_4gb}
use slob_os.Paging.Chunk.Identity.{Allocates}
use slob_os.Paging.Chunk.Free.{free_pages, paging_free_4gb-paging_new_4gb}

abbrev page : ℕ → ℕ
page k = 0x2000000 + k * 4096

-- The state counts the allocations.
abbrev place : ℕ → ℕ → ℕ × ℕ
place k size = (k + 1, page k)

place-Allocates : Allocates place (λ k. k) page
place-Allocates = record {
  pages = λ k lt. refl;
  chunk = refl;
  aligned = λ k lt. omega arith;
  nonzero = λ k lt. omega arith;
  low = λ k lt. omega arith;
  apart = λ j k hj hk ne e. ne (omega arith);
}

abbrev start : Pages ℕ
start = record { allocator = 0; words = λ x. 0 }

paging_free_4gb-paging_new_4gb_example :
    (paging_free_4gb
      (λ s ptr. s + 1)
      (paging_new_4gb place 7 start).1
      (paging_new_4gb place 7 start).0).allocator
    ≡ free_pages (λ s ptr. s + 1) page 1024 1 1026 + 1 + 1
paging_free_4gb-paging_new_4gb_example =
    paging_free_4gb-paging_new_4gb (λ s ptr. s + 1) place-Allocates 7 (omega arith) start refl
