-- ===== src/Paging/Examples.antt =====
-- The theorems on paging at a directory whose tables follow one another.
use slob_os.Prelude.{ℕ, ◌+◌, ◌-◌, ◌*◌, ◌/◌, ◌^◌, ◌<◌, ◌≡◌, refl, arith, ltb, if◌then◌else◌}
use slob_os.Status.{ok}
use slob_os.Paging.{Words, paging_get, paging_set, paging_map_to}
use slob_os.Paging.Mapping.{IsDirectory, IsPage, page_slot, paging_get-paging_set_high}
use slob_os.Paging.Range.{Mapped, paging_map_to-Mapped}

-- The directory at 0x1000; table `i` at 0x100000 + 4096 * i.
abbrev words : Words
words a = if ltb a 0x2000 then 0x100000 + (a - 0x1000) / 4 * 4096 else 0

directory_word : (i : ℕ) → i < 1024 → words (0x1000 + 4 * i) ≡ 0x100000 + i * 4096
directory_word i lt = ground arith

words-IsDirectory : IsDirectory words 0x1000
words-IsDirectory = record {
  aligned = refl;
  apart = λ i j li lj ne. rw (directory_word i li, directory_word j lj) (λ e. ne (omega arith));
  off_directory = λ i li. rw (directory_word i li) (λ e. absurd (omega arith));
  low = λ i li. rw (directory_word i li) (omega arith);
}

first-IsPage : IsPage 0x400000
first-IsPage = record { on_page = refl; in_space = omega arith }

-- Every table stands at 257 MB.
abbrev high_words : Words
high_words a = if ltb a 0x2000 then 0x10100007 else 5

paging_get-paging_set_high_example :
    paging_get (paging_set high_words 0x1000 0x400000 0x500007).0 0x1000 0x400000 ≡ (
      if ltb (high_words (0x1000 + 4 * (0x400000 / (1024 * 4096)))) (2 ^ 28)
      then 0x500007
      else high_words (
          page_slot high_words 0x1000 0x400000
          - high_words (0x1000 + 4 * (0x400000 / (1024 * 4096))) / 2 ^ 28 * 2 ^ 28))
paging_get-paging_set_high_example =
    paging_get-paging_set_high high_words 0x1000 0x400000 0x500007 first-IsPage (omega arith)

paging_map_to-Mapped_example :
    ((paging_map_to words 0x1000 0x400000 0x500000 0x502000 7).1 ≡ ok tt)
    × Mapped words
        (paging_map_to words 0x1000 0x400000 0x500000 0x502000 7).0
        0x1000
        0x400000
        0x500000
        (0x502000 - 0x500000)
        7
paging_map_to-Mapped_example =
    paging_map_to-Mapped words 0x1000 0x400000 0x500000 0x502000 7 words-IsDirectory refl refl refl
      (omega arith) (omega arith) (omega arith) (omega arith)
