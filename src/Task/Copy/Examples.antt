-- ===== src/Task/Copy/Examples.antt =====
-- A witness on a task that sees memory as it is.
use slob_os.Prelude.{
  ℕ, ◌+◌, ◌-◌, ◌*◌, ◌/◌, ◌%◌, ◌≤◌, ◌<◌, ◌≡◌, ap, ◌∙◌, inl, inr, refl, ◌==◌, ltb, if◌then◌else◌, [],
  ◌∷◌, arith,
}
use slob_os.Prelude.Memory.{Memory}
use slob_os.Status.{ok}
use slob_os.Paging.{Words}
use slob_os.Paging.Mapping.{IsDirectory, page_slot}
use slob_os.Text.Strings.{CString}
use slob_os.Task.Copy.{Translation, Space, copy_string_from_task}
use slob_os.Task.Copy.Translate.{IsDocumented, page_of}
use slob_os.Task.Copy.Whole.{IsTaskString, copy_string_from_task-CString}

-- The directory at 0, with table `i` at 4096 * (i + 1); every page is mapped to itself.
abbrev own_words : Words
own_words a = if ltb a 4096 then (a / 4 + 1) * 4096 + 7 else (a / 4 - 1024) * 4096 + 7

own_entry : (i : ℕ) → i < 1024 → own_words (0 + 4 * i) ≡ (i + 1) * 4096 + 7
own_entry i lt = ground arith

own-IsDirectory : IsDirectory own_words 0
own-IsDirectory = record {
  aligned = refl;
  apart = λ i j li lj ne. rw (own_entry i li, own_entry j lj) (λ e. ne (omega arith));
  off_directory = λ i li. rw (own_entry i li) (λ e. absurd (omega arith));
  low = λ i li. rw (own_entry i li) (omega arith);
}

-- The translation, written out.
abbrev walker : Translation
walker w directory a = w (page_slot w directory (page_of a)) / 4096 * 4096 + a % 4096

walker-IsDocumented : IsDocumented walker
walker-IsDocumented w directory a present = refl

-- The string "hi" at 0x400000.
abbrev hi_memory : Memory
hi_memory a = if a == 0x400000 then 104 else if a == 0x400001 then 105 else 0

abbrev space : Space ℕ
space = record { allocator = 0; words = own_words; memory = hi_memory }

hi_page : (k : ℕ) → k ≤ 2 → page_of (0x400000 + k) ≡ 0x400000
hi_page k l = omega arith

hi_frame : (k : ℕ) → k ≤ 2 → walker own_words 0 (0x400000 + k) ≡ 0x400000 + (0x400000 + k) % 4096
hi_frame k l =
    ap (λ (b : ℕ). own_words (page_slot own_words 0 b) / 4096 * 4096 + (0x400000 + k) % 4096)
      (hi_page k l)

hi-IsTaskString : IsTaskString own_words hi_memory walker 0 0x600000 8 0x400000 (104 ∷ 105 ∷ [])
hi-IsTaskString = record {
  seen = (refl, omega arith, (refl, omega arith, refl));
  present = λ k l. record {
    in_space = omega arith;
    table = ap (λ (b : ℕ). own_words (0 + 4 * (b / (1024 * 4096))) % 2) (hi_page k l) ∙ refl;
    page = ap (λ (b : ℕ). own_words (page_slot own_words 0 b) % 2) (hi_page k l) ∙ refl;
  };
  off_page = λ k l e. absurd (omega (arith, hi_page k l));
  off_buffer = λ k l. inl (omega (arith, hi_frame k l));
}

copy_string_from_task-CString_example :
    (g' : Space ℕ) × ((copy_string_from_task
          (λ s ptr. s)
          (λ s size. (s, 0x600000))
          walker
          space
          0
          0x400000
          0x700000
          8
        ≡ (g', ok tt))
      × (CString g'.memory 0x700000 (104 ∷ 105 ∷ [])
          × (((x : ℕ) → g'.words x ≡ own_words x) × (g'.allocator ≡ 0))))
copy_string_from_task-CString_example =
    copy_string_from_task-CString (λ s size. (s, 0x600000)) (λ s ptr. s) space walker 0 0x400000
      0x700000 8 0x600000 0 (104 ∷ 105 ∷ []) walker-IsDocumented refl own-IsDirectory
      (record {
        page = record { on_page = refl; in_space = omega arith };
        nonzero = omega arith;
        some = omega arith;
        fits = omega arith;
        present = refl;
      })
      hi-IsTaskString (inr (omega arith))
