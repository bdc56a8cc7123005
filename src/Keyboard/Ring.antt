-- ===== src/Keyboard/Ring.antt =====
-- The ring against a first-in first-out queue of at most 1024 characters.
use mathlib.Core.Path.{ap₂}
use slob_os.Prelude.{
  ℕ, zero, suc, ◌+◌, ◌-◌, ◌%◌, ◌^◌, ◌≤◌, ◌<◌, ◌≡◌, ◌≢◌, inl, inr, refl, sym, ap, ◌∙◌, some, List,
  [], ◌∷◌, ◌++◌, length, length-append, arith, eq_cases, lt_cases, length,
}
use slob_os.Prelude.Memory.{Memory, write, write_ne, write_self}
use slob_os.Keyboard.{KeyboardBuffer, keyboard_backspace, keyboard_push, keyboard_pop}

-- The `n` characters from place `h` on.
abbrev pub window : Memory → ℕ → ℕ → List ℕ
window b h zero = []
window b h (suc n) = b (h % 1024) ∷ window b (h + 1) n

-- The ring holds the characters `q`, oldest first, and 0 everywhere else.
pub record Holds (k : KeyboardBuffer) (q : List ℕ) : Type 0 where
  pub fits : length q ≤ 1024
  pub tail_at : k.tail ≡ (k.head + length q) % 2 ^ 32
  pub head_in : k.head < 2 ^ 32
  pub chars : window k.buffer k.head (length q) ≡ q
  pub nonzero : (i : ℕ) → i < length q → k.buffer ((k.head + i) % 1024) ≢ 0
  pub empty : (i : ℕ) → length q ≤ i → i < 1024 → k.buffer ((k.head + i) % 1024) ≡ 0

window-write :
    (b : Memory) (h n place c : ℕ)
    → ((i : ℕ) → i < n → (h + i) % 1024 ≢ place)
    → window (write b place c) h n ≡ window b h n
window-write b h zero place c other = refl
window-write b h (suc n) place c other =
    ap₂ ◌∷◌ (write_ne b place c (h % 1024) (λ e. other 0 (omega arith) (omega arith)))
      (window-write b (h + 1) n place c λ i l e. other (i + 1) (omega arith) (omega arith))

window-snoc :
    (b : Memory) (h n : ℕ) → window b h (suc n) ≡ window b h n ++ (b ((h + n) % 1024) ∷ [])
window-snoc b h zero = ground arith
window-snoc b h (suc n) =
    ap (◌∷◌ (b (h % 1024)))
      (window-snoc b (h + 1) n ∙ ap (λ t. window b (h + 1) n ++ (b (t % 1024) ∷ [])) (omega arith))

-- A head that wraps at 2 ^ 32 shows the same places.
window-mod : (b : Memory) (h g n : ℕ) → h % 1024 ≡ g % 1024 → window b h n ≡ window b g n
window-mod b h g zero e = refl
window-mod b h g (suc n) e = ap₂ ◌∷◌ (ap b e) (window-mod b (h + 1) (g + 1) n (omega arith))

length-snoc : (q : List ℕ) (c : ℕ) → length (q ++ (c ∷ [])) ≡ length q + 1
length-snoc q c = length-append q (c ∷ [])

length-snoc_suc : (q : List ℕ) (c : ℕ) → length (q ++ (c ∷ [])) ≡ suc (length q)
length-snoc_suc q c = omega (arith, length-snoc q c)

-- The ring after keyboard_push of `c`.
abbrev pub pushed : KeyboardBuffer → ℕ → KeyboardBuffer
pushed k c = record k { buffer = write k.buffer (k.tail % 1024) c; tail = (k.tail + 1) % 2 ^ 32 }

pushed_lem : (k : KeyboardBuffer) (c : ℕ) → c ≢ 0 → keyboard_push (some k) c ≡ some (pushed k c)
unfolding keyboard_push
pushed_lem k c ne = ground arith

-- keyboard_push appends a character to a queue that is not full.
pub keyboard_push-Holds :
    (k : KeyboardBuffer) (q : List ℕ) (c : ℕ)
    → Holds k q
    → c ≢ 0
    → length q < 1024
    → (k' : KeyboardBuffer) × (keyboard_push (some k) c ≡ some k') × Holds k' (q ++ (c ∷ []))
keyboard_push-Holds k q c h ne room =
    let place : k.tail % 1024 ≡ (k.head + length q) % 1024 = omega (arith, h.tail_at) in
    (
      pushed k c,
      pushed_lem k c ne,
      record {
        fits = omega (arith, length-snoc q c);
        tail_at = omega (arith, length-snoc q c, h.tail_at);
        head_in = h.head_in;
        chars =
            ap (window (pushed k c).buffer k.head) (length-snoc_suc q c)
            ∙ window-snoc (pushed k c).buffer k.head (length q)
            ∙ ap₂ (λ (s : List ℕ) (d : ℕ). s ++ (d ∷ []))
                (window-write k.buffer k.head (length q) (k.tail % 1024) c (λ i l. omega arith)
                  ∙ h.chars)
                (rw (← place) (ground arith));
        nonzero = λ i l. elim (lt_cases i (length q)) [
          | inl old ↦ λ z.
              h.nonzero i old
                (sym (write_ne k.buffer (k.tail % 1024) c ((k.head + i) % 1024) (omega arith)) ∙ z)
          | inr new ↦
              let last : (k.head + i) % 1024 ≡ k.tail % 1024 = omega (arith, length-snoc q c) in
              rw (last) (λ z. ne (sym (write_self k.buffer (k.tail % 1024) c) ∙ z))
        ];
        empty = λ i l u.
            write_ne k.buffer (k.tail % 1024) c ((k.head + i) % 1024)
              (omega (arith, length-snoc q c))
            ∙ h.empty i (omega (arith, length-snoc q c)) u;
      },
    )

-- keyboard_pop of an empty queue gives 0 and changes nothing.
pub keyboard_pop-empty : (k : KeyboardBuffer) → Holds k [] → keyboard_pop k ≡ (0, k)
unfolding keyboard_pop
keyboard_pop-empty k h =
    let z : k.buffer (k.head % 1024) ≡ 0 =
      ap (λ t. k.buffer (t % 1024)) (omega arith) ∙ h.empty 0 (omega arith) (omega arith) in
    rw z

popped : KeyboardBuffer → KeyboardBuffer
popped k = record k { buffer = write k.buffer (k.head % 1024) 0; head = (k.head + 1) % 2 ^ 32 }

popped_lem :
    (k : KeyboardBuffer) (c : ℕ)
    → k.buffer (k.head % 1024) ≡ c
    → c ≢ 0
    → keyboard_pop k ≡ (c, popped k)
unfolding keyboard_pop popped
popped_lem k c e ne = ground arith

tail_eq : {a b : ℕ} {s t : List ℕ} → a ∷ s ≡ b ∷ t → s ≡ t
tail_eq e = cc

head_eq : {a b : ℕ} {s t : List ℕ} → a ∷ s ≡ b ∷ t → a ≡ b
head_eq e = cc

-- After keyboard_pop the places behind the old head are as before.
popped_place :
    (b : Memory) (head i : ℕ)
    → i < 1023
    → write b (head % 1024) 0 (((head + 1) % 2 ^ 32 + i) % 1024) ≡ b ((head + (i + 1)) % 1024)
popped_place b head i l = write_ne b (head % 1024) 0 _ (omega arith) ∙ ap b (omega arith)

popped-Holds : (k : KeyboardBuffer) (c : ℕ) (q : List ℕ) → Holds k (c ∷ q) → Holds (popped k) q
unfolding popped
popped-Holds k c q h = record {
  fits = omega (arith, h.fits);
  tail_at = omega (arith, h.tail_at);
  head_in = omega arith;
  chars =
      window-mod (popped k).buffer (popped k).head (k.head + 1) (length q) (omega arith)
      ∙ window-write k.buffer (k.head + 1) (length q) (k.head % 1024) 0
          (λ i l. omega (arith, h.fits))
      ∙ tail_eq h.chars;
  nonzero = λ i l z.
      h.nonzero (i + 1) (omega arith)
        (sym (popped_place k.buffer k.head i (omega (arith, h.fits))) ∙ z);
  empty = λ i l u. elim (lt_cases i 1023) [
    | inl early ↦ popped_place k.buffer k.head i early ∙ h.empty (i + 1) (omega arith) (omega arith)
    | inr last ↦
        let place : ((k.head + 1) % 2 ^ 32 + i) % 1024 ≡ k.head % 1024 = omega arith in
        rw (place) (write_self k.buffer (k.head % 1024) 0)
  ];
}

-- keyboard_pop of a ring that is not empty gives the oldest character and leaves the rest.
pub keyboard_pop-Holds :
    (k : KeyboardBuffer) (c : ℕ) (q : List ℕ)
    → Holds k (c ∷ q)
    → (k' : KeyboardBuffer) × (keyboard_pop k ≡ (c, k')) × Holds k' q
keyboard_pop-Holds k c q h = (
  popped k,
  popped_lem k c (head_eq h.chars) (λ z.
      h.nonzero 0 (omega arith)
        (ap (λ t. k.buffer (t % 1024)) (omega arith) ∙ head_eq h.chars ∙ z)),
  popped-Holds k c q h,
)

-- keyboard_push onto a full queue overwrites the oldest character: the next keyboard_pop gives the
-- newest one instead.
pub keyboard_push_full :
    (k : KeyboardBuffer) (q : List ℕ) (c : ℕ)
    → Holds k q
    → length q ≡ 1024
    → c ≢ 0
    → (k' : KeyboardBuffer) × (keyboard_push (some k) c ≡ some k') × ((keyboard_pop k').0 ≡ c)
keyboard_push_full k q c h full ne =
    let place : k.tail % 1024 ≡ k.head % 1024 = omega (arith, h.tail_at) in
    (
      pushed k c,
      pushed_lem k c ne,
      ap (λ r. r.0)
          (popped_lem (pushed k c) c (rw (place) (write_self k.buffer (k.head % 1024) c)) ne),
    )

snoc_left : (q r : List ℕ) (c d : ℕ) → q ++ (c ∷ []) ≡ r ++ (d ∷ []) → q ≡ r
snoc_left [] [] c d e = refl
snoc_left [] (x ∷ []) c d e = cc (tail_eq e)
snoc_left [] (x ∷ y ∷ r) c d e = cc (tail_eq e)
snoc_left (x ∷ []) [] c d e = cc (tail_eq e)
snoc_left (x ∷ y ∷ q) [] c d e = cc (tail_eq e)
snoc_left (x ∷ q) (y ∷ r) c d e = ap₂ ◌∷◌ (head_eq e) (snoc_left q r c d (tail_eq e))

-- keyboard_backspace takes back the newest character of a queue.
pub keyboard_backspace-Holds :
    (k : KeyboardBuffer) (q : List ℕ) (c : ℕ)
    → Holds k (q ++ (c ∷ []))
    → Holds (keyboard_backspace k) q
unfolding keyboard_backspace
keyboard_backspace-Holds k q c h =
    let n : length (q ++ (c ∷ [])) ≡ suc (length q) = length-snoc_suc q c in
    let place : ((k.tail + 2 ^ 32 - 1) % 2 ^ 32) % 1024 ≡ (k.head + length q) % 1024 =
      omega (arith, h.tail_at, n) in
    record {
      fits = omega (arith, h.fits, n);
      tail_at = omega (arith, h.tail_at, n);
      head_in = h.head_in;
      chars =
          window-write k.buffer k.head (length q) _ 0 (λ i l. omega (arith, h.fits, n, place))
          ∙ snoc_left (window k.buffer k.head (length q)) q _ c (
              sym (window-snoc k.buffer k.head (length q))
              ∙ ap (window k.buffer k.head) (sym n)
              ∙ h.chars);
      nonzero = λ i l z.
          h.nonzero i (omega (arith, n))
            (sym (write_ne k.buffer _ 0 _ (omega (arith, h.fits, n, place))) ∙ z);
      empty = λ i l u. elim (eq_cases i (length q)) [
        | inl same ↦ rw (same, ← place) (write_self k.buffer _ 0)
        | inr other ↦
            write_ne k.buffer _ 0 _ (omega (arith, h.fits, n, place))
            ∙ h.empty i (omega (arith, n)) u
      ];
    }

-- keyboard_backspace of an empty queue moves the tail before the head: the character that is pushed
-- next is not found by keyboard_pop.
pub keyboard_backspace_empty :
    (k : KeyboardBuffer) (c : ℕ)
    → Holds k []
    → c ≢ 0
    → (k' : KeyboardBuffer) × (keyboard_push (some (keyboard_backspace k)) c ≡ some k')
      × (keyboard_pop k' ≡ (0, k'))
unfolding keyboard_backspace keyboard_pop
keyboard_backspace_empty k c h ne =
    let before : ((k.tail + 2 ^ 32 - 1) % 2 ^ 32) % 1024 ≢ k.head % 1024 =
      omega (arith, h.tail_at) in
    let zero_at : k.buffer (k.head % 1024) ≡ 0 =
      ap (λ t. k.buffer (t % 1024)) (omega arith) ∙ h.empty 0 (omega arith) (omega arith) in
    (pushed (keyboard_backspace k) c, pushed_lem (keyboard_backspace k) c ne, ground arith)
