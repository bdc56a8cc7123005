-- ===== src/Keyboard/Examples.antt =====
-- The theorems on the keyboard buffer at an empty ring, a ring of one character, and a full one.
use slob_os.Prelude.{
  ℕ, zero, suc, ◌+◌, ◌≡◌, refl, arith, some, if◌then◌else◌, ◌==◌, [], ◌∷◌, length, replicate, ap,
}
use slob_os.Keyboard.{KeyboardBuffer, keyboard_push, keyboard_pop}
use slob_os.Keyboard.Ring.{window, Holds, keyboard_push-Holds, keyboard_pop-Holds}

abbrev empty_ring : KeyboardBuffer
empty_ring = record { buffer = λ i. 0; tail = 0; head = 0 }

-- `x` stands in place 0.
abbrev ring : KeyboardBuffer
ring = record { buffer = λ i. if i == 0 then b'x' else 0; tail = 1; head = 0 }

ring-Holds : Holds ring (b'x' ∷ [])
ring-Holds = record {
  fits = omega arith;
  tail_at = refl;
  head_in = omega arith;
  chars = refl;
  nonzero = λ i lt. ground arith;
  empty = λ i low high. ground arith;
}

keyboard_push-Holds_example :
    (k' : KeyboardBuffer) × (keyboard_push (some ring) b'y' ≡ some k') × Holds k' (b'x' ∷ b'y' ∷ [])
keyboard_push-Holds_example =
    keyboard_push-Holds ring (b'x' ∷ []) b'y' ring-Holds (λ e. absurd (omega arith)) (omega arith)

keyboard_pop-Holds_example : (k' : KeyboardBuffer) × (keyboard_pop ring ≡ (b'x', k')) × Holds k' []
keyboard_pop-Holds_example = keyboard_pop-Holds ring b'x' [] ring-Holds

length-replicate : (n c : ℕ) → length (replicate n c) ≡ n
length-replicate zero c = refl
length-replicate (suc n) c = ap suc (length-replicate n c)

window-replicate : (n h : ℕ) → window (λ i. b'x') h n ≡ replicate n b'x'
window-replicate zero h = refl
window-replicate (suc n) h = ap (λ q. b'x' ∷ q) (window-replicate n (h + 1))
