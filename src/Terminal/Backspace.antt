-- ===== src/Terminal/Backspace.antt =====
-- terminal_backspace of src/kernel.c: where it leaves the cursor, and the depth of the calls.
use slob_os.Prelude.{
  ℕ, zero, suc, ◌+◌, ◌^◌, ◌<◌, ◌≡◌, inl, inr, refl, ◌∙◌, Option, some, ◌==◌, ◌&&◌, arith, true,
  false, Bool-cases,
}
use slob_os.Prelude.Memory.{Memory}
use slob_os.Terminal.{
  Terminal, plain_char, new_line, write_with, one_left, stepped_back, then_left, terminal_backspace,
}
use slob_os.Terminal.Print.{cursor}

-- A screen whose cursor is not in the first cell.
abbrev Away : Terminal → Type 0
Away t = ((t.terminal_row == 0) && (t.terminal_col == 0)) ≡ false

backspace-Away :
    (fuel blank : ℕ) (t : Terminal)
    → Away t
    → terminal_backspace (suc fuel) blank t
      ≡ then_left (write_with (terminal_backspace fuel blank) (stepped_back t) blank 15)
unfolding terminal_backspace
backspace-Away fuel blank t h = rw (h) refl

stepped-cursor :
    (t : Terminal)
    → t.terminal_col < 2 ^ 16
    → t.terminal_row < 2 ^ 16
    → 0 < cursor t
    → (cursor (stepped_back t) + 1 ≡ cursor t)
      × (((stepped_back t).terminal_col < 2 ^ 16) × ((stepped_back t).terminal_row < 2 ^ 16))
unfolding stepped_back one_left
stepped-cursor t col row moved = ground arith

then_left-some :
    (o : Option Terminal)
    → ((t : Terminal) × (o ≡ some t))
    → (t : Terminal) × (then_left o ≡ some t)
unfolding then_left
then_left-some o (t, e) = (one_left t, rw (e) refl)

write-some :
    (f : Terminal → Option Terminal) (t : Terminal) (c : ℕ)
    → ((t' : Terminal) × (f t ≡ some t'))
    → (t' : Terminal) × (write_with f t c 15 ≡ some t')
unfolding write_with
write-some f t c back = elim (Bool-cases (c == 10)) [
  | inl line ↦ (new_line t, rw (line) refl)
  | inr other ↦ elim (Bool-cases (c == 8)) [
    | inl e ↦ (back.0, rw (other, e) back.1)
    | inr ne ↦ (plain_char t c 15, rw (other, ne) refl)
  ]
]

backspace-home :
    (fuel blank : ℕ) (t : Terminal)
    → ((t.terminal_row == 0) && (t.terminal_col == 0)) ≡ true
    → terminal_backspace (suc fuel) blank t ≡ some t
unfolding terminal_backspace
backspace-home fuel blank t h = rw (h) refl

-- Whatever character the blank is, terminal_backspace ends, with as much fuel as the number of the
-- cell under the cursor and one more.
pub terminal_backspace-some :
    (fuel blank : ℕ) (t : Terminal)
    → t.terminal_col < 2 ^ 16
    → t.terminal_row < 2 ^ 16
    → cursor t < fuel
    → (t' : Terminal) × (terminal_backspace fuel blank t ≡ some t')
terminal_backspace-some zero blank t col row enough = absurd (omega arith)
terminal_backspace-some (suc fuel) blank t col row enough =
    elim (Bool-cases ((t.terminal_row == 0) && (t.terminal_col == 0))) [
      | inl home ↦ (t, backspace-home fuel blank t home)
      | inr gone ↦
          let moved : 0 < cursor t = ground arith in
          let (place, (column, line)) = stepped-cursor t col row moved in
          let (t', did) = then_left-some _ (
            write-some (terminal_backspace fuel blank) (stepped_back t) blank (
              terminal_backspace-some fuel blank (stepped_back t) column line
                (omega (arith, place)))) in
          (t', backspace-Away fuel blank t gone ∙ did)
    ]
