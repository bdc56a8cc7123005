-- ===== src/Terminal/Print.antt =====
-- Where print and terminal_initialize of src/kernel.c write.
use slob_os.Prelude.{
  ℕ, zero, suc, ◌+◌, ◌-◌, ◌*◌, ◌≡◌, ◌≢◌, refl, ◌∙◌, leb, ltb, ◌&&◌, if◌then◌else◌, List, [], ◌∷◌,
  length, get_or, arith,
}
use slob_os.Prelude.Memory.{Memory, write}
use slob_os.Terminal.{
  Terminal, terminal_make_char, terminal_putchar, advanced, plain_char, clear_row, clear_rows,
  terminal_initialize,
}

-- The number of the cell under the cursor.
abbrev pub cursor : Terminal → ℕ
cursor t = t.terminal_row * 80 + t.terminal_col

-- No character of the string is a newline or a backspace.
abbrev pub IsPlain : List ℕ → Type 0
IsPlain [] = Unit {0}
IsPlain (c ∷ str) = ((c ≢ 10) × (c ≢ 8)) × IsPlain str

pub plain-video :
    (t : Terminal) (c colour : ℕ)
    → (plain_char t c colour).video_mem ≡ write t.video_mem (cursor t) (terminal_make_char c colour)
unfolding plain_char advanced terminal_putchar
plain-video t c colour = ground arith

-- The cells that a string is written to.
abbrev written : Memory → (start : ℕ) → List ℕ → ℕ → ℕ
written m start str a =
    if leb start a && ltb a (start + length str)
    then terminal_make_char (get_or str (a - start) 0) 15
    else m a

-- terminal_putchar in a row.
row_cells :
    (t : Terminal) (y rounds x a : ℕ)
    → (clear_row t y rounds x).video_mem a
      ≡ (if leb (y * 80 + x) a && ltb a (y * 80 + x + rounds) then 32 else t.video_mem a)
unfolding clear_row terminal_putchar terminal_make_char
row_cells t y zero x a = ground arith
row_cells t y (suc rounds) x a =
    row_cells (terminal_putchar t x y 32 0) y rounds (x + 1) a ∙ ground arith

row_cursor :
    (t : Terminal) (y rounds x : ℕ)
    → ((clear_row t y rounds x).terminal_row ≡ t.terminal_row)
      × ((clear_row t y rounds x).terminal_col ≡ t.terminal_col)
unfolding clear_row terminal_putchar
row_cursor t y zero x = (refl, refl)
row_cursor t y (suc rounds) x = row_cursor (terminal_putchar t x y 32 0) y rounds (x + 1)

rows_cells :
    (t : Terminal) (rounds y a : ℕ)
    → (clear_rows t rounds y).video_mem a
      ≡ (if leb (y * 80) a && ltb a (y * 80 + rounds * 80) then 32 else t.video_mem a)
unfolding clear_rows
rows_cells t zero y a = ground arith
rows_cells t (suc rounds) y a =
    rows_cells (clear_row t y 80 0) rounds (y + 1) a ∙ rw (row_cells t y 80 0 a) (ground arith)

rows_cursor :
    (t : Terminal) (rounds y : ℕ)
    → ((clear_rows t rounds y).terminal_row ≡ t.terminal_row)
      × ((clear_rows t rounds y).terminal_col ≡ t.terminal_col)
unfolding clear_rows
rows_cursor t zero y = (refl, refl)
rows_cursor t (suc rounds) y =
    let rest = rows_cursor (clear_row t y 80 0) rounds (y + 1) in
    let row = row_cursor t y 80 0 in (rest.0 ∙ row.0, rest.1 ∙ row.1)

-- terminal_initialize writes a blank to each of the first 1600 cells and to no other, and leaves the
-- cursor where it was.
pub terminal_initialize-cursor :
    (t : Terminal) (a : ℕ)
    → ((terminal_initialize t).video_mem a ≡ (if ltb a 1600 then 32 else t.video_mem a))
      × (((terminal_initialize t).terminal_row ≡ t.terminal_row)
          × ((terminal_initialize t).terminal_col ≡ t.terminal_col))
unfolding terminal_initialize
terminal_initialize-cursor t a = (rows_cells t 20 0 a ∙ ground arith, rows_cursor t 20 0)
