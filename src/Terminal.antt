-- ===== src/Terminal.antt =====
-- The text screen of src/kernel.c: a cell is a character and a colour, 80 to a row. terminal_backspace
-- and terminal_writechar call each other; the depth is fuel.
pub mod Backspace
mod Examples
pub mod Print
use slob_os.Prelude.{
  ℕ, zero, suc, ◌+◌, ◌-◌, ◌*◌, ◌%◌, ◌^◌, Bool, true, false, ◌&&◌, Option, none, some, ltb, leb,
  ◌==◌, if◌then◌else◌, List, [], ◌∷◌, bit_or,
}
use slob_os.Prelude.Memory.{Memory, write}

-- VGA_WIDTH and VGA_HEIGHT
abbrev pub vga_width : ℕ
vga_width = 80

abbrev pub vga_height : ℕ
vga_height = 20

-- `video_mem`, `terminal_row` and `terminal_col`.
pub record Terminal : Type 0 where
  pub video_mem : Memory
  pub terminal_row : ℕ
  pub terminal_col : ℕ

-- A `char` as a 16-bit number: its sign fills the high byte.
pub extended : ℕ → ℕ
extended c = if ltb c 128 then c else c + 0xff00

pub terminal_make_char : (c colour : ℕ) → ℕ
unfolding extended
terminal_make_char c colour = bit_or (colour * 2 ^ 8) (extended c) % 2 ^ 16

pub terminal_putchar : Terminal → (x y c colour : ℕ) → Terminal
terminal_putchar t x y c colour = record t {
  video_mem = write t.video_mem (y * vga_width + x) (terminal_make_char c colour);
}

-- The end of terminal_writechar.
pub advanced : Terminal → Terminal
advanced t =
    if leb vga_width ((t.terminal_col + 1) % 2 ^ 16)
    then record t { terminal_col = 0; terminal_row = (t.terminal_row + 1) % 2 ^ 16 }
    else record t { terminal_col = (t.terminal_col + 1) % 2 ^ 16 }

pub new_line : Terminal → Terminal
new_line t = record t { terminal_row = (t.terminal_row + 1) % 2 ^ 16; terminal_col = 0 }

pub plain_char : Terminal → (c colour : ℕ) → Terminal
plain_char t c colour = advanced (terminal_putchar t t.terminal_col t.terminal_row c colour)

-- terminal_writechar, with what a backspace does.
pub write_with : (Terminal → Option Terminal) → Terminal → (c colour : ℕ) → Option Terminal
write_with backspace t c colour =
    if c == 10
    then some (new_line t)
    else if c == 8
    then backspace t
    else some (plain_char t c colour)

-- `terminal_col -= 1`
pub one_left : Terminal → Terminal
one_left t = record t { terminal_col = (t.terminal_col + (2 ^ 16 - 1)) % 2 ^ 16 }

-- The cursor that terminal_backspace moves to.
pub stepped_back : Terminal → Terminal
unfolding one_left
stepped_back t = one_left (
    if t.terminal_col == 0
    then record t {
      terminal_row = (t.terminal_row + (2 ^ 16 - 1)) % 2 ^ 16;
      terminal_col = vga_width;
    }
    else t)

pub then_left : Option Terminal → Option Terminal
then_left none = none
then_left (some t) = some (one_left t)

-- `blank` is the character that the source makes of the string " ": the low byte of its address.
pub terminal_backspace : (fuel blank : ℕ) → Terminal → Option Terminal
terminal_backspace zero blank t = none
terminal_backspace (suc fuel) blank t =
    let rest = then_left (write_with (terminal_backspace fuel blank) (stepped_back t) blank 15) in
    if (t.terminal_row == 0) && (t.terminal_col == 0) then some t else rest

pub terminal_writechar : (fuel blank : ℕ) → Terminal → (c colour : ℕ) → Option Terminal
terminal_writechar fuel blank t c colour = write_with (terminal_backspace fuel blank) t c colour

-- The loops of terminal_initialize, from column `x` and row `y` on.
pub clear_row : Terminal → (y rounds x : ℕ) → Terminal
clear_row t y zero x = t
clear_row t y (suc rounds) x = clear_row (terminal_putchar t x y 32 0) y rounds (x + 1)

pub clear_rows : Terminal → (rounds y : ℕ) → Terminal
clear_rows t zero y = t
clear_rows t (suc rounds) y = clear_rows (clear_row t y vga_width 0) rounds (y + 1)

-- The row and the column that the source sets to 0 are variables of its own.
pub terminal_initialize : Terminal → Terminal
terminal_initialize t = clear_rows t vga_height 0

pub then_print : (Terminal → Option Terminal) → Option Terminal → Option Terminal
then_print print none = none
then_print print (some t) = print t

-- The characters of the string, one after the other.
pub print : (fuel blank : ℕ) → List ℕ → Terminal → Option Terminal
print fuel blank [] t = some t
print fuel blank (c ∷ str) t =
    then_print (print fuel blank str) (terminal_writechar fuel blank t c 15)
