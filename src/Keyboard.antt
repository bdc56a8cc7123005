-- ===== src/Keyboard.antt =====
-- The keyboard layer of src/keyboard/keyboard.c and the scan codes of src/keyboard/ps2.c. Each
-- process has a ring of 1024 characters; a 0 in it is an empty place.
pub mod Drivers
mod Examples
pub mod Ring
pub mod Startup
use slob_os.Prelude.{
  ℕ, ◌+◌, ◌-◌, ◌/◌, ◌%◌, ◌^◌, Bool, true, false, Option, none, some, ltb, ◌==◌, if◌then◌else◌, List,
  [], ◌∷◌, length, get_elem?,
}
use slob_os.Prelude.Memory.{Memory, write}

-- `struct keyboard_buffer`. `tail` and `head` are the bit patterns of an `int`, as `% sizeof(buffer)`
-- reads them.
pub record KeyboardBuffer : Type 0 where
  pub buffer : Memory
  pub tail : ℕ
  pub head : ℕ

-- SLOBOS_KEYBOARD_BUFFER_SIZE
abbrev pub buffer_size : ℕ
buffer_size = 1024

pub keyboard_get_tail_index : KeyboardBuffer → ℕ
keyboard_get_tail_index k = k.tail % buffer_size

pub keyboard_backspace : KeyboardBuffer → KeyboardBuffer
unfolding keyboard_get_tail_index
keyboard_backspace k =
    let moved = record k { tail = (k.tail + 2 ^ 32 - 1) % 2 ^ 32 } in
    record moved { buffer = write k.buffer (keyboard_get_tail_index moved) 0 }

-- The ring is that of the current process; without one nothing is stored.
pub keyboard_push : Option KeyboardBuffer → ℕ → Option KeyboardBuffer
unfolding keyboard_get_tail_index
keyboard_push none c = none
keyboard_push (some k) c =
    if c == 0
    then some k
    else some (record k {
      buffer = write k.buffer (keyboard_get_tail_index k) c;
      tail = (k.tail + 1) % 2 ^ 32;
    })

-- The character, 0 for none, and the ring of the current task's process. `!task_current` is a test
-- of a function's address, and never holds.
pub keyboard_pop : KeyboardBuffer → ℕ × KeyboardBuffer
keyboard_pop k =
    let real_index = k.head % buffer_size in
    let c = k.buffer real_index in
    if c == 0
    then (0, k)
    else (c, record k { buffer = write k.buffer real_index 0; head = (k.head + 1) % 2 ^ 32 })

-- keyboard_scan_set1
abbrev pub keyboard_scan_set1 : List ℕ
keyboard_scan_set1 =
    0x00 ∷ 0x1b ∷ b'1' ∷ b'2' ∷ b'3' ∷ b'4' ∷ b'5' ∷ b'6' ∷ b'7' ∷ b'8' ∷ b'9' ∷ b'0' ∷ b'-' ∷ b'='
    ∷ 0x08 ∷ 0x09 ∷ b'Q' ∷ b'W' ∷ b'E' ∷ b'R' ∷ b'T' ∷ b'Y' ∷ b'U' ∷ b'I' ∷ b'O' ∷ b'P' ∷ b'['
    ∷ b']' ∷ 0x0d ∷ 0x00 ∷ b'A' ∷ b'S' ∷ b'D' ∷ b'F' ∷ b'G' ∷ b'H' ∷ b'J' ∷ b'K' ∷ b'L' ∷ b';'
    ∷ 0x27 ∷ b'`' ∷ 0x00 ∷ 0x5c ∷ b'Z' ∷ b'X' ∷ b'C' ∷ b'V' ∷ b'B' ∷ b'N' ∷ b'M' ∷ b',' ∷ b'.'
    ∷ b'/' ∷ 0x00 ∷ b'*' ∷ 0x00 ∷ 0x20 ∷ 0x00 ∷ 0x00 ∷ 0x00 ∷ 0x00 ∷ 0x00 ∷ 0x00 ∷ 0x00 ∷ 0x00
    ∷ 0x00 ∷ 0x00 ∷ 0x00 ∷ b'7' ∷ b'8' ∷ b'9' ∷ b'-' ∷ b'4' ∷ b'5' ∷ b'6' ∷ b'+' ∷ b'1' ∷ b'2'
    ∷ b'3' ∷ b'0' ∷ b'.' ∷ []

-- `sizeof(keyboard_scan_set1) / sizeof(uint8_t)`
abbrev pub scan_set_size : ℕ
scan_set_size = length keyboard_scan_set1

-- The test lets the size itself through; `none` is the read behind the table.
pub ps2_keyboard_scancode_to_char : ℕ → Option ℕ
ps2_keyboard_scancode_to_char scancode =
    if ltb scan_set_size scancode then some 0 else get_elem? keyboard_scan_set1 scancode

-- A character that is not 0 is pushed. `none` is a read behind the table.
push_char : Option KeyboardBuffer → Option ℕ → Option (Option KeyboardBuffer)
unfolding keyboard_push
push_char ring none = none
push_char ring (some c) = some (if c == 0 then ring else keyboard_push ring c)

-- The handler at the scan code that the port gave; bit 7 marks the release of a key.
pub ps2_keyboard_handle_interrupt : Option KeyboardBuffer → ℕ → Option (Option KeyboardBuffer)
unfolding push_char ps2_keyboard_scancode_to_char
ps2_keyboard_handle_interrupt ring scancode =
    if scancode / 128 % 2 == 1
    then some ring
    else push_char ring (ps2_keyboard_scancode_to_char scancode)
