-- ===== src/Terminal/Examples.antt =====
-- Witnesses on a screen of zeros.
use slob_os.Prelude.{◌≡◌, some, arith}
use slob_os.Terminal.{Terminal, terminal_backspace}
use slob_os.Terminal.Backspace.{terminal_backspace-some}

-- At the end of the third row.
abbrev third_row : Terminal
third_row = record { video_mem = λ a. 0; terminal_row = 2; terminal_col = 79 }

-- At the start of the third row.
abbrev row_start : Terminal
row_start = record { video_mem = λ a. 0; terminal_row = 2; terminal_col = 0 }

terminal_backspace-some_example : (t' : Terminal) × (terminal_backspace 200 8 row_start ≡ some t')
terminal_backspace-some_example =
    terminal_backspace-some 200 8 row_start (omega arith) (omega arith) (omega arith)
