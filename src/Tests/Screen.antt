-- ===== src/Tests/Screen.antt =====
-- Runs of the text screen.
use tinu_os.Prelude.{ℕ, ◌≡◌, inr, [], ◌∷◌, arith}
use tinu_os.Terminal.{Terminal, terminal_putchar, terminal_write}
use tinu_os.Terminal.Scroll.{green}
use tinu_os.Terminal.Screen.{IsOnScreen, written, terminal_putchar_lem, terminal_write_outside}

abbrev pub at_cell : ℕ → ℕ → Terminal
at_cell row column = record { row = row; column = column; attrib = 10; buffer = λ j. j; trace = [] }

corner-IsOnScreen : IsOnScreen (at_cell 24 79)
corner-IsOnScreen = record { row_in = omega arith; column_in = omega arith }

terminal_putchar_lem_example :
    ((terminal_putchar b'A' (at_cell 24 79)).buffer 1919 ≡ written b'A' (at_cell 24 79) 1999)
    × ((terminal_putchar b'A' (at_cell 24 79)).row ≡ 24)
    × ((terminal_putchar b'A' (at_cell 24 79)).column ≡ 0)
    × ((terminal_putchar b'A' (at_cell 24 79)).attrib ≡ green)
terminal_putchar_lem_example = terminal_putchar_lem b'A' (at_cell 24 79) 1919 corner-IsOnScreen

terminal_write_outside_example :
    (terminal_write (b'a' ∷ b'b' ∷ []) (at_cell 24 79)).buffer 2000 ≡ 2000
terminal_write_outside_example =
    terminal_write_outside (b'a' ∷ b'b' ∷ []) (at_cell 24 79) 2000 corner-IsOnScreen
      (inr ((omega arith, (omega arith, tt)), omega arith))
