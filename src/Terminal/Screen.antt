-- ===== src/Terminal/Screen.antt =====
-- `terminal_putchar` of monitor.c: where the cursor goes and which cells are written.
use tinu_os.Prelude.{
  ℕ, ◌+◌, ◌-◌, ◌*◌, ◌≤◌, ◌<◌, ◌≡◌, refl, ◌∙◌, ◌≢◌, ◌⊎◌, inl, inr, List, [], ◌∷◌, ◌++◌, arith, ltb,
  leb, ◌==◌, if◌then◌else◌,
}
use tinu_os.Terminal.{Terminal, place, move_cursor, terminal_putchar, terminal_write, vga_entry}
use tinu_os.Terminal.Scroll.{scroll_lem, green, blank}

pub record IsOnScreen (t : Terminal) : Type 0 where
  pub row_in : t.row < 25
  pub column_in : t.column < 80

-- The row and column that a character is written to.
abbrev pub target_row : ℕ → ℕ → ℕ
target_row c row =
    if c == 0x08 then row - 1 else if c == b'\r' then 0 else if c == b'\n' then row + 1 else row

abbrev pub target_column : ℕ → ℕ → ℕ
target_column c column = if c == b'\n' then 0 else column

-- The row after the character, before any scrolling.
abbrev pub next_row : ℕ → Terminal → ℕ
next_row c t = if target_column c t.column == 79 then target_row c t.row + 1 else target_row c t.row

-- The cell that is written.
abbrev pub target : ℕ → Terminal → ℕ
target c t = target_row c t.row * 80 + target_column c t.column

-- The cells with the character in place, before any scrolling.
abbrev pub written : ℕ → Terminal → ℕ → ℕ
written c t j = if j == target c t then vga_entry c t.attrib else t.buffer j

place_lem :
    (c : ℕ) (t : Terminal) (j : ℕ)
    → IsOnScreen t
    → ((place c t).buffer j ≡ written c t j)
      × ((leb 25 (place c t).row ≡ leb 25 (next_row c t)))
      × ((if leb 25 (place c t).row then 24 else (place c t).row)
          ≡ (if leb 25 (next_row c t) then 24 else next_row c t))
      × ((place c t).column
          ≡ (if target_column c t.column == 79 then 0 else target_column c t.column + 1))
      × ((place c t).trace ≡ t.trace)
unfolding place
place_lem c t j on = (ground arith, ground arith, ground arith, ground arith, ground arith)

move_cursor_lem :
    (t : Terminal)
    → ((move_cursor t).buffer ≡ t.buffer)
      × ((move_cursor t).row ≡ t.row)
      × ((move_cursor t).column ≡ t.column)
unfolding move_cursor
move_cursor_lem t = (refl, refl, refl)

-- `terminal_putchar` from a cursor on the screen, for every character. First a backspace moves the cursor up one
-- row, if it is not in the first, and leaves its column; a return moves it to row 0, in the same column; and a
-- newline moves it to column 0 of the next row. Then the character is written to the cell of the cursor, control
-- characters included, and the cursor goes one column on, from the last column to the first of the next row. If
-- that is past the last row, the screen scrolls by one row and the cursor is in the last. Cells are changed by
-- nothing else. The colour is always reset.
pub terminal_putchar_lem :
    (c : ℕ) (t : Terminal) (j : ℕ)
    → IsOnScreen t
    → ((terminal_putchar c t).buffer j ≡ (
        if leb 25 (next_row c t)
        then (if ltb j 1920
            then written c t (j + 80)
            else if ltb j 2000
            then blank
            else written c t j)
        else written c t j))
      × ((terminal_putchar c t).row ≡ (if leb 25 (next_row c t) then 24 else next_row c t))
      × ((terminal_putchar c t).column
          ≡ (if target_column c t.column == 79 then 0 else target_column c t.column + 1))
      × ((terminal_putchar c t).attrib ≡ green)
unfolding terminal_putchar
terminal_putchar_lem c t j on =
    let p = place c t in
    let m = move_cursor p in
    let s = scroll_lem m j in
    let q = move_cursor_lem p in
    let l = place_lem c t j on in
    (
      ground (arith, s.0, q, l.0, l.1, place_lem c t (j + 80) on),
      ground (arith, s.1, q, l.2),
      s.2 ∙ q.2 ∙ l.3,
      s.3,
    )

-- Whatever the character, the cursor is on the screen afterwards.
pub terminal_putchar-IsOnScreen :
    (c : ℕ) (t : Terminal) → IsOnScreen t → IsOnScreen (terminal_putchar c t)
terminal_putchar-IsOnScreen c t on = ground (arith, terminal_putchar_lem c t 0 on)

-- When the cursor is on the screen, it is still there after any text.
pub terminal_write-IsOnScreen :
    (cs : List ℕ) (t : Terminal) → IsOnScreen t → IsOnScreen (terminal_write cs t)
unfolding terminal_write
terminal_write-IsOnScreen [] t on = on
terminal_write-IsOnScreen (c ∷ cs) t on =
    terminal_write-IsOnScreen cs (terminal_putchar c t) (terminal_putchar-IsOnScreen c t on)

terminal_putchar_outside :
    (c : ℕ) (t : Terminal) (j : ℕ)
    → IsOnScreen t
    → (2080 ≤ j) ⊎ ((c ≢ b'\n') × (2000 ≤ j))
    → (terminal_putchar c t).buffer j ≡ t.buffer j
terminal_putchar_outside c t j on far = (terminal_putchar_lem c t j on).0 ∙ ground arith

abbrev pub NoNewline : List ℕ → Type 0
NoNewline [] = Unit
NoNewline (c ∷ cs) = (c ≢ b'\n') × NoNewline cs

-- When the cursor is on the screen, no text changes a cell behind the 26th row of cells, of which the
-- screen shows 25, and a text without a newline changes none behind the screen.
pub terminal_write_outside :
    (cs : List ℕ) (t : Terminal) (j : ℕ)
    → IsOnScreen t
    → (2080 ≤ j) ⊎ (NoNewline cs × (2000 ≤ j))
    → (terminal_write cs t).buffer j ≡ t.buffer j
unfolding terminal_write
terminal_write_outside [] t j on far = refl
terminal_write_outside (c ∷ cs) t j on (inl far) =
    terminal_write_outside cs (terminal_putchar c t) j (terminal_putchar-IsOnScreen c t on)
      (inl far)
    ∙ terminal_putchar_outside c t j on (inl far)
terminal_write_outside (c ∷ cs) t j on (inr (plain, far)) =
    terminal_write_outside cs (terminal_putchar c t) j (terminal_putchar-IsOnScreen c t on)
      (inr (plain.1, far))
    ∙ terminal_putchar_outside c t j on (inr (plain.0, far))

-- When the cursor is on the screen, a newline leaves it in column 1, not 0, since the newline is
-- itself written at the start of the new row. On the last row of the screen that is the first cell
-- behind the screen.
pub newline_written :
    (t : Terminal)
    → IsOnScreen t
    → ((terminal_putchar b'\n' t).column ≡ 1)
      × (t.row ≡ 24 → (terminal_putchar b'\n' t).buffer 2000 ≡ vga_entry b'\n' t.attrib)
newline_written t on = (
  (terminal_putchar_lem b'\n' t 0 on).2,
  λ last. (terminal_putchar_lem b'\n' t 2000 on).0 ∙ ground arith,
)

pub terminal_write-append :
    (cs ds : List ℕ) (t : Terminal)
    → terminal_write (cs ++ ds) t ≡ terminal_write ds (terminal_write cs t)
unfolding terminal_write
terminal_write-append [] ds t = refl
terminal_write-append (c ∷ cs) ds t = terminal_write-append cs ds (terminal_putchar c t)
