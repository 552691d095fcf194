-- ===== src/Terminal.antt =====
-- monitor.c: the text screen. A character is its byte; the screen is a function from cell numbers, since the
-- code does not keep within the 80 * 25 cells.
pub mod Scroll
pub mod Screen
pub mod Hex
use tinu_os.Prelude.{
  ℕ, zero, suc, ◌+◌, ◌-◌, ◌*◌, ◌/◌, ◌^◌, bit_and, bit_or, Bool, true, false, ◌&&◌, List, [], ◌∷◌,
  leb, ◌==◌, if◌then◌else◌, u8, u16, u32,
}
use tinu_os.Ports.{Trace, outb}

abbrev pub vga_width : ℕ
vga_width = 80

abbrev pub vga_height : ℕ
vga_height = 25

abbrev pub light_green : ℕ
light_green = 10

abbrev pub black : ℕ
black = 0

abbrev pub Cells : Type 0
Cells = ℕ → ℕ

-- The static variables, with the trace of the ports.
pub record Terminal : Type 0 where
  pub row : ℕ
  pub column : ℕ
  pub attrib : ℕ
  pub buffer : Cells
  pub trace : Trace

unfoldable pub vga_entry_color : ℕ → ℕ → ℕ
vga_entry_color fg bg = u8 (bit_or fg (bg * 2 ^ 4))

unfoldable pub vga_entry : ℕ → ℕ → ℕ
vga_entry uc color = u16 (bit_or (u8 uc) (u16 (u8 color * 2 ^ 8)))

abbrev pub update : Cells → ℕ → ℕ → Cells
update b i v j = if j == i then v else b j

unfoldable pub move_cursor : Terminal → Terminal
move_cursor t =
    let location = u16 (t.row * vga_width + t.column) in
    record t {
      trace =
          outb location 0x3D5
            (outb 15 0x3D4 (outb (location / 2 ^ 8) 0x3D5 (outb 14 0x3D4 t.trace)));
    }

-- `for (…; i < …; i++) terminal_buffer[i] = terminal_buffer[i+80];`, with the rounds left.
unfoldable pub copy_up : ℕ → ℕ → Cells → Cells
copy_up zero i b = b
copy_up (suc left) i b = copy_up left (i + 1) (update b i (b (i + 80)))

unfoldable pub fill : ℕ → ℕ → ℕ → Cells → Cells
fill zero i v b = b
fill (suc left) i v b = fill left (i + 1) v (update b i v)

unfoldable pub scroll : Terminal → Terminal
scroll t =
    let attrib = vga_entry_color light_green black in
    let t = record t { attrib = attrib } in
    let blank = vga_entry 0x20 attrib in
    if leb vga_height t.row
    then record t { buffer = fill 80 (24 * 80) blank (copy_up (24 * 80) 0 t.buffer); row = 24 }
    else t

-- The two loops of `terminal_initialize` visit the cells from 0 on, row by row.
unfoldable pub terminal_initialize : Terminal → Terminal
terminal_initialize t =
    let attrib = vga_entry_color light_green black in
    record t {
      row = 0;
      column = 0;
      attrib = attrib;
      buffer = fill (vga_height * vga_width) 0 (vga_entry 0x20 attrib) t.buffer;
    }

unfoldable pub terminal_putentryat : ℕ → ℕ → ℕ → ℕ → Terminal → Terminal
terminal_putentryat c color x y t = record t {
  buffer = update t.buffer (y * vga_width + x) (vga_entry c color);
}

unfoldable pub terminal_setcolor : ℕ → Terminal → Terminal
terminal_setcolor color t = record t { attrib = color }

-- The first `if` of `terminal_putchar`.
unfoldable pub control : ℕ → Terminal → Terminal
control c t =
    if c == 0x08
    then (if t.row == 0 then t else record t { row = t.row - 1 })
    else if c == b'\r'
    then record t { row = 0 }
    else if c == b'\n'
    then record t { column = 0; row = u32 (t.row + 1) }
    else t

-- `if (terminal_row >= 80) …`
unfoldable pub past_limit : Terminal → Terminal
past_limit t = if leb 80 t.row then record t { column = 0; row = u32 (t.row + 1) } else t

-- `if (++terminal_column == VGA_WIDTH) …`
unfoldable pub advance : Terminal → Terminal
advance t =
    let column = u32 (t.column + 1) in
    let row = u32 (t.row + 1) in
    if column == vga_width
    then record t { column = 0; row = if row == vga_height then u32 (row + 1) else row }
    else record t { column = column }

-- What `terminal_putchar` does before it moves the cursor.
unfoldable pub place : ℕ → Terminal → Terminal
unfolding control past_limit advance terminal_putentryat
place c t =
    let t = past_limit (control c t) in advance (terminal_putentryat c t.attrib t.column t.row t)

unfoldable pub terminal_putchar : ℕ → Terminal → Terminal
terminal_putchar c t = scroll (move_cursor (place c t))

unfoldable pub terminal_write : List ℕ → Terminal → Terminal
terminal_write [] t = t
terminal_write (c ∷ cs) t = terminal_write cs (terminal_putchar c t)

-- A hexadecimal digit as a character.
unfoldable pub hex_char : ℕ → ℕ
hex_char d = if leb 0xA d then d - 0xA + b'a' else d + b'0'

-- `for (i = 28; i > 0; i -= 4)`, where `i` is four times the rounds left.
unfoldable pub hex_loop : ℕ → ℕ → Bool → Terminal → Terminal
hex_loop zero n no_zeroes t = t
hex_loop (suc left) n no_zeroes t =
    let tmp = bit_and (n / 2 ^ (4 * suc left)) 0xF in
    let skipped = hex_loop left n no_zeroes t in
    let written = hex_loop left n false (terminal_putchar (hex_char tmp) t) in
    if tmp == 0 && no_zeroes then skipped else written

unfoldable pub terminal_write_hex : ℕ → Terminal → Terminal
terminal_write_hex n t = terminal_putchar (hex_char (bit_and n 0xF)) (hex_loop 7 n true t)
