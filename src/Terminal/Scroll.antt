-- ===== src/Terminal/Scroll.antt =====
-- The copying loops of monitor.c, cell by cell.
use tinu_os.Prelude.{ℕ, zero, suc, ◌+◌, ◌*◌, ◌≡◌, ◌&&◌, arith, ltb, leb, if◌then◌else◌}
use tinu_os.Terminal.{
  update, Cells, Terminal, copy_up, fill, scroll, terminal_initialize, vga_entry, vga_entry_color,
}

pub copy_up_lem :
    (left i : ℕ) (b : Cells) (j : ℕ)
    → copy_up left i b j ≡ (if leb i j && ltb j (i + left) then b (j + 80) else b j)
unfolding copy_up
copy_up_lem zero i b j = ground arith
copy_up_lem (suc left) i b j = ground (arith, copy_up_lem left (i + 1) (update b i (b (i + 80))) j)

pub fill_lem :
    (left i v : ℕ) (b : Cells) (j : ℕ)
    → fill left i v b j ≡ (if leb i j && ltb j (i + left) then v else b j)
unfolding fill
fill_lem zero i v b j = ground arith
fill_lem (suc left) i v b j = ground (arith, fill_lem left (i + 1) v (update b i v) j)

abbrev pub green : ℕ
green = 10

abbrev pub blank : ℕ
blank = 0x0A20

-- Past the last row, `scroll` moves each of the upper 24 rows up by one, blanks the last row, leaves every
-- cell behind the screen alone and puts the cursor on the last row. On the screen it only sets the colour.
pub scroll_lem :
    (t : Terminal) (j : ℕ)
    → ((scroll t).buffer j ≡ (
        if leb 25 t.row
        then (if ltb j 1920 then t.buffer (j + 80) else if ltb j 2000 then blank else t.buffer j)
        else t.buffer j))
      × ((scroll t).row ≡ (if leb 25 t.row then 24 else t.row))
      × ((scroll t).column ≡ t.column)
      × ((scroll t).attrib ≡ green)
      × ((scroll t).trace ≡ t.trace)
unfolding scroll vga_entry vga_entry_color
scroll_lem t j = ground (
  arith,
  copy_up_lem (24 * 80) 0 t.buffer j,
  fill_lem 80 (24 * 80) blank (copy_up (24 * 80) 0 t.buffer) j,
)

-- `terminal_initialize` blanks exactly the 2000 cells of the screen and puts the cursor in the corner.
pub terminal_initialize_lem :
    (t : Terminal) (j : ℕ)
    → ((terminal_initialize t).buffer j ≡ (if ltb j 2000 then blank else t.buffer j))
      × ((terminal_initialize t).row ≡ 0)
      × ((terminal_initialize t).column ≡ 0)
      × ((terminal_initialize t).attrib ≡ green)
unfolding terminal_initialize vga_entry vga_entry_color
terminal_initialize_lem t j = ground (arith, fill_lem 2000 0 blank t.buffer j)
