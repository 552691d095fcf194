-- ===== src/Printk/Console.antt =====
-- printk.c: putchar, and kprintf up to the loops that clear the screen. What stands behind them in kprintf is not
-- valid C. `none` is a loop that has not ended within its rounds, or a text that goes past the end of `buf`.
pub mod Cleared
use tinu_os.Prelude.{
  ℕ, zero, suc, ◌+◌, ◌*◌, ◌/◌, ◌^◌, bit_or, Option, some, List, ◌==◌, if◌then◌else◌, u8, u16, u32,
  ◌>>=◌,
}
use tinu_os.Ports.{Trace, Device, outb}
use tinu_os.Printk.{Buffer, vasprintf}
use tinu_os.Printf.{c_text, within}
use tinu_os.EarlySerial.{io_base, serial_print}

-- The cells from `textmem` on, and what the ports have seen.
pub record Console : Type 0 where
  pub textmem : ℕ → ℕ
  pub trace : Trace

-- `*where = ch | attrib`, 16 bits wide.
unfoldable pub putchar : ℕ → ℕ → ℕ → ℕ → Console → Console
putchar ch x y attr s = record s {
  textmem = λ k. if k == x + y * 80 then u16 (bit_or (u8 ch) (u32 (attr * 2 ^ 8))) else s.textmem k;
}

-- `for (x=0; x<24; x++)`, with the rounds left.
unfoldable pub clear_row : ℕ → ℕ → ℕ → Console → Console
unfolding putchar
clear_row zero x y s = s
clear_row (suc left) x y s = clear_row left (x + 1) y (putchar b' ' x y 0x00 s)

-- `for (y=0; y<80; y++)`, with the rounds left.
unfoldable pub clear_rows : ℕ → ℕ → Console → Console
unfolding clear_row
clear_rows zero y s = s
clear_rows (suc left) y s = clear_rows left (y + 1) (clear_row 24 0 y s)

-- The four writes that move the cursor.
unfoldable pub hide_cursor : Trace → Trace
hide_cursor t =
    let temp : ℕ = 0xFFFF in
    let t = outb 0x0F 0x3D4 t in
    let t = outb temp 0x3D5 t in let t = outb 0x0E 0x3D4 t in outb (temp / 2 ^ 8) 0x3D5 t

-- `kprintf` down to the end of the `if (1)`.
unfoldable pub begin_kprintf :
    Device → (ℕ → ℕ) → (ℕ → List ℕ) → ℕ → Buffer → List ℕ → Console → Option Console
unfolding clear_rows hide_cursor
begin_kprintf device arg text_at fuel buf fmt s =
    vasprintf arg text_at fuel buf fmt >>= within 1024 >>= λ (out, b). c_text fuel b 0 >>= λ cs.
    serial_print device fuel io_base cs s.trace >>= λ t.
    some (clear_rows 80 0 (record s { trace = hide_cursor t }))
