-- ===== src/EarlySerial.antt =====
-- devices/early_serial_printk.c: the serial port before the drivers.
-- `none` is a wait that has not ended after so many rounds.
pub mod Output
use tinu_os.Prelude.{
  ℕ, zero, suc, ◌+◌, bit_and, Option, none, some, List, [], ◌∷◌, leb, ◌==◌, if◌then◌else◌, ◌>>=◌,
}
use tinu_os.Ports.{Trace, Device, outb, inb}

abbrev pub io_base : ℕ
io_base = 0x3f8

abbrev pub ier_reg : ℕ
ier_reg = io_base + 1

abbrev pub ls_reg : ℕ
ls_reg = io_base + 0

abbrev pub ms_reg : ℕ
ms_reg = io_base + 1

abbrev pub iir_reg : ℕ
iir_reg = io_base + 2

abbrev pub lcr_reg : ℕ
lcr_reg = io_base + 3

abbrev pub mcr_reg : ℕ
mcr_reg = io_base + 4

unfoldable pub serial_enable : Trace → Trace
serial_enable t =
    let t = outb 0x00 ier_reg t in
    let t = outb 0x80 lcr_reg t in
    let t = outb 0x03 ls_reg t in
    let t = outb 0x00 ms_reg t in
    let t = outb 0x03 lcr_reg t in let t = outb 0xC7 iir_reg t in outb 0x0B mcr_reg t

unfoldable pub console_init : Trace → Trace
unfolding serial_enable
console_init t = serial_enable t

unfoldable pub early_serial_putc : Device → Trace → ℕ × Trace
early_serial_putc device t = let (v, t) = inb device ls_reg t in (bit_and v 0x20, t)

-- `while (early_serial_putc() == 0);`
unfoldable pub wait_ready : Device → ℕ → Trace → Option Trace
unfolding early_serial_putc
wait_ready device zero t = none
wait_ready device (suc fuel) t =
    let (ready, t) = early_serial_putc device t in
    let rest = wait_ready device fuel t in if ready == 0 then rest else some t

-- `outb(IO_BASE, ch)`: the port is the value, and the character, sign-extended, is the port.
unfoldable pub write_swapped : ℕ → Option Trace → Option Trace
write_swapped ch none = none
write_swapped ch (some t) = some (outb io_base (if leb 0x80 ch then ch + 0xff00 else ch) t)

unfoldable pub early_serial_write : Device → ℕ → ℕ → Trace → Option Trace
unfolding wait_ready write_swapped
early_serial_write device fuel ch t = write_swapped ch (wait_ready device fuel t)

-- The loop over the text. `port` is not used.
unfoldable pub serial_print : Device → ℕ → ℕ → List ℕ → Trace → Option Trace
unfolding early_serial_write
serial_print device fuel port [] t = some t
serial_print device fuel port (c ∷ cs) t =
    early_serial_write device fuel c t >>= serial_print device fuel port cs
