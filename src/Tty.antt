-- ===== src/Tty.antt =====
-- devices/tty.c: characters for the screen, through INT 10h of the BIOS, and for the serial port.
pub mod Sending
pub mod Sink
use tinu_os.Prelude.{ℕ, zero, suc, ◌+◌, bit_and, List, [], ◌∷◌, ◌==◌, if◌then◌else◌}
use tinu_os.Ports.{Trace, Device, outb, inb}
use tinu_os.Bios.{Request, Firmware, initregs, intcall, set_low16, set_high8, set_low8}

abbrev pub xmtrdy : ℕ
xmtrdy = 0x20

abbrev pub txr : ℕ
txr = 0

abbrev pub lsr : ℕ
lsr = 5

-- What the ports have seen, and the calls of the BIOS.
pub record Tty : Type 0 where
  pub trace : Trace
  pub calls : List Request

-- `while ((inb(0x3f8 + LSR) & XMTRDY) == 0 && --timeout)`, where the timeout is one more than the rounds left.
unfoldable pub wait_ready : Device → ℕ → Trace → Trace
wait_ready device zero t = (inb device (0x3f8 + lsr) t).1
wait_ready device (suc left) t =
    let (status, t) = inb device (0x3f8 + lsr) t in
    let rest = wait_ready device left t in if bit_and status xmtrdy == 0 then rest else t

unfoldable pub serial_putchar : Device → ℕ → Trace → Trace
unfolding wait_ready
serial_putchar device ch t = outb ch (0x3f8 + txr) (wait_ready device 0xfffe t)

unfoldable pub biosputchar : Firmware Unit → ℕ → List Request → List Request
biosputchar fw ch calls =
    let regs = initregs fw in
    let regs = record regs {
      ebx = set_low16 regs.ebx 0x0007;
      ecx = set_low16 regs.ecx 0x0001;
      eax = set_low8 (set_high8 regs.eax 0x0e) ch;
    } in
    (intcall fw 0x10 regs calls).2

-- The last two statements of `putchar`.
unfoldable pub put_both : Firmware Unit → Device → ℕ → Tty → Tty
unfolding serial_putchar biosputchar
put_both fw device ch s = record {
  trace = serial_putchar device ch s.trace;
  calls = biosputchar fw ch s.calls;
}

-- `putchar('\r')` is not a newline itself, so it goes no deeper.
unfoldable pub putchar : Firmware Unit → Device → ℕ → Tty → Tty
unfolding put_both
putchar fw device ch s =
    put_both fw device ch (if ch == b'\n' then put_both fw device b'\r' s else s)

unfoldable pub puts : Firmware Unit → Device → List ℕ → Tty → Tty
unfolding putchar
puts fw device [] s = s
puts fw device (c ∷ cs) s = puts fw device cs (putchar fw device c s)
