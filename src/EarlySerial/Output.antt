-- ===== src/EarlySerial/Output.antt =====
-- What serial_print of devices/early_serial_printk.c writes.
use tinu_os.Prelude.{
  ℕ, suc, ◌+◌, ◌<◌, bit_and, ◌≡◌, refl, sym, ap, ◌∙◌, ◌≢◌, false, some, List, [], ◌∷◌, ◌++◌, map,
  reverse, append_assoc, arith, leb, ◌==◌, if◌then◌else◌, u8, u16, ◌>>=◌,
}
use mathlib.Core.List.{reverse-append}
use tinu_os.Texts.{AllBytes}
use tinu_os.Ports.{Trace, Event, input, output, Device, outb, inb}
use tinu_os.EarlySerial.{early_serial_putc, wait_ready, early_serial_write, serial_print}

-- The port accesses that write, the last one first.
abbrev pub outputs : Trace → Trace
outputs [] = []
outputs (input v p ∷ t) = outputs t
outputs (output v p ∷ t) = output v p ∷ outputs t

-- What is written for a character: the low byte of the port's number, to a port named by the character.
abbrev pub swapped : ℕ → Event
swapped c = output 0xf8 (if leb 0x80 c then c + 0xff00 else c)

early_serial_write_ready :
    (device : Device) (fuel c : ℕ) (t : Trace)
    → bit_and (u8 (device t 0x3f8)) 0x20 ≢ 0
    → c < 256
    → (t' : Trace) × (early_serial_write device (suc fuel) c t ≡ some t')
      × (outputs t' ≡ swapped c ∷ outputs t)
unfolding early_serial_write early_serial_putc wait_ready inb outb
early_serial_write_ready device fuel c t ready small =
    let done : (bit_and (u8 (device t 0x3f8)) 0x20 == 0) ≡ false = ground (arith, ready) in
    let port : ℕ = if leb 0x80 c then c + 0xff00 else c in
    (
      output 0xf8 (u16 port) ∷ input (u8 (device t 0x3f8)) 0x3f8 ∷ t,
      rw done refl,
      ap (λ (q : ℕ). output 0xf8 q ∷ outputs t) (ground arith),
    )

print_first :
    (device : Device) (fuel port c : ℕ) (cs : List ℕ) (t t' : Trace)
    → early_serial_write device fuel c t ≡ some t'
    → serial_print device fuel port (c ∷ cs) t ≡ serial_print device fuel port cs t'
unfolding serial_print
print_first device fuel port c cs t t' run = ap (λ r. r >>= serial_print device fuel port cs) run

-- On a port whose register 0x3f8 always answers with bit 5 set, serial_print ends, and for each byte of the text,
-- in order, it writes the value 0xf8 to a port that is named by the byte. Nothing else is written: outb has its
-- arguments in the other order.
pub serial_print-swapped :
    (device : Device) (fuel port : ℕ) (cs : List ℕ) (t : Trace)
    → ((h : Trace) → bit_and (u8 (device h 0x3f8)) 0x20 ≢ 0)
    → AllBytes cs
    → (t' : Trace) × (serial_print device (suc fuel) port cs t ≡ some t')
      × (outputs t' ≡ reverse (map swapped cs) ++ outputs t)
serial_print-swapped device fuel port [] t ready small = (t, unfold serial_print in refl, refl)
serial_print-swapped device fuel port (c ∷ cs) t ready small =
    let (t', run, first) = early_serial_write_ready device fuel c t (ready t) small.0 in
    let (t'', rest, all) = serial_print-swapped device fuel port cs t' ready small.1 in
    (
      t'',
      print_first device (suc fuel) port c cs t t' run ∙ rest,
      all
          ∙ ap (λ es. reverse (map swapped cs) ++ es) first
          ∙ sym (append_assoc (reverse (map swapped cs)) (swapped c ∷ []) (outputs t))
          ∙ ap (λ es. es ++ outputs t) (sym (reverse-append (swapped c ∷ []) (map swapped cs))),
    )
