-- ===== src/Idt.antt =====
-- io/idt.c and io/irq.c: the interrupt descriptor table and the remapping of the interrupt controllers.
pub mod Gates
use tinu_os.Prelude.{
  ℕ, zero, suc, ◌+◌, ◌-◌, ◌*◌, ◌/◌, ◌^◌, bit_and, bit_or, Option, some, List, set, replicate, u8,
  u16,
}
use tinu_os.Ports.{Trace, outb}

-- `struct idt_entry`.
pub record IdtEntry : Type 0 where
  pub offset_low : ℕ
  pub selector : ℕ
  pub zero_byte : ℕ
  pub flags : ℕ
  pub offset_high : ℕ

abbrev pub empty_gate : IdtEntry
empty_gate = record { offset_low = 0; selector = 0; zero_byte = 0; flags = 0; offset_high = 0 }

-- `id` and `idtp`, with the address of `id`, the handlers of `interrupt_descriptors`, what the ports have
-- seen and the pointer that was last loaded by `idt_flush`.
pub record Idt : Type 0 where
  pub id : List IdtEntry
  pub id_address : ℕ
  pub limit : ℕ
  pub base : ℕ
  pub interrupt_descriptors : List ℕ
  pub trace : Trace
  pub loaded : Option (ℕ × ℕ)

unfoldable pub gate : ℕ → ℕ → ℕ → IdtEntry
gate offset selector flags = record {
  offset_low = u16 (bit_and offset 0xFFFF);
  offset_high = u16 (bit_and (offset / 2 ^ 16) 0xFFFF);
  selector = selector;
  zero_byte = 0;
  flags = u8 (bit_or flags 0x60);
}

unfoldable pub set_idt : ℕ → ℕ → ℕ → ℕ → Idt → Idt
set_idt num offset selector flags t = record t { id = set t.id num (gate offset selector flags) }

unfoldable pub irq_remap : Trace → Trace
irq_remap t =
    let t = outb 0x11 0xA0 (outb 0x11 0x20 t) in
    let t = outb 0x28 0xA1 (outb 0x20 0x21 t) in
    let t = outb 0x02 0xA1 (outb 0x04 0x21 t) in
    let t = outb 0x01 0xA1 (outb 0x01 0x21 t) in outb 0x00 0xA1 (outb 0x00 0x21 t)

-- The calls `set_idt(num, …, 0x08, 0x8E)` for `num` from `first` on: `stub` gives the address of the
-- assembly routine, isr0 to isr31 for 0 to 31 and irq0 to irq15 for 32 to 47.
unfoldable pub set_gates : (ℕ → ℕ) → ℕ → ℕ → Idt → Idt
set_gates stub first zero t = t
set_gates stub first (suc left) t =
    set_gates stub (first + 1) left (set_idt first (stub first) 0x08 0x8E t)

unfoldable pub set_irq : (ℕ → ℕ) → Idt → Idt
set_irq stub t = set_gates stub 32 16 t

-- `lidt` loads the pointer that lies at the address.
unfoldable pub idt_flush : Idt → Idt
idt_flush t = record t { loaded = some (t.limit, t.base) }

-- What `memset` leaves of the two tables.
unfoldable pub no_gates : List IdtEntry
no_gates = replicate 256 empty_gate

unfoldable pub no_handlers : List ℕ
no_handlers = replicate 256 0

unfoldable pub idt : (ℕ → ℕ) → Idt → Idt
idt stub t =
    let t = record t { limit = 8 * 256 - 1; base = t.id_address } in
    let t = record t { id = no_gates } in
    let t = record t { trace = irq_remap t.trace } in
    let t = set_gates stub 0 32 t in
    let t = set_irq stub t in
    let t = idt_flush t in record t { interrupt_descriptors = no_handlers }
