-- ===== src/Isrs/Dispatch.antt =====
-- Which handler an interrupt reaches, and which controllers are told.
use tinu_os.Prelude.{
  ℕ, ◌<◌, ◌≡◌, ◌≢◌, inl, inr, List, [], ◌∷◌, arith, leb, ◌==◌, if◌then◌else◌, ==→eq, Bool-cases,
  length, get_or, set, get_or-set_self, get_or-set_ne, u8,
}
use tinu_os.Ports.{output, outb}
use tinu_os.Isrs.{
  Isrs, Action, call, end_of_interrupt, irq_handler, register_interrupt_handler,
  unregister_interrupt_handler,
}

-- What an interrupt calls.
abbrev pub calls : ℕ → Isrs → List Action
calls int_no s = (irq_handler int_no s).0

registered :
    (n handler : ℕ) (s : Isrs) (m : ℕ)
    → n < length s.interrupt_descriptors
    → get_or (set s.interrupt_descriptors n handler) m 0
      ≡ (if m == n then handler else get_or s.interrupt_descriptors m 0)
registered n handler s m h = elim (Bool-cases (m == n)) [
  | inl same ↦ rw (same, ==→eq m n same) (get_or-set_self s.interrupt_descriptors n handler 0 h)
  | inr other ↦ rw other (get_or-set_ne s.interrupt_descriptors n m handler 0 (ground arith))
]

-- With a table of 256 handlers, an interrupt calls the handler, other than NULL, that was registered
-- for it last; when a handler is registered for another interrupt, it still calls what it called
-- before.
pub irq_handler-register :
    (n m handler : ℕ) (s : Isrs)
    → length s.interrupt_descriptors ≡ 256
    → n < 256
    → handler ≢ 0
    → calls m (register_interrupt_handler n handler s)
      ≡ (if m == n then call handler m ∷ [] else calls m s)
unfolding irq_handler register_interrupt_handler
irq_handler-register n m handler s long small some_handler =
    let byte : u8 n ≡ n = omega arith in
    rw byte (ground (arith, registered n handler s m (omega arith)))

-- With a table of 256 handlers, after a handler is taken out its interrupt calls nothing, and every
-- other one calls what it called before.
pub irq_handler-unregister :
    (n m : ℕ) (s : Isrs)
    → length s.interrupt_descriptors ≡ 256
    → n < 256
    → calls m (unregister_interrupt_handler n s) ≡ (if m == n then [] else calls m s)
unfolding irq_handler unregister_interrupt_handler
irq_handler-unregister n m s long small =
    let byte : u8 n ≡ n = omega arith in rw byte (ground (arith, registered n 0 s m (omega arith)))

-- An interrupt of the second controller, 40 and above, is acknowledged to both controllers, the second
-- one first; one of the first controller to that alone. The table of handlers is left alone.
pub irq_handler_acknowledges :
    (int_no : ℕ) (s : Isrs)
    → ((irq_handler int_no s).1.trace ≡ (
        if leb 40 int_no
        then output 0x20 0x20 ∷ output 0x20 0xA0 ∷ s.trace
        else output 0x20 0x20 ∷ s.trace))
      × ((irq_handler int_no s).1.interrupt_descriptors ≡ s.interrupt_descriptors)
unfolding irq_handler end_of_interrupt outb
irq_handler_acknowledges int_no s = ground arith
