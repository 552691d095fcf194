-- ===== src/Isrs.antt =====
-- io/isrs.c: interrupts reach their handlers. A handler is its address, and what it does to the
-- rest of the kernel is a parameter of the dispatcher.
pub mod Dispatch
use Prim.Native.String.{String}
use tinu_os.Prelude.{ℕ, List, [], ◌∷◌, leb, ◌==◌, if◌then◌else◌, get_or, set, u8}
use tinu_os.Ports.{Trace, outb}

-- What the two dispatchers do, in order of time: print, handle a page fault, call a handler.
pub data Action : Type 0 where
  print : String → Action
  print_number : ℕ → Action
  page_fault : Action
  call : (handler int_no : ℕ) → Action

-- `interrupt_descriptors`, with what the ports have seen.
pub record Isrs : Type 0 where
  pub interrupt_descriptors : List ℕ
  pub trace : Trace

unfoldable pub isr_handler : ℕ → List Action
isr_handler int_no =
    print "Recieved interrupt:"
    ∷ print_number int_no
    ∷ print "\n"
    ∷ (if int_no == 14 then page_fault ∷ [] else [])

-- The acknowledgement at the start of `irq_handler`.
unfoldable pub end_of_interrupt : ℕ → Trace → Trace
end_of_interrupt int_no t = outb 0x20 0x20 (if leb 40 int_no then outb 0x20 0xA0 t else t)

unfoldable pub irq_handler : ℕ → Isrs → List Action × Isrs
irq_handler int_no s =
    let s = record s { trace = end_of_interrupt int_no s.trace } in
    let handler = get_or s.interrupt_descriptors int_no 0 in
    (if handler == 0 then [] else call handler int_no ∷ [], s)

-- `n` is a `u8`.
unfoldable pub register_interrupt_handler : ℕ → ℕ → Isrs → Isrs
register_interrupt_handler n handler s = record s {
  interrupt_descriptors = set s.interrupt_descriptors (u8 n) handler;
}

unfoldable pub unregister_interrupt_handler : ℕ → Isrs → Isrs
unregister_interrupt_handler n s = record s {
  interrupt_descriptors = set s.interrupt_descriptors (u8 n) 0;
}
