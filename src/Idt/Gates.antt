-- ===== src/Idt/Gates.antt =====
-- What the processor reads out of the table of io/idt.c.
use tinu_os.Prelude.{
  ℕ, zero, suc, ◌+◌, ◌*◌, ◌/◌, ◌%◌, ◌^◌, ◌≤◌, ◌<◌, ◌≡◌, refl, sym, ap, ◌∙◌, inl, inr, ◌&&◌, some,
  List, arith, ltb, leb, ◌==◌, if◌then◌else◌, lt→ltb, le→ltb, ==→eq, Bool-cases, length, get_or,
  replicate, length-replicate, length-set, get_or-set_self, get_or-set_ne,
}
use tinu_os.Prelude.Bits.{bit_and_mask}
use mathlib.Core.Path.{ap₂, subst}
use tinu_os.Idt.{
  no_gates, no_handlers, IdtEntry, Idt, empty_gate, gate, set_idt, irq_remap, set_gates, set_irq,
  idt_flush, idt,
}

abbrev pub offset_of : IdtEntry → ℕ
offset_of e = e.offset_low + e.offset_high * 2 ^ 16

-- Present, for every privilege level, and a 32-bit interrupt gate.
pub record IsUserGate (offset : ℕ) (e : IdtEntry) : Type 0 where
  pub handler : offset_of e ≡ offset
  pub selector : e.selector ≡ 0x08
  pub present : e.flags / 2 ^ 7 ≡ 1
  pub privilege : e.flags / 2 ^ 5 % 4 ≡ 3
  pub kind : e.flags % 2 ^ 5 ≡ 0xE
  pub zero_byte : e.zero_byte ≡ 0

-- A gate gives back its handler's address; the `| 0x60` opens it to user mode.
gate-IsUserGate : (offset : ℕ) → offset < 2 ^ 32 → IsUserGate offset (gate offset 0x08 0x8E)
unfolding gate
gate-IsUserGate offset small = record {
  handler = omega (arith, bit_and_mask 16 offset, bit_and_mask 16 (offset / 2 ^ 16));
  selector = refl;
  present = refl;
  privilege = refl;
  kind = refl;
  zero_byte = refl;
}

set_idt_lem :
    (num offset selector flags : ℕ) (t : Idt) (j : ℕ)
    → num < length t.id
    → (get_or (set_idt num offset selector flags t).id j empty_gate
        ≡ (if j == num then gate offset selector flags else get_or t.id j empty_gate))
      × (length (set_idt num offset selector flags t).id ≡ length t.id)
unfolding set_idt
set_idt_lem num offset selector flags t j h = (
  elim (Bool-cases (j == num)) [
    | inl same ↦
        rw (same, ==→eq j num same)
          (get_or-set_self t.id num (gate offset selector flags) empty_gate h)
    | inr other ↦
        rw other (get_or-set_ne t.id num j (gate offset selector flags) empty_gate (ground arith))
  ],
  length-set t.id num (gate offset selector flags),
)

-- The calls write the gates in their range and leave the rest of the state alone.
set_gates_lem :
    (stub : ℕ → ℕ) (first left : ℕ) (t : Idt) (j : ℕ)
    → first + left ≤ length t.id
    → (get_or (set_gates stub first left t).id j empty_gate ≡ (
        if leb first j && ltb j (first + left)
        then gate (stub j) 0x08 0x8E
        else get_or t.id j empty_gate))
      × (length (set_gates stub first left t).id ≡ length t.id)
unfolding set_gates
set_gates_lem stub first zero t j h = ground arith
set_gates_lem stub first (suc left) t j h =
    let once = set_idt_lem first (stub first) 0x08 0x8E t j (omega arith) in
    let rest =
      set_gates_lem stub (first + 1) left (set_idt first (stub first) 0x08 0x8E t) j
        (omega (arith, once)) in
    (ground (arith, once, rest.0), rest.1 ∙ once.1)

set_gates_same :
    (stub : ℕ → ℕ) (first left : ℕ) (t : Idt)
    → ((set_gates stub first left t).limit ≡ t.limit)
      × ((set_gates stub first left t).base ≡ t.base)
      × ((set_gates stub first left t).trace ≡ t.trace)
unfolding set_gates set_idt
set_gates_same stub first zero t = (refl, refl, refl)
set_gates_same stub first (suc left) t =
    set_gates_same stub (first + 1) left (set_idt first (stub first) 0x08 0x8E t)

get_or-replicate : (n j : ℕ) → get_or (replicate n empty_gate) j empty_gate ≡ empty_gate
get_or-replicate zero j = refl
get_or-replicate (suc n) zero = refl
get_or-replicate (suc n) (suc j) = get_or-replicate n j

length-no_gates : length no_gates ≡ 256
unfolding no_gates
length-no_gates = length-replicate 256 empty_gate

get_or-no_gates : (j : ℕ) → get_or no_gates j empty_gate ≡ empty_gate
unfolding no_gates
get_or-no_gates j = get_or-replicate 256 j

set_irq_same :
    (stub : ℕ → ℕ) (t : Idt) → ((set_irq stub t).limit ≡ t.limit) × ((set_irq stub t).base ≡ t.base)
unfolding set_irq
set_irq_same stub t = ground (arith, set_gates_same stub 32 16 t)

-- The table with all its gates set.
filled :
    (stub : ℕ → ℕ) (t : Idt) (j : ℕ)
    → t.id ≡ no_gates
    → get_or (set_irq stub (set_gates stub 0 32 t)).id j empty_gate
      ≡ (if ltb j 48 then gate (stub j) 0x08 0x8E else empty_gate)
unfolding set_irq
filled stub t j e =
    let long : length t.id ≡ 256 = ap length e ∙ length-no_gates in
    let blank : get_or t.id j empty_gate ≡ empty_gate =
      ap (λ (xs : List IdtEntry). get_or xs j empty_gate) e ∙ get_or-no_gates j in
    let low = set_gates_lem stub 0 32 t j (omega (arith, long)) in
    let high = set_gates_lem stub 32 16 (set_gates stub 0 32 t) j (omega (arith, low.1, long)) in
    high.0 ∙ ground (arith, low.0, blank)

-- `idt` loads a table of 256 gates in which exactly the first 48 are set: gate `n` leads to the routine of
-- interrupt `n` in the kernel's code segment, and is present, an interrupt gate and open to user mode. All
-- the others are zero, and no handler is registered.
pub idt_lem :
    (stub : ℕ → ℕ) (t : Idt) (j : ℕ)
    → stub j < 2 ^ 32
    → ((idt stub t).loaded ≡ some (2047, t.id_address))
      × (j < 48 → IsUserGate (stub j) (get_or (idt stub t).id j empty_gate))
      × (48 ≤ j → get_or (idt stub t).id j empty_gate ≡ empty_gate)
      × ((idt stub t).interrupt_descriptors ≡ no_handlers)
unfolding idt idt_flush
idt_lem stub t j small =
    let start : Idt = record t {
      limit = 2047;
      base = t.id_address;
      id = no_gates;
      trace = irq_remap t.trace;
    } in
    let low = set_gates_same stub 0 32 start in
    let high = set_irq_same stub (set_gates stub 0 32 start) in
    let table = filled stub start j refl in
    (
      ap₂ (λ (l b : ℕ). some (l, b)) (high.0 ∙ low.0) (high.1 ∙ low.1),
      λ h.
          subst (IsUserGate (stub j)) (sym (table ∙ rw (lt→ltb j 48 h)))
            (gate-IsUserGate (stub j) small),
      λ h. table ∙ rw (le→ltb j 48 h),
      refl,
    )
