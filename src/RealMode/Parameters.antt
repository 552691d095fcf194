-- ===== src/RealMode/Parameters.antt =====
-- What main.c leaves in the boot parameters and in `heap_end`.
use tinu_os.Prelude.{
  ℕ, ◌+◌, ◌-◌, ◌≤◌, bit_and, ◌≡◌, refl, ◌∙◌, ◌⊎◌, inl, inr, Bool, true, false, not, ◌&&◌, ◌∷◌,
  arith, ltb, leb, ◌==◌, if◌then◌else◌, Bool-cases, u8, u32,
}
use tinu_os.Memory.{Memory, store8}
use tinu_os.Memory.Copying.{memcpy_lem}
use tinu_os.Bios.{Request, initregs, intcall, low8, set_high8, set_low16}
use tinu_os.Bootparam.{sizeof, offset, setup_header, boot_params, kbd_status}
use tinu_os.Bootparam.Offsets.{sizes}
use tinu_os.Tty.{puts}
use tinu_os.RealMode.{
  Machine, Boot, can_use_heap, header_address, header_flags, header_heap_end, copy_boot_params,
  warning, init_heap, keyboard_init,
}

-- The `hdr` of the image does not begin below the one in `boot_params`, or ends before it.
abbrev pub HeadersApart : Machine → Type 0
HeadersApart m =
    (header_address m ≤ m.hdr_address) ⊎ (m.hdr_address + sizeof setup_header ≤ header_address m)

-- A byte of the `hdr` in `boot_params`, once it has been copied.
abbrev pub header_byte : Machine → Memory → ℕ → ℕ
header_byte m mem x =
    if ltb x (sizeof setup_header) then u8 (mem (m.hdr_address + x)) else mem (header_address m + x)

pub copy_boot_params_lem :
    (m : Machine) (s : Boot) (x : ℕ)
    → HeadersApart m
    → (copy_boot_params m s).mem (header_address m + x) ≡ header_byte m s.mem x
unfolding copy_boot_params
copy_boot_params_lem m s x apart =
    let a = header_address m in
    let e : a + x - a ≡ x = omega arith in
    memcpy_lem s.mem a m.hdr_address (sizeof setup_header) (a + x) apart ∙ rw e (ground arith)

-- The shift flags that the BIOS answers with, AH being 02h.
abbrev pub first_question : Machine → Request
first_question m =
    let ireg = initregs m.bios in
    record { int_no = 0x16; regs = record ireg { eax = set_high8 ireg.eax 0x02 } }

-- The repeat rate is set, AX being 0305h.
abbrev pub second_question : Machine → Request
second_question m =
    let ireg = initregs m.bios in
    record {
      int_no = 0x16;
      regs = record ireg { eax = set_low16 (set_high8 ireg.eax 0x02) 0x0305 };
    }

abbrev pub kbd_address : Machine → ℕ
kbd_address m = m.params_address + offset boot_params kbd_status

-- What `keyboard_init` asks, and what it keeps.
pub record Asked (m : Machine) (s s' : Boot) : Type 0 where
  pub calls : s'.tty.calls ≡ second_question m ∷ first_question m ∷ s.tty.calls
  pub status : s'.mem (kbd_address m) ≡ low8 (m.bios.answer (first_question m ∷ s.tty.calls)).0.eax
  pub others : (x : ℕ) → s'.mem (header_address m + x) ≡ s.mem (header_address m + x)

pub keyboard_init-Asked : (m : Machine) (s : Boot) → Asked m s (keyboard_init m s)
unfolding keyboard_init intcall store8 header_address low8
keyboard_init-Asked m s = record {
  calls = refl;
  status = ground arith;
  others = λ x. ground (arith, sizes);
}

-- The heap flag of the loader, in the byte that stands for `loadflags`.
abbrev pub may_use_heap : Machine → Memory → Bool
may_use_heap m mem = not (bit_and (header_flags m mem) can_use_heap == 0)

abbrev pub new_heap_end : Machine → Boot → ℕ
new_heap_end m s =
    if may_use_heap m s.mem then u32 (header_heap_end m s.mem + 0x200) else s.heap_end

-- `init_heap` sets `heap_end` from the header when the loader allows a heap, and never brings it below the
-- stack: it prints the warning just when the end of the heap is not above the end of the stack.
pub init_heap_lem :
    (m : Machine) (s : Boot)
    → init_heap m s ≡ record s {
      heap_end = new_heap_end m s;
      tty =
          if may_use_heap m s.mem && leb (new_heap_end m s) m.stack_end
          then puts m.bios m.device warning s.tty
          else s.tty;
    }
unfolding init_heap
init_heap_lem m s = elim (Bool-cases (bit_and (header_flags m s.mem) can_use_heap == 0)) [
  | inl no_heap ↦ rw no_heap refl
  | inr heap ↦ elim (Bool-cases (ltb m.stack_end (u32 (header_heap_end m s.mem + 0x200)))) [
    | inl above ↦
        let e : leb (u32 (header_heap_end m s.mem + 0x200)) m.stack_end ≡ false = ground arith in
        rw (heap, above, e) refl
    | inr below ↦
        let e : leb (u32 (header_heap_end m s.mem + 0x200)) m.stack_end ≡ true = ground arith in
        rw (heap, below, e) refl
  ]
]
