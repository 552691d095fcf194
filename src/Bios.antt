-- ===== src/Bios.antt =====
-- intcall, the calls of the BIOS (include/boot.h, bioscall.S), and initregs of regs.c. The BIOS is not part of
-- the program: what it answers is a parameter, a function of all the calls so far.
use tinu_os.Prelude.{ℕ, ◌+◌, ◌*◌, ◌/◌, ◌^◌, bit_and, Bool, not, List, ◌∷◌, ◌==◌, u8, u16}

-- The registers of `struct biosregs` that the callers use. They name parts of a register by fields that the
-- structure does not have (`ax`, `ah`, `al`, `bx`, `di`); these are parts of the 32-bit ones here.
pub record Regs : Type 0 where
  pub ds : ℕ
  pub es : ℕ
  pub edi : ℕ
  pub esi : ℕ
  pub ebx : ℕ
  pub edx : ℕ
  pub ecx : ℕ
  pub eax : ℕ
  pub eflags : ℕ

-- The low 16 bits of a register, its second byte and its first.
unfoldable pub low16 : ℕ → ℕ
low16 r = u16 r

unfoldable pub high8 : ℕ → ℕ
high8 r = u8 (r / 2 ^ 8)

unfoldable pub low8 : ℕ → ℕ
low8 r = u8 r

unfoldable pub set_low16 : ℕ → ℕ → ℕ
set_low16 r v = r / 2 ^ 16 * 2 ^ 16 + u16 v

unfoldable pub set_high8 : ℕ → ℕ → ℕ
set_high8 r v = r / 2 ^ 16 * 2 ^ 16 + u8 v * 2 ^ 8 + u8 r

unfoldable pub set_low8 : ℕ → ℕ → ℕ
set_low8 r v = r / 2 ^ 8 * 2 ^ 8 + u8 v

-- The newest call comes first.
pub record Request : Type 0 where
  pub int_no : ℕ
  pub regs : Regs

-- What the BIOS leaves in the registers, and in the buffer that they point to. The flag X86_EFLAGS_CF stands in a
-- header that the repository lacks; the segment register is the machine's.
pub record Firmware (A : Type 0) : Type 0 where
  pub answer : List Request → Regs × A
  pub carry_flag : ℕ
  pub data_segment : ℕ

unfoldable pub initregs : {A : Type 0} → Firmware A → Regs
initregs fw = record {
  ds = fw.data_segment;
  es = fw.data_segment;
  edi = 0;
  esi = 0;
  ebx = 0;
  edx = 0;
  ecx = 0;
  eax = 0;
  eflags = 0;
}

unfoldable pub intcall :
    {A : Type 0} → Firmware A → ℕ → Regs → List Request → Regs × A × List Request
intcall fw int_no regs calls =
    let calls = record { int_no = int_no; regs = regs } ∷ calls in
    let (oregs, stored) = fw.answer calls in (oregs, stored, calls)

-- `oreg.eflags & X86_EFLAGS_CF`
unfoldable pub carry : {A : Type 0} → Firmware A → Regs → Bool
carry fw oreg = not (bit_and oreg.eflags fw.carry_flag == 0)
