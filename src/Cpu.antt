-- ===== src/Cpu.antt =====
-- cpu.c: whether the processor will do. `none` is a loop that has not ended within its rounds, or a text that goes
-- past the end of a buffer.
pub mod Names
pub mod Complaint
pub mod Sent
use tinu_os.Prelude.{
  ℕ, ◌+◌, ◌^◌, Bool, Option, none, some, List, [], ◌∷◌, ltb, ◌==◌, if◌then◌else◌, u32, ◌>>=◌,
}
use tinu_os.Ports.{Device}
use tinu_os.Bios.{Firmware}
use tinu_os.Printk.{Buffer}
use tinu_os.Printf.{c_text, within, sprintf, printf}
use tinu_os.Tty.{Tty}

-- "x86-64"
abbrev pub x86_64 : List ℕ
x86_64 = b'x' ∷ b'8' ∷ b'6' ∷ b'-' ∷ b'6' ∷ b'4' ∷ []

-- "i%d86"
abbrev pub name_format : List ℕ
name_format = b'i' ∷ b'%' ∷ b'd' ∷ b'8' ∷ b'6' ∷ []

abbrev pub intel_level : ℕ → ℕ
intel_level level = if level == 15 then 6 else level

-- The name, and what the static `buf` of six bytes holds then.
unfoldable pub cpu_name : ℕ → ℕ → Buffer → Option (List ℕ × Buffer)
cpu_name fuel level buf =
    let named =
      sprintf (λ _. intel_level level) (λ _. []) fuel buf name_format >>= within 6 >>= λ (n, b).
      c_text fuel b 0 >>= λ cs. some (cs, b) in
    if level == 64 then some (x86_64, buf) else named

-- "This kernel requires an %s CPU, "
abbrev pub requires : List ℕ
requires =
    b'T' ∷ b'h' ∷ b'i' ∷ b's' ∷ b' ' ∷ b'k' ∷ b'e' ∷ b'r' ∷ b'n' ∷ b'e' ∷ b'l' ∷ b' ' ∷ b'r' ∷ b'e'
    ∷ b'q' ∷ b'u' ∷ b'i' ∷ b'r' ∷ b'e' ∷ b's' ∷ b' ' ∷ b'a' ∷ b'n' ∷ b' ' ∷ b'%' ∷ b's' ∷ b' '
    ∷ b'C' ∷ b'P' ∷ b'U' ∷ b',' ∷ b' ' ∷ []

-- "but only detected an %s CPU.\n"
abbrev pub detected : List ℕ
detected =
    b'b' ∷ b'u' ∷ b't' ∷ b' ' ∷ b'o' ∷ b'n' ∷ b'l' ∷ b'y' ∷ b' ' ∷ b'd' ∷ b'e' ∷ b't' ∷ b'e' ∷ b'c'
    ∷ b't' ∷ b'e' ∷ b'd' ∷ b' ' ∷ b'a' ∷ b'n' ∷ b' ' ∷ b'%' ∷ b's' ∷ b' ' ∷ b'C' ∷ b'P' ∷ b'U'
    ∷ b'.' ∷ b'\n' ∷ []

-- `printf(fmt, cpu_name(level))`: the pointer is to the name. `stack` is what the buffer of `printf` holds.
unfoldable pub print_name :
    Firmware Unit → Device → ℕ → Buffer → List ℕ → ℕ → Buffer × Tty → Option (Buffer × Tty)
unfolding cpu_name
print_name fw device fuel stack fmt level (buf, s) = cpu_name fuel level buf >>= λ (name, buf).
    printf fw device (λ _. 0) (λ _. name) fuel stack fmt s >>= λ (n, s). some (buf, s)

-- `cpu_level < req_level`, for the bits of two `int`s.
unfoldable pub less_int : ℕ → ℕ → Bool
less_int a b = ltb (u32 (a + 2 ^ 31)) (u32 (b + 2 ^ 31))

-- `-1`.
abbrev pub too_old : ℕ
too_old = 0xffff_ffff

-- What is returned, if anything is, with the levels that `do_intel` has found.
unfoldable pub validate_cpu :
    Firmware Unit → Device → ℕ → Buffer → ℕ → ℕ → Buffer × Tty → Option (Option ℕ × Buffer × Tty)
unfolding print_name less_int
validate_cpu fw device fuel stack cpu_level req_level s =
    let complain =
      print_name fw device fuel stack requires req_level s
      >>= print_name fw device fuel stack detected cpu_level
      >>= λ (buf, s). some (some too_old, buf, s) in
    let (buf, tty) = s in if less_int cpu_level req_level then complain else some (none, buf, tty)
