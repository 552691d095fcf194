-- ===== src/Ide/Errors.antt =====
-- The error codes of drivers/ide.c.
use tinu_os.Prelude.{
  ℕ, ◌+◌, ◌^◌, ◌≤◌, ◌<◌, ◌≡◌, refl, Bool, true, not, ◌||◌, ◌∷◌, arith, leb, ◌==◌, if◌then◌else◌,
  leb→le, u8, u16,
}
use tinu_os.Prelude.Bits.{holds_below, holds_below-at}
use tinu_os.Ports.{Device, inb, input}
use tinu_os.Ide.{
  Ide, text, place, error_code, error_messages, explain, ide_print_error, ide_read, control,
  read_port, port,
}

-- The code that `ide_print_error` gives for each bit of the error register, by its number.
abbrev pub code_of_bit : ℕ → ℕ
code_of_bit k =
    if k == 0
    then 7
    else if k == 1
    then 3
    else if k == 2
    then 20
    else if k == 3
    then 3
    else if k == 4
    then 21
    else if k == 5
    then 3
    else if k == 6
    then 22
    else 13

abbrev highest_first : ℕ → ℕ → Bool
highest_first k st =
    not (leb (2 ^ k) st) || (leb (2 ^ (k + 1)) st || error_code st == code_of_bit k)

abbrev all_codes : ℕ → Bool
all_codes k = holds_below 256 (highest_first k)

all_codes-true : holds_below 8 all_codes ≡ true
unfolding holds_below error_code
all_codes-true = refl

abbrev in_byte : ℕ → Bool
in_byte k = leb (2 ^ (k + 1)) 256

in_byte-true : holds_below 8 in_byte ≡ true
unfolding holds_below
in_byte-true = refl

error_code-highest :
    (k st : ℕ) → k < 8 → 2 ^ k ≤ st → st < 2 ^ (k + 1) → error_code st ≡ code_of_bit k
error_code-highest k st hk lo hi =
    let at_bit = holds_below-at 8 all_codes k all_codes-true hk in
    let small : st < 256 =
      omega (arith, leb→le (2 ^ (k + 1)) 256 (holds_below-at 8 in_byte k in_byte-true hk)) in
    ground (arith, holds_below-at 256 (highest_first k) st at_bit small)

-- For a drive that reported an error, `ide_print_error` reads the error register once, returns the code of the
-- highest bit that is set in it, and prints a line for each bit and one that names the drive.
pub ide_print_error-highest :
    (device : Device) (channel_of : ℕ → ℕ) (drive k : ℕ) (s : Ide)
    → let p = u16 ((s.channels (channel_of drive)).base + 1) in
      let st = u8 (device s.trace p) in
      k < 8
      → 2 ^ k ≤ st
      → st < 2 ^ (k + 1)
      → ide_print_error device channel_of drive 2 s ≡ (
        code_of_bit k,
        record s {
          trace = input st p ∷ s.trace;
          log = place drive ∷ error_messages st (text " IDE:" ∷ s.log);
        },
      )
unfolding ide_print_error explain ide_read control read_port port inb
ide_print_error-highest device channel_of drive k s hk lo hi =
    let p : ℕ = u16 ((s.channels (channel_of drive)).base + 1) in
    let once : u16 p ≡ p = omega arith in
    rw (once, error_code-highest k (u8 (device s.trace p)) hk lo hi) refl
