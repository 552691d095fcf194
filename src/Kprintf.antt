-- ===== src/Kprintf.antt =====
-- The formatted output of monitor.c: itoa, which prints a number into a buffer, and kprintf.
-- `none` is a loop that has not ended within its rounds, or a format that is read past its end.
pub mod LowDigits
pub mod Turning
pub mod Number
pub mod Rendering
use tinu_os.Prelude.{
  ℕ, zero, suc, ◌+◌, ◌-◌, ◌/◌, ◌%◌, ◌^◌, Bool, ◌&&◌, ◌||◌, Option, none, some, List, [], ◌∷◌, ltb,
  leb, ◌==◌, if◌then◌else◌, u8, u32, sub32, ◌>>=◌,
}
use tinu_os.Digits.{digit_char}
use tinu_os.Terminal.{Terminal, Cells, update, terminal_putchar, terminal_write}

-- `do … while (ud /= divisor)`, which writes the last digit first at `p`.
unfoldable pub write_digits : ℕ → Cells → ℕ → ℕ → ℕ → Option (Cells × ℕ)
write_digits zero b p ud divisor = none
write_digits (suc fuel) b p ud divisor =
    let b' = update b p (digit_char (ud % divisor)) in
    let rest = write_digits fuel b' (p + 1) (ud / divisor) divisor in
    if ud / divisor == 0 then some (b', p + 1) else rest

-- `while (p1 < p2)`
unfoldable pub swap_ends : ℕ → Cells → ℕ → ℕ → Option Cells
swap_ends zero b p1 p2 = none
swap_ends (suc fuel) b p1 p2 =
    let rest = swap_ends fuel (update (update b p1 (b p2)) p2 (b p1)) (p1 + 1) (p2 - 1) in
    if ltb p1 p2 then rest else some b

-- `base == 'd' && d < 0`, for the bits of an `int`.
abbrev pub is_negative : ℕ → ℕ → Bool
is_negative base d = base == b'd' && leb (2 ^ 31) d

-- `ud`
abbrev pub magnitude : ℕ → ℕ → ℕ
magnitude base d = if is_negative base d then sub32 0 d else d

abbrev pub divisor_of : ℕ → ℕ
divisor_of base = if base == b'x' then 16 else 10

-- The buffer starts at index 0, and `start` is where the digits do.
unfoldable pub itoa : ℕ → Cells → ℕ → ℕ → Option Cells
unfolding write_digits swap_ends
itoa fuel b base d =
    let start : ℕ = if is_negative base d then 1 else 0 in
    let b' = if is_negative base d then update b 0 b'-' else b in
    write_digits fuel b' start (magnitude base d) (divisor_of base) >>= λ (b'', p).
    swap_ends fuel (update b'' p 0) start (p - 1)

-- `while (*p) terminal_putchar (*p++);` for a text in a buffer.
unfoldable pub print_text : ℕ → Cells → ℕ → Terminal → Option Terminal
print_text zero b p t = none
print_text (suc fuel) b p t =
    let rest = print_text fuel b (p + 1) (terminal_putchar (b p) t) in
    if b p == 0 then some t else rest

-- What kprintf is called with: the words behind the format, the text that a pointer stands for, and what the
-- buffer for numbers holds before it is written.
pub record Call : Type 0 where
  pub arg : ℕ → ℕ
  pub text_at : ℕ → List ℕ
  pub buf : Cells

abbrev pub null_text : List ℕ
null_text = b'(' ∷ b'n' ∷ b'u' ∷ b'l' ∷ b'l' ∷ b')' ∷ []

-- The `switch`: the character behind a `%`, and the argument. A number has a sign and a zero besides its digits.
unfoldable pub conversion : ℕ → Call → ℕ → ℕ → Terminal → Option Terminal
conversion fuel k c word t =
    if c == b'd' || (c == b'u' || c == b'x')
    then itoa fuel k.buf c (u32 word) >>= (λ b. print_text (fuel + 2) b 0 t)
    else if c == b's'
    then some (terminal_write (if word == 0 then null_text else k.text_at word) t)
    else some (terminal_putchar (u8 word) t)

-- The loop over the format, at the argument number `n`.
unfoldable pub kprintf_from : ℕ → Call → List ℕ → ℕ → Terminal → Option Terminal
kprintf_from fuel k [] n t = some t
kprintf_from fuel k (c ∷ []) n t = if c == b'%' then none else some (terminal_putchar c t)
kprintf_from fuel k (c ∷ d ∷ cs) n t =
    let plain = kprintf_from fuel k (d ∷ cs) n (terminal_putchar c t) in
    let converted = conversion fuel k d (k.arg n) t >>= kprintf_from fuel k cs (n + 1) in
    if c == b'%' then converted else plain

unfoldable pub kprintf : ℕ → Call → List ℕ → Terminal → Option Terminal
unfolding kprintf_from conversion
kprintf fuel k fmt t = kprintf_from fuel k fmt 0 t
