-- ===== src/Tests/Kprintf.antt =====
-- Runs of the formatted output.
use tinu_os.Prelude.{
  ℕ, ◌-◌, ◌^◌, ◌≤◌, ◌≡◌, refl, ◌⊎◌, none, some, List, [], ◌∷◌, ◌++◌, arith, ◌==◌, if◌then◌else◌,
  length,
}
use tinu_os.Strings.Copy.{Holds}
use tinu_os.Digits.{value}
use tinu_os.Terminal.{Cells, terminal_write}
use tinu_os.Kprintf.{itoa, Call, kprintf, magnitude, divisor_of}
use tinu_os.Kprintf.LowDigits.{low_digits}
use tinu_os.Kprintf.Number.{sign_of, digits_of, itoa_lem}
use tinu_os.Kprintf.Rendering.{rendered, is_complete, kprintf_lem}
use tinu_os.Tests.Screen.{at_cell}

abbrev pub empty_buffer : Cells
empty_buffer _ = 0

-- "%d" of -42.
itoa_lem_example :
    (b' : Cells) × (itoa 10 empty_buffer b'd' 4294967254 ≡ some b')
    × Holds b' 0 (sign_of b'd' 4294967254 ++ digits_of b'd' 4294967254)
    × (length (digits_of b'd' 4294967254) ≤ 10)
    × (value (divisor_of b'd') (digits_of b'd' 4294967254) ≡ magnitude b'd' 4294967254)
    × ((magnitude b'd' 4294967254 ≡ 0)
        ⊎ (divisor_of b'd' ^ (length (digits_of b'd' 4294967254) - 1) ≤ magnitude b'd' 4294967254))
itoa_lem_example = itoa_lem empty_buffer b'd' 4294967254 (omega arith)

minus_42 : sign_of b'd' 4294967254 ++ digits_of b'd' 4294967254 ≡ b'-' ∷ b'4' ∷ b'2' ∷ []
unfolding low_digits
minus_42 = refl

-- The arguments 31 and a NULL pointer.
abbrev two_arguments : Call
two_arguments = record {
  arg = λ n. if n == 0 then 31 else 0;
  text_at = λ _. [];
  buf = empty_buffer;
}

-- "%x:%s"
abbrev hex_and_text : List ℕ
hex_and_text = b'%' ∷ b'x' ∷ b':' ∷ b'%' ∷ b's' ∷ []

one_f_and_null :
    rendered two_arguments hex_and_text 0
    ≡ b'1' ∷ b'f' ∷ b':' ∷ b'(' ∷ b'n' ∷ b'u' ∷ b'l' ∷ b'l' ∷ b')' ∷ []
unfolding rendered low_digits
one_f_and_null = refl

kprintf_lem_example : kprintf 10 two_arguments hex_and_text (at_cell 3 5) ≡ (
    if is_complete hex_and_text
    then some (terminal_write (rendered two_arguments hex_and_text 0) (at_cell 3 5))
    else none)
kprintf_lem_example = kprintf_lem two_arguments hex_and_text (at_cell 3 5)
