-- ===== src/Terminal/Hex.antt =====
-- `terminal_write_hex` of monitor.c: the text that it writes.
use tinu_os.Prelude.{
  ℕ, zero, suc, ◌+◌, ◌*◌, ◌/◌, ◌%◌, ◌^◌, ◌<◌, bit_and, ◌≡◌, refl, sym, ap, ◌∙◌, ◌≢◌, ◌⊎◌, inl, inr,
  Bool, true, false, ◌&&◌, List, [], ◌∷◌, ◌++◌, arith, ◌==◌, if◌then◌else◌, Bool-cases, length,
}
use native.Mathlib.Nat.{pow-suc, div-div-eq-div-mul, one-le-pow, mod-lt}
use tinu_os.Prelude.Bits.{bit_and_mask}
use tinu_os.Digits.{digit_char, digit_value-digit_char, value_from, value, value_from-append}
use tinu_os.Digits.Place.{mod-scaled}
use tinu_os.Terminal.{
  Terminal, terminal_putchar, terminal_write, hex_char, hex_loop, terminal_write_hex,
}
use tinu_os.Terminal.Screen.{terminal_write-append}

abbrev nibble : ℕ → ℕ → ℕ
nibble n k = n / 2 ^ (4 * k) % 16

-- The characters of the loop, which skips zeros at the front.
unfoldable pub upper_digits : ℕ → ℕ → Bool → List ℕ
upper_digits zero n no_zeroes = []
upper_digits (suc left) n no_zeroes =
    let skipped = upper_digits left n no_zeroes in
    let shown = digit_char (nibble n (suc left)) ∷ upper_digits left n false in
    if nibble n (suc left) == 0 && no_zeroes then skipped else shown

unfoldable pub hex_text : ℕ → List ℕ
hex_text n = upper_digits 7 n true ++ (digit_char (n % 16) ∷ [])

hex_char-digit_char : (d : ℕ) → hex_char d ≡ digit_char d
unfolding hex_char
hex_char-digit_char d = ground arith

hex_loop-upper_digits :
    (left n : ℕ) (z : Bool) (t : Terminal)
    → hex_loop left n z t ≡ terminal_write (upper_digits left n z) t
unfolding hex_loop upper_digits terminal_write
hex_loop-upper_digits zero n z t = refl
hex_loop-upper_digits (suc left) n z t = ground (
  arith,
  bit_and_mask 4 (n / 2 ^ (4 * suc left)),
  hex_char-digit_char (nibble n (suc left)),
  hex_loop-upper_digits left n z t,
  hex_loop-upper_digits left n false (terminal_putchar (digit_char (nibble n (suc left))) t),
)

terminal_write_hex-terminal_write :
    (n : ℕ) (t : Terminal) → terminal_write_hex n t ≡ terminal_write (hex_text n) t
unfolding terminal_write_hex hex_text terminal_write
terminal_write_hex-terminal_write n t =
    ap (λ (s : Terminal). terminal_putchar (hex_char (bit_and n 0xF)) s)
      (hex_loop-upper_digits 7 n true t)
    ∙ ap (λ (c : ℕ). terminal_putchar c (terminal_write (upper_digits 7 n true) t))
        (ap hex_char (bit_and_mask 4 n) ∙ hex_char-digit_char (n % 16))
    ∙ sym (terminal_write-append (upper_digits 7 n true) (digit_char (n % 16) ∷ []) t)

sixteen : (k : ℕ) → 2 ^ (4 * suc k) ≡ 16 * 2 ^ (4 * k)
sixteen k =
    ap (λ (t : ℕ). 2 ^ t) four_more
    ∙ omega (
      arith,
      pow-suc 2 (suc (suc (suc (4 * k)))),
      pow-suc 2 (suc (suc (4 * k))),
      pow-suc 2 (suc (4 * k)),
      pow-suc 2 (4 * k),
    )
  where
    four_more : 4 * suc k ≡ suc (suc (suc (suc (4 * k))))
    four_more = omega arith

-- The upper digits, behind what `acc` stands for. Skipped zeros count for nothing.
value_from-upper_digits :
    (left n acc : ℕ) (z : Bool)
    → (z ≡ true → acc ≡ 0)
    → value_from 16 acc (upper_digits left n z) ≡ acc * 2 ^ (4 * left) + n / 16 % 2 ^ (4 * left)
unfolding value_from upper_digits
value_from-upper_digits zero n acc z h = omega arith
value_from-upper_digits (suc left) n acc z h =
    let p : ℕ = 2 ^ (4 * left) in
    let d : ℕ = nibble n (suc left) in
    let top : d ≡ n / 16 / p % 16 =
      ap (λ (t : ℕ). n / t % 16) (sixteen left)
      ∙ ap (λ (t : ℕ). t % 16) (sym (div-div-eq-div-mul n 16 p)) in
    let sum : n / 16 % 2 ^ (4 * suc left) ≡ n / 16 / p % 16 * p + n / 16 % p =
      ap (λ (t : ℕ). n / 16 % t) (sixteen left)
      ∙ mod-scaled (n / 16) 16 p (omega arith) (one-le-pow (4 * left) 2 (omega arith)) in
    let scaled : acc * 2 ^ (4 * suc left) ≡ acc * (16 * p) =
      ap (λ (t : ℕ). acc * t) (sixteen left) in
    let topped : d * p ≡ n / 16 / p % 16 * p = ap (λ (t : ℕ). t * p) top in
    elim (Bool-cases (d == 0 && z)) [
      | inl skip ↦
          let zero_digit : d ≡ 0 = ground arith in
          let nothing : acc ≡ 0 = h (ground arith) in
          rw skip (
            value_from-upper_digits left n acc z h
            ∙ omega (
              arith,
              sum,
              scaled,
              topped,
              ap (λ (t : ℕ). t * p) zero_digit,
              ap (λ (t : ℕ). t * p) nothing,
            ))
      | inr shown ↦
          let small = mod-lt (n / 2 ^ (4 * suc left)) {m = 16} (omega arith) in
          rw shown (
            ap (λ (v : ℕ). value_from 16 (acc * 16 + v) (upper_digits left n false))
              (digit_value-digit_char d small)
            ∙ value_from-upper_digits left n (acc * 16 + d) false (λ e. cc)
            ∙ omega (arith, sum, scaled, topped))
    ]

-- The text of a `u32` stands for it in base 16.
value-hex_text : (n : ℕ) → n < 2 ^ 32 → value 16 (hex_text n) ≡ n
unfolding value hex_text
value-hex_text n small =
    value_from-append 16 0 (upper_digits 7 n true) (digit_char (n % 16) ∷ [])
    ∙ omega (
      arith,
      value_from-upper_digits 7 n 0 true (λ e. refl),
      digit_value-digit_char (n % 16) (omega arith),
    )

abbrev pub NoZeroFirst : List ℕ → Type 0
NoZeroFirst [] = Unit
NoZeroFirst (c ∷ cs) = c ≢ b'0'

upper_digits-NoZeroFirst : (left n : ℕ) → NoZeroFirst (upper_digits left n true)
unfolding upper_digits
upper_digits-NoZeroFirst zero n = tt
upper_digits-NoZeroFirst (suc left) n = elim (Bool-cases (nibble n (suc left) == 0)) [
  | inl skip ↦ rw skip (upper_digits-NoZeroFirst left n)
  | inr shown ↦ rw shown (ground arith)
]

append-NoZeroFirst :
    (cs : List ℕ) (c : ℕ)
    → NoZeroFirst cs
    → (length (cs ++ (c ∷ [])) ≡ 1) ⊎ NoZeroFirst (cs ++ (c ∷ []))
append-NoZeroFirst [] c h = inl refl
append-NoZeroFirst (d ∷ ds) c h = inr h

-- `terminal_write_hex` of a `u32` writes a text of hexadecimal digits that stands for the number, and that
-- begins with no zero unless it is one digit long.
pub terminal_write_hex_lem :
    (n : ℕ) (t : Terminal)
    → n < 2 ^ 32
    → (cs : List ℕ) × (terminal_write_hex n t ≡ terminal_write cs t)
      × (value 16 cs ≡ n)
      × ((length cs ≡ 1) ⊎ NoZeroFirst cs)
terminal_write_hex_lem n t small = (
  hex_text n,
  terminal_write_hex-terminal_write n t,
  value-hex_text n small,
  unfold hex_text in
      append-NoZeroFirst (upper_digits 7 n true) (digit_char (n % 16))
        (upper_digits-NoZeroFirst 7 n),
)
