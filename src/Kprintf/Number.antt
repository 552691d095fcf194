-- ===== src/Kprintf/Number.antt =====
-- What itoa of monitor.c prints.
use tinu_os.Prelude.{
  ℕ, zero, suc, ◌+◌, ◌-◌, ◌/◌, ◌%◌, ◌^◌, ◌≤◌, ◌<◌, ◌≡◌, refl, ap, ◌∙◌, ◌⊎◌, inl, inr, true, false,
  ◌&&◌, some, List, [], ◌∷◌, ◌++◌, reverse, arith, leb, ◌==◌, if◌then◌else◌, Bool-cases, length,
  ◌>>=◌,
}
use mathlib.Core.List.{reverse-append}
use mathlib.Core.Path.{subst}
use tinu_os.Digits.{value}
use tinu_os.Kprintf.LowDigits.{value-low_digits, shortest}
use tinu_os.Prelude.{length-append}
use native.Mathlib.Nat.{mod-lt}
use tinu_os.Strings.Copy.{Holds}
use tinu_os.Texts.{text, text-same}
use tinu_os.Terminal.{Cells, update}
use tinu_os.Kprintf.{write_digits, swap_ends, itoa, is_negative, magnitude, divisor_of}
use tinu_os.Kprintf.LowDigits.{low_digits, digits_written, length-low_digits, length-low_digits-pos}
use tinu_os.Kprintf.Turning.{swap_ends-Turned, text-reverse}

abbrev AllChars : List ℕ → Type 0
AllChars [] = Unit
AllChars (c ∷ cs) = (0 < c) × (c < 256) × AllChars cs

AllChars-append : (cs ds : List ℕ) → AllChars cs → AllChars ds → AllChars (cs ++ ds)
AllChars-append [] ds h k = k
AllChars-append (c ∷ cs) ds h k = (h.0, h.1, AllChars-append cs ds h.2 k)

AllChars-reverse : (cs : List ℕ) → AllChars cs → AllChars (reverse cs)
AllChars-reverse [] h = tt
AllChars-reverse (c ∷ cs) h =
    rw (reverse-append (c ∷ []) cs)
      (AllChars-append (reverse cs) (c ∷ []) (AllChars-reverse cs h.2) (h.0, h.1, tt))

low_digits-AllChars : (fuel base n : ℕ) → 1 < base → base ≤ 16 → AllChars (low_digits fuel base n)
unfolding low_digits
low_digits-AllChars zero base n hb hs = tt
low_digits-AllChars (suc fuel) base n hb hs =
    let below : n % base < base = mod-lt n (omega arith) in
    let rest = low_digits-AllChars fuel base (n / base) hb hs in
    (
      ground arith,
      ground arith,
      (elim (Bool-cases (n / base == 0)) [ inl done ↦ rw done tt | inr more ↦ rw more rest ]),
    )

text-Holds :
    (b : Cells) (p : ℕ) (cs : List ℕ)
    → text b p (length cs) ≡ cs
    → b (p + length cs) ≡ 0
    → AllChars cs
    → Holds b p cs
unfolding text
text-Holds b p [] e z h = ap b (omega arith) ∙ z
text-Holds b p (c ∷ cs) e z h =
    (cc, h.0, h.1, text-Holds b (p + 1) cs (cc) (ap b (omega arith) ∙ z) h.2)

-- What `itoa` leaves from `start` on, and in front of it.
record Numeral (b : Cells) (start : ℕ) (cs : List ℕ) (b' : Cells) : Type 0 where
  holds : Holds b' start cs
  before : (j : ℕ) → j < start → b' j ≡ b j

length-reverse : (ds : List ℕ) → length (reverse ds) ≡ length ds
length-reverse [] = refl
length-reverse (d ∷ ds) =
    let here = length-append (reverse ds) (d ∷ []) in
    let whole : length (reverse (d ∷ ds)) ≡ length (reverse ds ++ d ∷ []) =
      ap length (reverse-append (d ∷ []) ds) in
    omega (arith, whole, here, length-reverse ds)

at_end :
    (b : Cells) (start l i : ℕ)
    → i < l
    → (if leb start (start + i) && leb (start + i) (start + l - 1)
        then b (start + (start + l - 1) - (start + i))
        else b (start + i))
      ≡ b (start + (l - 1 - i))
at_end b start l i h =
    let e : start + (start + l - 1) - (start + i) ≡ start + (l - 1 - i) = omega arith in
    ground (arith, ap b e)

digits-Numeral :
    (b : Cells) (start n base : ℕ)
    → 1 < base
    → base ≤ 16
    → n < base ^ 10
    → (b' : Cells) × ((write_digits 10 b start n base >>= λ (b'', p).
          swap_ends 10 (update b'' p 0) start (p - 1))
        ≡ some b')
      × Numeral b start (reverse (low_digits 10 base n)) b'
digits-Numeral b start n base hb hs hn =
    let ds : List ℕ = low_digits 10 base n in
    let l : ℕ = length ds in
    let bound : l ≤ 10 = length-low_digits 10 base n in
    let some_digit : 0 < l = length-low_digits-pos 9 base n in
    let (b1, written, w) = digits_written 9 b start n base hb hn in
    let p : ℕ = start + l in
    let b2 : Cells = update b1 p 0 in
    let (b3, swapped, turned) = swap_ends-Turned 9 b2 start (p - 1) (omega arith) in
    let kept = text-same b1 b2 start l (λ j lo hi. ground arith) in
    let backwards : text b3 start l ≡ reverse ds =
      text-reverse b2 b3 start start l (λ i h. turned (start + i) ∙ at_end b2 start l i h)
      ∙ ap reverse (kept ∙ w.reads) in
    let same_length : length (reverse ds) ≡ l = length-reverse ds in
    (
      b3,
      rw written swapped,
      record {
        holds =
            text-Holds b3 start (reverse ds) (rw same_length backwards)
              (rw same_length (turned p ∙ ground arith))
              (AllChars-reverse ds (low_digits-AllChars 10 base n hb hs));
        before = λ j h. turned j ∙ ground (arith, w.before j h);
      },
    )

-- The digits that `itoa` prints for the bits of a number, and what stands in front of them.
abbrev pub digits_of : ℕ → ℕ → List ℕ
digits_of base d = reverse (low_digits 10 (divisor_of base) (magnitude base d))

abbrev pub sign_of : ℕ → ℕ → List ℕ
sign_of base d = if is_negative base d then b'-' ∷ [] else []

divisor_of-bounds : (base : ℕ) → (1 < divisor_of base) × (divisor_of base ≤ 16)
divisor_of-bounds base = (ground arith, ground arith)

magnitude_small : (base d : ℕ) → d < 2 ^ 32 → magnitude base d < divisor_of base ^ 10
magnitude_small base d h = elim (Bool-cases (base == b'x')) [
  | inl hex ↦ rw hex (ground arith)
  | inr dec ↦ rw dec (ground arith)
]

itoa_unsigned :
    (fuel : ℕ) (b : Cells) (base d : ℕ)
    → is_negative base d ≡ false
    → itoa fuel b base d ≡ (
        write_digits fuel b 0 (magnitude base d) (divisor_of base) >>= λ (b'', p).
        swap_ends fuel (update b'' p 0) 0 (p - 1))
unfolding itoa
itoa_unsigned fuel b base d positive = rw positive refl

itoa_signed :
    (fuel : ℕ) (b : Cells) (base d : ℕ)
    → is_negative base d ≡ true
    → itoa fuel b base d ≡ (
        write_digits fuel (update b 0 b'-') 1 (magnitude base d) (divisor_of base) >>= λ (b'', p).
        swap_ends fuel (update b'' p 0) 1 (p - 1))
unfolding itoa
itoa_signed fuel b base d negative = rw negative refl

itoa_positive :
    (b : Cells) (base d : ℕ)
    → d < 2 ^ 32
    → is_negative base d ≡ false
    → (b' : Cells) × (itoa 10 b base d ≡ some b') × Holds b' 0 (digits_of base d)
itoa_positive b base d h positive =
    let (lo, hi) = divisor_of-bounds base in
    let (b', run, n) =
      digits-Numeral b 0 (magnitude base d) (divisor_of base) lo hi (magnitude_small base d h) in
    (b', itoa_unsigned 10 b base d positive ∙ run, n.holds)

itoa_negative :
    (b : Cells) (base d : ℕ)
    → d < 2 ^ 32
    → is_negative base d ≡ true
    → (b' : Cells) × (itoa 10 b base d ≡ some b') × Holds b' 0 (b'-' ∷ digits_of base d)
itoa_negative b base d h negative =
    let (lo, hi) = divisor_of-bounds base in
    let (b', run, n) =
      digits-Numeral (update b 0 b'-') 1 (magnitude base d) (divisor_of base) lo hi
        (magnitude_small base d h) in
    (
      b',
      itoa_signed 10 b base d negative ∙ run,
      (n.before 0 (omega arith) ∙ ground arith, omega arith, omega arith, n.holds),
    )

sign_of-is_negative : (base d : ℕ) → is_negative base d ≡ true → b'-' ∷ [] ≡ sign_of base d
sign_of-is_negative base d negative = rw negative refl

sign_of-is_unsigned : (base d : ℕ) → is_negative base d ≡ false → [] ≡ sign_of base d
sign_of-is_unsigned base d positive = rw positive refl

pub itoa-Holds :
    (b : Cells) (base d : ℕ)
    → d < 2 ^ 32
    → (b' : Cells) × (itoa 10 b base d ≡ some b') × Holds b' 0 (sign_of base d ++ digits_of base d)
itoa-Holds b base d h = elim (Bool-cases (is_negative base d)) [
  | inl negative ↦
      let (b', run, holds) = itoa_negative b base d h negative in
      let same = sign_of-is_negative base d negative in
      (b', run, subst (λ s. Holds b' 0 (s ++ digits_of base d)) same holds)
  | inr positive ↦
      let (b', run, holds) = itoa_positive b base d h positive in
      let same = sign_of-is_unsigned base d positive in
      (b', run, subst (λ s. Holds b' 0 (s ++ digits_of base d)) same holds)
]

-- For the bits of any number and any conversion, itoa ends after at most ten rounds of each loop. It leaves
-- the sign, if `%d` prints a negative number, then the digits and a zero. The digits are at most ten, they
-- stand for the magnitude of the number in the base, and none of them is a leading zero unless it is zero.
pub itoa_lem :
    (b : Cells) (base d : ℕ)
    → d < 2 ^ 32
    → (b' : Cells) × (itoa 10 b base d ≡ some b')
      × Holds b' 0 (sign_of base d ++ digits_of base d)
      × (length (digits_of base d) ≤ 10)
      × (value (divisor_of base) (digits_of base d) ≡ magnitude base d)
      × ((magnitude base d ≡ 0)
          ⊎ (divisor_of base ^ (length (digits_of base d) - 1) ≤ magnitude base d))
itoa_lem b base d h =
    let (lo, hi) = divisor_of-bounds base in
    let small = magnitude_small base d h in
    let (b', run, holds) = itoa-Holds b base d h in
    let l = length-reverse (low_digits 10 (divisor_of base) (magnitude base d)) in
    let most = length-low_digits 10 (divisor_of base) (magnitude base d) in
    let no_zero : (magnitude base d ≡ 0)
        ⊎ (divisor_of base ^ (length (digits_of base d) - 1) ≤ magnitude base d) =
      (elim (Bool-cases (magnitude base d == 0)) [
        | inl nil ↦ inl (ground (arith, nil))
        | inr pos ↦
            inr (
              rw l
                (shortest 10 (divisor_of base) (magnitude base d) lo (ground (arith, pos)) small))
      ]) in
    (
      b',
      run,
      holds,
      omega (arith, l, most),
      value-low_digits 10 (divisor_of base) (magnitude base d) lo hi small,
      no_zero,
    )
