-- ===== src/Kprintf/LowDigits.antt =====
-- The first loop of itoa in monitor.c, which writes the digits of a number backwards.
use tinu_os.Prelude.{
  ℕ, zero, suc, ◌+◌, ◌-◌, ◌*◌, ◌/◌, ◌%◌, ◌^◌, ◌≤◌, ◌<◌, ◌≡◌, refl, sym, ap, ◌∙◌, inl, inr, true,
  false, some, List, [], ◌∷◌, reverse, arith, ◌==◌, if◌then◌else◌, Bool-cases, length,
}
use mathlib.Core.Path.{ap₂}
use mathlib.Core.List.{reverse-append}
use native.Mathlib.Nat.{pow-zero, pow-suc, div-add-mod', mod-lt}
use native.Mathlib.Nat.{div-lt_iff_lt-mul, le-div_iff_mul-le}
use tinu_os.Digits.{
  digit_char, digit_value, value_from, value, value_from-append, digit_value-digit_char,
}
use tinu_os.Texts.{text}
use tinu_os.Terminal.{Cells, update}
use tinu_os.Kprintf.{write_digits}

-- The digits of a number, the last one first: at most so many.
unfoldable pub low_digits : ℕ → ℕ → ℕ → List ℕ
low_digits zero base n = []
low_digits (suc fuel) base n =
    digit_char (n % base) ∷ (if n / base == 0 then [] else low_digits fuel base (n / base))

pub length-low_digits : (fuel base n : ℕ) → length (low_digits fuel base n) ≤ fuel
unfolding low_digits
length-low_digits zero base n = omega arith
length-low_digits (suc fuel) base n = ground (arith, length-low_digits fuel base (n / base))

-- The loop writes them upwards from `p`, and nothing below.
pub record Wrote (b : Cells) (p : ℕ) (ds : List ℕ) (b' : Cells) : Type 0 where
  pub reads : text b' p (length ds) ≡ ds
  pub before : (j : ℕ) → j < p → b' j ≡ b j

quotient_small : (n base f : ℕ) → 1 < base → n < base ^ suc f → n / base < base ^ f
quotient_small n base f hb h = (div-lt_iff_lt-mul (omega arith)).1 (omega (arith, pow-suc base f))

-- The loop has ended as it should.
abbrev pub DigitsWritten : ℕ → Cells → ℕ → ℕ → ℕ → Type 0
DigitsWritten fuel b p n base =
    (b' : Cells) × (write_digits fuel b p n base ≡ some (b', p + length (low_digits fuel base n)))
    × Wrote b p (low_digits fuel base n) b'

write_digits_last :
    (fuel : ℕ) (b : Cells) (p n base : ℕ)
    → (n / base == 0) ≡ true
    → DigitsWritten (suc fuel) b p n base
unfolding write_digits low_digits text
write_digits_last fuel b p n base done = rw done (
  update b p (digit_char (n % base)),
  refl,
  record { reads = ap (λ c. c ∷ []) (ground arith); before = λ j h. ground arith },
)

write_digits_more :
    (fuel : ℕ) (b : Cells) (p n base : ℕ)
    → (n / base == 0) ≡ false
    → DigitsWritten fuel (update b p (digit_char (n % base))) (p + 1) (n / base) base
    → DigitsWritten (suc fuel) b p n base
unfolding write_digits low_digits text
write_digits_more fuel b p n base more (b', run, w) = rw more (
  b',
  run ∙ ap (λ (q : ℕ). some (b', q)) (omega arith),
  record {
    reads = ap₂ ◌∷◌ (w.before p (omega arith) ∙ ground arith) w.reads;
    before = λ j h. w.before j (omega arith) ∙ ground arith;
  },
)

pub digits_written :
    (fuel : ℕ) (b : Cells) (p n base : ℕ)
    → 1 < base
    → n < base ^ suc fuel
    → DigitsWritten (suc fuel) b p n base
digits_written zero b p n base hb hn =
    let small = quotient_small n base 0 hb hn in
    write_digits_last 0 b p n base (ground (arith, pow-zero base))
digits_written (suc fuel) b p n base hb hn = elim (Bool-cases (n / base == 0)) [
  | inl done ↦ write_digits_last (suc fuel) b p n base done
  | inr more ↦ write_digits_more (suc fuel) b p n base more (
      digits_written fuel (update b p (digit_char (n % base))) (p + 1) (n / base) base hb
        (quotient_small n base (suc fuel) hb hn))
]

-- The digits, the first one first, stand for the number.
value-reverse :
    (base c : ℕ) (cs : List ℕ)
    → value base (reverse (c ∷ cs)) ≡ value base (reverse cs) * base + digit_value c
unfolding value value_from
value-reverse base c cs =
    ap (value_from base 0) (reverse-append (c ∷ []) cs)
    ∙ value_from-append base 0 (reverse cs) (c ∷ [])

pub value-low_digits :
    (fuel base n : ℕ)
    → 1 < base
    → base ≤ 16
    → n < base ^ fuel
    → value base (reverse (low_digits fuel base n)) ≡ n
unfolding low_digits
value-low_digits zero base n hb hs hn = unfold value value_from in omega (arith, pow-zero base)
value-low_digits (suc fuel) base n hb hs hn =
    let r : ℕ = n % base in
    let below : r < base = mod-lt n (omega arith) in
    let last = digit_value-digit_char r (omega arith) in
    elim (Bool-cases (n / base == 0)) [
      | inl done ↦
          let z : n / base ≡ 0 = ground (arith, done) in
          rw done (
            unfold value value_from in
            omega (arith, last, ap (λ (t : ℕ). t * base) z, div-add-mod' n base))
      | inr more ↦ rw more (
          value-reverse base (digit_char r) (low_digits fuel base (n / base))
          ∙ omega (
            arith,
            last,
            ap (λ (t : ℕ). t * base)
                (value-low_digits fuel base (n / base) hb hs (quotient_small n base fuel hb hn)),
            div-add-mod' n base,
          ))
    ]

scale : (base n l : ℕ) → 1 < base → 0 < n → base ^ (l - 1) ≤ n / base → base ^ l ≤ n
scale base n zero hb pos h = omega (arith, pow-zero base)
scale base n (suc l) hb pos h =
    let e : suc l - 1 ≡ l = omega arith in
    let k : base ^ l ≤ n / base = rw (sym e) h in
    let scaled = (le-div_iff_mul-le {k = base} {x = base ^ l} {y = n} (omega arith)).0 k in
    omega (arith, pow-suc base l, scaled)

pub shortest :
    (fuel base n : ℕ)
    → 1 < base
    → 0 < n
    → n < base ^ fuel
    → base ^ (length (low_digits fuel base n) - 1) ≤ n
unfolding low_digits
shortest zero base n hb pos hn = absurd (omega (arith, pow-zero base))
shortest (suc fuel) base n hb pos hn = elim (Bool-cases (n / base == 0)) [
  | inl done ↦ rw done (omega (arith, pow-zero base))
  | inr more ↦
      let l : ℕ = length (low_digits fuel base (n / base)) in
      let e : suc l - 1 ≡ l = omega arith in
      rw (more, e)
        (scale base n l hb pos (
          shortest fuel base (n / base) hb (ground (arith, more))
            (quotient_small n base fuel hb hn)))
]

pub length-low_digits-pos : (fuel base n : ℕ) → 0 < length (low_digits (suc fuel) base n)
unfolding low_digits
length-low_digits-pos fuel base n = omega arith
