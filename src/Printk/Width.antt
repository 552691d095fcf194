-- ===== src/Printk/Width.antt =====
-- How many places `print_dec` of printk.c takes.
use native.Mathlib.Nat.{pow-suc}
use tinu_os.Prelude.{
  ℕ, zero, suc, ◌+◌, ◌-◌, ◌*◌, ◌^◌, ◌≤◌, ◌<◌, ◌≡◌, refl, sym, ap, ◌∙◌, ◌⊎◌, inl, inr, ◌&&◌, some,
  List, arith, ltb, ltb→lt, Bool-cases, length, u32,
}
use tinu_os.Printk.{Out, uint32_max, dec_width, print_dec}
use tinu_os.Digits.{value}
use tinu_os.Texts.{text, length-text}
use tinu_os.Printk.Buffers.{AllDigits}
use tinu_os.Printk.Decimal.{dec_width_enough, dec_width_total, print_dec-Printed}

-- The largest number for which the first loop still compares with a bound that has not wrapped before it
-- ends: 9999999999 modulo 2 ^ 32.
abbrev pub last_exact : ℕ
last_exact = 1410065407

-- Up to it, the number of places is the number of digits.
dec_width_exact :
    (va w : ℕ) → va ≤ last_exact → dec_width 32 va 1 9 ≡ some w → (w ≡ 1) ⊎ (10 ^ (w - 1) ≤ va)
unfolding dec_width
dec_width_exact va w small h = ground arith

-- Beyond it, the loop goes on: eleven places or more, though ten digits would do.
dec_width_wide : (va w : ℕ) → last_exact < va → va < 2 ^ 32 → dec_width 32 va 1 9 ≡ some w → 11 ≤ w
unfolding dec_width
dec_width_wide va w large small h = ground arith

-- With no width asked for, `print_dec` of a number up to 1410065407 writes its digits and nothing more: the
-- text stands for the number and begins with no zero, unless it is one digit long.
pub print_dec-shortest :
    (va : ℕ) (o : Out)
    → va ≤ last_exact
    → (o' : Out) × (n : ℕ) × (print_dec 32 va 0 o ≡ some o')
      × (o'.ptr ≡ o.ptr + n)
      × (value 10 (text o'.buf o.ptr n) ≡ va)
      × ((n ≡ 1) ⊎ (10 ^ (n - 1) ≤ va))
print_dec-shortest va o small =
    let (w, found) = dec_width_total va in
    let (o', run, p) = print_dec-Printed 32 va 0 w o (omega arith) found in
    let same : 0 - w + w ≡ w = omega arith in
    (
      o',
      w,
      run,
      omega (arith, p.moved),
      ap (λ (n : ℕ). value 10 (text o'.buf o.ptr n)) (sym same) ∙ p.stands_for,
      dec_width_exact va w small found,
    )

-- For a `u32` above 1410065407 and no width asked for, `print_dec` writes more than ten places, though
-- ten digits would do: the bound of its first loop has wrapped around, so that zeros stand in front of
-- the number.
pub print_dec_wide :
    (va : ℕ) (o : Out)
    → last_exact < va
    → va < 2 ^ 32
    → (va < 10 ^ 10) × (o' : Out) × (print_dec 32 va 0 o ≡ some o') × (o.ptr + 11 ≤ o'.ptr)
print_dec_wide va o large small =
    let (w, found) = dec_width_total va in
    let (o', run, p) = print_dec-Printed 32 va 0 w o small found in
    (omega arith, o', run, omega (arith, p.moved, dec_width_wide va w large small found))

-- More rounds find the same width.
dec_width_more :
    (fuel more va n i w : ℕ)
    → fuel ≤ more
    → dec_width fuel va n i ≡ some w
    → dec_width more va n i ≡ some w
unfolding dec_width
dec_width_more zero more va n i w enough h = cc
dec_width_more (suc fuel) zero va n i w enough h = absurd (omega arith)
dec_width_more (suc fuel) (suc more) va n i w enough h =
    elim (Bool-cases (ltb i va && ltb i uint32_max)) [
      | inl go ↦ rw go (
          dec_width_more fuel more va (n + 1) (u32 (u32 (i * 10) + 9)) w (omega arith) (rw go at h))
      | inr stop ↦ rw stop (rw stop at h)
    ]

-- The text of a decimal number: digits that stand for it, at least as many as the width. There are more
-- only if the number has more, is above `last_exact`, or the one digit of a number is asked for in none.
pub record DecText (va arg_width : ℕ) (cs : List ℕ) : Type 0 where
  pub all_digits : AllDigits 10 cs
  pub stands_for : value 10 cs ≡ va
  pub wide : arg_width ≤ length cs
  pub some_digit : 0 < length cs
  pub places :
      (length cs ≡ arg_width)
      ⊎ ((length cs ≡ 1) ⊎ ((10 ^ (length cs - 1) ≤ va) ⊎ ((last_exact < va) × (11 ≤ length cs))))

pub record PrintedDec (va arg_width n : ℕ) (o o' : Out) : Type 0 where
  pub moved : o'.ptr ≡ o.ptr + n
  pub before : (j : ℕ) → j < o.ptr → o'.buf j ≡ o.buf j
  pub dec_text : DecText va arg_width (text o'.buf o.ptr n)

places_lem :
    (va arg_width w : ℕ)
    → va < 2 ^ 32
    → dec_width 32 va 1 9 ≡ some w
    → (arg_width - w + w ≡ arg_width)
      ⊎ ((arg_width - w + w ≡ 1)
          ⊎ ((10 ^ (arg_width - w + w - 1) ≤ va) ⊎ ((last_exact < va) × (11 ≤ arg_width - w + w))))
places_lem va arg_width w small found = elim (Bool-cases (ltb arg_width w)) [
  | inr padded ↦ inl (ground arith)
  | inl short ↦
      let same : arg_width - w + w ≡ w = ground arith in
      rw same (elim (Bool-cases (ltb last_exact va)) [
        | inl large ↦ inr (
            inr (
              inr (
                ltb→lt last_exact va large,
                dec_width_wide va w (ltb→lt last_exact va large) small found,
              )))
        | inr exact ↦ inr (elim (dec_width_exact va w (ground arith) found) [
          | inl one ↦ inl one
          | inr most ↦ inr (inl most)
        ])
      ])
]

print_dec_width :
    (fuel more va arg_width w : ℕ) (o : Out)
    → dec_width fuel va 1 9 ≡ some w
    → dec_width more va 1 9 ≡ some w
    → print_dec more va arg_width o ≡ print_dec fuel va arg_width o
unfolding print_dec
print_dec_width fuel more va arg_width w o found again = rw (print_dec, found, again) refl

pub print_dec-PrintedDec :
    (va arg_width : ℕ) (o : Out)
    → va < 2 ^ 32
    → (o' : Out) × (n : ℕ) × ((fuel : ℕ) → 32 ≤ fuel → print_dec fuel va arg_width o ≡ some o')
      × PrintedDec va arg_width n o o'
print_dec-PrintedDec va arg_width o small =
    let (w, found32) = dec_width_total va in
    let (o', run, p) = print_dec-Printed 32 va arg_width w o small found32 in
    let n = length-text o'.buf o.ptr (arg_width - w + w) in
    let least = (dec_width_enough 32 va 1 9 w small (omega arith) found32).1 in
    (
      o',
      arg_width - w + w,
      λ fuel enough.
          print_dec_width 32 fuel va arg_width w o found32
            (dec_width_more 32 fuel va 1 9 w enough found32)
          ∙ run,
      record {
        moved = p.moved;
        before = p.before;
        dec_text = record {
          all_digits = p.all_digits;
          stands_for = p.stands_for;
          wide = omega (arith, n);
          some_digit = omega (arith, n, least);
          places = rw n (places_lem va arg_width w small found32);
        };
      },
    )

three_digits : (n : ℕ) → 100 ≤ 10 ^ (n + 2)
three_digits zero = omega arith
three_digits (suc n) =
    let e : suc n + 2 ≡ suc (n + 2) = omega arith in
    rw e (omega (arith, pow-suc 10 (n + 2), three_digits n))

-- A number below 100 has two digits at most.
pub DecText-short : (va : ℕ) (cs : List ℕ) → va < 100 → DecText va 0 cs → length cs ≤ 2
DecText-short va cs small t = elim t.places [
  | inl none_asked ↦ omega (arith, none_asked)
  | inr (inl one) ↦ omega (arith, one)
  | inr (inr (inl least)) ↦ elim (Bool-cases (ltb 2 (length cs))) [
    | inr short ↦ ground arith
    | inl long ↦
        let n : ℕ = length cs - 3 in
        let e : length cs - 1 ≡ n + 2 = ground arith in
        let least' : 10 ^ (n + 2) ≤ va = rw (sym e) least in
        absurd (omega (arith, least', three_digits n))
  ]
  | inr (inr (inr large)) ↦ absurd (omega (arith, large.0))
]
