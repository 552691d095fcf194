-- ===== src/Printk/Decimal.antt =====
-- `print_dec` of printk.c writes the number, whatever the width.
use tinu_os.Prelude.{
  ℕ, zero, suc, ◌+◌, ◌-◌, ◌*◌, ◌/◌, ◌%◌, ◌^◌, ◌≤◌, ◌<◌, ◌≡◌, refl, sym, ap, ◌∙◌, ◌⊎◌, inl, inr,
  ◌&&◌, some, List, [], ◌∷◌, ◌++◌, arith, ltb, ltb→lt, Bool-cases, replicate, u32,
}
use mathlib.Core.Path.{ap₂}
use native.Mathlib.Nat.{pow-suc, one-le-pow, mod-eq_of_lt}
use tinu_os.Digits.{digit_char, digit_value, value_from, value, value_from-append}
use tinu_os.Digits.Place.{mod-scaled}
use tinu_os.Printk.{Buffer, Out, update, uint32_max, dec_width, zeros, dec_digits, print_dec}
use tinu_os.Texts.{text, text-same, text-add}
use tinu_os.Printk.Buffers.{zeros_lem, AllDigits, AllDigits-text, AllDigits-append, AllDigits-zeros}

-- The third loop writes its `i` places and no other.
dec_digits_outside :
    (i va p : ℕ) (b : Buffer) (j : ℕ) → (j < p) ⊎ (p + i ≤ j) → dec_digits i va p b j ≡ b j
unfolding dec_digits
dec_digits_outside zero va p b j h = refl
dec_digits_outside (suc i) va p b j h =
    dec_digits_outside i (va / 10) p (update b (p + i) (va % 10 + b'0')) j (omega arith)
    ∙ ground arith

-- Those places hold digits.
dec_digits_inside :
    (i va p : ℕ) (b : Buffer) (j : ℕ)
    → p ≤ j
    → j < p + i
    → (digit_value (dec_digits i va p b j) < 10)
      × (digit_char (digit_value (dec_digits i va p b j)) ≡ dec_digits i va p b j)
unfolding dec_digits
dec_digits_inside zero va p b j l r = absurd (omega arith)
dec_digits_inside (suc i) va p b j l r = elim (Bool-cases (ltb j (p + i))) [
  | inl inside ↦
      dec_digits_inside i (va / 10) p (update b (p + i) (va % 10 + b'0')) j l
        (ltb→lt j (p + i) inside)
  | inr last ↦
      let c : Buffer = update b (p + i) (va % 10 + b'0') in
      let here : c j ≡ va % 10 + b'0' = ground arith in
      let e : dec_digits i (va / 10) p c j ≡ va % 10 + b'0' =
        dec_digits_outside i (va / 10) p c j (ground arith) ∙ here in
      rw e (ground arith)
]

one_digit : (x c d : ℕ) → c ≡ d + b'0' → d < 10 → value_from 10 x (c ∷ []) ≡ x * 10 + d
unfolding value_from
one_digit x c d e h = ground arith

text_one : (b : Buffer) (p : ℕ) → text b p 1 ≡ b p ∷ []
unfolding text
text_one b p = refl

-- What stands in those places is the number modulo a power of ten.
dec_digits-value :
    (i va p acc : ℕ) (b : Buffer)
    → value_from 10 acc (text (dec_digits i va p b) p i) ≡ acc * 10 ^ i + va % 10 ^ i
unfolding dec_digits
dec_digits-value zero va p acc b = unfold text value_from in omega arith
dec_digits-value (suc i) va p acc b =
    let c : Buffer = update b (p + i) (va % 10 + b'0') in
    let done : Buffer = dec_digits i (va / 10) p c in
    let e : suc i ≡ i + 1 = omega arith in
    let last : done (p + i) ≡ va % 10 + b'0' =
      dec_digits_outside i (va / 10) p c (p + i) (inr (omega arith)) ∙ ground arith in
    let front = dec_digits-value i (va / 10) p acc c in
    let digit = mod-scaled va (10 ^ i) 10 (one-le-pow i 10 (omega arith)) (omega arith) in
    let power : 10 ^ suc i ≡ 10 ^ i * 10 = pow-suc 10 i in
    ap (value_from 10 acc)
      (ap (text done p) e ∙ text-add done p i 1 ∙ ap (◌++◌ (text done p i)) (text_one done (p + i)))
    ∙ value_from-append 10 acc (text done p i) (done (p + i) ∷ [])
    ∙ one_digit (value_from 10 acc (text done p i)) (done (p + i)) (va % 10) last (omega arith)
    ∙ omega (arith, front, digit, ap (λ (t : ℕ). va % t) power, ap (λ (t : ℕ). acc * t) power)

pow_ten : (n : ℕ) → 10 ^ (n + 1) ≡ 10 ^ n * 10
pow_ten n = let e : n + 1 ≡ suc n = omega arith in ap (λ (t : ℕ). 10 ^ t) e ∙ pow-suc 10 n

-- The first loop, when it ends, leaves enough places.
pub dec_width_enough :
    (fuel va n i w : ℕ)
    → va < 2 ^ 32
    → i + 1 ≤ 10 ^ n
    → dec_width fuel va n i ≡ some w
    → (va < 10 ^ w) × (n ≤ w)
unfolding dec_width
dec_width_enough zero va n i w small inv h = cc
dec_width_enough (suc fuel) va n i w small inv h =
    elim (Bool-cases (ltb i va && ltb i uint32_max)) [
      | inl more ↦
          let rest =
            dec_width_enough fuel va (n + 1) (u32 (u32 (i * 10) + 9)) w small
              (omega (arith, pow_ten n)) (rw more at h) in
          omega (arith, rest)
      | inr done ↦
          let width : n ≡ w = cc (rw done at h) in
          let fits : va ≤ i = ground arith in rw (sym width) (omega (arith, fits, inv), omega arith)
    ]

-- The bound of the first loop after `k` rounds. It wraps on the way, and ends at the largest `u32`.
unfoldable bound_after : ℕ → ℕ → ℕ
bound_after zero i = i
bound_after (suc k) i = bound_after k (u32 (u32 (i * 10) + 9))

bound_after_31 : bound_after 31 9 ≡ uint32_max
unfolding bound_after
bound_after_31 = refl

dec_width_ends :
    (fuel k va n i : ℕ)
    → bound_after k i ≡ uint32_max
    → k < fuel
    → (w : ℕ) × (dec_width fuel va n i ≡ some w)
unfolding dec_width bound_after
dec_width_ends zero k va n i e h = absurd (omega arith)
dec_width_ends (suc fuel) zero va n i e h = (n, ground arith)
dec_width_ends (suc fuel) (suc k) va n i e h = elim (Bool-cases (ltb i va && ltb i uint32_max)) [
  | inl more ↦
      let (w, run) = dec_width_ends fuel k va (n + 1) (u32 (u32 (i * 10) + 9)) e (omega arith) in
      (w, rw more run)
  | inr done ↦ (n, rw done)
]

-- The number of places that `print_dec` finds for a number.
pub dec_width_total : (va : ℕ) → (w : ℕ) × (dec_width 32 va 1 9 ≡ some w)
dec_width_total va = dec_width_ends 32 31 va 1 9 bound_after_31 (omega arith)

value_from-zeros : (n : ℕ) → value_from 10 0 (replicate n b'0') ≡ 0
unfolding value_from
value_from-zeros zero = refl
value_from-zeros (suc n) = value_from-zeros n

-- What `print_dec` leaves when the first loop has found `w` places.
pub record Printed (va arg_width w : ℕ) (o o' : Out) : Type 0 where
  pub moved : o'.ptr ≡ o.ptr + (arg_width - w + w)
  pub stands_for : value 10 (text o'.buf o.ptr (arg_width - w + w)) ≡ va
  pub all_digits : AllDigits 10 (text o'.buf o.ptr (arg_width - w + w))
  pub before : (j : ℕ) → j < o.ptr → o'.buf j ≡ o.buf j

pub print_dec-Printed :
    (fuel va arg_width w : ℕ) (o : Out)
    → va < 2 ^ 32
    → dec_width fuel va 1 9 ≡ some w
    → (o' : Out) × (print_dec fuel va arg_width o ≡ some o') × Printed va arg_width w o o'
unfolding print_dec value
print_dec-Printed fuel va arg_width w o small found =
    let k : ℕ = arg_width - w in
    let front : Out = zeros k o in
    let z = zeros_lem k o in
    let done : Buffer = dec_digits w va front.ptr front.buf in
    let enough = dec_width_enough fuel va 1 9 w small (omega arith) found in
    let same =
      text-same front.buf done o.ptr k
        (λ j l r. dec_digits_outside w va front.ptr front.buf j (inl (omega (arith, z.0)))) in
    let parts =
      text-add done o.ptr k w
      ∙ ap₂ (λ (xs ys : List ℕ). xs ++ ys) (same ∙ z.1) (ap (λ (q : ℕ). text done q w) (sym z.0)) in
    let digits = dec_digits-value w va front.ptr 0 front.buf in
    (
      record { buf = done; ptr = front.ptr + w },
      rw (found, print_dec),
      record {
        moved = omega (arith, z.0);
        stands_for =
            ap (value_from 10 0) parts
            ∙ value_from-append 10 0 (replicate k b'0') (text done front.ptr w)
            ∙ ap (λ (t : ℕ). value_from 10 t (text done front.ptr w)) (value_from-zeros k)
            ∙ digits
            ∙ omega (arith, mod-eq_of_lt enough.0);
        all_digits = rw parts (
            AllDigits-append 10 (replicate k b'0') (text done front.ptr w)
              (AllDigits-zeros 10 k (omega arith))
              (AllDigits-text 10 done front.ptr w (dec_digits_inside w va front.ptr front.buf)));
        before = λ j h.
            dec_digits_outside w va front.ptr front.buf j (inl (omega (arith, z.0))) ∙ z.2 j h;
      },
    )

-- For every `u32`, `print_dec` returns: its first loop takes 32 rounds at most. It moves the pointer by at
-- least the width that was asked for, what it wrote stands for the number in base 10, and the buffer in
-- front is as it was.
pub print_dec-value :
    (va arg_width : ℕ) (o : Out)
    → va < 2 ^ 32
    → (o' : Out) × (n : ℕ) × (print_dec 32 va arg_width o ≡ some o')
      × (o'.ptr ≡ o.ptr + n)
      × (arg_width ≤ n)
      × (value 10 (text o'.buf o.ptr n) ≡ va)
      × ((j : ℕ) → j < o.ptr → o'.buf j ≡ o.buf j)
print_dec-value va arg_width o small =
    let (w, found) = dec_width_total va in
    let (o', run, p) = print_dec-Printed 32 va arg_width w o small found in
    (o', arg_width - w + w, run, p.moved, omega arith, p.stands_for, p.before)
