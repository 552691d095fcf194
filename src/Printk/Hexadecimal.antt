-- ===== src/Printk/Hexadecimal.antt =====
-- `print_hex` of printk.c.
use tinu_os.Prelude.{
  ℕ, zero, suc, ◌+◌, ◌-◌, ◌*◌, ◌/◌, ◌%◌, ◌^◌, ◌≤◌, ◌<◌, bit_and, ◌≡◌, refl, sym, ap, ◌∙◌, ◌≢◌, ◌⊎◌,
  inl, inr, ◌&&◌, Option, none, some, List, ◌++◌, arith, ltb, ◌==◌, if◌then◌else◌, Bool-cases,
  length, replicate, u8, u32,
}
use mathlib.Core.Path.{ap₂}
use native.Mathlib.Nat.{pow-suc, one-le-pow, mod-eq_of_lt, mod-lt}
use tinu_os.Prelude.Bits.{bit_and_mask}
use tinu_os.Digits.{digit_char, digit_value, value_from, value, value_from-append}
use tinu_os.Digits.Place.{mod-scaled}
use tinu_os.Printk.{
  Buffer, Out, uint32_max, put, hex_width, zeros, hex_digit, hex_digits, print_hex,
}
use tinu_os.Texts.{text, text-same, text-add, length-text}
use tinu_os.Printk.Buffers.{zeros_lem, AllDigits, AllDigits-append, AllDigits-zeros}

-- The first loop finds the number of digits, eight at most, and its bound does not wrap before it ends.
HexWidth : ℕ → ℕ → Type 0
HexWidth va w = (va < 2 ^ (w * 4)) × ((w ≡ 1) ⊎ (2 ^ ((w - 1) * 4) ≤ va)) × (w ≤ 8) × (0 < w)

hex_width_lem : (va w : ℕ) → va < 2 ^ 32 → hex_width 8 va 1 0x0F ≡ some w → HexWidth va w
unfolding hex_width HexWidth
hex_width_lem va w small h = ground arith

hex_width_ends : (va : ℕ) → va < 2 ^ 32 → hex_width 8 va 1 0x0F ≢ none
unfolding hex_width
hex_width_ends va small = ground arith

hex_width_total :
    (va : ℕ) → va < 2 ^ 32 → (w : ℕ) × (hex_width 8 va 1 0x0F ≡ some w) × HexWidth va w
hex_width_total va small = go (hex_width 8 va 1 0x0F) refl
  where
    go :
        (r : Option ℕ)
        → hex_width 8 va 1 0x0F ≡ r
        → (w : ℕ) × (hex_width 8 va 1 0x0F ≡ some w) × HexWidth va w
    go none e = absurd (hex_width_ends va small e)
    go (some w) e = (w, e, hex_width_lem va w small e)

pub sixteen : (i : ℕ) → 2 ^ (suc i * 4) ≡ 16 * 2 ^ (i * 4)
sixteen i =
    let e : suc i * 4 ≡ suc (suc (suc (suc (i * 4)))) = omega arith in
    ap (λ (t : ℕ). 2 ^ t) e
    ∙ omega (
      arith,
      pow-suc 2 (suc (suc (suc (i * 4)))),
      pow-suc 2 (suc (suc (i * 4))),
      pow-suc 2 (suc (i * 4)),
      pow-suc 2 (i * 4),
    )

hex_digit-value : (x d : ℕ) → x ≡ d → d < 16 → digit_value (u8 (hex_digit x)) ≡ d
unfolding hex_digit
hex_digit-value x d e h = ground arith

hex_digit-digit :
    (x d : ℕ) → x ≡ d → d < 16 → digit_char (digit_value (u8 (hex_digit x))) ≡ u8 (hex_digit x)
unfolding hex_digit
hex_digit-digit x d e h = ground arith

AllDigits-cons :
    (b : Buffer) (p i : ℕ)
    → digit_value (b p) < 16
    → digit_char (digit_value (b p)) ≡ b p
    → AllDigits 16 (text b (p + 1) i)
    → AllDigits 16 (text b p (suc i))
unfolding text
AllDigits-cons b p i v c h = (v, c, h)

value_from-text :
    (acc : ℕ) (b : Buffer) (p i : ℕ)
    → value_from 16 acc (text b p (suc i))
      ≡ value_from 16 (acc * 16 + digit_value (b p)) (text b (p + 1) i)
unfolding value_from text
value_from-text acc b p i = refl

-- The third loop writes the number modulo a power of sixteen, the upper digits first.
record HexPrinted (i va acc : ℕ) (o o' : Out) : Type 0 where
  moved : o'.ptr ≡ o.ptr + i
  stands_for : value_from 16 acc (text o'.buf o.ptr i) ≡ acc * 2 ^ (i * 4) + va % 2 ^ (i * 4)
  all_digits : AllDigits 16 (text o'.buf o.ptr i)
  before : (j : ℕ) → j < o.ptr → o'.buf j ≡ o.buf j

hex_digits-HexPrinted : (i va acc : ℕ) (o : Out) → HexPrinted i va acc o (hex_digits i va o)
unfolding hex_digits put
hex_digits-HexPrinted zero va acc o = record {
  moved = omega arith;
  stands_for = unfold text value_from in omega arith;
  all_digits = unfold text in tt;
  before = λ j h. refl;
}
hex_digits-HexPrinted (suc i) va acc o =
    let d : ℕ = va / 2 ^ (i * 4) % 16 in
    let o1 : Out = put (hex_digit (bit_and (va / 2 ^ (i * 4)) 0xF)) o in
    let rest = hex_digits-HexPrinted i va (acc * 16 + d) o1 in
    let p : ℕ = 2 ^ (i * 4) in
    let done : Buffer = (hex_digits i va o1).buf in
    let small = mod-lt (va / p) {m = 16} (omega arith) in
    let here : o1.buf o.ptr ≡ u8 (hex_digit (bit_and (va / p) 0xF)) = ground arith in
    let written = rest.before o.ptr (omega arith) ∙ here in
    let first : digit_value (done o.ptr) ≡ d =
      ap digit_value written
      ∙ hex_digit-value (bit_and (va / p) 0xF) d (bit_and_mask 4 (va / p)) small in
    let digit = mod-scaled va 16 p (omega arith) (one-le-pow (i * 4) 2 (omega arith)) in
    let power = sixteen i in
    record {
      moved = omega (arith, rest.moved);
      stands_for =
          value_from-text acc done o.ptr i
          ∙ ap (λ (v : ℕ). value_from 16 (acc * 16 + v) (text done (o.ptr + 1) i)) first
          ∙ rest.stands_for
          ∙ omega (arith, digit, ap (λ (t : ℕ). va % t) power, ap (λ (t : ℕ). acc * t) power);
      all_digits =
          AllDigits-cons done o.ptr i (omega (arith, first, small))
            (ap (λ (c : ℕ). digit_char (digit_value c)) written
              ∙ hex_digit-digit (bit_and (va / p) 0xF) d (bit_and_mask 4 (va / p)) small
              ∙ sym written)
            rest.all_digits;
      before = λ j h. rest.before j (omega arith) ∙ ground arith;
    }

value_from-zeros : (n : ℕ) → value_from 16 0 (replicate n b'0') ≡ 0
unfolding value_from
value_from-zeros zero = refl
value_from-zeros (suc n) = value_from-zeros n

-- The width that `print_hex` pads to.
abbrev pub hex_pad : ℕ → ℕ
hex_pad arg_width = if arg_width == 0 then 8 else arg_width

-- More rounds find the same width.
hex_width_more :
    (fuel more va n j w : ℕ)
    → fuel ≤ more
    → hex_width fuel va n j ≡ some w
    → hex_width more va n j ≡ some w
unfolding hex_width
hex_width_more zero more va n j w enough h = cc
hex_width_more (suc fuel) zero va n j w enough h = absurd (omega arith)
hex_width_more (suc fuel) (suc more) va n j w enough h =
    elim (Bool-cases (ltb j va && ltb j uint32_max)) [
      | inl go ↦ rw go (
          hex_width_more fuel more va (n + 1) (u32 (u32 (j * 0x10) + 0x0F)) w (omega arith)
            (rw go at h))
      | inr stop ↦ rw stop (rw stop at h)
    ]

-- The text of a hexadecimal number: digits that stand for it, as many as the width, or more only if the
-- number has more.
pub record HexText (va arg_width : ℕ) (cs : List ℕ) : Type 0 where
  pub all_digits : AllDigits 16 cs
  pub stands_for : value 16 cs ≡ va
  pub places :
      (length cs ≡ hex_pad arg_width)
      ⊎ ((hex_pad arg_width < length cs) × (2 ^ ((length cs - 1) * 4) ≤ va))

-- What `print_hex` leaves.
pub record PrintedHex (va arg_width n : ℕ) (o o' : Out) : Type 0 where
  pub moved : o'.ptr ≡ o.ptr + n
  pub before : (j : ℕ) → j < o.ptr → o'.buf j ≡ o.buf j
  pub hex_text : HexText va arg_width (text o'.buf o.ptr n)

pub print_hex-PrintedHex :
    (va arg_width : ℕ) (o : Out)
    → va < 2 ^ 32
    → (o' : Out) × (n : ℕ) × ((fuel : ℕ) → 8 ≤ fuel → print_hex fuel va arg_width o ≡ some o')
      × PrintedHex va arg_width n o o'
unfolding print_hex value HexWidth
print_hex-PrintedHex va arg_width o small =
    let (w, found8, range) = hex_width_total va small in
    let k : ℕ = hex_pad arg_width - w in
    let front : Out = zeros k o in
    let z = zeros_lem k o in
    let done : Out = hex_digits w va front in
    let d = hex_digits-HexPrinted w va 0 front in
    let same = text-same front.buf done.buf o.ptr k (λ j l r. d.before j (omega (arith, z.0))) in
    let parts =
      text-add done.buf o.ptr k w
      ∙ ap₂ (λ (xs ys : List ℕ). xs ++ ys) (same ∙ z.1)
          (ap (λ (q : ℕ). text done.buf q w) (sym z.0)) in
    let n = length-text done.buf o.ptr (k + w) in
    (
      done,
      k + w,
      λ fuel enough. rw (hex_width_more 8 fuel va 1 0x0F w enough found8, print_hex),
      record {
        moved = omega (arith, d.moved, z.0);
        before = λ j h. d.before j (omega (arith, z.0)) ∙ z.2 j h;
        hex_text = record {
          all_digits = rw parts (
              AllDigits-append 16 (replicate k b'0') (text done.buf front.ptr w)
                (AllDigits-zeros 16 k (omega arith)) d.all_digits);
          stands_for =
              ap (value_from 16 0) parts
              ∙ value_from-append 16 0 (replicate k b'0') (text done.buf front.ptr w)
              ∙ ap (λ (t : ℕ). value_from 16 t (text done.buf front.ptr w)) (value_from-zeros k)
              ∙ d.stands_for
              ∙ omega (arith, mod-eq_of_lt range.0);
          places = rw n (ground (arith, range));
        };
      },
    )

-- For every `u32`, `print_hex` returns: its first loop takes eight rounds at most. It writes as many places
-- as the width, which is 8 if none is given, or more only if the number has more digits; they stand for the
-- number in base 16, and the buffer in front is as it was.
pub print_hex-value :
    (va arg_width : ℕ) (o : Out)
    → va < 2 ^ 32
    → (o' : Out) × (n : ℕ) × (print_hex 8 va arg_width o ≡ some o')
      × (o'.ptr ≡ o.ptr + n)
      × ((n ≡ hex_pad arg_width) ⊎ ((hex_pad arg_width < n) × (2 ^ ((n - 1) * 4) ≤ va)))
      × (value 16 (text o'.buf o.ptr n) ≡ va)
      × ((j : ℕ) → j < o.ptr → o'.buf j ≡ o.buf j)
print_hex-value va arg_width o small =
    let (o', n, run, p) = print_hex-PrintedHex va arg_width o small in
    let t = p.hex_text in
    (
      o',
      n,
      run 8 (omega arith),
      p.moved,
      rw (sym (length-text o'.buf o.ptr n)) t.places,
      t.stands_for,
      p.before,
    )
