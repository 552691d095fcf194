-- ===== src/Printk/Unique.antt =====
-- A format of printk.c has one text only.
use tinu_os.Prelude.{
  ℕ, zero, suc, ◌+◌, ◌-◌, ◌*◌, ◌^◌, ◌≤◌, ◌<◌, ◌≡◌, refl, sym, ap, ◌∙◌, ◌⊎◌, inl, inr, List, [], ◌∷◌,
  arith, ltb, ltb→lt, Bool-cases, length,
}
use native.Mathlib.Nat.{pow-zero, pow-suc, mul-le-mul_right, mul_assoc, mul_comm, pow-le-pow_right}
use mathlib.Core.Path.{ap₂}
use tinu_os.Digits.{digit_char, digit_value, value_from, value}
use tinu_os.Printk.Buffers.{AllDigits}
use tinu_os.Printk.Hexadecimal.{HexText, sixteen}
use tinu_os.Printk.Width.{DecText, last_exact}

value_from-cons :
    (base acc c : ℕ) (cs : List ℕ)
    → value_from base acc (c ∷ cs) ≡ value_from base (acc * base + digit_value c) cs
unfolding value_from
value_from-cons base acc c cs = refl

value_from-nil : (base acc : ℕ) → value_from base acc [] ≡ acc
unfolding value_from
value_from-nil base acc = refl

-- The base of a number.
abbrev IsBase : ℕ → Type 0
IsBase base = (base ≡ 10) ⊎ (base ≡ 16)

one_step :
    (base a b x y : ℕ)
    → IsBase base
    → x < base
    → y < base
    → a * base + x ≡ b * base + y
    → (a ≡ b) × (x ≡ y)
one_step base a b x y (inl e) hx hy h =
    let k : a * 10 + x ≡ b * 10 + y = rw (sym e) h in (omega (arith, k, e), omega (arith, k, e))
one_step base a b x y (inr e) hx hy h =
    let k : a * 16 + x ≡ b * 16 + y = rw (sym e) h in (omega (arith, k, e), omega (arith, k, e))

-- Texts of digits of the same length that stand for the same number are the same.
value_from_unique :
    (base a b : ℕ) (cs ds : List ℕ)
    → IsBase base
    → length cs ≡ length ds
    → AllDigits base cs
    → AllDigits base ds
    → value_from base a cs ≡ value_from base b ds
    → (a ≡ b) × (cs ≡ ds)
value_from_unique base a b [] [] ok l h k e =
    (sym (value_from-nil base a) ∙ e ∙ value_from-nil base b, refl)
value_from_unique base a b [] (d ∷ ds) ok l h k e = absurd (omega arith)
value_from_unique base a b (c ∷ cs) [] ok l h k e = absurd (omega arith)
value_from_unique base a b (c ∷ cs) (d ∷ ds) ok l h k e =
    let (next, rest) =
      value_from_unique base (a * base + digit_value c) (b * base + digit_value d) cs ds ok
        (omega arith) h.2 k.2
        (sym (value_from-cons base a c cs) ∙ e ∙ value_from-cons base b d ds) in
    let (same, digit) = one_step base a b (digit_value c) (digit_value d) ok h.0 k.0 next in
    (same, ap₂ ◌∷◌ (sym h.1 ∙ ap (λ (x : ℕ). digit_char x) digit ∙ k.1) rest)

below_next : (base acc x : ℕ) → IsBase base → x < base → acc * base + x + 1 ≤ (acc + 1) * base
below_next base acc x (inl e) h =
    let k : acc * 10 + x + 1 ≤ (acc + 1) * 10 = omega (arith, h, e) in rw e k
below_next base acc x (inr e) h =
    let k : acc * 16 + x + 1 ≤ (acc + 1) * 16 = omega (arith, h, e) in rw e k

-- A text of digits stands for less than the power of the base with so many places.
value_from-lt :
    (base acc : ℕ) (cs : List ℕ)
    → IsBase base
    → AllDigits base cs
    → value_from base acc cs < (acc + 1) * base ^ length cs
unfolding value_from
value_from-lt base acc [] ok h =
    let e : base ^ length {A = ℕ} [] ≡ 1 = pow-zero base in
    omega (arith, e, ap (λ (t : ℕ). (acc + 1) * t) e)
value_from-lt base acc (c ∷ cs) ok h =
    let rest = value_from-lt base (acc * base + digit_value c) cs ok h.2 in
    let p : ℕ = base ^ length cs in
    let power : base ^ suc (length cs) ≡ p * base = pow-suc base (length cs) in
    let room = mul-le-mul_right p (below_next base acc (digit_value c) ok h.0) in
    let moved : (acc + 1) * base * p ≡ (acc + 1) * base ^ suc (length cs) =
      mul_assoc (acc + 1) base p ∙ ap (λ (t : ℕ). (acc + 1) * t) (mul_comm base p ∙ sym power) in
    omega (arith, rest, room, moved)

positive : (base : ℕ) → IsBase base → 0 < base
positive base (inl e) = omega (arith, e)
positive base (inr e) = omega (arith, e)

-- A number that has no fewer digits than `ds` has places.
no_shorter :
    (base va : ℕ) (cs ds : List ℕ)
    → IsBase base
    → AllDigits base cs
    → value base cs ≡ va
    → base ^ (length ds - 1) ≤ va
    → length ds ≤ length cs
unfolding value
no_shorter base va cs ds ok h e least = elim (Bool-cases (ltb (length cs) (length ds))) [
  | inr no_less ↦ ground arith
  | inl less ↦
      let l = ltb→lt (length cs) (length ds) less in
      let few = value_from-lt base 0 cs ok h in
      let more =
        pow-le-pow_right (positive base ok) {i = length cs} {j = length ds - 1} (omega arith) in
      absurd (omega (arith, few, more, e, least))
]

dec_shorter :
    (va width : ℕ) (cs ds : List ℕ)
    → va ≤ last_exact
    → DecText va width cs
    → DecText va width ds
    → length ds ≤ length cs
dec_shorter va width cs ds small s t = elim t.places [
  | inl padded ↦ omega (arith, padded, s.wide)
  | inr more ↦ elim more [
    | inl one ↦ omega (arith, one, s.some_digit)
    | inr rest ↦ elim rest [
      | inl least ↦ no_shorter 10 va cs ds (inl refl) s.all_digits s.stands_for least
      | inr large ↦ absurd (omega (arith, large.0))
    ]
  ]
]

same_value :
    (base va : ℕ) (cs ds : List ℕ)
    → IsBase base
    → length cs ≡ length ds
    → AllDigits base cs
    → AllDigits base ds
    → value base cs ≡ va
    → value base ds ≡ va
    → cs ≡ ds
unfolding value
same_value base va cs ds ok l h k e f = (value_from_unique base 0 0 cs ds ok l h k (e ∙ sym f)).1

pub DecText-unique :
    (va width : ℕ) (cs ds : List ℕ)
    → va ≤ last_exact
    → DecText va width cs
    → DecText va width ds
    → cs ≡ ds
DecText-unique va width cs ds small s t =
    let same : length cs ≡ length ds =
      omega (arith, dec_shorter va width cs ds small s t, dec_shorter va width ds cs small t s) in
    same_value 10 va cs ds (inl refl) same s.all_digits t.all_digits s.stands_for t.stands_for

sixteen_pow : (n : ℕ) → 16 ^ n ≡ 2 ^ (n * 4)
sixteen_pow zero = refl
sixteen_pow (suc n) = pow-suc 16 n ∙ omega (arith, sixteen_pow n, sixteen n)

hex_shorter :
    (va width : ℕ) (cs ds : List ℕ)
    → HexText va width cs
    → HexText va width ds
    → length ds ≤ length cs
hex_shorter va width cs ds s t = elim t.places [
  | inl padded ↦ elim s.places [
    | inl same ↦ omega (arith, padded, same)
    | inr longer ↦ omega (arith, padded, longer.0)
  ]
  | inr least ↦
      no_shorter 16 va cs ds (inr refl) s.all_digits s.stands_for
        (rw (sixteen_pow (length ds - 1)) least.1)
]

pub HexText-unique :
    (va width : ℕ) (cs ds : List ℕ) → HexText va width cs → HexText va width ds → cs ≡ ds
HexText-unique va width cs ds s t =
    let same : length cs ≡ length ds =
      omega (arith, hex_shorter va width cs ds s t, hex_shorter va width ds cs t s) in
    same_value 16 va cs ds (inr refl) same s.all_digits t.all_digits s.stands_for t.stands_for
