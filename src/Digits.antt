-- ===== src/Digits.antt =====
-- Texts of digits, which several parts of the program write, and the number that one stands for.
pub mod Place
use tinu_os.Prelude.{
  ℕ, ◌+◌, ◌-◌, ◌*◌, ◌<◌, ◌≡◌, refl, List, [], ◌∷◌, ◌++◌, arith, ltb, leb, if◌then◌else◌,
}

-- `'0'` to `'9'`, and `'a'` on.
abbrev pub digit_char : ℕ → ℕ
digit_char d = if ltb d 10 then d + b'0' else d + b'a' - 10

abbrev pub digit_value : ℕ → ℕ
digit_value c = if leb b'a' c then c - b'a' + 10 else c - b'0'

-- The number that a text stands for, behind one that stands for `acc`.
unfoldable pub value_from : ℕ → ℕ → List ℕ → ℕ
value_from base acc [] = acc
value_from base acc (c ∷ cs) = value_from base (acc * base + digit_value c) cs

unfoldable pub value : ℕ → List ℕ → ℕ
unfolding value_from
value base cs = value_from base 0 cs

pub digit_value-digit_char : (d : ℕ) → d < 16 → digit_value (digit_char d) ≡ d
digit_value-digit_char d h = ground arith

pub value_from-append :
    (base acc : ℕ) (cs ds : List ℕ)
    → value_from base acc (cs ++ ds) ≡ value_from base (value_from base acc cs) ds
unfolding value_from
value_from-append base acc [] ds = refl
value_from-append base acc (c ∷ cs) ds = value_from-append base (acc * base + digit_value c) cs ds
