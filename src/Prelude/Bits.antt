-- ===== src/Prelude/Bits.antt =====
-- `&` and `|` at variables: one equation for the lowest digit, and the masks and fields that the
-- program uses.
use Prim.Native.Nat.{
  ℕ, zero, suc, ◌+◌, ◌-◌, ◌*◌, ◌/◌, ◌%◌, ◌^◌, ◌≤◌, ◌<◌, min, max, bit_and, bit_or, digits,
  bit_and-bitwise, bit_or-bitwise,
}
use mathlib.Core.Path.{◌≡◌, refl, ap, ◌∙◌}
use mathlib.Core.Bool.{Bool, true, ◌&&◌}
use native.Mathlib.Nat.{pow-suc, one-le-pow, div-div-eq-div-mul}
use native.Mathlib.Omega.{arith}

-- The recursion on digits that the native operations stand for gives the same on any fuel from
-- the first number on.
module _ (z : ℕ → ℕ) (f : ℕ → ℕ → ℕ) where
  digits-fuel : (n m a b : ℕ) → a ≤ n → n ≤ m → digits z f n a b ≡ digits z f m a b
  digits-fuel n m zero b p q = fuel_zero n m
    where
      fuel_zero : (n m : ℕ) → digits z f n 0 b ≡ digits z f m 0 b
      fuel_zero zero zero = refl
      fuel_zero zero (suc m) = refl
      fuel_zero (suc n) zero = refl
      fuel_zero (suc n) (suc m) = refl
  digits-fuel zero m (suc a) b p q = absurd (omega arith)
  digits-fuel (suc n) zero (suc a) b p q = absurd (omega arith)
  digits-fuel (suc n) (suc m) (suc a) b p q =
      ap (λ (t : ℕ). t * 2 + f (suc a % 2) (b % 2))
        (digits-fuel n m (suc a / 2) (b / 2) (omega arith) (omega arith))

-- One digit of `&` and of `|`.
pub bit_and_step : (x y : ℕ) → bit_and x y ≡ bit_and (x / 2) (y / 2) * 2 + min (x % 2) (y % 2)
bit_and_step zero y = omega (arith, bit_and-bitwise 0 y, bit_and-bitwise 0 (y / 2))
bit_and_step (suc x) y = omega (
  arith,
  bit_and-bitwise (suc x / 2) (y / 2),
  bit_and-bitwise (suc x) y,
  digits-fuel (λ _. 0) min (suc x / 2) x (suc x / 2) (y / 2) (omega arith) (omega arith),
)

pub bit_or_step : (x y : ℕ) → bit_or x y ≡ bit_or (x / 2) (y / 2) * 2 + max (x % 2) (y % 2)
bit_or_step zero y = omega (arith, bit_or-bitwise 0 y, bit_or-bitwise 0 (y / 2))
bit_or_step (suc x) y = omega (
  arith,
  bit_or-bitwise (suc x) y,
  bit_or-bitwise (suc x / 2) (y / 2),
  digits-fuel (λ d. d) max (suc x / 2) x (suc x / 2) (y / 2) (omega arith) (omega arith),
)

bit_and-zero : (n a : ℕ) → a ≤ n → bit_and a 0 ≡ 0
bit_and-zero n zero h = refl
bit_and-zero zero (suc a) h = absurd (omega arith)
bit_and-zero (suc n) (suc a) h =
    omega (arith, bit_and_step (suc a) 0, bit_and-zero n (suc a / 2) (omega arith))

bit_or-zero : (n a : ℕ) → a ≤ n → bit_or a 0 ≡ a
bit_or-zero n zero h = refl
bit_or-zero zero (suc a) h = absurd (omega arith)
bit_or-zero (suc n) (suc a) h =
    omega (arith, bit_or_step (suc a) 0, bit_or-zero n (suc a / 2) (omega arith))

half-scaled : (m k : ℕ) → m * 2 ^ suc k ≡ 2 * (m * 2 ^ k)
half-scaled m k = omega (arith, ap (λ (t : ℕ). m * t) (pow-suc 2 k))

-- A mask that is shifted left by `k` picks from the digits above `k`.
pub bit_and_shifted : (k a m : ℕ) → bit_and a (m * 2 ^ k) ≡ bit_and (a / 2 ^ k) m * 2 ^ k
bit_and_shifted zero a m = ground arith
bit_and_shifted (suc k) a m = ground (
  arith,
  bit_and_step a (m * 2 ^ suc k),
  half-scaled m k,
  bit_and_shifted k (a / 2) m,
  half-scaled (bit_and (a / 2 / 2 ^ k) m) k,
  pow-suc 2 k,
  div-div-eq-div-mul a 2 (2 ^ k),
)

masked_field : (k q r : ℕ) → r < 2 ^ k → bit_and (q * 2 ^ k + r) (2 ^ k - 1) ≡ r
masked_field zero q r h = ground (arith, bit_and-zero (q * 2 ^ 0 + r) (q * 2 ^ 0 + r))
masked_field (suc k) q r h = ground (
  arith,
  bit_and_step (q * 2 ^ suc k + r) (2 ^ suc k - 1),
  half-scaled q k,
  pow-suc 2 k,
  one-le-pow k 2,
  masked_field k q (r / 2) (omega (arith, pow-suc 2 k)),
)

-- A mask of `k` ones is the remainder by `2 ^ k`.
pub bit_and_mask : (k a : ℕ) → bit_and a (2 ^ k - 1) ≡ a % 2 ^ k
bit_and_mask k a = ground (arith, one-le-pow k 2, masked_field k (a / 2 ^ k) (a % 2 ^ k))

-- `|` of a field above `k` and one that fits `k` digits is their sum.
pub bit_or_fields : (k q r : ℕ) → r < 2 ^ k → bit_or (q * 2 ^ k) r ≡ q * 2 ^ k + r
bit_or_fields zero q r h = ground (arith, bit_or-zero q q (omega arith))
bit_or_fields (suc k) q r h = ground (
  arith,
  bit_or_step (q * 2 ^ suc k) r,
  half-scaled q k,
  pow-suc 2 k,
  bit_or_fields k q (r / 2) (omega (arith, pow-suc 2 k)),
)

-- A mask of one bit tells whether that bit is set.
pub bit_and_bit : (k a : ℕ) → bit_and a (2 ^ k) ≡ a / 2 ^ k % 2 * 2 ^ k
bit_and_bit k a =
    ap (bit_and a) (omega arith)
    ∙ bit_and_shifted k a 1
    ∙ ap (λ (t : ℕ). t * 2 ^ k) (bit_and_mask 1 (a / 2 ^ k))

-- Over a small range a test is checked at every value.
unfoldable pub holds_below : ℕ → (ℕ → Bool) → Bool
holds_below zero test = true
holds_below (suc bound) test = test bound && holds_below bound test

pub holds_below-at :
    (bound : ℕ) (test : ℕ → Bool) (k : ℕ)
    → holds_below bound test ≡ true
    → k < bound
    → test k ≡ true
unfolding holds_below
holds_below-at zero test k all inside = absurd (omega arith)
holds_below-at (suc bound) test k all inside = ground (arith, holds_below-at bound test k)

pub bit_or_fields_right : (k q r : ℕ) → r < 2 ^ k → bit_or r (q * 2 ^ k) ≡ q * 2 ^ k + r
bit_or_fields_right zero q zero h = omega (arith, bit_or-bitwise 0 (q * 2 ^ 0))
bit_or_fields_right zero q (suc r) h = absurd (omega arith)
bit_or_fields_right (suc k) q r h = ground (
  arith,
  bit_or_step r (q * 2 ^ suc k),
  half-scaled q k,
  pow-suc 2 k,
  bit_or_fields_right k q (r / 2) (omega (arith, pow-suc 2 k)),
)
