-- ===== src/Heap/Power.antt =====
-- `next_power_of_two` of mmu/umalloc.c, over what IEEE 754 promises of the conversion to `float`.
use tinu_os.Prelude.{
  ℕ, zero, suc, ◌+◌, ◌*◌, ◌/◌, ◌^◌, ◌≤◌, ◌<◌, ◌≡◌, refl, ◌⊎◌, inl, inr, true, false, arith, ltb,
  ltb→lt, lt→ltb, le→ltb, Bool-cases, u32, sub32,
}
use native.Mathlib.Nat.{pow-suc, pow-le-pow_right}
use tinu_os.Heap.{next_power_of_two}

-- Single precision: a power of two converts exactly, to its biased exponent and a zero fraction, and
-- a larger number converts to no smaller one. (The bits of positive numbers are ordered as they are.)
pub record IsFloatConversion (float_bits : ℕ → ℕ) : Type 0 where
  pub exact : (k : ℕ) → k < 32 → float_bits (2 ^ k) ≡ (k + 0x7f) * 2 ^ 23
  pub monotone : (v w : ℕ) → v ≤ w → w < 2 ^ 32 → float_bits v ≤ float_bits w

module _ (float_bits : ℕ → ℕ) (ieee : IsFloatConversion float_bits) where
  -- Between two powers of two the exponent is that of one of them.
  exponent-between :
      (k v : ℕ)
      → suc k < 32
      → 2 ^ k ≤ v
      → v < 2 ^ suc k
      → 2 ^ suc k < 2 ^ 32
      → (sub32 (float_bits v / 2 ^ 23) 0x7f ≡ k) ⊎ (sub32 (float_bits v / 2 ^ 23) 0x7f ≡ suc k)
  exponent-between k v hk lo hi small = omega (
    arith,
    ieee.exact k (omega arith),
    ieee.exact (suc k) hk,
    ieee.monotone (2 ^ k) v lo (omega arith),
    ieee.monotone v (2 ^ suc k) (omega arith) small,
  )

bracket : (n v : ℕ) → 0 < v → v < 2 ^ n → (k : ℕ) × (k < n) × (2 ^ k ≤ v) × (v < 2 ^ suc k)
bracket zero v pos h = absurd (omega arith)
bracket (suc n) v pos h = elim (Bool-cases (ltb v (2 ^ n))) [
  | inl small ↦
      let (k, a, b, c) = bracket n v pos (ltb→lt v (2 ^ n) small) in (k, omega arith, b, c)
  | inr large ↦ (n, omega arith, ground arith, h)
]

two_pow-le : (k n : ℕ) → k ≤ n → 2 ^ k ≤ 2 ^ n
two_pow-le k n h = pow-le-pow_right (omega arith) h

module _ (float_bits : ℕ → ℕ) (ieee : IsFloatConversion float_bits) where
  at_exponent :
      (v e k : ℕ)
      → 1 < v
      → sub32 (float_bits v / 2 ^ 23) 0x7f ≡ e
      → u32 (2 ^ e) ≡ 2 ^ e
      → (ltb (2 ^ e) v ≡ true) × (u32 (2 ^ e * 2) ≡ 2 ^ k)
        ⊎ (ltb (2 ^ e) v ≡ false) × (2 ^ e ≡ 2 ^ k)
      → next_power_of_two float_bits v ≡ 2 ^ k
  unfolding next_power_of_two
  at_exponent v e k big is small (inl (up, res)) = rw (lt→ltb 1 v big, is, small, up) res
  at_exponent v e k big is small (inr (up, res)) =
      rw (lt→ltb 1 v big, is, small, up) (omega (arith, small, res))

  exponent-above :
      (k v : ℕ)
      → suc k < 32
      → 2 ^ k ≤ v
      → v < 2 ^ suc k
      → 2 ^ suc k < 2 ^ 32
      → (sub32 (float_bits v / 2 ^ 23) 0x7f ≡ k)
        ⊎ (sub32 (float_bits v / 2 ^ 23) 0x7f ≡ suc k) × (2 ^ k < v)
  exponent-above k v hk lo hi small = elim (Bool-cases (ltb (2 ^ k) v)) [
    | inl up ↦ ground (arith, exponent-between float_bits ieee k v hk lo hi small)
    | inr same ↦
        let is_low : v ≡ 2 ^ k = ground arith in
        inl (rw is_low (omega (arith, ieee.exact k (omega arith))))
  ]

  -- The three ways through the code, below the top bit.
  with_exponent :
      (v k : ℕ)
      → 1 < v
      → 2 ^ suc k < 2 ^ 32
      → 2 ^ k ≤ v
      → v < 2 ^ suc k
      → (sub32 (float_bits v / 2 ^ 23) 0x7f ≡ k)
        ⊎ (sub32 (float_bits v / 2 ^ 23) 0x7f ≡ suc k) × (2 ^ k < v)
      → (j : ℕ) × (next_power_of_two float_bits v ≡ 2 ^ j) × (v ≤ 2 ^ j) × (2 ^ j < 2 * v)
  with_exponent v k big small lo hi (inl e) = elim (Bool-cases (ltb (2 ^ k) v)) [
    | inl up ↦ (
      suc k,
      at_exponent v k (suc k) big e (omega (arith, pow-suc 2 k))
          (inl (up, omega (arith, pow-suc 2 k))),
      omega arith,
      omega (arith, pow-suc 2 k, ltb→lt (2 ^ k) v up),
    )
    | inr same ↦ (
      k,
      at_exponent v k k big e (omega (arith, pow-suc 2 k)) (inr (same, refl)),
      ground arith,
      omega arith,
    )
  ]
  with_exponent v k big small lo hi (inr (e, above)) = (
    suc k,
    at_exponent v (suc k) (suc k) big e (omega arith) (inr (le→ltb _ v (omega arith), refl)),
    omega arith,
    omega (arith, pow-suc 2 k),
  )

  in_bracket :
      (v k : ℕ)
      → 1 < v
      → v ≤ 2 ^ 31
      → k < 32
      → 2 ^ k ≤ v
      → v < 2 ^ suc k
      → (j : ℕ) × (next_power_of_two float_bits v ≡ 2 ^ j) × (v ≤ 2 ^ j) × (2 ^ j < 2 * v)
  in_bracket v k big small hk lo hi = elim (Bool-cases (ltb k 31)) [
    | inl low ↦
        let fits = two_pow-le (suc k) 31 (ltb→lt k 31 low) in
        with_exponent v k big (omega arith) lo hi
          (exponent-above k v (omega (arith, ltb→lt k 31 low)) lo hi (omega arith))
    | inr top ↦
        let is_top : v ≡ 2 ^ 31 = omega (arith, two_pow-le 31 k (ground arith)) in
        (
          31,
          at_exponent v 31 31 big (rw is_top (omega (arith, ieee.exact 31 (omega arith)))) refl
              (inr (le→ltb _ v (omega arith), refl)),
          omega arith,
          omega arith,
        )
  ]

  -- For every request between 2 and 2 ^ 31 the result is the least power of two that is not below it.
  pub next_power_of_two-least :
      (v : ℕ)
      → 1 < v
      → v ≤ 2 ^ 31
      → (k : ℕ) × (next_power_of_two float_bits v ≡ 2 ^ k) × (v ≤ 2 ^ k) × (2 ^ k < 2 * v)
  next_power_of_two-least v big small =
      let (k, hk, lo, hi) = bracket 32 v (omega arith) (omega arith) in
      in_bracket v k big small hk lo hi
