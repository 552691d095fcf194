-- ===== src/Tests/Floats.antt =====
-- A conversion of `u32` to `float` that rounds down to a power of two.
use tinu_os.Prelude.{
  ℕ, zero, suc, ◌+◌, ◌*◌, ◌^◌, ◌≤◌, ◌≡◌, refl, Bool, true, arith, leb, ◌==◌, if◌then◌else◌, ==→eq,
}
use tinu_os.Prelude.Bits.{holds_below, holds_below-at}
use tinu_os.Heap.Power.{IsFloatConversion}

-- How many of the first `n` powers of two are at most `v`.
unfoldable pub count : ℕ → ℕ → ℕ
count zero v = 0
count (suc n) v = count n v + (if leb (2 ^ n) v then 1 else 0)

count_mono : (n v w : ℕ) → v ≤ w → count n v ≤ count n w
unfolding count
count_mono zero v w h = omega arith
count_mono (suc n) v w h = ground (arith, count_mono n v w h)

abbrev pub power_bits : ℕ → ℕ
power_bits v = (0x7e + count 32 v) * 2 ^ 23

abbrev counted : ℕ → Bool
counted k = count 32 (2 ^ k) == k + 1

counted_all : holds_below 32 counted ≡ true
unfolding holds_below count
counted_all = refl

pub power_bits-IsFloatConversion : IsFloatConversion power_bits
power_bits-IsFloatConversion = record {
  exact = λ k h.
      omega (arith, ==→eq (count 32 (2 ^ k)) (k + 1) (holds_below-at 32 counted k counted_all h));
  monotone = λ v w h b. omega (arith, count_mono 32 v w h);
}
