-- ===== src/Digits/Place.antt =====
-- One more digit in front: the laws of division that texts of digits rest on.
use tinu_os.Prelude.{ℕ, ◌+◌, ◌*◌, ◌/◌, ◌%◌, ◌<◌, ◌≡◌, ap, ◌∙◌, arith}
use native.Mathlib.Nat.{add-mul-mod_self_right, mod-eq_of_lt, div-add-mod, mod-lt}

below_scaled : (r b p s : ℕ) → r < b → s < p → r * p + s < b * p
below_scaled r b p s hr hs = grind arith

regroup : (u r b p q s m : ℕ) → b * u + r ≡ q → p * q + s ≡ m → m ≡ r * p + s + u * (b * p)
regroup u r b p q s m e f = omega (arith, ap (λ (t : ℕ). t * p) e, f)

-- `m % (b * p)` is a digit in base `b` and what is below it.
pub mod-scaled : (m b p : ℕ) → 0 < b → 0 < p → m % (b * p) ≡ m / p % b * p + m % p
mod-scaled m b p hb hp =
    let q : ℕ = m / p in
    let r : ℕ = q % b in
    let low : ℕ = r * p + m % p in
    let whole : m ≡ low + q / b * (b * p) =
      regroup (q / b) r b p q (m % p) m (div-add-mod q b) (div-add-mod m p) in
    ap (λ (t : ℕ). t % (b * p)) whole
    ∙ add-mul-mod_self_right low (q / b) (b * p)
    ∙ mod-eq_of_lt (below_scaled r b p (m % p) (mod-lt q hb) (mod-lt m hp))
