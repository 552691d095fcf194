-- ===== src/Kprintf/Turning.antt =====
-- The second loop of itoa in monitor.c, which turns the digits around.
use tinu_os.Prelude.{
  ℕ, zero, suc, ◌+◌, ◌-◌, ◌*◌, ◌<◌, ◌≡◌, refl, sym, ap, ◌∙◌, inl, inr, true, false, ◌&&◌, some, [],
  ◌∷◌, reverse, arith, ltb, leb, if◌then◌else◌, Bool-cases,
}
use mathlib.Core.Path.{ap₂}
use mathlib.Core.List.{reverse-append}
use tinu_os.Texts.{text, text-add}
use tinu_os.Terminal.{Cells, update}
use tinu_os.Kprintf.{swap_ends}

-- The second loop turns the places from `lo` to `hi` around, and touches no other.
abbrev pub Turned : Cells → ℕ → ℕ → Cells → Type 0
Turned b lo hi b' = (j : ℕ) → b' j ≡ (if leb lo j && leb j hi then b (lo + hi - j) else b j)

swap_ends_stop :
    (fuel : ℕ) (b : Cells) (lo hi : ℕ)
    → ltb lo hi ≡ false
    → (swap_ends (suc fuel) b lo hi ≡ some b) × Turned b lo hi b
unfolding swap_ends
swap_ends_stop fuel b lo hi stop = (ground (arith, stop), λ j. ground (arith, stop))

Turned-suc :
    (b b' : Cells) (lo hi : ℕ)
    → ltb lo hi ≡ true
    → Turned (update (update b lo (b hi)) hi (b lo)) (lo + 1) (hi - 1) b'
    → Turned b lo hi b'
Turned-suc b b' lo hi go inner j =
    let same : lo + 1 + (hi - 1) - j ≡ lo + hi - j = ground (arith, go) in
    inner j ∙ ground (arith, go, ap b same)

swap_ends_go :
    (fuel : ℕ) (b b' : Cells) (lo hi : ℕ)
    → ltb lo hi ≡ true
    → swap_ends fuel (update (update b lo (b hi)) hi (b lo)) (lo + 1) (hi - 1) ≡ some b'
    → swap_ends (suc fuel) b lo hi ≡ some b'
unfolding swap_ends
swap_ends_go fuel b b' lo hi go run = rw go run

pub swap_ends-Turned :
    (fuel : ℕ) (b : Cells) (lo hi : ℕ)
    → hi < lo + 2 * fuel + 1
    → (b' : Cells) × (swap_ends (suc fuel) b lo hi ≡ some b') × Turned b lo hi b'
swap_ends-Turned zero b lo hi enough =
    let (run, turned) = swap_ends_stop 0 b lo hi (ground arith) in (b, run, turned)
swap_ends-Turned (suc fuel) b lo hi enough = elim (Bool-cases (ltb lo hi)) [
  | inl go ↦
      let b1 : Cells = update (update b lo (b hi)) hi (b lo) in
      let (b', run, turned) = swap_ends-Turned fuel b1 (lo + 1) (hi - 1) (ground (arith, go)) in
      (b', swap_ends_go (suc fuel) b b' lo hi go run, Turned-suc b b' lo hi go turned)
  | inr stop ↦ let (run, turned) = swap_ends_stop (suc fuel) b lo hi stop in (b, run, turned)
]

-- A text that is written backwards.
pub text-reverse :
    (b c : Cells) (p q n : ℕ)
    → ((i : ℕ) → i < n → c (q + i) ≡ b (p + (n - 1 - i)))
    → text c q n ≡ reverse (text b p n)
unfolding text
text-reverse b c p q zero h = refl
text-reverse b c p q (suc n) h =
    let e : suc n ≡ n + 1 = omega arith in
    let start : q ≡ q + 0 = omega arith in
    let end : p + (suc n - 1 - 0) ≡ p + n = omega arith in
    let rest = text-reverse b c p (q + 1) n (λ i l. shifted i l) in
    ap₂ ◌∷◌ (ap c start ∙ h 0 (omega arith) ∙ ap b end) rest
    ∙ sym (
        ap (λ (k : ℕ). reverse (text b p k)) e
        ∙ ap reverse (text-add b p n 1)
        ∙ reverse-append (text b p n) (b (p + n) ∷ []))
  where
    shifted : (i : ℕ) → i < n → c (q + 1 + i) ≡ b (p + (n - 1 - i))
    shifted i l =
        let here : q + 1 + i ≡ q + suc i = omega arith in
        let there : p + (suc n - 1 - suc i) ≡ p + (n - 1 - i) = omega arith in
        ap c here ∙ h (suc i) (omega arith) ∙ ap b there
