-- ===== src/Texts.antt =====
-- The bytes of a text in a buffer or in memory, as a list.
use tinu_os.Prelude.{
  ℕ, zero, suc, ◌+◌, ◌≤◌, ◌<◌, ◌≡◌, refl, ap, ◌∙◌, List, [], ◌∷◌, ◌++◌, arith, length,
}
use mathlib.Core.Path.{ap₂}

-- The `n` bytes from `p` on.
unfoldable pub text : (ℕ → ℕ) → ℕ → ℕ → List ℕ
text b p zero = []
text b p (suc n) = b p ∷ text b (p + 1) n

pub text-same :
    (b c : ℕ → ℕ) (p n : ℕ) → ((j : ℕ) → p ≤ j → j < p + n → c j ≡ b j) → text c p n ≡ text b p n
unfolding text
text-same b c p zero h = refl
text-same b c p (suc n) h =
    ap₂ ◌∷◌ (h p (omega arith) (omega arith))
      (text-same b c (p + 1) n (λ j l r. h j (omega arith) (omega arith)))

pub length-text : (b : ℕ → ℕ) (p n : ℕ) → length (text b p n) ≡ n
unfolding text
length-text b p zero = refl
length-text b p (suc n) = ap suc (length-text b (p + 1) n)

pub text-add : (b : ℕ → ℕ) (p n k : ℕ) → text b p (n + k) ≡ text b p n ++ text b (p + n) k
unfolding text
text-add b p zero k =
    let e : 0 + k ≡ k = omega arith in
    let f : p ≡ p + 0 = omega arith in ap (text b p) e ∙ ap (λ (q : ℕ). text b q k) f
text-add b p (suc n) k =
    let e : suc n + k ≡ suc (n + k) = omega arith in
    let f : p + 1 + n ≡ p + suc n = omega arith in
    ap (text b p) e
    ∙ ap (◌∷◌ (b p)) (text-add b (p + 1) n k ∙ ap (λ (q : ℕ). text b (p + 1) n ++ text b q k) f)

abbrev pub AllBytes : List ℕ → Type 0
AllBytes [] = Unit
AllBytes (c ∷ cs) = (c < 256) × AllBytes cs

pub AllBytes-append : (cs ds : List ℕ) → AllBytes cs → AllBytes ds → AllBytes (cs ++ ds)
AllBytes-append [] ds h k = k
AllBytes-append (c ∷ cs) ds h k = (h.0, AllBytes-append cs ds h.1 k)
