-- ===== src/Printk/Determined.antt =====
-- The texts of formats of printk.c are determined by the formats and the arguments.
use tinu_os.Prelude.{
  ℕ, ◌+◌, ◌≤◌, ◌≡◌, refl, sym, ap, ◌∙◌, some, List, [], ◌∷◌, ◌++◌, arith, length, u32,
}
use mathlib.Core.Path.{ap₂, subst}
use tinu_os.Texts.{text, AllBytes}
use tinu_os.Printk.{Mode, Buffer, plain, vasprintf}
use tinu_os.Printk.Width.{last_exact}
use tinu_os.Printk.Unique.{HexText-unique, DecText-unique}
use tinu_os.Printk.Rendering.{
  Conversion, a_text, a_char, a_hex, a_decimal, a_percent, itself, Rendered, ended, cut_off,
  literal, opened, widened, converted, vasprintf_lem,
}

module _ {arg : ℕ → ℕ} {text_at : ℕ → List ℕ} (small : (i : ℕ) → u32 (arg i) ≤ last_exact) where
  Conversion-unique :
      {c width n m m' : ℕ} {cs ds : List ℕ}
      → Conversion arg text_at c width n m cs
      → Conversion arg text_at c width n m' ds
      → (m ≡ m') × (cs ≡ ds)
  Conversion-unique (a_text h) (a_text k) = (refl, refl)
  Conversion-unique (a_text h) (a_char k) = absurd (omega arith)
  Conversion-unique (a_text h) (a_hex k kt) = absurd (omega arith)
  Conversion-unique (a_text h) (a_decimal k kt) = absurd (omega arith)
  Conversion-unique (a_text h) (a_percent k) = absurd (omega arith)
  Conversion-unique (a_text h) (itself k1 k2 k3 k4) = absurd (k1 h)
  Conversion-unique (a_char h) (a_text k) = absurd (omega arith)
  Conversion-unique (a_char h) (a_char k) = (refl, refl)
  Conversion-unique (a_char h) (a_hex k kt) = absurd (omega arith)
  Conversion-unique (a_char h) (a_decimal k kt) = absurd (omega arith)
  Conversion-unique (a_char h) (a_percent k) = absurd (omega arith)
  Conversion-unique (a_char h) (itself k1 k2 k3 k4) = absurd (k2 h)
  Conversion-unique (a_hex h ht) (a_text k) = absurd (omega arith)
  Conversion-unique (a_hex h ht) (a_char k) = absurd (omega arith)
  Conversion-unique {width = width} {n = n} {cs = cs} {ds = ds} (a_hex h ht) (a_hex k kt) =
      (refl, HexText-unique (u32 (arg n)) width cs ds ht kt)
  Conversion-unique (a_hex h ht) (a_decimal k kt) = absurd (omega arith)
  Conversion-unique (a_hex h ht) (a_percent k) = absurd (omega arith)
  Conversion-unique (a_hex h ht) (itself k1 k2 k3 k4) = absurd (k3 h)
  Conversion-unique (a_decimal h ht) (a_text k) = absurd (omega arith)
  Conversion-unique (a_decimal h ht) (a_char k) = absurd (omega arith)
  Conversion-unique (a_decimal h ht) (a_hex k kt) = absurd (omega arith)
  Conversion-unique {width = width} {n = n} {cs = cs} {ds = ds} (a_decimal h ht) (a_decimal k kt) =
      (refl, DecText-unique (u32 (arg n)) width cs ds (small n) ht kt)
  Conversion-unique (a_decimal h ht) (a_percent k) = absurd (omega arith)
  Conversion-unique (a_decimal h ht) (itself k1 k2 k3 k4) = absurd (k4 h)
  Conversion-unique (a_percent h) (a_text k) = absurd (omega arith)
  Conversion-unique (a_percent h) (a_char k) = absurd (omega arith)
  Conversion-unique (a_percent h) (a_hex k kt) = absurd (omega arith)
  Conversion-unique (a_percent h) (a_decimal k kt) = absurd (omega arith)
  Conversion-unique (a_percent h) (a_percent k) = (refl, refl)
  Conversion-unique (a_percent h) (itself k1 k2 k3 k4) = (refl, ap (λ (x : ℕ). x ∷ []) (sym h))
  Conversion-unique (itself h1 h2 h3 h4) (a_text k) = absurd (h1 k)
  Conversion-unique (itself h1 h2 h3 h4) (a_char k) = absurd (h2 k)
  Conversion-unique (itself h1 h2 h3 h4) (a_hex k kt) = absurd (h3 k)
  Conversion-unique (itself h1 h2 h3 h4) (a_decimal k kt) = absurd (h4 k)
  Conversion-unique (itself h1 h2 h3 h4) (a_percent k) = (refl, ap (λ (x : ℕ). x ∷ []) k)
  Conversion-unique (itself h1 h2 h3 h4) (itself k1 k2 k3 k4) = (refl, refl)

  pub Rendered-unique :
      {mode : Mode} {n : ℕ} {fmt cs ds : List ℕ}
      → Rendered arg text_at mode n fmt cs
      → Rendered arg text_at mode n fmt ds
      → cs ≡ ds
  Rendered-unique ended ended = refl
  Rendered-unique (cut_off h) (cut_off k) = (Conversion-unique h k).1
  Rendered-unique (literal {c = c} _ r) (literal _ s) = ap (λ xs. c ∷ xs) (Rendered-unique r s)
  Rendered-unique (literal h r) (opened k s) = absurd (h k)
  Rendered-unique (opened h r) (literal k s) = absurd (k h)
  Rendered-unique (opened _ r) (opened _ s) = Rendered-unique r s
  Rendered-unique (widened _ r) (widened _ s) = Rendered-unique r s
  Rendered-unique (widened h r) (converted k c s) = cc
  Rendered-unique (converted h c r) (widened k s) = cc
  Rendered-unique (converted {cs = rest} {ds = xs} _ h r) (converted _ k s) =
      let (next, first) = Conversion-unique h k in
      ap₂ ◌++◌ first (Rendered-unique (subst (λ q. Rendered arg text_at plain q rest xs) next r) s)

-- When every argument is small enough for `print_dec` to count its digits right, a format of bytes, with texts of bytes
-- behind its arguments, has one text only: any text that belongs to the format and the arguments is the one that
-- `vasprintf` writes, with 32 rounds or more for each number, and its length is what `vasprintf` returns.
pub vasprintf-Rendered :
    (arg : ℕ → ℕ) (text_at : ℕ → List ℕ) (buf : Buffer) (fmt ds : List ℕ)
    → ((p : ℕ) → AllBytes (text_at p))
    → ((i : ℕ) → u32 (arg i) ≤ last_exact)
    → AllBytes fmt
    → Rendered arg text_at plain 0 fmt ds
    → (b : Buffer) × ((k : ℕ) → vasprintf arg text_at (32 + k) buf fmt ≡ some (length ds, b))
      × (text b 0 (length ds) ≡ ds)
      × (b (length ds) ≡ 0)
vasprintf-Rendered arg text_at buf fmt ds bytes small h rendered =
    let (b, cs, run, written, holds, ends) = vasprintf_lem arg text_at bytes buf fmt h in
    let same = Rendered-unique small written rendered in
    (
      b,
      λ k. run k ∙ ap (λ xs. some (length xs, b)) same,
      ap (λ xs. text b 0 (length xs)) (sym same) ∙ holds ∙ same,
      ap (λ xs. b (length xs)) (sym same) ∙ ends,
    )
