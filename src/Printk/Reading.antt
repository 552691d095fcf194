-- ===== src/Printk/Reading.antt =====
-- What the text of a format of printk.c looks like, a piece of the format at a time.
use tinu_os.Prelude.{
  ℕ, ◌+◌, ◌≤◌, ◌<◌, ◌≡◌, refl, ap, ◌∙◌, ◌≢◌, false, List, [], ◌∷◌, ◌++◌, arith, u32,
}
use mathlib.Core.Path.{ap₂}
use tinu_os.Printk.{Mode, plain, percent, is_digit}
use tinu_os.Printk.Rendering.{
  Conversion, a_text, a_char, a_hex, a_decimal, a_percent, itself, Rendered, ended, cut_off,
  literal, opened, widened, converted,
}
use tinu_os.Printk.Buffers.{AllDigits}
use tinu_os.Texts.{AllBytes, AllBytes-append}
use tinu_os.Printk.Width.{DecText}

-- Characters, and none of them a `%`.
abbrev pub IsPlain : List ℕ → Type 0
IsPlain [] = Unit
IsPlain (c ∷ cs) = (0 < c) × (c < 256) × (c ≢ b'%') × IsPlain cs

pub IsPlain-AllBytes : (cs : List ℕ) → IsPlain cs → AllBytes cs
IsPlain-AllBytes [] h = tt
IsPlain-AllBytes (c ∷ cs) h = (h.1, IsPlain-AllBytes cs h.3)

pub IsPlain-append : (cs ds : List ℕ) → IsPlain cs → IsPlain ds → IsPlain (cs ++ ds)
IsPlain-append [] ds h k = k
IsPlain-append (c ∷ cs) ds h k = (h.0, h.1, h.2, IsPlain-append cs ds h.3 k)

pub IsPlain-digits : (cs : List ℕ) → AllDigits 10 cs → IsPlain cs
IsPlain-digits [] h = tt
IsPlain-digits (c ∷ cs) h = (
  ground (arith, h.0, h.1),
  ground (arith, h.0, h.1),
  ground (arith, h.0, h.1),
  IsPlain-digits cs h.2,
)

AllDigits-AllBytes : (base : ℕ) (cs : List ℕ) → base ≤ 16 → AllDigits base cs → AllBytes cs
AllDigits-AllBytes base [] small h = tt
AllDigits-AllBytes base (c ∷ cs) small h =
    (ground (arith, h.0, h.1), AllDigits-AllBytes base cs small h.2)

module _ {arg : ℕ → ℕ} {text_at : ℕ → List ℕ} where
  Rendered-nil : {n : ℕ} {out : List ℕ} → Rendered arg text_at plain n [] out → out ≡ []
  Rendered-nil ended = refl

  Rendered-literal :
      {c n : ℕ} {cs out : List ℕ}
      → c ≢ b'%'
      → Rendered arg text_at plain n (c ∷ cs) out
      → (ds : List ℕ) × (out ≡ c ∷ ds) × Rendered arg text_at plain n cs ds
  Rendered-literal no_percent (literal {ds = ds} e r) = (ds, refl, r)
  Rendered-literal no_percent (opened e r) = absurd (no_percent e)

  Rendered-opened :
      {c n : ℕ} {cs out : List ℕ}
      → c ≡ b'%'
      → Rendered arg text_at plain n (c ∷ cs) out
      → Rendered arg text_at (percent 0) n cs out
  Rendered-opened e (literal other r) = absurd (other e)
  Rendered-opened e (opened _ r) = r

  Rendered-converted :
      {c width n : ℕ} {cs out : List ℕ}
      → is_digit c ≡ false
      → Rendered arg text_at (percent width) n (c ∷ cs) out
      → (m : ℕ) × (es : List ℕ) × (ds : List ℕ) × (out ≡ es ++ ds)
        × Conversion arg text_at c width n m es
        × Rendered arg text_at plain m cs ds
  Rendered-converted e (widened digit r) = cc
  Rendered-converted e (converted {m = m} {es = es} {ds = ds} other conversion r) =
      (m, es, ds, refl, conversion, r)

  Conversion-text :
      {c width n m : ℕ} {es : List ℕ}
      → c ≡ b's'
      → Conversion arg text_at c width n m es
      → (m ≡ n + 1) × (es ≡ text_at (arg n))
  Conversion-text e (a_text _) = (refl, refl)
  Conversion-text e (a_char h) = absurd (omega arith)
  Conversion-text e (a_hex h _) = absurd (omega arith)
  Conversion-text e (a_decimal h _) = absurd (omega arith)
  Conversion-text e (a_percent h) = absurd (omega arith)
  Conversion-text e (itself other _ _ _) = absurd (other e)

  Conversion-decimal :
      {c width n m : ℕ} {es : List ℕ}
      → c ≡ b'd'
      → Conversion arg text_at c width n m es
      → (m ≡ n + 1) × DecText (u32 (arg n)) width es
  Conversion-decimal e (a_text h) = absurd (omega arith)
  Conversion-decimal e (a_char h) = absurd (omega arith)
  Conversion-decimal e (a_hex h _) = absurd (omega arith)
  Conversion-decimal e (a_decimal _ t) = (refl, t)
  Conversion-decimal e (a_percent h) = absurd (omega arith)
  Conversion-decimal e (itself _ _ _ other) = absurd (other e)

  -- The text of plain characters is those characters.
  pub Rendered-plain :
      (cs rest : List ℕ) {n : ℕ} {out : List ℕ}
      → IsPlain cs
      → Rendered arg text_at plain n (cs ++ rest) out
      → (ds : List ℕ) × (out ≡ cs ++ ds) × Rendered arg text_at plain n rest ds
  Rendered-plain [] rest {out = out} h r = (out, refl, r)
  Rendered-plain (c ∷ cs) rest h r =
      let (ds, e, r1) = Rendered-literal h.2 r in
      let (es, f, r2) = Rendered-plain cs rest h.3 r1 in (es, e ∙ ap (λ xs. c ∷ xs) f, r2)

  Rendered-all :
      (cs : List ℕ) {n : ℕ} {out : List ℕ}
      → IsPlain cs
      → Rendered arg text_at plain n cs out
      → out ≡ cs
  Rendered-all [] h r = Rendered-nil r
  Rendered-all (c ∷ cs) h r =
      let (ds, e, r1) = Rendered-literal h.2 r in e ∙ ap (λ xs. c ∷ xs) (Rendered-all cs h.3 r1)

  -- The text of a format with one `%s` between plain characters.
  pub text_between :
      (cs rest : List ℕ) {out : List ℕ}
      → IsPlain cs
      → IsPlain rest
      → Rendered arg text_at plain 0 (cs ++ (b'%' ∷ b's' ∷ rest)) out
      → out ≡ cs ++ (text_at (arg 0) ++ rest)
  text_between cs rest h k r =
      let (ds, e, r1) = Rendered-plain cs (b'%' ∷ b's' ∷ rest) h r in
      let (m, es, fs, f, c, r2) = Rendered-converted refl (Rendered-opened refl r1) in
      let last = Rendered-all rest k r2 in
      e ∙ ap (λ xs. cs ++ xs) (f ∙ ap₂ ◌++◌ (Conversion-text refl c).1 last)

  -- The text of a format with one `%d` between plain characters.
  pub number_between :
      (cs rest : List ℕ) {out : List ℕ}
      → IsPlain cs
      → IsPlain rest
      → Rendered arg text_at plain 0 (cs ++ (b'%' ∷ b'd' ∷ rest)) out
      → (es : List ℕ) × (out ≡ cs ++ (es ++ rest)) × DecText (u32 (arg 0)) 0 es
  number_between cs rest h k r =
      let (ds, e, r1) = Rendered-plain cs (b'%' ∷ b'd' ∷ rest) h r in
      let (m, es, fs, f, c, r2) = Rendered-converted refl (Rendered-opened refl r1) in
      let last = Rendered-all rest k r2 in
      (es, e ∙ ap (λ xs. cs ++ xs) (f ∙ ap (λ xs. es ++ xs) last), (Conversion-decimal refl c).1)

  Conversion-AllBytes :
      {c width n m : ℕ} {es : List ℕ}
      → ((p : ℕ) → AllBytes (text_at p))
      → c < 256
      → Conversion arg text_at c width n m es
      → AllBytes es
  Conversion-AllBytes {n = n} bytes h (a_text _) = bytes (arg n)
  Conversion-AllBytes bytes h (a_char _) = (omega arith, tt)
  Conversion-AllBytes {es = es} bytes h (a_hex _ t) =
      AllDigits-AllBytes 16 es (omega arith) t.all_digits
  Conversion-AllBytes {es = es} bytes h (a_decimal _ t) =
      AllDigits-AllBytes 10 es (omega arith) t.all_digits
  Conversion-AllBytes bytes h (a_percent _) = (omega arith, tt)
  Conversion-AllBytes bytes h (itself _ _ _ _) = (h, tt)

  -- The text of a format of bytes consists of bytes.
  pub Rendered-AllBytes :
      {mode : Mode} {n : ℕ} {cs ds : List ℕ}
      → ((p : ℕ) → AllBytes (text_at p))
      → AllBytes cs
      → Rendered arg text_at mode n cs ds
      → AllBytes ds
  Rendered-AllBytes bytes h ended = tt
  Rendered-AllBytes bytes h (cut_off c) = Conversion-AllBytes bytes (omega arith) c
  Rendered-AllBytes bytes h (literal _ r) = (h.0, Rendered-AllBytes bytes h.1 r)
  Rendered-AllBytes bytes h (opened _ r) = Rendered-AllBytes bytes h.1 r
  Rendered-AllBytes bytes h (widened _ r) = Rendered-AllBytes bytes h.1 r
  Rendered-AllBytes bytes h (converted {es = es} {ds = ds} _ c r) =
      AllBytes-append es ds (Conversion-AllBytes bytes h.0 c) (Rendered-AllBytes bytes h.1 r)
