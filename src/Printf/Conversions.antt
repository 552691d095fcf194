-- ===== src/Printf/Conversions.antt =====
-- What printf and sprintf of printf.c do with a format that has conversions.
use tinu_os.Prelude.{
  ℕ, zero, suc, ◌+◌, ◌-◌, ◌<◌, ◌≡◌, refl, sym, ap, ◌∙◌, inl, inr, false, Option, none, some, List,
  [], ◌∷◌, arith, ltb, ◌==◌, if◌then◌else◌, Bool-cases, length, ◌>>=◌,
}
use tinu_os.Ports.{Device}
use tinu_os.Bios.{Firmware}
use tinu_os.Printk.{Buffer, plain, vasprintf}
use tinu_os.Printk.Rendering.{Rendered, vasprintf_lem}
use tinu_os.Printk.Reading.{IsPlain}
use tinu_os.Texts.{text, AllBytes}
use tinu_os.Tty.{Tty, puts}
use tinu_os.Printf.{c_text, within, sprintf, printf}

-- A text up to its first NUL.
abbrev pub until_nul : List ℕ → List ℕ
until_nul [] = []
until_nul (c ∷ cs) = if c == 0 then [] else c ∷ until_nul cs

c_text-text :
    (fuel : ℕ) (b : Buffer) (p n : ℕ)
    → n < fuel
    → b (p + n) ≡ 0
    → c_text fuel b p ≡ some (until_nul (text b p n))
unfolding c_text text
c_text-text zero b p n enough h = absurd (omega arith)
c_text-text (suc fuel) b p zero enough h =
    let e : p + 0 ≡ p = omega arith in let here : b p ≡ 0 = ap b (sym e) ∙ h in ground (arith, here)
c_text-text (suc fuel) b p (suc n) enough h =
    let e : p + 1 + n ≡ p + suc n = omega arith in
    let rest = c_text-text fuel b (p + 1) n (omega arith) (ap b e ∙ h) in
    elim (Bool-cases (b p == 0)) [ inl stop ↦ rw stop refl | inr more ↦ rw (more, rest) refl ]

pub AllBytes-until_nul : (cs : List ℕ) → AllBytes cs → AllBytes (until_nul cs)
AllBytes-until_nul [] h = tt
AllBytes-until_nul (c ∷ cs) h = elim (Bool-cases (c == 0)) [
  | inl stop ↦ rw stop tt
  | inr more ↦ rw more (h.0, AllBytes-until_nul cs h.1)
]

pub until_nul-IsPlain : (cs : List ℕ) → IsPlain cs → until_nul cs ≡ cs
until_nul-IsPlain [] h = refl
until_nul-IsPlain (c ∷ cs) h =
    let more : (c == 0) ≡ false = ground (arith, h.0) in
    rw more (ap (λ ds. c ∷ ds) (until_nul-IsPlain cs h.3))

-- `sprintf` of a format, and the text that then begins at the start of the buffer.
pub sprintf-Rendered :
    (arg : ℕ → ℕ) (text_at : ℕ → List ℕ) (buf : Buffer) (fmt : List ℕ)
    → ((p : ℕ) → AllBytes (text_at p))
    → AllBytes fmt
    → (b : Buffer) × (ds : List ℕ) × Rendered arg text_at plain 0 fmt ds
      × ((fuel : ℕ)
          → 32 + length ds < fuel
          → (sprintf arg text_at fuel buf fmt ≡ some (length ds, b))
            × (c_text fuel b 0 ≡ some (until_nul ds)))
unfolding sprintf
sprintf-Rendered arg text_at buf fmt bytes h =
    let (b, ds, run, rendered, holds, ends) = vasprintf_lem arg text_at bytes buf fmt h in
    let from : 0 + length ds ≡ length ds = omega arith in
    (
      b,
      ds,
      rendered,
      λ fuel enough.
          let e : 32 + (fuel - 32) ≡ fuel = omega arith in
          (
            ap (λ (n : ℕ). vasprintf arg text_at n buf fmt) (sym e) ∙ run (fuel - 32),
            c_text-text fuel b 0 (length ds) (omega arith) (ap b from ∙ ends)
                ∙ ap (λ cs. some (until_nul cs)) holds,
          ),
    )

module _ {A : Type 0} (size n fuel : ℕ) (b : Buffer) (cs : List ℕ)
    (f : ℕ → Buffer → List ℕ → Option A) where
  -- The text is read back from a buffer, if it went into it.
  pub within-c_text :
      c_text fuel b 0 ≡ some cs
      → (within size (n, b) >>= λ (m, c). c_text fuel c 0 >>= λ xs. f m c xs)
        ≡ (if ltb n size then f n b cs else none)
  unfolding within
  within-c_text read = elim (Bool-cases (ltb n size)) [
    | inl short ↦ rw (short, read) refl
    | inr long ↦ rw long refl
  ]

-- `printf` of a format, whether or not its text goes into the buffer.
pub printf-Rendered :
    (arg : ℕ → ℕ) (text_at : ℕ → List ℕ) (buf : Buffer) (fmt : List ℕ)
    → ((p : ℕ) → AllBytes (text_at p))
    → AllBytes fmt
    → (ds : List ℕ) × Rendered arg text_at plain 0 fmt ds
      × ((fw : Firmware Unit) (device : Device) (fuel : ℕ) (s : Tty)
          → 32 + length ds < fuel
          → printf fw device arg text_at fuel buf fmt s ≡ (
              if ltb (length ds) 1024
              then some (length ds, puts fw device (until_nul ds) s)
              else none))
unfolding printf sprintf
printf-Rendered arg text_at buf fmt bytes h =
    let (b, ds, rendered, run) = sprintf-Rendered arg text_at buf fmt bytes h in
    (
      ds,
      rendered,
      λ fw device fuel s enough.
          let (ran, read) = run fuel enough in
          ap
            (λ r. r >>= within 1024 >>= λ (n, c).
              c_text fuel c 0 >>= λ cs. some (n, puts fw device cs s))
            ran
          ∙ within-c_text 1024 (length ds) fuel b (until_nul ds)
              (λ n c cs. some (n, puts fw device cs s)) read,
    )

-- For every format of bytes, with texts of bytes behind its arguments, and with 33 rounds and one more for each character
-- of the text that belongs to the format and the arguments: when that text has at most 1023 characters, `printf` returns, the
-- text goes to `puts`, up to its first NUL, and its whole length is returned. A longer text goes past the end of the buffer of
-- 1024 bytes, and there is no result.
pub printf_lem :
    (arg : ℕ → ℕ) (text_at : ℕ → List ℕ) (buf : Buffer) (fmt : List ℕ)
    → ((p : ℕ) → AllBytes (text_at p))
    → AllBytes fmt
    → (ds : List ℕ) × Rendered arg text_at plain 0 fmt ds
      × ((fw : Firmware Unit) (device : Device) (k : ℕ) (s : Tty)
          → printf fw device arg text_at (32 + (length ds + suc k)) buf fmt s ≡ (
              if ltb (length ds) 1024
              then some (length ds, puts fw device (until_nul ds) s)
              else none))
printf_lem arg text_at buf fmt bytes h =
    let (ds, rendered, run) = printf-Rendered arg text_at buf fmt bytes h in
    (ds, rendered, λ fw device k s. run fw device (32 + (length ds + suc k)) s (omega arith))
