-- ===== src/Cpu/Names.antt =====
-- The names of the levels of processors, in cpu.c.
use tinu_os.Prelude.{
  ℕ, ◌+◌, ◌≤◌, ◌<◌, ◌≡◌, refl, ap, ◌∙◌, ◌≢◌, ◌⊎◌, inl, inr, true, some, List, [], ◌∷◌, ◌++◌, arith,
  ltb, ◌==◌, ==→eq, Bool-cases, length, length-append, u32, ◌>>=◌,
}
use tinu_os.Printk.{Buffer}
use tinu_os.Printk.Width.{DecText, DecText-short}
use tinu_os.Printk.Reading.{IsPlain, IsPlain-append, IsPlain-digits, number_between}
use tinu_os.Printf.{c_text, within}
use tinu_os.Printf.Conversions.{until_nul, until_nul-IsPlain, sprintf-Rendered, within-c_text}
use tinu_os.Cpu.{x86_64, name_format, intel_level, cpu_name}

-- "x86-64" for level 64, and otherwise the number of the level between "i" and "86", 6 standing for 15.
abbrev pub NameText : ℕ → List ℕ → Type 0
NameText level cs =
    ((level ≡ 64) × (cs ≡ x86_64))
    ⊎ ((level ≢ 64)
        × (ds : List ℕ) × (cs ≡ b'i' ∷ (ds ++ (b'8' ∷ b'6' ∷ [])))
        × DecText (u32 (intel_level level)) 0 ds)

-- What a call of `cpu_name` gives when it has rounds enough, for a level of two digits at most.
pub record Named (level : ℕ) (buf : Buffer) : Type 0 where
  pub name : List ℕ
  pub buf' : Buffer
  pub enough : ℕ
  pub text : NameText level name
  pub printable : IsPlain name
  pub short : length name ≤ 6
  pub run : (fuel : ℕ) → enough < fuel → cpu_name fuel level buf ≡ some (name, buf')

pub cpu_name-Named : (level : ℕ) (buf : Buffer) → level < 100 → Named level buf
unfolding cpu_name
cpu_name-Named level buf small = elim (Bool-cases (level == 64)) [
  | inl e ↦ record {
    name = x86_64;
    buf' = buf;
    enough = 0;
    text = inl (==→eq level 64 e, refl);
    printable = ground arith;
    short = ground arith;
    run = λ fuel h. rw e refl;
  }
  | inr other ↦
      let (b, cs, rendered, run) =
        sprintf-Rendered (λ _. intel_level level) (λ _. []) buf name_format (λ _. tt)
          (ground arith) in
      let (ds, e, t) =
        number_between (b'i' ∷ []) (b'8' ∷ b'6' ∷ []) (ground arith) (ground arith) rendered in
      let few : u32 (intel_level level) < 100 = ground arith in
      let two : length ds ≤ 2 = DecText-short (u32 (intel_level level)) ds few t in
      let size : length cs ≤ 5 =
        omega (arith, two, ap length e, length-append ds (b'8' ∷ b'6' ∷ [])) in
      let fits : ltb (length cs) 6 ≡ true = ground arith in
      let printable : IsPlain cs = rw e (
        ground arith,
        ground arith,
        ground arith,
        IsPlain-append ds (b'8' ∷ b'6' ∷ []) (IsPlain-digits ds t.all_digits) (ground arith),
      ) in
      record {
        name = cs;
        buf' = b;
        enough = 32 + length cs;
        text = inr (ground arith, ds, e, t);
        printable = printable;
        short = omega (arith, size);
        run = λ fuel h.
            let (ran, read) = run fuel h in
            rw other (
              ap (λ r. r >>= within 6 >>= λ (n, c). c_text fuel c 0 >>= λ xs. some (xs, c)) ran
              ∙ within-c_text 6 (length cs) fuel b (until_nul cs) (λ n c xs. some (xs, c)) read
              ∙ rw fits refl
              ∙ ap (λ xs. some (xs, b)) (until_nul-IsPlain cs printable));
      }
]
