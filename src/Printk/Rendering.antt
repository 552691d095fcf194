-- ===== src/Printk/Rendering.antt =====
-- What `vasprintf` of printk.c writes: the formats and their texts as a relation.
use tinu_os.Prelude.{
  ℕ, ◌+◌, ◌-◌, ◌<◌, ◌≡◌, refl, ap, ◌∙◌, ◌≢◌, inl, inr, true, false, some, List, [], ◌∷◌, ◌++◌,
  arith, ◌==◌, ==→eq, Bool-cases, length, u8, u32, ◌>>=◌,
}
use tinu_os.Printk.{
  Buffer, Out, update, put, put_all, is_digit, Mode, plain, percent, convert, format, vasprintf,
}
use tinu_os.Printk.Buffers.{
  Writes, Writes-put, Writes-byte, Writes-put_all, Writes-nil, Writes-text, Writes-append,
}
use tinu_os.Printk.Hexadecimal.{HexText, print_hex-PrintedHex}
use tinu_os.Printk.Width.{DecText, print_dec-PrintedDec}
use tinu_os.Texts.{text, text-same, AllBytes}

-- What a conversion at the argument `n` writes, and which argument is next. A character that names no
-- conversion stands for itself.
pub data Conversion (arg : ℕ → ℕ) (text_at : ℕ → List ℕ) (c width n : ℕ) : ℕ → List ℕ → Type 0 where
  a_text : c ≡ b's' → Conversion arg text_at c width n (n + 1) (text_at (arg n))
  a_char : c ≡ b'c' → Conversion arg text_at c width n (n + 1) (u8 (arg n) ∷ [])
  a_hex :
      {cs : List ℕ}
      → c ≡ b'x'
      → HexText (u32 (arg n)) width cs
      → Conversion arg text_at c width n (n + 1) cs
  a_decimal :
      {cs : List ℕ}
      → c ≡ b'd'
      → DecText (u32 (arg n)) width cs
      → Conversion arg text_at c width n (n + 1) cs
  a_percent : c ≡ b'%' → Conversion arg text_at c width n n (b'%' ∷ [])
  itself : c ≢ b's' → c ≢ b'c' → c ≢ b'x' → c ≢ b'd' → Conversion arg text_at c width n n (c ∷ [])

-- The text of a format, read from a mode and an argument number on. A format that ends behind a `%` has
-- its NUL converted.
pub data Rendered (arg : ℕ → ℕ) (text_at : ℕ → List ℕ) : Mode → ℕ → List ℕ → List ℕ → Type 0 where
  ended : {n : ℕ} → Rendered arg text_at plain n [] []
  cut_off :
      {width n m : ℕ} {ds : List ℕ}
      → Conversion arg text_at 0 width n m ds
      → Rendered arg text_at (percent width) n [] ds
  literal :
      {c n : ℕ} {cs ds : List ℕ}
      → c ≢ b'%'
      → Rendered arg text_at plain n cs ds
      → Rendered arg text_at plain n (c ∷ cs) (c ∷ ds)
  opened :
      {c n : ℕ} {cs ds : List ℕ}
      → c ≡ b'%'
      → Rendered arg text_at (percent 0) n cs ds
      → Rendered arg text_at plain n (c ∷ cs) ds
  widened :
      {c width n : ℕ} {cs ds : List ℕ}
      → is_digit c ≡ true
      → Rendered arg text_at (percent (u32 (width + (c - b'0')))) n cs ds
      → Rendered arg text_at (percent width) n (c ∷ cs) ds
  converted :
      {c width n m : ℕ} {cs es ds : List ℕ}
      → is_digit c ≡ false
      → Conversion arg text_at c width n m es
      → Rendered arg text_at plain m cs ds
      → Rendered arg text_at (percent width) n (c ∷ cs) (es ++ ds)

module _ (arg : ℕ → ℕ) (text_at : ℕ → List ℕ) (bytes : (p : ℕ) → AllBytes (text_at p)) where
  -- One conversion returns, and writes a text that belongs to it.
  Converts : ℕ → ℕ → ℕ → Out → Type 0
  Converts c width n o =
      (m : ℕ) × (o' : Out) × (ds : List ℕ) × ((k : ℕ)
        → convert arg text_at (32 + k) c width n o ≡ some (m, o'))
      × Conversion arg text_at c width n m ds
      × Writes o ds o'

  convert_lem : (c width n : ℕ) (o : Out) → c < 256 → Converts c width n o
  unfolding convert Converts
  convert_lem c width n o byte = elim (Bool-cases (c == b's')) [
    | inl e ↦ rw e (
      n + 1,
      put_all (text_at (arg n)) o,
      text_at (arg n),
      λ k. refl,
      a_text (==→eq c b's' e),
      Writes-put_all (text_at (arg n)) o (bytes (arg n)),
    )
    | inr no_text ↦ elim (Bool-cases (c == b'c')) [
      | inl e ↦
          rw (no_text, e)
            (
              n + 1,
              put (arg n) o,
              u8 (arg n) ∷ [],
              λ k. refl,
              a_char (==→eq c b'c' e),
              Writes-put (arg n) o,
            )
      | inr no_char ↦ elim (Bool-cases (c == b'x')) [
        | inl e ↦
            let (o', k, run, p) = print_hex-PrintedHex (u32 (arg n)) width o (omega arith) in
            rw (no_text, no_char, e)
              (
                n + 1,
                o',
                text o'.buf o.ptr k,
                λ q. rw (run (32 + q) (omega arith)) refl,
                a_hex (==→eq c b'x' e) p.hex_text,
                Writes-text o o' k p.moved p.before,
              )
        | inr no_hex ↦ elim (Bool-cases (c == b'd')) [
          | inl e ↦
              let (o', k, run, p) = print_dec-PrintedDec (u32 (arg n)) width o (omega arith) in
              rw (no_text, no_char, no_hex, e)
                (
                  n + 1,
                  o',
                  text o'.buf o.ptr k,
                  λ q. rw (run (32 + q) (omega arith)) refl,
                  a_decimal (==→eq c b'd' e) p.dec_text,
                  Writes-text o o' k p.moved p.before,
                )
          | inr no_dec ↦ elim (Bool-cases (c == b'%')) [
            | inl e ↦
                rw (no_text, no_char, no_hex, no_dec, e)
                  (
                    n,
                    put b'%' o,
                    b'%' ∷ [],
                    λ k. refl,
                    a_percent (==→eq c b'%' e),
                    Writes-put b'%' o,
                  )
            | inr no_percent ↦
                rw (no_text, no_char, no_hex, no_dec, no_percent)
                  (
                    n,
                    put c o,
                    c ∷ [],
                    λ k. refl,
                    itself (ground arith) (ground arith) (ground arith) (ground arith),
                    Writes-byte c o byte,
                  )
          ]
        ]
      ]
    ]
  ]

  Formats : List ℕ → Mode → ℕ → Out → Type 0
  Formats cs mode n o =
      (o' : Out) × (ds : List ℕ) × ((k : ℕ) → format arg text_at (32 + k) cs mode n o ≡ some o')
      × Rendered arg text_at mode n cs ds
      × Writes o ds o'

  format_lem : (cs : List ℕ) (mode : Mode) (n : ℕ) (o : Out) → AllBytes cs → Formats cs mode n o
  unfolding format Formats Converts
  format_lem [] plain n o h = (o, [], λ k. refl, ended, Writes-nil o)
  format_lem [] (percent w) n o h =
      let (m, o', ds, run, conversion, writes) = convert_lem 0 w n o (omega arith) in
      (o', ds, λ k. ap (λ r. r >>= λ (q, p). some p) (run k), cut_off conversion, writes)
  format_lem (c ∷ cs) plain n o h = elim (Bool-cases (c == b'%')) [
    | inl e ↦
        let (o', ds, run, rendered, writes) = format_lem cs (percent 0) n o h.1 in
        rw e (o', ds, run, opened (==→eq c b'%' e) rendered, writes)
    | inr other ↦
        let (o', ds, run, rendered, writes) = format_lem cs plain n (put c o) h.1 in
        rw other (
          o',
          c ∷ ds,
          run,
          literal (ground arith) rendered,
          Writes-append o (put c o) o' (c ∷ []) ds (Writes-byte c o h.0) writes,
        )
  ]
  format_lem (c ∷ cs) (percent w) n o h = elim (Bool-cases (is_digit c)) [
    | inl digit ↦
        let (o', ds, run, rendered, writes) =
          format_lem cs (percent (u32 (w + (c - b'0')))) n o h.1 in
        rw digit (o', ds, run, widened digit rendered, writes)
    | inr other ↦
        let (m, o1, es, run1, conversion, first) = convert_lem c w n o h.0 in
        let (o2, ds, run2, rendered, rest) = format_lem cs plain m o1 h.1 in
        rw other (
          o2,
          es ++ ds,
          λ k. ap (λ r. r >>= λ (q, p). format arg text_at (32 + k) cs plain q p) (run1 k) ∙ run2 k,
          converted other conversion rendered,
          Writes-append o o1 o2 es ds first rest,
        )
  ]

  -- For every format of bytes, with texts of bytes behind its arguments and 32 rounds or more for each number,
  -- `vasprintf` returns. The buffer then holds, from its start on, a text that belongs to the format and
  -- the arguments, and a NUL behind it; the length of the text is what `vasprintf` returns.
  pub vasprintf_lem :
      (buf : Buffer) (fmt : List ℕ)
      → AllBytes fmt
      → (b : Buffer) × (ds : List ℕ) × ((k : ℕ)
          → vasprintf arg text_at (32 + k) buf fmt ≡ some (length ds, b))
        × Rendered arg text_at plain 0 fmt ds
        × (text b 0 (length ds) ≡ ds)
        × (b (length ds) ≡ 0)
  unfolding vasprintf Formats
  vasprintf_lem buf fmt h =
      let start : Out = record { buf = buf; ptr = 0 } in
      let (o, ds, run, rendered, writes) = format_lem fmt plain 0 start h in
      let b : Buffer = update o.buf o.ptr 0 in
      let length_put : o.ptr ≡ length ds = omega (arith, writes.moved) in
      (
        b,
        ds,
        λ k.
            ap (λ r. r >>= λ p. some (p.ptr, update p.buf p.ptr 0)) (run k)
            ∙ ap (λ (k : ℕ). some (k, b)) length_put,
        rendered,
        text-same o.buf b 0 (length ds) (λ j l r. ground (arith, length_put)) ∙ writes.holds,
        ground (arith, length_put),
      )
