-- ===== src/Kprintf/Rendering.antt =====
-- What kprintf of monitor.c prints.
use tinu_os.Prelude.{
  ℕ, zero, suc, ◌+◌, ◌^◌, ◌≤◌, ◌<◌, ◌≡◌, refl, sym, ap, ◌∙◌, inl, inr, Bool, true, false, not, ◌||◌,
  none, some, List, [], ◌∷◌, ◌++◌, arith, ◌==◌, if◌then◌else◌, Bool-cases, length, length-append,
  u8, u32, ◌>>=◌,
}
use tinu_os.Strings.Copy.{Holds}
use tinu_os.Terminal.{Cells, Terminal, terminal_putchar, terminal_write}
use tinu_os.Terminal.Screen.{terminal_write-append}
use tinu_os.Kprintf.{itoa, print_text, Call, null_text, conversion, kprintf_from, kprintf}
use tinu_os.Kprintf.Number.{sign_of, digits_of, itoa_lem}

-- What a conversion stands for, and the whole format.
unfoldable pub converted : Call → ℕ → ℕ → List ℕ
converted k c word =
    if c == b'd' || (c == b'u' || c == b'x')
    then sign_of c (u32 word) ++ digits_of c (u32 word)
    else if c == b's'
    then (if word == 0 then null_text else k.text_at word)
    else u8 word ∷ []

unfoldable pub rendered : Call → List ℕ → ℕ → List ℕ
unfolding converted
rendered k [] n = []
rendered k (c ∷ []) n = c ∷ []
rendered k (c ∷ d ∷ cs) n =
    let plain = c ∷ rendered k (d ∷ cs) n in
    let after = converted k d (k.arg n) ++ rendered k cs (n + 1) in
    if c == b'%' then after else plain

-- No `%` without a character behind it.
unfoldable pub is_complete : List ℕ → Bool
is_complete [] = true
is_complete (c ∷ []) = not (c == b'%')
is_complete (c ∷ d ∷ cs) =
    let plain = is_complete (d ∷ cs) in
    let after = is_complete cs in if c == b'%' then after else plain

print_text_lem :
    (fuel : ℕ) (b : Cells) (p : ℕ) (cs : List ℕ) (t : Terminal)
    → Holds b p cs
    → length cs < fuel
    → print_text fuel b p t ≡ some (terminal_write cs t)
unfolding print_text terminal_write
print_text_lem zero b p cs t h enough = absurd (omega arith)
print_text_lem (suc fuel) b p [] t h enough = ground (arith, h)
print_text_lem (suc fuel) b p (c ∷ cs) t h enough =
    let e : b p ≡ c = h.0 in
    let more : (c == 0) ≡ false = ground (arith, h.1) in
    rw (e, more) (print_text_lem fuel b (p + 1) cs (terminal_putchar c t) h.3 (omega arith))

number_lem :
    (k : Call) (c d : ℕ) (t : Terminal)
    → d < 2 ^ 32
    → (itoa 10 k.buf c d >>= λ b. print_text 12 b 0 t)
      ≡ some (terminal_write (sign_of c d ++ digits_of c d) t)
number_lem k c d t h =
    let (b', run, holds, most, right, no_zero) = itoa_lem k.buf c d h in
    let short : length (sign_of c d) ≤ 1 = ground arith in
    let both = length-append (sign_of c d) (digits_of c d) in
    rw run (
      print_text_lem 12 b' 0 (sign_of c d ++ digits_of c d) t holds
        (omega (arith, both, short, most)))

conversion_lem :
    (k : Call) (c word : ℕ) (t : Terminal)
    → conversion 10 k c word t ≡ some (terminal_write (converted k c word) t)
unfolding conversion converted
conversion_lem k c word t = elim (Bool-cases (c == b'd' || (c == b'u' || c == b'x'))) [
  | inl number ↦ rw number (number_lem k c (u32 word) t (ground arith))
  | inr other ↦ elim (Bool-cases (c == b's')) [
    | inl string ↦ rw (other, string) refl
    | inr char ↦ rw (other, char) (unfold terminal_write in refl)
  ]
]

write_first :
    (complete : Bool) (cs ds : List ℕ) (t : Terminal)
    → (if complete then some (terminal_write ds (terminal_write cs t)) else none)
      ≡ (if complete then some (terminal_write (cs ++ ds) t) else none)
write_first true cs ds t = ap some (sym (terminal_write-append cs ds t))
write_first false cs ds t = refl

kprintf_from_lem :
    (k : Call) (fmt : List ℕ) (n : ℕ) (t : Terminal)
    → kprintf_from 10 k fmt n t
      ≡ (if is_complete fmt then some (terminal_write (rendered k fmt n) t) else none)
unfolding kprintf_from is_complete rendered terminal_write
kprintf_from_lem k [] n t = refl
kprintf_from_lem k (c ∷ []) n t = elim (Bool-cases (c == b'%')) [
  | inl percent ↦ rw percent refl
  | inr plain ↦ rw plain refl
]
kprintf_from_lem k (c ∷ d ∷ cs) n t = elim (Bool-cases (c == b'%')) [
  | inl percent ↦
      rw (percent, conversion_lem k d (k.arg n) t)
        (kprintf_from_lem k cs (n + 1) (terminal_write (converted k d (k.arg n)) t)
          ∙ write_first (is_complete cs) (converted k d (k.arg n)) (rendered k cs (n + 1)) t)
  | inr plain ↦ rw plain (kprintf_from_lem k (d ∷ cs) n (terminal_putchar c t))
]

-- kprintf ends for every format, whatever its arguments are. If each `%` has a character behind it, the screen
-- is as after terminal_write of the rendered text, where `%d`, `%u` and `%x` stand for the digits of the
-- argument, `%s` for a text or `(null)`, and any other conversion for one character. Otherwise the format
-- is read past its end.
pub kprintf_lem :
    (k : Call) (fmt : List ℕ) (t : Terminal)
    → kprintf 10 k fmt t
      ≡ (if is_complete fmt then some (terminal_write (rendered k fmt 0) t) else none)
unfolding kprintf
kprintf_lem k fmt t = kprintf_from_lem k fmt 0 t
