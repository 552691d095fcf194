-- ===== src/Tty/Sink.antt =====
-- Where texts go: what the callers of `puts` of devices/tty.c rely on, for the serial port and for the screen.
use tinu_os.Prelude.{
  ℕ, ◌≡◌, refl, sym, ap, ◌∙◌, inl, inr, List, [], ◌∷◌, ◌++◌, reverse, append_assoc, ◌==◌,
  Bool-cases,
}
use mathlib.Core.List.{reverse-append}
use tinu_os.Texts.{AllBytes}
use tinu_os.Ports.{Device}
use tinu_os.Bios.{Firmware}
use tinu_os.Tty.{Tty, puts}
use tinu_os.Tty.Sending.{sent, shown, with_returns, puts-with_returns}

-- Something that texts are written to, and the bytes that it has got, the last one first.
pub record Sink (S : Type 0) : Type 0 where
  pub write : List ℕ → S → S
  pub got : S → List ℕ
  pub got-write :
      (cs : List ℕ) (s : S) → AllBytes cs → got (write cs s) ≡ reverse (with_returns cs) ++ got s

-- `puts`, as the serial port sees it.
abbrev pub serial : Firmware Unit → Device → Sink Tty
serial fw device = record {
  write = puts fw device;
  got = λ s. sent s.trace;
  got-write = λ cs s h. (puts-with_returns fw device cs s h).0;
}

-- `puts`, as the BIOS sees it.
abbrev pub screen : Firmware Unit → Device → Sink Tty
screen fw device = record {
  write = puts fw device;
  got = λ s. shown s.calls;
  got-write = λ cs s h. (puts-with_returns fw device cs s h).1;
}

with_returns-append :
    (cs ds : List ℕ) → with_returns (cs ++ ds) ≡ with_returns cs ++ with_returns ds
with_returns-append [] ds = refl
with_returns-append (c ∷ cs) ds = elim (Bool-cases (c == b'\n')) [
  | inl newline ↦ rw newline (ap (λ xs. b'\r' ∷ c ∷ xs) (with_returns-append cs ds))
  | inr other ↦ rw other (ap (λ xs. c ∷ xs) (with_returns-append cs ds))
]

module _ {S : Type 0} (sink : Sink S) where
  -- Two texts, one after the other, come to one.
  pub got-write_write :
      (cs ds : List ℕ) (s : S)
      → AllBytes cs
      → AllBytes ds
      → sink.got (sink.write ds (sink.write cs s)) ≡ reverse (with_returns (cs ++ ds)) ++ sink.got s
  got-write_write cs ds s h k =
      sink.got-write ds (sink.write cs s) k
      ∙ ap (λ xs. reverse (with_returns ds) ++ xs) (sink.got-write cs s h)
      ∙ sym (append_assoc (reverse (with_returns ds)) (reverse (with_returns cs)) (sink.got s))
      ∙ ap (λ xs. xs ++ sink.got s)
          (sym (reverse-append (with_returns cs) (with_returns ds))
            ∙ ap (λ xs. reverse xs) (sym (with_returns-append cs ds)))
