-- ===== src/Tty/Sending.antt =====
-- What a text written by puts of devices/tty.c sends.
use tinu_os.Prelude.{
  ℕ, zero, suc, ◌<◌, bit_and, ◌≡◌, refl, sym, ap, ◌∙◌, inl, inr, Bool, true, false, List, [], ◌∷◌,
  ◌++◌, reverse, append_assoc, arith, ◌==◌, if◌then◌else◌, Bool-cases,
}
use mathlib.Core.Path.{ap₂, subst}
use mathlib.Core.List.{reverse-append}
use tinu_os.Texts.{AllBytes}
use tinu_os.Ports.{Trace, Device, input, output, outb, inb}
use tinu_os.Bios.{Request, Firmware, initregs, intcall, low8, set_high8, set_low8}
use tinu_os.Tty.{Tty, wait_ready, serial_putchar, biosputchar, put_both, putchar, puts}

-- The bytes that were sent to the serial port, and those that were given to the BIOS, the last one first.
abbrev pub sent : Trace → List ℕ
sent [] = []
sent (input v p ∷ t) = sent t
sent (output v p ∷ t) = if p == 0x3f8 then v ∷ sent t else sent t

abbrev pub shown : List Request → List ℕ
shown [] = []
shown (r ∷ rs) = if r.int_no == 0x10 then low8 r.regs.eax ∷ shown rs else shown rs

-- A text of bytes with a carriage return in front of each newline.
abbrev pub with_returns : List ℕ → List ℕ
with_returns [] = []
with_returns (c ∷ cs) = if c == b'\n' then b'\r' ∷ c ∷ with_returns cs else c ∷ with_returns cs

sent-wait_ready :
    (device : Device) (left : ℕ) (t : Trace) → sent (wait_ready device left t) ≡ sent t
unfolding wait_ready inb
sent-wait_ready device zero t = refl
sent-wait_ready device (suc left) t =
    let (status, t') = inb device 0x3fd t in
    elim (Bool-cases (bit_and status 0x20 == 0)) [
      | inl busy ↦ rw busy (sent-wait_ready device left t')
      | inr ready ↦ rw ready refl
    ]

sent-serial_putchar :
    (device : Device) (ch : ℕ) (t : Trace)
    → ch < 256
    → sent (serial_putchar device ch t) ≡ ch ∷ sent t
unfolding serial_putchar outb
sent-serial_putchar device ch t h = ap₂ ◌∷◌ (omega arith) (sent-wait_ready device 0xfffe t)

shown-biosputchar :
    (fw : Firmware Unit) (ch : ℕ) (calls : List Request)
    → ch < 256
    → shown (biosputchar fw ch calls) ≡ ch ∷ shown calls
unfolding biosputchar intcall initregs low8 set_high8 set_low8
shown-biosputchar fw ch calls h = ap (λ c. c ∷ shown calls) (omega arith)

-- Both have got these bytes more.
record Got (cs : List ℕ) (s s' : Tty) : Type 0 where
  serial : sent s'.trace ≡ reverse cs ++ sent s.trace
  screen : shown s'.calls ≡ reverse cs ++ shown s.calls

put_both-Got :
    (fw : Firmware Unit) (device : Device) (ch : ℕ) (s : Tty)
    → ch < 256
    → Got (ch ∷ []) s (put_both fw device ch s)
unfolding put_both
put_both-Got fw device ch s h = record {
  serial = sent-serial_putchar device ch s.trace h;
  screen = shown-biosputchar fw ch s.calls h;
}

reverse-twice :
    (cs ds ts us vs : List ℕ)
    → vs ≡ reverse ds ++ us
    → us ≡ reverse cs ++ ts
    → vs ≡ reverse (cs ++ ds) ++ ts
reverse-twice cs ds ts us vs second first =
    second
    ∙ ap (λ ws. reverse ds ++ ws) first
    ∙ sym (append_assoc (reverse ds) (reverse cs) ts)
    ∙ ap (λ ws. ws ++ ts) (sym (reverse-append cs ds))

Got-append : (cs ds : List ℕ) (s s' s'' : Tty) → Got cs s s' → Got ds s' s'' → Got (cs ++ ds) s s''
Got-append cs ds s s' s'' f g = record {
  serial = reverse-twice cs ds (sent s.trace) (sent s'.trace) (sent s''.trace) g.serial f.serial;
  screen = reverse-twice cs ds (shown s.calls) (shown s'.calls) (shown s''.calls) g.screen f.screen;
}

-- What one character becomes.
abbrev with_return : ℕ → List ℕ
with_return c = if c == b'\n' then b'\r' ∷ c ∷ [] else c ∷ []

Got-either :
    (b : Bool) (cs ds : List ℕ) (s x y : Tty) (f : Tty → Tty)
    → Got cs s (f x)
    → Got ds s (f y)
    → Got (if b then cs else ds) s (f (if b then x else y))
Got-either true cs ds s x y f g h = g
Got-either false cs ds s x y f g h = h

putchar-Got :
    (fw : Firmware Unit) (device : Device) (c : ℕ) (s : Tty)
    → c < 256
    → Got (with_return c) s (putchar fw device c s)
unfolding putchar
putchar-Got fw device c s h =
    let s' = put_both fw device b'\r' s in
    Got-either (c == b'\n') (b'\r' ∷ c ∷ []) (c ∷ []) s s' s (put_both fw device c)
      (Got-append (b'\r' ∷ []) (c ∷ []) s s' (put_both fw device c s')
        (put_both-Got fw device b'\r' s (omega arith)) (put_both-Got fw device c s' h))
      (put_both-Got fw device c s h)

with_returns-cons : (c : ℕ) (cs : List ℕ) → with_return c ++ with_returns cs ≡ with_returns (c ∷ cs)
with_returns-cons c cs = elim (Bool-cases (c == b'\n')) [
  | inl newline ↦ rw newline refl
  | inr plain ↦ rw plain refl
]

puts-Got :
    (fw : Firmware Unit) (device : Device) (cs : List ℕ) (s : Tty)
    → AllBytes cs
    → Got (with_returns cs) s (puts fw device cs s)
unfolding puts
puts-Got fw device [] s h = record { serial = refl; screen = refl }
puts-Got fw device (c ∷ cs) s h =
    let s' = putchar fw device c s in
    subst (λ ds. Got ds s (puts fw device cs s')) (with_returns-cons c cs)
      (Got-append (with_return c) (with_returns cs) s s' (puts fw device cs s')
        (putchar-Got fw device c s h.0) (puts-Got fw device cs s' h.1))

-- However the serial port and the BIOS answer, puts ends, and it sends the bytes of the text to the serial port and
-- gives them to the BIOS for the screen, in order, each newline with a carriage return in front of it.
pub puts-with_returns :
    (fw : Firmware Unit) (device : Device) (cs : List ℕ) (s : Tty)
    → AllBytes cs
    → (sent (puts fw device cs s).trace ≡ reverse (with_returns cs) ++ sent s.trace)
      × (shown (puts fw device cs s).calls ≡ reverse (with_returns cs) ++ shown s.calls)
puts-with_returns fw device cs s h = let got = puts-Got fw device cs s h in (got.serial, got.screen)
