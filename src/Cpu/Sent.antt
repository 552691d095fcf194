-- ===== src/Cpu/Sent.antt =====
-- What reaches the serial port and the screen when cpu.c looks at the processor.
use tinu_os.Prelude.{
  ℕ, ◌+◌, ◌<◌, ◌≡◌, refl, ◌∙◌, inl, inr, none, some, List, [], ◌∷◌, ◌++◌, reverse, arith,
  if◌then◌else◌, Bool-cases,
}
use tinu_os.Texts.{AllBytes}
use tinu_os.Ports.{Device}
use tinu_os.Bios.{Firmware}
use tinu_os.Tty.{Tty}
use tinu_os.Tty.Sending.{sent, shown, with_returns}
use tinu_os.Tty.Sink.{Sink, serial, screen, got-write_write}
use tinu_os.Printk.{Buffer}
use tinu_os.Printk.Reading.{IsPlain, IsPlain-append, IsPlain-AllBytes, IsPlain-digits}
use tinu_os.Cpu.{less_int, too_old, validate_cpu}
use tinu_os.Cpu.Names.{NameText}
use tinu_os.Cpu.Complaint.{
  required_front, required_end, detected_front, detected_end, complaint, validate_cpu_lem,
}

NameText-IsPlain : (level : ℕ) (cs : List ℕ) → NameText level cs → IsPlain cs
NameText-IsPlain level cs (inl (_, e)) = rw e (ground arith)
NameText-IsPlain level cs (inr (_, ds, e, t)) = rw e (
  ground arith,
  ground arith,
  ground arith,
  IsPlain-append ds (b'8' ∷ b'6' ∷ []) (IsPlain-digits ds t.all_digits) (ground arith),
)

-- The two sentences, with the names in them.
abbrev pub sentence : List ℕ → List ℕ → List ℕ
sentence wanted got =
    (required_front ++ (wanted ++ required_end)) ++ (detected_front ++ (got ++ detected_end))

around-AllBytes :
    (front name back : List ℕ)
    → IsPlain front
    → IsPlain name
    → IsPlain back
    → AllBytes (front ++ (name ++ back))
around-AllBytes front name back h k l =
    IsPlain-AllBytes (front ++ (name ++ back))
      (IsPlain-append front (name ++ back) h (IsPlain-append name back k l))

-- What is sent: both sentences, or nothing.
abbrev pub message : ℕ → ℕ → List ℕ → List ℕ → List ℕ
message cpu_level req_level wanted got =
    if less_int cpu_level req_level then sentence wanted got else []

module _ (sink : Sink Tty) (wanted got : List ℕ) where
  complained :
      (s : Tty)
      → IsPlain wanted
      → IsPlain got
      → sink.got (
          sink.write
            (detected_front ++ (got ++ detected_end))
            (sink.write (required_front ++ (wanted ++ required_end)) s))
        ≡ reverse (with_returns (sentence wanted got)) ++ sink.got s
  complained s h k =
      got-write_write sink (required_front ++ (wanted ++ required_end))
        (detected_front ++ (got ++ detected_end)) s
        (around-AllBytes required_front wanted required_end (ground arith) h (ground arith))
        (around-AllBytes detected_front got detected_end (ground arith) k (ground arith))

-- For levels from 0 to 99, whose names go into the buffer of six bytes, and however the BIOS and the ports answer, `validate_cpu` ends, rounds enough given. If the detected
-- level is below the required one, as signed numbers, it returns -1, and both the serial port and the BIOS, for the
-- screen, have got two sentences with the names of the levels, each "x86-64" for 64 and otherwise the digits of the
-- level, 6 for 15, between "i" and "86". Otherwise they have got nothing, and it ends without a value.
pub validate_cpu-message :
    (fw : Firmware Unit) (device : Device) (stack buf : Buffer) (cpu_level req_level : ℕ) (s : Tty)
    → cpu_level < 100
    → req_level < 100
    → (enough : ℕ) × (wanted : List ℕ) × (got : List ℕ) × (buf' : Buffer) × (s' : Tty) × NameText
        req_level wanted
      × NameText cpu_level got
      × ((k : ℕ)
          → validate_cpu fw device (enough + k) stack cpu_level req_level (buf, s)
            ≡ some (if less_int cpu_level req_level then some too_old else none, buf', s'))
      × (sent s'.trace
          ≡ reverse (with_returns (message cpu_level req_level wanted got)) ++ sent s.trace)
      × (shown s'.calls
          ≡ reverse (with_returns (message cpu_level req_level wanted got)) ++ shown s.calls)
validate_cpu-message fw device stack buf cpu_level req_level s few few' =
    let (enough, wanted, got, buf', name, name', run) =
      validate_cpu_lem fw device stack buf cpu_level req_level s few few' in
    let h = NameText-IsPlain req_level wanted name in
    let k = NameText-IsPlain cpu_level got name' in
    elim (Bool-cases (less_int cpu_level req_level)) [
      | inl less ↦ (
        enough,
        wanted,
        got,
        buf',
        complaint fw device wanted got s,
        name,
        name',
        λ j. run j ∙ rw less refl,
        rw less (complained (serial fw device) wanted got s h k),
        rw less (complained (screen fw device) wanted got s h k),
      )
      | inr fine ↦ (
        enough,
        wanted,
        got,
        buf,
        s,
        name,
        name',
        λ j. run j ∙ rw fine refl,
        rw fine refl,
        rw fine refl,
      )
    ]
