-- ===== src/Cpu/Complaint.antt =====
-- What `validate_cpu` of cpu.c prints.
use tinu_os.Prelude.{
  ℕ, suc, ◌+◌, ◌<◌, ◌≡◌, refl, ap, ◌∙◌, inl, inr, true, none, some, List, [], ◌∷◌, ◌++◌, arith, ltb,
  if◌then◌else◌, Bool-cases, length, length-append, ◌>>=◌,
}
use tinu_os.Ports.{Device}
use tinu_os.Bios.{Firmware}
use tinu_os.Texts.{AllBytes, AllBytes-append}
use tinu_os.Tty.{Tty, puts}
use tinu_os.Printk.{Buffer}
use tinu_os.Printk.Reading.{IsPlain, IsPlain-AllBytes, IsPlain-append, text_between}
use tinu_os.Printf.{printf}
use tinu_os.Printf.Conversions.{until_nul-IsPlain, printf-Rendered}
use tinu_os.Cpu.{detected, print_name, less_int, too_old, validate_cpu}
use tinu_os.Cpu.Names.{NameText, cpu_name-Named}

-- "This kernel requires an ", "but only detected an ", " CPU, " and " CPU.\n".
abbrev pub required_front : List ℕ
required_front =
    b'T' ∷ b'h' ∷ b'i' ∷ b's' ∷ b' ' ∷ b'k' ∷ b'e' ∷ b'r' ∷ b'n' ∷ b'e' ∷ b'l' ∷ b' ' ∷ b'r' ∷ b'e'
    ∷ b'q' ∷ b'u' ∷ b'i' ∷ b'r' ∷ b'e' ∷ b's' ∷ b' ' ∷ b'a' ∷ b'n' ∷ b' ' ∷ []

abbrev pub detected_front : List ℕ
detected_front =
    b'b' ∷ b'u' ∷ b't' ∷ b' ' ∷ b'o' ∷ b'n' ∷ b'l' ∷ b'y' ∷ b' ' ∷ b'd' ∷ b'e' ∷ b't' ∷ b'e' ∷ b'c'
    ∷ b't' ∷ b'e' ∷ b'd' ∷ b' ' ∷ b'a' ∷ b'n' ∷ b' ' ∷ []

abbrev pub required_end : List ℕ
required_end = b' ' ∷ b'C' ∷ b'P' ∷ b'U' ∷ b',' ∷ b' ' ∷ []

abbrev pub detected_end : List ℕ
detected_end = b' ' ∷ b'C' ∷ b'P' ∷ b'U' ∷ b'.' ∷ b'\n' ∷ []

-- `printf` of a text with `%s` in it, with enough rounds.
printf_text :
    (stack : Buffer) (front back name : List ℕ)
    → IsPlain front
    → IsPlain back
    → IsPlain name
    → length front + length name + length back < 1024
    → (ds : List ℕ) × (ds ≡ front ++ (name ++ back))
      × ((fw : Firmware Unit) (device : Device) (fuel : ℕ) (s : Tty)
          → 32 + length ds < fuel
          → printf fw device (λ _. 0) (λ _. name) fuel stack (front ++ (b'%' ∷ b's' ∷ back)) s
            ≡ some (length ds, puts fw device ds s))
printf_text stack front back name h k n short =
    let fmt : List ℕ = front ++ (b'%' ∷ b's' ∷ back) in
    let middle : AllBytes fmt =
      AllBytes-append front (b'%' ∷ b's' ∷ back) (IsPlain-AllBytes front h)
        (omega arith, (omega arith, IsPlain-AllBytes back k)) in
    let (ds, rendered, run) =
      printf-Rendered (λ _. 0) (λ _. name) stack fmt (λ _. IsPlain-AllBytes name n) middle in
    let e = text_between front back h k rendered in
    let sum = length-append front (name ++ back) in
    let sum' = length-append name back in
    let size : ltb (length ds) 1024 ≡ true = ground (arith, ap length e, sum, sum') in
    let printable : IsPlain ds =
      rw e (IsPlain-append front (name ++ back) h (IsPlain-append name back n k)) in
    (
      ds,
      e,
      λ fw device fuel s enough.
          run fw device fuel s enough
          ∙ rw size refl
          ∙ ap (λ xs. some (length ds, puts fw device xs s)) (until_nul-IsPlain ds printable),
    )

-- One call of `printf` with a name in it.
record Says (stack : Buffer) (front back : List ℕ) (level : ℕ) (buf : Buffer) : Type 0 where
  name : List ℕ
  buf' : Buffer
  enough : ℕ
  text : NameText level name
  run :
      (fw : Firmware Unit) (device : Device) (fuel : ℕ) (s : Tty)
      → enough < fuel
      → print_name fw device fuel stack (front ++ (b'%' ∷ b's' ∷ back)) level (buf, s)
        ≡ some (buf', puts fw device (front ++ (name ++ back)) s)

print_name-Says :
    (stack : Buffer) (front back : List ℕ) (level : ℕ) (buf : Buffer)
    → IsPlain front
    → IsPlain back
    → length front + length back < 1000
    → level < 100
    → Says stack front back level buf
unfolding print_name
print_name-Says stack front back level buf h k short small =
    let named = cpu_name-Named level buf small in
    let (ds, e, run) =
      printf_text stack front back named.name h k named.printable
        (omega (arith, short, named.short)) in
    record {
      name = named.name;
      buf' = named.buf';
      enough = named.enough + (32 + length ds);
      text = named.text;
      run = λ fw device fuel s enough.
          ap
            (λ r. r >>= λ (name, b).
              printf fw device (λ _. 0) (λ _. name) fuel stack (front ++ (b'%' ∷ b's' ∷ back)) s
              >>= λ (n, t). some (b, t))
            (named.run fuel (omega arith))
          ∙ ap (λ r. r >>= λ (n, t). some (named.buf', t)) (run fw device fuel s (omega arith))
          ∙ ap (λ xs. some (named.buf', puts fw device xs s)) e;
    }

-- What `validate_cpu` prints, with the names of the required and of the detected level.
abbrev pub complaint : Firmware Unit → Device → List ℕ → List ℕ → Tty → Tty
complaint fw device wanted got s =
    puts fw device (detected_front ++ (got ++ detected_end))
      (puts fw device (required_front ++ (wanted ++ required_end)) s)

-- For levels of two digits at most, `validate_cpu` ends, rounds enough given. If the detected level is below the required one, as signed
-- numbers, it returns -1 and has printed both names, each "x86-64" for 64 and otherwise the digits of the level, 6 for 15,
-- between "i" and "86". Otherwise it prints nothing, and ends without a value.
pub validate_cpu_lem :
    (fw : Firmware Unit) (device : Device) (stack buf : Buffer) (cpu_level req_level : ℕ) (s : Tty)
    → cpu_level < 100
    → req_level < 100
    → (enough : ℕ) × (wanted : List ℕ) × (got : List ℕ) × (buf' : Buffer) × NameText req_level
        wanted
      × NameText cpu_level got
      × ((k : ℕ)
          → validate_cpu fw device (enough + k) stack cpu_level req_level (buf, s)
            ≡ some (
                if less_int cpu_level req_level
                then (some too_old, buf', complaint fw device wanted got s)
                else (none, buf, s)))
unfolding validate_cpu
validate_cpu_lem fw device stack buf cpu_level req_level s few few' =
    let first =
      print_name-Says stack required_front required_end req_level buf (ground arith) (ground arith)
        (ground arith) few' in
    let second =
      print_name-Says stack detected_front detected_end cpu_level first.buf' (ground arith)
        (ground arith) (ground arith) few in
    let s1 = puts fw device (required_front ++ (first.name ++ required_end)) s in
    (
      suc (first.enough + second.enough),
      first.name,
      second.name,
      second.buf',
      first.text,
      second.text,
      λ k.
          let fuel : ℕ = suc (first.enough + second.enough) + k in
          elim (Bool-cases (less_int cpu_level req_level)) [
            | inl less ↦ rw less (
                ap
                  (λ r. (r >>= print_name fw device fuel stack detected cpu_level) >>= λ (b, t).
                    some (some too_old, b, t))
                  (first.run fw device fuel s (omega arith))
                ∙ ap (λ r. r >>= λ (b, t). some (some too_old, b, t))
                    (second.run fw device fuel s1 (omega arith)))
            | inr fine ↦ rw fine refl
          ],
    )
