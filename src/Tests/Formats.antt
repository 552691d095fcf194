-- ===== src/Tests/Formats.antt =====
-- Runs of the formatted output into buffers, and of what is built on it.
use tinu_os.Prelude.{
  ℕ, suc, ◌+◌, ◌%◌, ◌≤◌, ◌≡◌, refl, true, ◌&&◌, none, some, List, [], ◌∷◌, ◌++◌, map, reverse,
  arith, ltb, ◌==◌, if◌then◌else◌, length, u32,
}
use tinu_os.Texts.{text, AllBytes}
use tinu_os.Ports.{output}
use tinu_os.Printk.{Buffer, plain, vasprintf}
use tinu_os.Printk.Rendering.{Rendered, vasprintf_lem}
use tinu_os.Printk.Console.{Console, begin_kprintf}
use tinu_os.Printk.Console.Cleared.{begin_kprintf_lem}
use tinu_os.Ports.{Device}
use tinu_os.Bios.{Firmware}
use tinu_os.EarlySerial.Output.{outputs, swapped}
use tinu_os.Tty.{Tty, puts}
use tinu_os.Printf.{printf}
use tinu_os.Printf.Conversions.{until_nul, printf_lem}
use tinu_os.Cpu.{less_int, too_old, validate_cpu}
use tinu_os.Cpu.Names.{NameText}
use tinu_os.Cpu.Sent.{message, validate_cpu-message}
use tinu_os.Tty.Sending.{sent, shown, with_returns}
use tinu_os.Printk.Rendering.{a_text, a_percent, ended, opened, converted}
use tinu_os.Printk.Determined.{vasprintf-Rendered}
use tinu_os.Tests.Serial.{ready, silent, untouched}

-- "%04d of %s%%", and the arguments 42 and a pointer to "all".
abbrev percentages : List ℕ
percentages = b'%' ∷ b'0' ∷ b'4' ∷ b'd' ∷ b' ' ∷ b'o' ∷ b'f' ∷ b' ' ∷ b'%' ∷ b's' ∷ b'%' ∷ b'%' ∷ []

abbrev arguments : ℕ → ℕ
arguments n = if n == 0 then 42 else 7

abbrev all_text : ℕ → List ℕ
all_text _ = b'a' ∷ b'l' ∷ b'l' ∷ []

abbrev no_buffer : Buffer
no_buffer _ = 0

percentages-AllBytes : AllBytes percentages
percentages-AllBytes = ground arith

all_text-AllBytes : (p : ℕ) → AllBytes (all_text p)
all_text-AllBytes p = (omega arith, (omega arith, (omega arith, tt)))

vasprintf_lem_example :
    (b : Buffer) × (ds : List ℕ) × ((k : ℕ)
      → vasprintf arguments all_text (32 + k) no_buffer percentages ≡ some (length ds, b))
    × Rendered arguments all_text plain 0 percentages ds
    × (text b 0 (length ds) ≡ ds)
    × (b (length ds) ≡ 0)
vasprintf_lem_example =
    vasprintf_lem arguments all_text all_text-AllBytes no_buffer percentages percentages-AllBytes

printf_lem_example :
    (ds : List ℕ) × Rendered arguments all_text plain 0 percentages ds
    × ((fw : Firmware Unit) (device : Device) (k : ℕ) (s : Tty)
        → printf fw device arguments all_text (32 + (length ds + suc k)) no_buffer percentages s ≡ (
            if ltb (length ds) 1024
            then some (length ds, puts fw device (until_nul ds) s)
            else none))
printf_lem_example =
    printf_lem arguments all_text no_buffer percentages all_text-AllBytes percentages-AllBytes

abbrev some_cells : Console
some_cells = record { textmem = λ _. 7; trace = [] }

begin_kprintf_lem_example :
    (ds : List ℕ) × Rendered arguments all_text plain 0 percentages ds
    × (s' : Console) × (begin_kprintf ready arguments all_text
          (33 + length ds)
          no_buffer
          percentages
          some_cells
        ≡ (if ltb (length ds) 1024 then some s' else none))
    × (outputs s'.trace
        ≡ output 0xFF 0x3D5
          ∷ output 0x0E 0x3D4
          ∷ output 0xFF 0x3D5
          ∷ output 0x0F 0x3D4
          ∷ (reverse (map swapped (until_nul ds)) ++ []))
    × ((k : ℕ) → s'.textmem k ≡ (if ltb k 6400 && ltb (k % 80) 24 then 0x20 else 7))
begin_kprintf_lem_example =
    begin_kprintf_lem ready arguments all_text no_buffer percentages some_cells (λ h. omega arith)
      all_text-AllBytes percentages-AllBytes

-- A processor of level 4 where one of level 6 is required.
validate_cpu-message_example :
    (enough : ℕ) × (wanted : List ℕ) × (got : List ℕ) × (buf' : Buffer) × (s' : Tty) × NameText 6
      wanted
    × NameText 4 got
    × ((k : ℕ)
        → validate_cpu silent ready (enough + k) no_buffer 4 6 (no_buffer, untouched)
          ≡ some (if less_int 4 6 then some too_old else none, buf', s'))
    × (sent s'.trace ≡ reverse (with_returns (message 4 6 wanted got)) ++ [])
    × (shown s'.calls ≡ reverse (with_returns (message 4 6 wanted got)) ++ [])
validate_cpu-message_example =
    validate_cpu-message silent ready no_buffer no_buffer 4 6 untouched (omega arith) (omega arith)

four_below_six : less_int 4 6 ≡ true
unfolding less_int
four_below_six = refl

-- "%s%%"
abbrev all_percent : List ℕ
all_percent = b'%' ∷ b's' ∷ b'%' ∷ b'%' ∷ []

abbrev all_percent_text : List ℕ
all_percent_text = b'a' ∷ b'l' ∷ b'l' ∷ b'%' ∷ []

all_percent-Rendered : Rendered arguments all_text plain 0 all_percent all_percent_text
all_percent-Rendered =
    opened refl (converted refl (a_text refl) (opened refl (converted refl (a_percent refl) ended)))

few_arguments : (i : ℕ) → u32 (arguments i) ≤ 1410065407
few_arguments i = ground arith

vasprintf-Rendered_example :
    (b : Buffer) × ((k : ℕ)
      → vasprintf arguments all_text (32 + k) no_buffer all_percent ≡ some (4, b))
    × (text b 0 4 ≡ all_percent_text)
    × (b 4 ≡ 0)
vasprintf-Rendered_example =
    vasprintf-Rendered arguments all_text no_buffer all_percent all_percent_text all_text-AllBytes
      few_arguments (ground arith) all_percent-Rendered
