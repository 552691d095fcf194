-- ===== src/Tests/Serial.antt =====
-- Runs of the serial output and of the clock's line of text.
use tinu_os.Prelude.{ℕ, ◌≡◌, refl, some, List, [], ◌∷◌, ◌++◌, map, reverse, arith, get_or}
use tinu_os.Ports.{Trace, Device}
use tinu_os.Bios.{Firmware}
use tinu_os.Tty.{Tty, puts}
use tinu_os.Tty.Sending.{sent, shown, with_returns, puts-with_returns}
use tinu_os.EarlySerial.{serial_print}
use tinu_os.EarlySerial.Output.{outputs, swapped, serial_print-swapped}
use tinu_os.Terminal.{terminal_write}
use tinu_os.Kprintf.LowDigits.{low_digits}
use tinu_os.Rtc.{Time}
use tinu_os.Rtc.Texts.{dates_str, months_str, Frame, rtc_print_struct}
use tinu_os.Rtc.Texts.Printed.{line, rtc_print_struct_lem}
use tinu_os.Tests.Screen.{at_cell}
use tinu_os.Tests.Kprintf.{empty_buffer}

-- A port that is always ready.
abbrev pub ready : Device
ready trace port = 0x20

abbrev pub silent : Firmware Unit
silent = record {
  answer = λ calls. (
    record { ds = 0; es = 0; edi = 0; esi = 0; ebx = 0; edx = 0; ecx = 0; eax = 0; eflags = 0 },
    tt,
  );
  carry_flag = 1;
  data_segment = 0;
}

-- "A\nB"
abbrev two_lines : List ℕ
two_lines = b'A' ∷ b'\n' ∷ b'B' ∷ []

abbrev pub untouched : Tty
untouched = record { trace = []; calls = [] }

puts-with_returns_example :
    (sent (puts silent ready two_lines untouched).trace ≡ reverse (with_returns two_lines) ++ [])
    × (shown (puts silent ready two_lines untouched).calls ≡ reverse (with_returns two_lines) ++ [])
puts-with_returns_example =
    puts-with_returns silent ready two_lines untouched
      (omega arith, (omega arith, (omega arith, tt)))

two_lines_returned : with_returns two_lines ≡ b'A' ∷ b'\r' ∷ b'\n' ∷ b'B' ∷ []
two_lines_returned = refl

serial_print-swapped_example :
    (t' : Trace) × (serial_print ready 1 0x3f8 two_lines [] ≡ some t')
    × (outputs t' ≡ reverse (map swapped two_lines) ++ [])
serial_print-swapped_example =
    serial_print-swapped ready 0 0x3f8 two_lines [] (λ h. omega arith)
      (omega arith, (omega arith, (omega arith, tt)))

abbrev a_time : Time
a_time = record {
  second = 0x56;
  minute = 0x34;
  hour = 0x12;
  day_of_week = 3;
  day_of_month = 5;
  month = 9;
  year = 0x24;
  century = 0x20;
}

abbrev frame : Frame
frame = record { weekday_address = 1000; month_address = 1200; buf = empty_buffer }

rtc_print_struct_lem_example :
    rtc_print_struct 10 frame a_time (at_cell 3 0)
    ≡ some (
        terminal_write (line (get_or dates_str 1 []) (get_or months_str 8 []) a_time) (at_cell 3 0))
rtc_print_struct_lem_example =
    rtc_print_struct_lem frame a_time (at_cell 3 0)
      (record {
        hour = omega arith;
        minute = omega arith;
        second = omega arith;
        century = omega arith;
        year = omega arith;
      })
      (omega arith) (omega arith) (omega arith) (omega arith) (omega arith) (omega arith)
      (omega arith)

-- "Tue Sept 12:34:56 UTC 2024\n"
a_line :
    line (get_or dates_str 1 []) (get_or months_str 8 []) a_time
    ≡ b'T' ∷ b'u' ∷ b'e' ∷ b' ' ∷ b'S' ∷ b'e' ∷ b'p' ∷ b't' ∷ b' ' ∷ b'1' ∷ b'2' ∷ b':' ∷ b'3'
      ∷ b'4' ∷ b':' ∷ b'5' ∷ b'6' ∷ b' ' ∷ b'U' ∷ b'T' ∷ b'C' ∷ b' ' ∷ b'2' ∷ b'0' ∷ b'2' ∷ b'4'
      ∷ b'\n' ∷ []
unfolding low_digits
a_line = refl
