-- ===== src/Tests/Devices.antt =====
-- Runs of the disk driver and of the clock.
use tinu_os.Prelude.{ℕ, bit_and, ◌≡◌, refl, false, some, List, [], ◌∷◌, arith, length}
use tinu_os.Ports.{Device, input}
use tinu_os.Ide.{Channel, Ide, ide_polling}
use tinu_os.Ide.Polling.{reads, AllBusy, Outcome, ide_polling_lem}
use tinu_os.Rtc.{Time, Rtc, read_time, rtc_handler}
use tinu_os.Rtc.Reading.{rtc_handler-once}

abbrev channel : Channel
channel = record { base = 0x1F0; ctrl = 0x3F4; bmide = 0xC000; nien = 2 }

abbrev disk : Ide
disk = record { channels = λ _. channel; trace = []; log = [] }

-- A device that answers every read with the same byte.
abbrev answers : ℕ → Device
answers v t p = v

ide_polling_lem_example :
    (us : List ℕ) × (vs : List ℕ) × (code : ℕ) × let t = reads 0x1F7 vs (reads 0x3F6 us []) in
      (ide_polling (answers 8) 1 0 1 disk
        ≡ some (code, record disk { trace = input 8 0x1F7 ∷ input 8 0x1F7 ∷ t }))
      × (length us ≡ 4)
      × AllBusy vs
      × (bit_and 8 0x80 ≡ 0)
      × Outcome 8 code
ide_polling_lem_example = ide_polling_lem (answers 8) 0 0 0 1 disk (λ t h. refl) (omega arith)

abbrev unset : Time
unset = record {
  second = 1;
  minute = 2;
  hour = 3;
  day_of_week = 4;
  day_of_month = 5;
  month = 6;
  year = 7;
  century = 8;
}

abbrev clock : Rtc
clock = record { current_time = unset; bcd = false; trace = [] }

rtc_handler-once_example :
    let (now, t) = read_time (answers 9) [] in
    rtc_handler (answers 9) 2 unset clock
    ≡ some (now, record clock { current_time = now; trace = t })
rtc_handler-once_example = rtc_handler-once (answers 9) 0 unset clock
