-- ===== src/Rtc.antt =====
-- drivers/rtc/clock.c: the real time clock behind the ports 0x70 and 0x71.
pub mod Reading
pub mod Texts
use tinu_os.Prelude.{
  ℕ, zero, suc, ◌+◌, ◌/◌, ◌^◌, bit_and, bit_or, Bool, ◌&&◌, Option, none, some, ◌==◌, if◌then◌else◌,
  u8,
}
use tinu_os.Ports.{Trace, Device, outb, inb}

-- `time_t`.
pub record Time : Type 0 where
  pub second : ℕ
  pub minute : ℕ
  pub hour : ℕ
  pub day_of_week : ℕ
  pub day_of_month : ℕ
  pub month : ℕ
  pub year : ℕ
  pub century : ℕ

-- `current_time` and `bcd`, with what the ports have seen.
pub record Rtc : Type 0 where
  pub current_time : Time
  pub bcd : Bool
  pub trace : Trace

abbrev pub cmos_address : ℕ
cmos_address = 0x70

abbrev pub cmos_data : ℕ
cmos_data = 0x71

unfoldable pub read_register : Device → ℕ → Trace → ℕ × Trace
read_register device reg t = inb device cmos_data (outb reg cmos_address t)

-- The function ends without a value.
unfoldable pub get_update_in_progress_flag : Device → Trace → Trace
get_update_in_progress_flag device t = (read_register device 0x0A t).1

unfoldable pub write_register : ℕ → ℕ → Trace → Trace
write_register reg value t = outb value cmos_data (outb reg cmos_address t)

unfoldable pub bcd2bin : ℕ → ℕ
bcd2bin bcd = u8 (bit_and bcd 0xF0 / 2 + bit_and bcd 0xF0 / 2 ^ 3 + bit_and bcd 0xF)

-- The body of the loop in `rtc_handler`.
unfoldable pub read_time : Device → Trace → Time × Trace
unfolding read_register
read_time device t =
    let (second, t) = read_register device 0x00 t in
    let (minute, t) = read_register device 0x02 t in
    let (hour, t) = read_register device 0x04 t in
    let (month, t) = read_register device 0x08 t in
    let (year, t) = read_register device 0x09 t in
    let (day_of_week, t) = read_register device 0x06 t in
    let (day_of_month, t) = read_register device 0x07 t in
    let (century, t) = read_register device 0x32 t in
    (
      record {
        second = second;
        minute = minute;
        hour = hour;
        day_of_week = day_of_week;
        day_of_month = day_of_month;
        month = month;
        year = year;
        century = century;
      },
      t,
    )

-- `!memcmp(&curr, &last, sizeof(curr))`: all eight bytes agree.
unfoldable pub same_time : Time → Time → Bool
same_time a b =
    a.second == b.second
    && (a.minute == b.minute
        && (a.hour == b.hour
            && (a.day_of_week == b.day_of_week
                && (a.day_of_month == b.day_of_month
                    && (a.month == b.month && (a.year == b.year && a.century == b.century))))))

-- The loop: `curr` is never changed in it, and `last` becomes `curr`.
unfoldable pub read_until_same : Device → ℕ → Time → Time → Rtc → Option Rtc
unfolding same_time read_time
read_until_same device zero curr last s = none
read_until_same device (suc fuel) curr last s =
    let (now, t) = read_time device s.trace in
    let rest = read_until_same device fuel curr curr (record s { current_time = now; trace = t }) in
    if same_time curr last then some s else rest

-- `memset(&last, 0xFF, sizeof(last))`.
abbrev pub all_ones : Time
all_ones = record {
  second = 0xFF;
  minute = 0xFF;
  hour = 0xFF;
  day_of_week = 0xFF;
  day_of_month = 0xFF;
  month = 0xFF;
  year = 0xFF;
  century = 0xFF;
}

-- `curr` is a local variable of which only the year is set: its other bytes are a parameter.
unfoldable pub rtc_handler : Device → ℕ → Time → Rtc → Option (Time × Rtc)
unfolding read_until_same
rtc_handler device fuel curr s =
    elim (read_until_same device fuel (record curr { year = 0 }) all_ones s) [
      | none ↦ none
      | some s' ↦ some (s'.current_time, s')
    ]

-- The four changes of the status byte in `rtc_install`.
unfoldable pub install_status : ℕ → ℕ
install_status status =
    let status = bit_or status 0x02 in
    let status = bit_or status 0x10 in let status = bit_and status 0xDF in bit_and status 0xBF

unfoldable pub rtc_install : Device → Rtc → Rtc
unfolding install_status write_register
rtc_install device s =
    let (status, t) = read_register device 0x0B s.trace in
    let status = install_status status in
    let t = write_register 0x0B status t in
    let (_, t) = read_register device 0x0C t in
    record s { bcd = bit_and status 0x04 == 0; trace = t }
