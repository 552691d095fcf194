-- ===== src/Rtc/Reading.antt =====
-- What drivers/rtc/clock.c reads from the clock, and how it is set up.
use tinu_os.Prelude.{
  ℕ, suc, ◌+◌, ◌*◌, ◌/◌, ◌%◌, ◌^◌, ◌<◌, bit_and, ◌≡◌, refl, Bool, true, ◌&&◌, some, ◌∷◌, arith,
  ◌==◌, ==→eq, u8,
}
use tinu_os.Prelude.Bits.{holds_below, holds_below-at}
use tinu_os.Ports.{Device, outb, inb, output, input}
use tinu_os.Rtc.{
  Time, Rtc, read_register, write_register, bcd2bin, read_time, same_time, read_until_same,
  rtc_handler, install_status, rtc_install,
}

abbrev decodes : ℕ → ℕ → Bool
decodes t u = bcd2bin (t * 16 + u) == 10 * t + u

abbrev decodes_tens : ℕ → Bool
decodes_tens t = holds_below 10 (decodes t)

decodes_all : holds_below 10 decodes_tens ≡ true
unfolding holds_below bcd2bin
decodes_all = refl

-- `bcd2bin` of a byte with a decimal digit in each half is the number that the two digits stand for.
pub bcd2bin_lem : (t u : ℕ) → t < 10 → u < 10 → bcd2bin (t * 16 + u) ≡ 10 * t + u
bcd2bin_lem t u ht hu =
    ==→eq (bcd2bin (t * 16 + u)) (10 * t + u)
      (holds_below-at 10 (decodes t) u (holds_below-at 10 decodes_tens t decodes_all ht) hu)

-- `rtc_handler` returns, on two rounds of fuel or more and whatever stood in its uninitialised
-- variable, after the body of its loop has run exactly once: its result is that one reading of the
-- registers, and no two readings are ever compared.
pub rtc_handler-once :
    (device : Device) (fuel : ℕ) (curr : Time) (s : Rtc)
    → let (now, t) = read_time device s.trace in
      rtc_handler device (suc (suc fuel)) curr s
      ≡ some (now, record s { current_time = now; trace = t })
unfolding rtc_handler read_until_same same_time
rtc_handler-once device fuel curr s = ground arith

-- The status byte `v` that is written back for `b`: 24-hour clock and interrupts at the end of an update on,
-- alarm and periodic interrupts off, and the other bits as they were.
pub record IsInstalled (b v : ℕ) : Type 0 where
  pub hours : v / 2 % 2 ≡ 1
  pub update_ended : v / 2 ^ 4 % 2 ≡ 1
  pub alarm : v / 2 ^ 5 % 2 ≡ 0
  pub periodic : v / 2 ^ 6 % 2 ≡ 0
  pub lowest : v % 2 ≡ b % 2
  pub middle : v / 2 ^ 2 % 4 ≡ b / 2 ^ 2 % 4
  pub highest : v / 2 ^ 7 ≡ b / 2 ^ 7

-- The changes of the status byte, written with arithmetic.
abbrev installed : ℕ → ℕ
installed b = b / 2 ^ 7 * 2 ^ 7 + 2 ^ 4 + b / 2 ^ 2 % 4 * 2 ^ 2 + 2 + b % 2

abbrev installs : ℕ → Bool
installs b = install_status b == installed b && bit_and (install_status b) 4 == b / 4 % 2 * 4

installs_all : holds_below 256 installs ≡ true
unfolding holds_below install_status
installs_all = refl

-- `rtc_install` reads the status register, writes it back with its settings, and reads the register that
-- clears the clock's interrupt. It takes the clock for a decimal one if bit 2 of the status is clear.
pub rtc_install_lem :
    (device : Device) (s : Rtc)
    → let s' = rtc_install device s in
      (b v c : ℕ) × (s'.trace
        ≡ input c 0x71
          ∷ output 0x0C 0x70
          ∷ output v 0x71
          ∷ output 0x0B 0x70
          ∷ input b 0x71
          ∷ output 0x0B 0x70
          ∷ s.trace)
      × IsInstalled b v
      × (s'.bcd ≡ (b / 4 % 2 == 0))
unfolding rtc_install read_register write_register outb inb
rtc_install_lem device s =
    let b : ℕ = u8 (device (output 0x0B 0x70 ∷ s.trace) 0x71) in
    let known = holds_below-at 256 installs b installs_all (omega arith) in
    let v : ℕ = install_status b in
    let same : v ≡ installed b = ground (arith, known) in
    let byte : u8 v ≡ v = omega (arith, same) in
    let c : ℕ = u8 (
      device
        (output 0x0C 0x70
          ∷ output (u8 v) 0x71
          ∷ output 0x0B 0x70
          ∷ input b 0x71
          ∷ output 0x0B 0x70
          ∷ s.trace)
        0x71) in
    (
      b,
      u8 v,
      c,
      refl,
      record {
        hours = omega (arith, same);
        update_ended = omega (arith, same);
        alarm = omega (arith, same);
        periodic = omega (arith, same);
        lowest = omega (arith, same);
        middle = omega (arith, same);
        highest = omega (arith, same);
      },
      ground (arith, known),
    )
