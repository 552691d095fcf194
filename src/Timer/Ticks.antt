-- ===== src/Timer/Ticks.antt =====
-- How long `sleep` of io/timer.c waits, and what the timer is told.
use tinu_os.Prelude.{
  ℕ, zero, suc, ◌+◌, ◌-◌, ◌*◌, ◌/◌, ◌%◌, ◌^◌, ◌≤◌, ◌<◌, ◌≡◌, ap, ◌∙◌, inl, inr, none, some, ◌∷◌,
  arith, ltb, leb, if◌then◌else◌, Bool-cases, u32,
}
use tinu_os.Prelude.Bits.{bit_and_mask}
use tinu_os.Ports.{output, outb}
use tinu_os.Isrs.{Isrs, register_interrupt_handler}
use tinu_os.Timer.{timer_callback, divisor, init_timer, wait, sleep}

wait-end :
    (interrupts tick end : ℕ)
    → tick ≤ end
    → end < 2 ^ 32
    → wait interrupts tick end ≡ (if leb (end - tick) interrupts then some end else none)
unfolding wait timer_callback
wait-end zero tick end h small = ground arith
wait-end (suc interrupts) tick end h small = elim (Bool-cases (ltb tick end)) [
  | inl more ↦
      let next : u32 (tick + 1) ≡ tick + 1 = ground arith in
      rw (more, next) (wait-end interrupts (tick + 1) end (ground arith) small ∙ ground arith)
  | inr done ↦ rw done (ground arith)
]

-- As long as the count does not wrap, `sleep(ticks)` returns after exactly `ticks` interrupts of the timer.
pub sleep-ticks :
    (interrupts tick ticks : ℕ)
    → tick + ticks < 2 ^ 32
    → sleep interrupts tick ticks ≡ (if leb ticks interrupts then some (tick + ticks) else none)
unfolding sleep
sleep-ticks interrupts tick ticks h =
    ap (wait interrupts tick) (omega arith)
    ∙ wait-end interrupts tick (tick + ticks) (omega arith) h
    ∙ ground arith

-- If the count wraps before the end, `sleep` returns at once.
pub sleep_wraps :
    (interrupts tick ticks : ℕ)
    → tick < 2 ^ 32
    → ticks < 2 ^ 32
    → 2 ^ 32 ≤ tick + ticks
    → sleep interrupts tick ticks ≡ some tick
unfolding sleep wait
sleep_wraps zero tick ticks ht hs h = ground arith
sleep_wraps (suc interrupts) tick ticks ht hs h = ground arith

divisor-lt : (frequency : ℕ) → 19 ≤ frequency → divisor frequency < 2 ^ 16
unfolding divisor
divisor-lt frequency h = grind arith

-- The two bytes that the timer is sent are the divisor, if the frequency is at least 19.
pub init_timer-divisor :
    (callback frequency : ℕ) (s : Isrs)
    → 19 ≤ frequency
    → (l h : ℕ) × ((init_timer callback frequency s).trace
        ≡ output h 0x40 ∷ output l 0x40 ∷ output 0x36 0x40 ∷ s.trace)
      × (h * 256 + l ≡ 1193180 / frequency)
      × (h < 256)
      × (l < 256)
unfolding init_timer outb register_interrupt_handler
init_timer-divisor callback frequency s h =
    let d : ℕ = divisor frequency in
    let small = divisor-lt frequency h in
    (
      d % 256,
      d / 256,
      ground (arith, bit_and_mask 8 d, bit_and_mask 8 (d / 2 ^ 8)),
      unfold divisor in omega arith,
      omega (arith, small),
      omega arith,
    )
