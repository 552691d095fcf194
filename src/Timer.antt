-- ===== src/Timer.antt =====
-- io/timer.c: the programmable interval timer and its tick count.
pub mod Ticks
use tinu_os.Prelude.{
  ℕ, zero, suc, ◌+◌, ◌/◌, ◌^◌, bit_and, Option, none, some, ltb, if◌then◌else◌, u8, u32,
}
use tinu_os.Ports.{Trace, outb}
use tinu_os.Isrs.{Isrs, register_interrupt_handler}

-- `tick` is a `u32`. The nested handler of the code always returns 0, so nothing is ever printed.
unfoldable pub pit_handler_nest : ℕ
pit_handler_nest = 0

unfoldable pub timer_callback : ℕ → ℕ
timer_callback tick = u32 (tick + 1)

unfoldable pub divisor : ℕ → ℕ
divisor frequency = 1193180 / frequency

-- `callback` is the address of `timer_callback`.
unfoldable pub init_timer : ℕ → ℕ → Isrs → Isrs
unfolding divisor
init_timer callback frequency s =
    let s = register_interrupt_handler 32 callback s in
    let t = outb 0x36 0x40 s.trace in
    let l = u8 (bit_and (divisor frequency) 0xFF) in
    let h = u8 (bit_and (divisor frequency / 2 ^ 8) 0xFF) in
    record s { trace = outb h 0x40 (outb l 0x40 t) }

-- The loop of `sleep`, which ends at `end`, while the timer interrupts: `none` if it still waits after
-- `interrupts` of them.
unfoldable pub wait : ℕ → ℕ → ℕ → Option ℕ
wait zero tick end = if ltb tick end then none else some tick
wait (suc interrupts) tick end =
    let rest = wait interrupts (timer_callback tick) end in if ltb tick end then rest else some tick

unfoldable pub sleep : ℕ → ℕ → ℕ → Option ℕ
sleep interrupts tick ticks = wait interrupts tick (u32 (tick + ticks))
