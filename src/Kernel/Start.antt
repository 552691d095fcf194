-- ===== src/Kernel/Start.antt =====
-- How far kernel_main of kernel.c gets.
use tinu_os.Prelude.{
  ℕ, suc, ◌+◌, ◌-◌, ◌/◌, ◌^◌, ◌≤◌, ◌<◌, ◌≡◌, refl, ap, ◌∙◌, ◌≢◌, ◌⊎◌, true, none, some, List, [],
  ◌∷◌, arith, length, get_or, sub32, ◌>>=◌, bind_some,
}
use tinu_os.Ports.{Trace, Device, inb}
use tinu_os.Layout.{page_size, pgroundup}
use tinu_os.PageAlloc.{Kmem}
use tinu_os.PageAlloc.Stack.{IsStack}
use tinu_os.PageAlloc.Range.{has, pages_of, length-pages_of, pages-between, kinit1-pages_of}
use tinu_os.Terminal.{Terminal, terminal_initialize, terminal_write}
use tinu_os.Timer.{sleep}
use tinu_os.Timer.Ticks.{sleep-ticks}
use tinu_os.Rtc.{Time, Rtc, read_register, read_time, rtc_handler}
use tinu_os.Rtc.Reading.{rtc_handler-once}
use tinu_os.Rtc.Texts.{dates_str, months_str}
use tinu_os.Rtc.Texts.Printed.{IsRead, line, rtc_print_struct_lem}
use tinu_os.Paging.{paging_install}
use tinu_os.Paging.Ready.{OutsidePages}
use tinu_os.Paging.Mapping.{pagetable_init_endless}
use tinu_os.Kernel.{
  Machine, Kernel, first_end, started, install_pages, set_up, interrupted, print_clock, read_clock,
  show_time, kernel_main,
}

-- A clock whose day and month rtc_print_struct can name, and a frame with two texts in it.
pub record IsNamed (m : Machine) : Type 0 where
  pub day_from : (t : Trace) → 2 ≤ (read_time m.device t).0.day_of_week
  pub day_to : (t : Trace) → (read_time m.device t).0.day_of_week ≤ 7
  pub month_from : (t : Trace) → 1 ≤ (read_time m.device t).0.month
  pub month_to : (t : Trace) → (read_time m.device t).0.month ≤ 12
  pub weekday_there : m.frame.weekday_address ≢ 0
  pub month_there : m.frame.month_address ≢ 0
  pub apart : m.frame.weekday_address ≢ m.frame.month_address

read_time-IsRead : (device : Device) (t : Trace) → IsRead (read_time device t).0
unfolding read_time read_register inb
read_time-IsRead device t = record {
  hour = omega arith;
  minute = omega arith;
  second = omega arith;
  century = omega arith;
  year = omega arith;
}

-- The line of text for a time.
abbrev pub time_line : Time → List ℕ
time_line time =
    line (get_or dates_str (time.day_of_week - 2) []) (get_or months_str (time.month - 1) []) time

-- The kernel that show_time leaves, for the trace at which the clock is read.
record Shown (m : Machine) (k k' : Kernel) (t : Trace) : Type 0 where
  kmem : k'.kmem ≡ k.kmem
  tick : k'.tick ≡ k.tick + 40
  screen :
      k'.terminal
      ≡ terminal_write
          (time_line (read_time m.device t).0)
          (record k.terminal { trace = (read_time m.device t).1 })

show_time_lem :
    (m : Machine) (fuel interrupts : ℕ) (k : Kernel)
    → IsNamed m
    → k.tick + 40 < 2 ^ 32
    → 40 ≤ interrupts
    → (k' : Kernel) × (t : Trace) × (show_time m (suc (suc fuel)) interrupts k ≡ some k')
      × Shown m k k' t
unfolding show_time
show_time_lem m fuel interrupts k named small enough =
    let slept : sleep interrupts k.tick 40 ≡ some (k.tick + 40) =
      sleep-ticks interrupts k.tick 40 small ∙ ground arith in
    let r : Rtc = record k.rtc { trace = interrupted (sub32 (k.tick + 40) k.tick) k.rtc.trace } in
    let (now, after) = read_time m.device r.trace in
    let r' : Rtc = record r { current_time = now; trace = after } in
    let start : Terminal = record k.terminal { trace = after } in
    let read = rtc_handler-once m.device fuel m.curr r in
    let printed =
      rtc_print_struct_lem m.frame now start (read_time-IsRead m.device r.trace) named.weekday_there
        named.month_there named.apart (named.day_from r.trace) (named.day_to r.trace)
        (named.month_from r.trace) (named.month_to r.trace) in
    let screen : Terminal = terminal_write (time_line now) start in
    let shown : Kernel = record k { tick = k.tick + 40; rtc = r'; terminal = screen } in
    (
      shown,
      r.trace,
      bind_some (sleep interrupts k.tick 40) (k.tick + 40) (read_clock m (suc (suc fuel)) k)
          (some shown) slept
          (bind_some (rtc_handler m.device (suc (suc fuel)) m.curr r) (now, r')
            (print_clock m k (k.tick + 40)) (some shown) read
            (ap (λ o. o >>= λ t. some (record k { tick = k.tick + 40; rtc = r'; terminal = t }))
              printed)),
      record { kmem = refl; tick = refl; screen = refl },
    )

-- A word outside a range lies in none of the pages that lie in the range.
OutsidePages-has :
    (a lo hi : ℕ) (ps : List ℕ)
    → (a + 4 ≤ lo) ⊎ (hi ≤ a)
    → ((q : ℕ) → has q ps ≡ true → (lo ≤ q) × (q + page_size ≤ hi))
    → OutsidePages a ps
OutsidePages-has a lo hi [] out within = tt
OutsidePages-has a lo hi (q ∷ qs) out within =
    let here = within q (ground arith) in
    (
      omega (arith, out, here),
      OutsidePages-has a lo hi qs out (λ r h. within r (ground (arith, h))),
    )

paging_install_endless :
    (fuel map_rounds data_address : ℕ) (pointer : ℕ → ℕ) (ps : List ℕ) (k : Kmem)
    → map_rounds < length ps
    → IsStack k ps
    → OutsidePages (pointer 3) ps
    → paging_install (suc fuel) map_rounds pointer data_address k ≡ none
unfolding paging_install
paging_install_endless fuel map_rounds data_address pointer [] k enough st out =
    absurd (omega arith)
paging_install_endless fuel map_rounds data_address pointer (p ∷ ps) k enough st out =
    pagetable_init_endless fuel map_rounds data_address p pointer ps k (omega arith) st out

started_lem :
    (m : Machine) (k : Kernel) (kmem : Kmem)
    → let k' = started m k kmem in
      (k'.tick ≡ k.tick) × (k'.kmem ≡ kmem) × (k'.terminal ≡ terminal_initialize k.terminal)
unfolding started
started_lem m k kmem = (refl, refl, refl)

-- When the free list is empty at first, the kernel's image ends above address 0 and leaves room for a page below
-- 4MB, the clock reads a day and a month that have names, the tick count does not wrap and at least 40 interrupts
-- of the timer come, kernel_main gets as far as the time of day, with more rounds than there are free pages: the
-- screen is the cleared one with the line for the reading of the clock. Behind that, when the variable that
-- mappages leaves unset points outside the free pages, kernel_main has not come to its end within fewer rounds of
-- the loop in mappages than there are free pages. What comes when the pages have run out is not stated.
pub kernel_main_lem :
    (m : Machine) (fuel rounds interrupts map_rounds : ℕ) (k : Kernel)
    → k.kmem.freelist ≡ 0
    → 0 < m.end_address
    → m.end_address + page_size ≤ first_end
    → (first_end - pgroundup m.end_address) / page_size < rounds
    → map_rounds < (first_end - pgroundup m.end_address) / page_size
    → (m.pointer 3 + 4 ≤ m.end_address) ⊎ (first_end ≤ m.pointer 3)
    → IsNamed m
    → k.tick + 40 < 2 ^ 32
    → 40 ≤ interrupts
    → (k' : Kernel) × (t : Trace) × ((set_up m (suc (suc fuel)) rounds k
          >>= show_time m (suc (suc fuel)) interrupts)
        ≡ some k')
      × (k'.terminal
          ≡ terminal_write
              (time_line (read_time m.device t).0)
              (record (terminal_initialize k.terminal) { trace = (read_time m.device t).1 }))
      × (kernel_main m (suc (suc fuel)) rounds interrupts map_rounds k ≡ none)
unfolding set_up kernel_main
kernel_main_lem m fuel rounds interrupts map_rounds k empty pos room enough few out named small
      come =
    let (kmem, freed, st) =
      kinit1-pages_of (suc fuel) rounds m.end_address first_end k.kmem empty pos room (omega arith)
        enough in
    let k1 : Kernel = started m k kmem in
    let (same_tick, same_kmem, cleared) = started_lem m k kmem in
    let (k', t, run, shown) = show_time_lem m fuel interrupts k1 named (rw same_tick small) come in
    let before =
      bind_some (set_up m (suc (suc fuel)) rounds k) k1 (show_time m (suc (suc fuel)) interrupts)
        (some k') (ap (λ o. o >>= λ j. some (started m k j)) freed) run in
    let outside : OutsidePages (m.pointer 3) (pages_of m.end_address first_end) =
      OutsidePages-has (m.pointer 3) m.end_address first_end (pages_of m.end_address first_end) out
        (λ q h.
          let b = (pages-between m.end_address first_end q room (omega arith)).0 h in (b.1, b.2)) in
    let stuck =
      paging_install_endless (suc fuel) map_rounds m.data_address m.pointer
        (pages_of m.end_address first_end) k'.kmem
        (rw (length-pages_of m.end_address first_end) few) (rw (shown.kmem, same_kmem) st)
        outside in
    (
      k',
      t,
      before,
      shown.screen
          ∙ ap
              (λ (s : Terminal).
                terminal_write (time_line (read_time m.device t).0)
                  (record s { trace = (read_time m.device t).1 }))
              cleared,
      bind_some (set_up m (suc (suc fuel)) rounds k >>= show_time m (suc (suc fuel)) interrupts) k'
          (install_pages m (suc (suc fuel)) map_rounds) none before
          (ap (λ o. o >>= λ (pgdir, j). some (record k' { kmem = j; kernpgdir = pgdir })) stuck),
    )
