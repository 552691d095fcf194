-- ===== src/Kernel/Interrupts.antt =====
-- What happens at an interrupt once kernel_main of kernel.c has set the tables up: io/idt.c, io/isrs.c and io/timer.c
-- together.
use tinu_os.Prelude.{
  ℕ, zero, suc, ◌+◌, ◌^◌, ◌<◌, ◌≡◌, refl, ap, ◌∙◌, ◌≢◌, inl, inr, true, List, [], ◌∷◌, arith, ◌==◌,
  leb, if◌then◌else◌, ==→eq, Bool-cases, length, get_or, replicate, length-replicate, u32,
}
use tinu_os.Ports.{Trace, output, outb}
use tinu_os.Idt.{idt, no_handlers, empty_gate}
use tinu_os.Idt.Gates.{IsUserGate, idt_lem}
use tinu_os.Isrs.{
  Isrs, Action, print, print_number, page_fault, call, end_of_interrupt, irq_handler,
  register_interrupt_handler,
}
use tinu_os.Isrs.Dispatch.{calls, irq_handler-register}
use tinu_os.Timer.{timer_callback, init_timer}
use tinu_os.PageAlloc.{Kmem}
use tinu_os.Kernel.{Machine, Kernel, started}

-- What the actions of a dispatcher do to the tick count: the handler of the timer counts.
unfoldable pub perform : ℕ → List Action → ℕ → ℕ
unfolding timer_callback
perform callback [] tick = tick
perform callback (call handler int_no ∷ actions) tick =
    let rest = perform callback actions tick in
    let counted = perform callback actions (timer_callback tick) in
    if handler == callback then counted else rest
perform callback (print s ∷ actions) tick = perform callback actions tick
perform callback (print_number n ∷ actions) tick = perform callback actions tick
perform callback (page_fault ∷ actions) tick = perform callback actions tick

-- An interrupt of a device, by its number.
unfoldable pub device_interrupt : Machine → ℕ → Kernel → Kernel
unfolding perform
device_interrupt m int_no k =
    let (actions, s) = irq_handler int_no k.isrs in
    record k { isrs = s; tick = perform m.callback actions k.tick }

unfoldable pub device_interrupts : Machine → List ℕ → Kernel → Kernel
unfolding device_interrupt
device_interrupts m [] k = k
device_interrupts m (n ∷ ns) k = device_interrupts m ns (device_interrupt m n k)

-- How often the timer is among the interrupts.
abbrev pub timer_count : List ℕ → ℕ
timer_count [] = 0
timer_count (n ∷ ns) = if n == 32 then suc (timer_count ns) else timer_count ns

-- The byte 0x20 goes to port 0x20 for each interrupt, and to port 0xA0 before that for those from 40 on.
abbrev pub acknowledged : List ℕ → Trace → Trace
acknowledged [] t = t
acknowledged (n ∷ ns) t =
    acknowledged ns (output 0x20 0x20 ∷ (if leb 40 n then output 0x20 0xA0 ∷ t else t))

-- Only the timer has a handler.
OnlyTimer : Machine → Isrs → Type 0
OnlyTimer m s = (n : ℕ) → calls n s ≡ (if n == 32 then call m.callback 32 ∷ [] else [])

perform_one :
    (callback tick : ℕ) → perform callback (call callback 32 ∷ []) tick ≡ timer_callback tick
unfolding perform
perform_one callback tick = let same : (callback == callback) ≡ true = ground arith in rw same refl

perform_none : (callback tick : ℕ) → perform callback [] tick ≡ tick
unfolding perform
perform_none callback tick = refl

calls-after : (n int_no : ℕ) (s : Isrs) → calls n (irq_handler int_no s).1 ≡ calls n s
unfolding irq_handler
calls-after n int_no s = refl

trace-after :
    (int_no : ℕ) (s : Isrs) → (irq_handler int_no s).1.trace ≡ acknowledged (int_no ∷ []) s.trace
unfolding irq_handler end_of_interrupt outb
trace-after int_no s = refl

-- What one interrupt does.
one_interrupt :
    (m : Machine) (n : ℕ) (k : Kernel)
    → OnlyTimer m k.isrs
    → ((device_interrupt m n k).tick ≡ (if n == 32 then timer_callback k.tick else k.tick))
      × ((device_interrupt m n k).isrs.trace ≡ acknowledged (n ∷ []) k.isrs.trace)
      × OnlyTimer m (device_interrupt m n k).isrs
unfolding device_interrupt OnlyTimer
one_interrupt m n k only = (
  ap (λ actions. perform m.callback actions k.tick) (only n) ∙ elim (Bool-cases (n == 32)) [
    | inl timer ↦ rw timer (perform_one m.callback k.tick)
    | inr other ↦ rw other (perform_none m.callback k.tick)
  ],
  trace-after n k.isrs,
  λ j. calls-after j n k.isrs ∙ only j,
)

-- What a sequence of interrupts does.
many_interrupts :
    (m : Machine) (ns : List ℕ) (k : Kernel)
    → OnlyTimer m k.isrs
    → k.tick < 2 ^ 32
    → ((device_interrupts m ns k).tick ≡ u32 (k.tick + timer_count ns))
      × ((device_interrupts m ns k).isrs.trace ≡ acknowledged ns k.isrs.trace)
unfolding device_interrupts
many_interrupts m [] k only small = (omega arith, refl)
many_interrupts m (n ∷ ns) k only small =
    let (tick, trace, only') = one_interrupt m n k only in
    elim (Bool-cases (n == 32)) [
      | inl timer ↦
          let once : (device_interrupt m n k).tick ≡ u32 (k.tick + 1) =
            unfold timer_callback in tick ∙ rw timer refl in
          let rest = many_interrupts m ns (device_interrupt m n k) only' (omega (arith, once)) in
          (rest.0 ∙ rw timer (omega (arith, once)), rest.1 ∙ ap (acknowledged ns) trace)
      | inr other ↦
          let same : (device_interrupt m n k).tick ≡ k.tick = tick ∙ rw other refl in
          let rest = many_interrupts m ns (device_interrupt m n k) only' (omega (arith, same)) in
          (rest.0 ∙ rw other (omega (arith, same)), rest.1 ∙ ap (acknowledged ns) trace)
    ]

get_or-replicate : (n j : ℕ) (d : ℕ) → get_or (replicate n d) j d ≡ d
get_or-replicate zero j d = refl
get_or-replicate (suc n) zero d = refl
get_or-replicate (suc n) (suc j) d = get_or-replicate n j d

abbrev empty_isrs : Machine → Kernel → Isrs
empty_isrs m k =
    let i = idt m.stub k.idt in
    record { interrupt_descriptors = i.interrupt_descriptors; trace = i.trace }

no_calls : (m : Machine) (k : Kernel) (n : ℕ) → calls n (empty_isrs m k) ≡ []
unfolding idt no_handlers irq_handler
no_calls m k n =
    let d : ℕ = 0 in
    let e : (get_or (replicate 256 d) n d == 0) ≡ true = ground (arith, get_or-replicate 256 n d) in
    rw e refl

init_timer-calls :
    (callback frequency n : ℕ) (s : Isrs)
    → calls n (init_timer callback frequency s) ≡ calls n (register_interrupt_handler 32 callback s)
unfolding init_timer irq_handler
init_timer-calls callback frequency n s = refl

length-empty_isrs : (m : Machine) (k : Kernel) → length (empty_isrs m k).interrupt_descriptors ≡ 256
unfolding idt no_handlers
length-empty_isrs m k = let d : ℕ = 0 in length-replicate 256 d

started-OnlyTimer :
    (m : Machine) (k : Kernel) (kmem : Kmem) → m.callback ≢ 0 → OnlyTimer m (started m k kmem).isrs
unfolding OnlyTimer started
started-OnlyTimer m k kmem set_callback n =
    init_timer-calls m.callback 1000 n (empty_isrs m k)
    ∙ irq_handler-register 32 n m.callback (empty_isrs m k) (length-empty_isrs m k) (omega arith)
        set_callback
    ∙ elim (Bool-cases (n == 32)) [
      | inl timer ↦ rw timer (ap (λ (j : ℕ). call m.callback j ∷ []) (==→eq n 32 timer))
      | inr other ↦ rw other (no_calls m k n)
    ]

-- Once kernel_main has set up the tables, gate `j` of the first 48 leads to the assembly routine of interrupt `j`, and of
-- any sequence of interrupts of devices each one is acknowledged, in order: with 0x20 at port 0x20, and from interrupt 40 on
-- with 0x20 at port 0xA0 before that. Those of the timer, and no others, are counted, modulo 2 ^ 32. The tick count is below
-- 2 ^ 32 at first, `timer_callback` does not lie at address 0, and the routine of interrupt `j` lies below 2 ^ 32.
pub device_interrupts_lem :
    (m : Machine) (k : Kernel) (kmem : Kmem) (ns : List ℕ) (j : ℕ)
    → m.callback ≢ 0
    → k.tick < 2 ^ 32
    → j < 48
    → m.stub j < 2 ^ 32
    → let k' = device_interrupts m ns (started m k kmem) in
      IsUserGate (m.stub j) (get_or (started m k kmem).idt.id j empty_gate)
      × (k'.tick ≡ u32 (k.tick + timer_count ns))
      × (k'.isrs.trace ≡ acknowledged ns (started m k kmem).isrs.trace)
unfolding started
device_interrupts_lem m k kmem ns j set_callback small low address =
    let (tick, trace) =
      many_interrupts m ns (started m k kmem) (started-OnlyTimer m k kmem set_callback) small in
    ((idt_lem m.stub k.idt j address).1 low, tick, trace)
