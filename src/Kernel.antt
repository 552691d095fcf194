-- ===== src/Kernel.antt =====
-- kernel.c: kernel_main, which starts the parts of the kernel one after the other. `none` is a part that has not
-- returned. The ports see what all the parts do, so that each part goes on with the trace of the one before it.
pub mod Start
pub mod Entry
pub mod Interrupts
use tinu_os.Prelude.{
  ℕ, zero, suc, ◌*◌, ◌/◌, ◌^◌, bit_or, ◌||◌, Option, some, ◌==◌, if◌then◌else◌, sub32, ◌>>=◌,
}
use tinu_os.Ports.{Trace, Device}
use tinu_os.Layout.{p2v, kernbase, pde_shift, pte_p, pte_rw, pde_ps}
use tinu_os.Gdt.{Gdt, gdt}
use tinu_os.Idt.{Idt, idt}
use tinu_os.PageAlloc.{Kmem, kinit1}
use tinu_os.Terminal.{Terminal, terminal_initialize}
use tinu_os.Isrs.{Isrs, end_of_interrupt}
use tinu_os.Timer.{init_timer, sleep}
use tinu_os.Rtc.{Time, Rtc, rtc_install, rtc_handler}
use tinu_os.Rtc.Texts.{Frame, rtc_print_struct}
use tinu_os.Paging.{paging_install}

-- What lies outside the code: the linker's symbols `end` and `data`, the addresses of the stubs and of
-- `timer_callback`, the devices, and what the stack holds in the variables that are not set.
pub record Machine : Type 0 where
  pub end_address : ℕ
  pub data_address : ℕ
  pub stub : ℕ → ℕ
  pub callback : ℕ
  pub device : Device
  pub curr : Time
  pub frame : Frame
  pub pointer : ℕ → ℕ

pub record Kernel : Type 0 where
  pub gdt : Gdt
  pub idt : Idt
  pub kmem : Kmem
  pub terminal : Terminal
  pub isrs : Isrs
  pub rtc : Rtc
  pub tick : ℕ
  pub kernpgdir : ℕ

-- `P2V(4*1024*1024)`
abbrev pub first_end : ℕ
first_end = p2v (4 * 1024 * 1024)

-- The kernel behind `rtc_install()`, with the free list that `kinit1` leaves.
unfoldable pub started : Machine → Kernel → Kmem → Kernel
started m k kmem =
    let i = idt m.stub k.idt in
    let s : Isrs = record { interrupt_descriptors = i.interrupt_descriptors; trace = i.trace } in
    let s = init_timer m.callback 1000 s in
    record k {
      gdt = gdt k.gdt;
      idt = i;
      kmem = kmem;
      terminal = terminal_initialize k.terminal;
      isrs = s;
      rtc = rtc_install m.device (record k.rtc { trace = s.trace });
    }

-- From `gdt()` to `rtc_install()`. `kinit1` neither writes a port nor reads the tables.
unfoldable pub set_up : Machine → ℕ → ℕ → Kernel → Option Kernel
unfolding started
set_up m fuel rounds k =
    kinit1 fuel rounds m.end_address first_end k.kmem >>= λ kmem. some (started m k kmem)

-- What the ports see of so many interrupts of the timer.
unfoldable pub interrupted : ℕ → Trace → Trace
interrupted zero t = t
interrupted (suc n) t = interrupted n (end_of_interrupt 32 t)

-- `rtc_print_struct(clock)`, and the kernel behind it.
abbrev pub print_clock : Machine → Kernel → ℕ → Time × Rtc → Option Kernel
print_clock m k tick (clock, r) =
    rtc_print_struct 10 m.frame clock (record k.terminal { trace = r.trace }) >>= λ t.
    some (record k { tick = tick; rtc = r; terminal = t })

-- `rtc_handler()`, when the tick count has become `tick`.
abbrev pub read_clock : Machine → ℕ → Kernel → ℕ → Option Kernel
read_clock m fuel k tick =
    rtc_handler m.device fuel m.curr
      (record k.rtc { trace = interrupted (sub32 tick k.tick) k.rtc.trace })
    >>= print_clock m k tick

-- From `sleep(40)` to `rtc_print_struct(clock)`.
unfoldable pub show_time : Machine → ℕ → ℕ → Kernel → Option Kernel
unfolding interrupted
show_time m fuel interrupts k = sleep interrupts k.tick 40 >>= read_clock m fuel k

-- `paging_install()`, and the kernel behind it.
abbrev pub install_pages : Machine → ℕ → ℕ → Kernel → Option Kernel
install_pages m fuel map_rounds k =
    paging_install fuel map_rounds m.pointer m.data_address k.kmem >>= λ (pgdir, kmem).
    some (record k { kmem = kmem; kernpgdir = pgdir })

-- `some` is a kernel that has reached `die()`.
unfoldable pub kernel_main : Machine → ℕ → ℕ → ℕ → ℕ → Kernel → Option Kernel
unfolding set_up show_time
kernel_main m fuel rounds interrupts map_rounds k =
    set_up m fuel rounds k >>= show_time m fuel interrupts >>= install_pages m fuel map_rounds

-- The page directory with which the processor enters the kernel, by index.
unfoldable pub entrypgdir : ℕ → ℕ
entrypgdir i =
    if i == 0 || i == kernbase / 2 ^ pde_shift
    then bit_or (bit_or (bit_or 0 pte_p) pte_rw) pde_ps
    else 0
