-- ===== src/Tests/Start.antt =====
-- A run of the kernel's start.
use tinu_os.Prelude.{
  ℕ, ◌+◌, ◌*◌, ◌≡◌, refl, inl, true, none, some, List, [], ◌∷◌, arith, get_or, u32, ◌>>=◌,
}
use tinu_os.Layout.{pgroundup}
use tinu_os.Ports.{Trace, Device, inb}
use tinu_os.Terminal.{terminal_initialize, terminal_write}
use tinu_os.Rtc.{Time, read_time, read_register}
use tinu_os.Idt.{empty_gate}
use tinu_os.Idt.Gates.{IsUserGate}
use tinu_os.Kernel.Interrupts.{device_interrupts, timer_count, acknowledged, device_interrupts_lem}
use tinu_os.Kernel.{Machine, Kernel, started, set_up, show_time, kernel_main}
use tinu_os.Kernel.Start.{IsNamed, time_line, kernel_main_lem}
use tinu_os.Tests.Pages.{no_pages}
use tinu_os.Tests.Screen.{at_cell}
use tinu_os.Tests.Kprintf.{empty_buffer}

-- A clock that answers each register with 5.
abbrev fives : Device
fives trace port = 5

abbrev midnight : Time
midnight = record {
  second = 0;
  minute = 0;
  hour = 0;
  day_of_week = 0;
  day_of_month = 0;
  month = 0;
  year = 0;
  century = 0;
}

abbrev machine : Machine
machine = record {
  end_address = 0x80110000;
  data_address = 0x80108000;
  stub = λ n. 0x80100000 + n * 16;
  callback = 0x80101000;
  device = fives;
  curr = midnight;
  frame = record { weekday_address = 1000; month_address = 1200; buf = empty_buffer };
  pointer = λ _. 0x1000;
}

abbrev off : Kernel
off = record {
  gdt = record {
    gp = [];
    gp_address = 0x80109000;
    limit = 0;
    base = 0;
    tss_entry = record {
      prev_tss = 0;
      esp0 = 0;
      ss0 = 0;
      es = 0;
      cs = 0;
      ss = 0;
      ds = 0;
      fs = 0;
      gs = 0;
      iomap_base = 0;
    };
    loaded = none;
  };
  idt = record {
    id = [];
    id_address = 0x8010a000;
    limit = 0;
    base = 0;
    interrupt_descriptors = [];
    trace = [];
    loaded = none;
  };
  kmem = no_pages;
  terminal = at_cell 3 5;
  isrs = record { interrupt_descriptors = []; trace = [] };
  rtc = record { current_time = midnight; bcd = true; trace = [] };
  tick = 7;
  kernpgdir = 0;
}

machine-IsNamed : IsNamed machine
unfolding read_time read_register inb
machine-IsNamed = record {
  day_from = λ t. omega arith;
  day_to = λ t. omega arith;
  month_from = λ t. omega arith;
  month_to = λ t. omega arith;
  weekday_there = omega arith;
  month_there = omega arith;
  apart = omega arith;
}

kernel_main_lem_example :
    (k' : Kernel) × (t : Trace) × ((set_up machine 2 800 off >>= show_time machine 2 50) ≡ some k')
    × (k'.terminal
        ≡ terminal_write
            (time_line (read_time fives t).0)
            (record (terminal_initialize (at_cell 3 5)) { trace = (read_time fives t).1 }))
    × (kernel_main machine 2 800 50 700 off ≡ none)
unfolding pgroundup
kernel_main_lem_example =
    kernel_main_lem machine 0 800 50 700 off refl (omega arith) (omega arith) (omega arith)
      (omega arith) (inl (omega arith)) machine-IsNamed (omega arith) (omega arith)

-- Three interrupts: of the timer, the keyboard and the timer again.
abbrev three_interrupts : List ℕ
three_interrupts = 32 ∷ 33 ∷ 32 ∷ []

device_interrupts_lem_example :
    let k' = device_interrupts machine three_interrupts (started machine off no_pages) in
    IsUserGate 0x80100200 (get_or (started machine off no_pages).idt.id 32 empty_gate)
    × (k'.tick ≡ u32 (7 + timer_count three_interrupts))
    × (k'.isrs.trace ≡ acknowledged three_interrupts (started machine off no_pages).isrs.trace)
device_interrupts_lem_example =
    device_interrupts_lem machine off no_pages three_interrupts 32 (omega arith) (omega arith)
      (omega arith) (omega arith)
