-- ===== src/Tests/RealStart.antt =====
-- A run of the start in real mode.
use tinu_os.Prelude.{ℕ, ◌+◌, ◌%◌, ◌≡◌, refl, inl, some, List, [], ◌∷◌, arith, get_or, u8}
use tinu_os.Bios.{Request, low8, carry}
use tinu_os.Bootparam.Offsets.{sizes}
use tinu_os.MemoryMap.{e820_request}
use tinu_os.MemoryMap.Delivery.{finished, counted, Delivers}
use tinu_os.Kprintf.Rendering.{is_complete}
use tinu_os.RealMode.{Machine, Boot, header_address, main}
use tinu_os.RealMode.Parameters.{
  HeadersApart, header_byte, first_question, kbd_address, new_heap_end,
}
use tinu_os.RealMode.Sequence.{before_memory, greeted, printed, main_lem}
use tinu_os.Tests.Bios.{no_regs, low_memory, disk_bios, no_info}
use tinu_os.Tests.Kprintf.{empty_buffer}
use tinu_os.Tests.Screen.{at_cell}
use tinu_os.Tests.Serial.{ready, silent, untouched}

-- `boot_params` lies at 0x1000 and `hdr` at 0x8000; the BIOS knows one range of memory.
abbrev real_machine : Machine
real_machine = record {
  params_address = 0x1000;
  hdr_address = 0x8000;
  stack_end = 0x7000;
  device = ready;
  bios = silent;
  map_bios = record {
    answer = λ calls. (record no_regs { eax = 0x534d4150 }, low_memory);
    carry_flag = 1;
    data_segment = 0;
  };
  disk_bios = disk_bios;
  call = record { arg = λ _. 0; text_at = λ _. b'o' ∷ b'k' ∷ []; buf = empty_buffer };
  buf_address = 0x7000;
  count = 0;
  sig_max = 2;
  edd_address = 0x7100;
  at_null = no_info;
}

abbrev powered : Boot
powered = record {
  mem = λ a. a % 251;
  e820_map = λ _. low_memory;
  e820_entries = 0;
  eddbuf = λ _. no_info;
  eddbuf_entries = 0;
  heap_end = 0x9000;
  terminal = at_cell 3 5;
  tty = untouched;
}

real_machine-HeadersApart : HeadersApart real_machine
unfolding header_address
real_machine-HeadersApart = inl (omega (arith, sizes))

one_range :
    Delivers real_machine.map_bios
      (e820_request real_machine.map_bios 0x7000)
      (before_memory real_machine powered).tty.calls
      (low_memory ∷ [])
      finished
unfolding carry
one_range = (refl, refl, refl, inl (refl, refl, refl))

main_lem_example :
    (s' : Boot) × (calls : List Request) × (main real_machine 2 powered ≡ some s')
    × ((x : ℕ) → s'.mem (header_address real_machine + x) ≡ header_byte real_machine powered.mem x)
    × (s'.mem (kbd_address real_machine)
        ≡ low8 (silent.answer (first_question real_machine ∷ calls)).0.eax)
    × ((j : ℕ) → s'.e820_map j ≡ get_or (low_memory ∷ []) j (powered.e820_map j))
    × (s'.e820_entries ≡ u8 (counted finished 0 1))
    × (s'.heap_end ≡ new_heap_end real_machine (greeted real_machine powered))
    × (s'.terminal ≡ printed real_machine powered)
unfolding is_complete
main_lem_example =
    main_lem real_machine powered (low_memory ∷ []) finished refl real_machine-HeadersApart
      (omega arith) one_range
