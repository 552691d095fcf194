-- ===== src/Tests/Bios.antt =====
-- Runs of the parts that call the BIOS, against small ones.
use tinu_os.Prelude.{
  ℕ, ◌≡◌, refl, inl, inr, some, List, [], ◌∷◌, arith, ltb, ◌==◌, if◌then◌else◌, length, get_or, u8,
}
use tinu_os.Bios.{Regs, Request, Firmware, carry}
use tinu_os.MemoryMap.{Entry, smap, MapParams, e820_request, no_memory, detect_memory}
use tinu_os.MemoryMap.Delivery.{finished, counted, detect_memory-Delivers}
use tinu_os.Edd.{Params, Info, EddParams}

abbrev pub no_regs : Regs
no_regs = record {
  ds = 0;
  es = 0;
  edi = 0;
  esi = 0;
  ebx = 0;
  edx = 0;
  ecx = 0;
  eax = 0;
  eflags = 0;
}

-- A BIOS with two ranges of memory.
abbrev pub low_memory : Entry
low_memory = record { addr = 0; size = 0x9fc00; kind = 1 }

abbrev high_memory : Entry
high_memory = record { addr = 0x100000; size = 0x7f00000; kind = 1 }

abbrev two_ranges : List Request → Regs × Entry
two_ranges calls =
    if length calls == 1
    then (record no_regs { eax = smap; ebx = 1 }, low_memory)
    else (record no_regs { eax = smap }, high_memory)

abbrev memory_bios : Firmware Entry
memory_bios = record { answer = two_ranges; carry_flag = 1; data_segment = 0 }

abbrev empty_map : MapParams
empty_map = record {
  e820_map = λ _. record { addr = 0; size = 0; kind = 0 };
  e820_entries = 0;
  calls = [];
}

detect_memory-Delivers_example :
    (p' : MapParams) × (detect_memory memory_bios 3 0x7000 0 empty_map
      ≡ some (if ltb 0 p'.e820_entries then 0 else no_memory, p'))
    × (p'.e820_entries ≡ u8 (counted finished 0 2))
    × ((j : ℕ) → p'.e820_map j ≡ get_or (low_memory ∷ high_memory ∷ []) j (empty_map.e820_map j))
unfolding carry e820_request
detect_memory-Delivers_example =
    detect_memory-Delivers memory_bios 0x7000 0 empty_map (low_memory ∷ high_memory ∷ []) finished
      (omega arith)
      (refl, refl, refl, inr (omega arith, (refl, refl, refl, inl (refl, refl, refl))))

abbrev pub no_info : Info
no_info = record {
  version = 0;
  physical_number_of_cylinders = 0;
  physical_number_of_heads = 0;
  sectors_per_track = 0;
  params = [];
}

-- A BIOS that has every drive.
abbrev pub disk_bios : Firmware Params
disk_bios = record {
  answer = λ calls. (record no_regs { ebx = 0xAA55 }, 30 ∷ []);
  carry_flag = 1;
  data_segment = 0;
}

abbrev four_disks : EddParams
four_disks = record { eddbuf = λ _. no_info; eddbuf_entries = 4; calls = [] }
