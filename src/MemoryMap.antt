-- ===== src/MemoryMap.antt =====
-- devices/memory.c: the memory map that the BIOS hands out, one entry per call of INT 15h, AX = E820h.
-- `none` means that the loop has not ended after so many rounds, or that it goes past the end of the map, behind which the
-- behaviour of the code is not defined.
pub mod Delivery
use tinu_os.Prelude.{
  ℕ, zero, suc, ◌+◌, not, Option, none, some, List, ltb, ◌==◌, if◌then◌else◌, u8, u32, ◌>>=◌,
}
use tinu_os.Bootparam.{e820max}
use tinu_os.Bios.{Regs, set_low16, Request, Firmware, initregs, intcall, carry}

-- `struct e820entry`.
pub record Entry : Type 0 where
  pub addr : ℕ
  pub size : ℕ
  pub kind : ℕ

abbrev pub smap : ℕ
smap = 0x534d4150

-- The part of `boot_params` that is filled, and the calls of the BIOS. The map has
-- `e820max` entries, a bound that the code does not test.
pub record MapParams : Type 0 where
  pub e820_map : ℕ → Entry
  pub e820_entries : ℕ
  pub calls : List Request

abbrev pub store_entry : (ℕ → Entry) → ℕ → Entry → ℕ → Entry
store_entry map desc entry j = if j == desc then entry else map j

-- The variables of the loop: `ireg`, `desc` as an index, `count`, and the map.
pub record Scan : Type 0 where
  pub ireg : Regs
  pub desc : ℕ
  pub count : ℕ
  pub map : ℕ → Entry
  pub calls : List Request

abbrev pub kept : Entry → Scan → Scan
kept entry s = record s {
  desc = s.desc + 1;
  count = u32 (s.count + 1);
  map = store_entry s.map s.desc entry;
}

-- `*desc++ = buf; count++;`, as far as there is room in the map. `desc` is declared as a `struct biosregs *`, to which the
-- assignment is not valid C: it is taken for a pointer to entries of the map, which is what it is initialised with.
unfoldable pub keep_entry : Entry → Scan → Option Scan
keep_entry entry s = if ltb s.desc e820max then some (kept entry s) else none

-- `do … while (oreg.ebx && ARRAY_SIZE(…))`; the size of the array is not 0.
unfoldable pub scan : Firmware Entry → ℕ → Scan → Option Scan
unfolding keep_entry
scan fw zero s = none
scan fw (suc fuel) s =
    let (oreg, buf, calls) = intcall fw 0x15 s.ireg s.calls in
    let s = record s { ireg = record s.ireg { ebx = oreg.ebx }; calls = calls } in
    let keeps = keep_entry buf s in
    let rest = keeps >>= λ t. scan fw fuel t in
    if carry fw oreg
    then some s
    else if not (oreg.eax == smap)
    then some (record s { count = 0 })
    else if oreg.ebx == 0
    then keeps
    else rest

-- The registers of the first call; `buf` is at `buf_address`, and has 20 bytes.
unfoldable pub e820_request : Firmware Entry → ℕ → Regs
e820_request fw buf_address =
    let ireg = initregs fw in
    record ireg {
      eax = set_low16 ireg.eax 0xe820;
      ecx = set_low16 ireg.ecx 20;
      edx = smap;
      edi = set_low16 ireg.edi buf_address;
    }

-- `return boot_params.e820_entries = count;`: the `int` is the byte that was stored.
abbrev pub store_count : Option Scan → Option (ℕ × MapParams)
store_count none = none
store_count (some s) =
    some (u8 s.count, record { e820_map = s.map; e820_entries = u8 s.count; calls = s.calls })

-- The variables at the start of the loop. `count` starts with what its place on the stack holds.
abbrev pub start_scan : Firmware Entry → ℕ → ℕ → MapParams → Scan
start_scan fw buf_address count p = record {
  ireg = e820_request fw buf_address;
  desc = 0;
  count = count;
  map = p.e820_map;
  calls = p.calls;
}

unfoldable pub detect_memory_e820 : Firmware Entry → ℕ → ℕ → ℕ → MapParams → Option (ℕ × MapParams)
unfolding scan
detect_memory_e820 fw fuel buf_address count p =
    store_count (scan fw fuel (start_scan fw buf_address count p))

-- `-1` as a bit pattern.
abbrev pub no_memory : ℕ
no_memory = 0xffff_ffff

abbrev pub error_code : Option (ℕ × MapParams) → Option (ℕ × MapParams)
error_code none = none
error_code (some (entries, p)) = some (if ltb 0 entries then 0 else no_memory, p)

unfoldable pub detect_memory : Firmware Entry → ℕ → ℕ → ℕ → MapParams → Option (ℕ × MapParams)
unfolding detect_memory_e820
detect_memory fw fuel buf_address count p =
    error_code (detect_memory_e820 fw fuel buf_address count p)
