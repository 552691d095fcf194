-- ===== src/RealMode.antt =====
-- main.c: the start in real mode, which fills the `boot_params` and calls the other parts one after the other.
-- `none` is a part that has not returned, or a list that goes past the end of the memory map. There is one BIOS: the three views of it differ in what it leaves
-- in a buffer.
pub mod Parameters
pub mod Sequence
use tinu_os.Prelude.{
  ℕ, ◌+◌, ◌*◌, ◌^◌, bit_and, Option, some, List, [], ◌∷◌, ltb, ◌==◌, if◌then◌else◌, u32, ◌>>=◌,
}
use tinu_os.Memory.{Memory, store8, memcpy}
use tinu_os.Ports.{Device}
use tinu_os.Bios.{Request, Firmware, initregs, intcall, low8, set_low16, set_high8}
use tinu_os.Bootparam.{
  sizeof, offset, setup_header, boot_params, kbd_status, hdr, loadflags, heap_end_ptr,
}
use tinu_os.EarlySerial.{console_init}
use tinu_os.Tty.{Tty, puts}
use tinu_os.Terminal.{Terminal}
use tinu_os.Kprintf.{Call, kprintf}
use tinu_os.MemoryMap.{Entry, MapParams, detect_memory}
use tinu_os.Apm.{query_apm_bios}
use tinu_os.Edd.{Params, Info, EddParams, query_edd}

-- What lies outside the code: where `boot_params` and `hdr` lie, what `stack_end` gets from the stack pointer,
-- the BIOS and the devices, what the call of `kprintf` finds, and the values that detect_memory and query_edd
-- take from outside.
pub record Machine : Type 0 where
  pub params_address : ℕ
  pub hdr_address : ℕ
  pub stack_end : ℕ
  pub device : Device
  pub bios : Firmware Unit
  pub map_bios : Firmware Entry
  pub disk_bios : Firmware Params
  pub call : Call
  pub buf_address : ℕ
  pub count : ℕ
  pub sig_max : ℕ
  pub edd_address : ℕ
  pub at_null : Info

-- The memory with `hdr`, and with the members `kbd_status` and `hdr` of `boot_params`; the members that
-- detect_memory and query_edd fill; `heap_end`, the screen, the ports and the calls of the BIOS.
pub record Boot : Type 0 where
  pub mem : Memory
  pub e820_map : ℕ → Entry
  pub e820_entries : ℕ
  pub eddbuf : ℕ → Info
  pub eddbuf_entries : ℕ
  pub heap_end : ℕ
  pub terminal : Terminal
  pub tty : Tty

abbrev pub can_use_heap : ℕ
can_use_heap = 2 ^ 7

-- `LOGLEVEL_NOTICE`.
abbrev pub loglevel_notice : ℕ
loglevel_notice = 6

-- `&boot_params.hdr`, and the members of it that are read.
unfoldable pub header_address : Machine → ℕ
unfolding boot_params offset
header_address m = m.params_address + offset boot_params hdr

unfoldable pub header_flags : Machine → Memory → ℕ
unfolding header_address
header_flags m mem = mem (header_address m + offset setup_header loadflags)

unfoldable pub header_heap_end : Machine → Memory → ℕ
unfolding header_address
header_heap_end m mem =
    let a = header_address m + offset setup_header heap_end_ptr in mem a + mem (a + 1) * 2 ^ 8

-- The constant of `BUILD_BUG_ON` leaves nothing to run.
unfoldable pub copy_boot_params : Machine → Boot → Boot
unfolding header_address
copy_boot_params m s = record s {
  mem = memcpy s.mem (header_address m) m.hdr_address (sizeof setup_header);
}

abbrev pub warning : List ℕ
warning =
    b'W' ∷ b'A' ∷ b'R' ∷ b'N' ∷ b'I' ∷ b'N' ∷ b'G' ∷ b':' ∷ b' ' ∷ b'A' ∷ b'n' ∷ b'c' ∷ b'i' ∷ b'e'
    ∷ b'n' ∷ b't' ∷ b' ' ∷ b'b' ∷ b'o' ∷ b'o' ∷ b't' ∷ b'l' ∷ b'o' ∷ b'a' ∷ b'd' ∷ b'e' ∷ b'r'
    ∷ b',' ∷ b' ' ∷ b's' ∷ b'o' ∷ b'm' ∷ b'e' ∷ b' ' ∷ b'f' ∷ b'u' ∷ b'n' ∷ b'c' ∷ b't' ∷ b'i'
    ∷ b'o' ∷ b'n' ∷ b'a' ∷ b'l' ∷ b'i' ∷ b't' ∷ b'y' ∷ b' ' ∷ b'm' ∷ b'a' ∷ b'y' ∷ b' ' ∷ b'b'
    ∷ b'e' ∷ b' ' ∷ b'l' ∷ b'i' ∷ b'm' ∷ b'i' ∷ b't' ∷ b'e' ∷ b'd' ∷ b'!' ∷ b'\n' ∷ []

-- The assignment to `stack_end` has no effect behind the function.
unfoldable pub init_heap : Machine → Boot → Boot
unfolding header_flags header_heap_end
init_heap m s =
    let s' = record s { heap_end = u32 (header_heap_end m s.mem + 0x200) } in
    if bit_and (header_flags m s.mem) can_use_heap == 0
    then s
    else if ltb m.stack_end s'.heap_end
    then s'
    else record s' { tty = puts m.bios m.device warning s'.tty }

unfoldable pub keyboard_init : Machine → Boot → Boot
unfolding boot_params offset
keyboard_init m s =
    let ireg = initregs m.bios in
    let ireg = record ireg { eax = set_high8 ireg.eax 0x02 } in
    let (oreg, _, calls) = intcall m.bios 0x16 ireg s.tty.calls in
    let mem = store8 s.mem (m.params_address + offset boot_params kbd_status) (low8 oreg.eax) in
    let ireg = record ireg { eax = set_low16 ireg.eax 0x0305 } in
    let (_, _, calls) = intcall m.bios 0x16 ireg calls in
    record s { mem = mem; tty = record { trace = s.tty.trace; calls = calls } }

abbrev pub greeting : List ℕ
greeting =
    b'I' ∷ b'n' ∷ b'i' ∷ b't' ∷ b'i' ∷ b'a' ∷ b'l' ∷ b'i' ∷ b'z' ∷ b'e' ∷ b' ' ∷ b'e' ∷ b'a' ∷ b'r'
    ∷ b'l' ∷ b'y' ∷ b' ' ∷ b'c' ∷ b'o' ∷ b'n' ∷ b's' ∷ b'o' ∷ b'l' ∷ b'e' ∷ []

-- `copy_boot_params()` to `puts("Initialize early console")`.
unfoldable pub greet : Machine → Boot → Boot
unfolding copy_boot_params
greet m s =
    let s = copy_boot_params m s in
    record s {
      tty =
          puts m.bios m.device greeting
            (record { trace = console_init s.tty.trace; calls = s.tty.calls });
    }

-- `kprintf(LOGLEVEL_NOTICE, …)`, which takes the level for the address of its format.
unfoldable pub first_print : Machine → Boot → Option Boot
first_print m s =
    kprintf 10 m.call (m.call.text_at loglevel_notice) (record s.terminal { trace = s.tty.trace })
    >>= λ t. some (record s { terminal = t; tty = record { trace = t.trace; calls = s.tty.calls } })

-- `detect_memory()`, whose result is not looked at.
unfoldable pub find_memory : Machine → ℕ → Boot → Option Boot
find_memory m fuel s =
    detect_memory m.map_bios fuel m.buf_address m.count
      (record { e820_map = s.e820_map; e820_entries = s.e820_entries; calls = s.tty.calls })
    >>= λ (code, p). some (record s {
      e820_map = p.e820_map;
      e820_entries = p.e820_entries;
      tty = record { trace = s.tty.trace; calls = p.calls };
    })

-- `query_apm_bios()` and `query_edd()`.
unfoldable pub query_bios : Machine → Boot → Boot
query_bios m s =
    let (code, calls) = query_apm_bios m.bios s.tty.calls in
    let p =
      query_edd m.sig_max m.disk_bios m.edd_address m.at_null
        (record { eddbuf = s.eddbuf; eddbuf_entries = s.eddbuf_entries; calls = calls }) in
    record s {
      eddbuf = p.eddbuf;
      eddbuf_entries = p.eddbuf_entries;
      tty = record { trace = s.tty.trace; calls = p.calls };
    }

-- `main` ends without a value.
unfoldable pub main : Machine → ℕ → Boot → Option Boot
unfolding greet first_print init_heap find_memory keyboard_init query_bios
main m fuel s = first_print m (greet m s) >>= (λ s. find_memory m fuel (init_heap m s)) >>= λ s.
    some (query_bios m (keyboard_init m s))
