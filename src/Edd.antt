-- ===== src/Edd.antt =====
-- devices/edd.c: what the BIOS tells about the disks, through INT 13h.
pub mod Geometry
use tinu_os.Prelude.{
  ℕ, zero, suc, ◌+◌, ◌*◌, ◌^◌, bit_and, not, ◌&&◌, List, ltb, ◌==◌, if◌then◌else◌, set, u8, u16,
}
use tinu_os.Bios.{
  Regs, Request, Firmware, initregs, intcall, carry, low16, high8, low8, set_low16, set_high8,
  set_low8,
}

-- `struct edd_device_params`: the 64 bytes that the BIOS fills.
abbrev pub Params : Type 0
Params = List ℕ

-- `struct edd_info`.
pub record Info : Type 0 where
  pub version : ℕ
  pub physical_number_of_cylinders : ℕ
  pub physical_number_of_heads : ℕ
  pub sectors_per_track : ℕ
  pub params : Params

abbrev pub eddmaxnr : ℕ
eddmaxnr = 6

abbrev pub eddmagic1 : ℕ
eddmagic1 = 0x55AA

abbrev pub eddmagic2 : ℕ
eddmagic2 = 0xAA55

-- `-1`.
abbrev pub failure : ℕ
failure = 0xffff_ffff

-- `ch + ((cl & 0xc0) << 2)`, `dh` and `cl & 0x3f`.
unfoldable pub geometry : Regs → Info → Info
geometry oreg ei = record ei {
  physical_number_of_cylinders = u16 (high8 oreg.ecx + bit_and (low8 oreg.ecx) 0xc0 * 2 ^ 2);
  physical_number_of_heads = high8 oreg.edx;
  sectors_per_track = bit_and (low8 oreg.ecx) 0x3f;
}

-- The two calls behind the check for the extensions, 48h and 08h.
unfoldable pub read_parameters :
    Firmware Params → ℕ → ℕ → Regs → Info → List Request → ℕ × Info × List Request
unfolding geometry
read_parameters fw params_address devno ireg ei calls =
    let ireg = record ireg {
      eax = set_high8 ireg.eax 0x48;
      edx = set_low8 ireg.edx devno;
      esi = set_low16 ireg.esi params_address;
    } in
    let (_, params, calls) = intcall fw 0x13 ireg calls in
    let ei = record ei { params = params } in
    let ireg = record ireg {
      eax = set_high8 ireg.eax 0x08;
      edx = set_low8 ireg.edx devno;
      es = 0;
    } in
    let (oreg, _, calls) = intcall fw 0x13 ireg calls in
    (0, if not (carry fw oreg) then geometry oreg ei else ei, calls)

-- `memcpy(ei, 0, sizeof *ei)` copies what memory holds from address 0 on, `at_null`.
unfoldable pub get_edd_info :
    Firmware Params → ℕ → Info → ℕ → List Request → ℕ × Info × List Request
unfolding read_parameters
get_edd_info fw params_address at_null devno calls =
    let ireg = initregs fw in
    let ireg = record ireg {
      eax = set_high8 ireg.eax 0x41;
      ebx = set_low16 ireg.ebx eddmagic1;
      edx = set_low8 ireg.edx devno;
    } in
    let (oreg, _, calls) = intcall fw 0x13 ireg calls in
    let ei = record at_null { version = high8 oreg.eax; params = set at_null.params 0 64 } in
    if carry fw oreg
    then (failure, at_null, calls)
    else if not (low16 oreg.ebx == eddmagic2)
    then (failure, at_null, calls)
    else read_parameters fw params_address devno ireg ei calls

-- `boot_params.eddbuf` and `boot_params.eddbuf_entries`.
pub record EddParams : Type 0 where
  pub eddbuf : ℕ → Info
  pub eddbuf_entries : ℕ
  pub calls : List Request

-- One round of the loop. `edp` is the start of `eddbuf` in every round: what is counted up instead, `ebp`, is not a
-- variable of the function.
unfoldable pub query_drive : Firmware Params → ℕ → Info → ℕ → EddParams → EddParams
unfolding get_edd_info
query_drive fw params_address at_null devno p =
    let (code, ei, calls) = get_edd_info fw params_address at_null (u8 devno) p.calls in
    let p = record p { calls = calls } in
    if code == 0 && ltb p.eddbuf_entries eddmaxnr
    then record p {
      eddbuf = λ j. if j == 0 then ei else p.eddbuf j;
      eddbuf_entries = u8 (p.eddbuf_entries + 1);
    }
    else p

-- `for (…; devno < 0x80+EDD_MBR_SIG_MAX; devno++)`, with the rounds left; the bound is defined nowhere.
unfoldable pub query_drives : ℕ → Firmware Params → ℕ → Info → ℕ → EddParams → EddParams
unfolding query_drive
query_drives zero fw params_address at_null devno p = p
query_drives (suc left) fw params_address at_null devno p =
    query_drives left fw params_address at_null (devno + 1)
      (query_drive fw params_address at_null devno p)

unfoldable pub query_edd : ℕ → Firmware Params → ℕ → Info → EddParams → EddParams
unfolding query_drives
query_edd sig_max fw params_address at_null p =
    query_drives sig_max fw params_address at_null 0x80 p
