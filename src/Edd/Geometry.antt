-- ===== src/Edd/Geometry.antt =====
-- The geometry of a disk, and the buffer of disks.
use tinu_os.Prelude.{
  ℕ, zero, suc, ◌+◌, ◌*◌, ◌/◌, ◌%◌, ◌^◌, ◌≤◌, ◌<◌, bit_and, ◌≡◌, refl, ap, ◌∙◌, inl, inr, ◌&&◌,
  arith, ltb, ◌==◌, if◌then◌else◌, Bool-cases, u8,
}
use tinu_os.Prelude.Bits.{bit_and_shifted, bit_and_mask}
use tinu_os.Bios.{Regs, Firmware, low8, high8}
use tinu_os.Edd.{
  Params, Info, eddmaxnr, geometry, EddParams, get_edd_info, query_drive, query_drives, query_edd,
}

-- CX for a cylinder number of ten bits and a sector number of six, as INT 13h packs them.
abbrev pub packed : ℕ → ℕ → ℕ
packed cylinders sectors = cylinders % 2 ^ 8 * 2 ^ 8 + cylinders / 2 ^ 8 * 2 ^ 6 + sectors

-- The cylinders and sectors that the BIOS packs into CX are what get_edd_info takes out of it, whatever the upper
-- half of ECX is, for cylinder numbers of ten bits and sector numbers of six.
pub geometry-packed :
    (oreg : Regs) (ei : Info) (cylinders sectors upper : ℕ)
    → cylinders < 2 ^ 10
    → sectors < 2 ^ 6
    → oreg.ecx ≡ upper * 2 ^ 16 + packed cylinders sectors
    → (geometry oreg ei).physical_number_of_cylinders ≡ cylinders
      × ((geometry oreg ei).sectors_per_track ≡ sectors)
unfolding geometry low8 high8
geometry-packed oreg ei cylinders sectors upper hc hs e =
    let cl : ℕ = low8 oreg.ecx in
    let top : bit_and cl 0xc0 ≡ cl / 2 ^ 6 % 2 ^ 2 * 2 ^ 6 =
      bit_and_shifted 6 cl 3 ∙ ap (λ (t : ℕ). t * 2 ^ 6) (bit_and_mask 2 (cl / 2 ^ 6)) in
    let bottom : bit_and cl 0x3f ≡ cl % 2 ^ 6 = bit_and_mask 6 cl in
    (omega (arith, e, top), omega (arith, e, bottom))

-- What one drive may change.
record Kept (p p' : EddParams) : Type 0 where
  more : p.eddbuf_entries ≤ p'.eddbuf_entries
  few : p.eddbuf_entries ≤ eddmaxnr → p'.eddbuf_entries ≤ eddmaxnr
  later : (j : ℕ) → 0 < j → p'.eddbuf j ≡ p.eddbuf j

Kept-record :
    (p : EddParams) (ei : Info) (code : ℕ)
    → Kept p (
        if code == 0 && ltb p.eddbuf_entries eddmaxnr
        then record p {
          eddbuf = λ j. if j == 0 then ei else p.eddbuf j;
          eddbuf_entries = u8 (p.eddbuf_entries + 1);
        }
        else p)
Kept-record p ei code = elim (Bool-cases (code == 0 && ltb p.eddbuf_entries eddmaxnr)) [
  | inl taken ↦
      let room : p.eddbuf_entries < eddmaxnr = ground (arith, taken) in
      rw taken (record { more = omega arith; few = λ h. omega arith; later = λ j h. ground arith })
  | inr full ↦ rw full (record { more = omega arith; few = λ h. h; later = λ j h. refl })
]

Kept-query_drive :
    (fw : Firmware Params) (params_address : ℕ) (at_null : Info) (devno : ℕ) (p : EddParams)
    → Kept p (query_drive fw params_address at_null devno p)
unfolding query_drive
Kept-query_drive fw params_address at_null devno p =
    let (code, ei, calls) = get_edd_info fw params_address at_null (u8 devno) p.calls in
    let kept = Kept-record (record p { calls = calls }) ei code in
    record { more = kept.more; few = kept.few; later = kept.later }

Kept-query_drives :
    (left : ℕ) (fw : Firmware Params) (params_address : ℕ) (at_null : Info) (devno : ℕ)
    (p : EddParams)
    → Kept p (query_drives left fw params_address at_null devno p)
unfolding query_drives
Kept-query_drives zero fw params_address at_null devno p = record {
  more = omega arith;
  few = λ h. h;
  later = λ j h. refl;
}
Kept-query_drives (suc left) fw params_address at_null devno p =
    let q = query_drive fw params_address at_null devno p in
    let first = Kept-query_drive fw params_address at_null devno p in
    let rest = Kept-query_drives left fw params_address at_null (devno + 1) q in
    record {
      more = omega (arith, first.more, rest.more);
      few = λ h. rest.few (first.few h);
      later = λ j h. rest.later j h ∙ first.later j h;
    }

-- With at most six entries before, query_edd leaves at most six, however many drives answer, and no fewer than
-- before. It writes no entry of the buffer but the first one.
pub query_edd-first :
    (sig_max : ℕ) (fw : Firmware Params) (params_address : ℕ) (at_null : Info) (p : EddParams)
    → p.eddbuf_entries ≤ eddmaxnr
    → (let p' = query_edd sig_max fw params_address at_null p in
        (p.eddbuf_entries ≤ p'.eddbuf_entries)
        × (p'.eddbuf_entries ≤ eddmaxnr)
        × ((j : ℕ) → 0 < j → p'.eddbuf j ≡ p.eddbuf j))
unfolding query_edd
query_edd-first sig_max fw params_address at_null p few =
    let kept = Kept-query_drives sig_max fw params_address at_null 0x80 p in
    (kept.more, kept.few few, kept.later)
