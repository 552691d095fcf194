-- ===== src/Tests/Tables.antt =====
-- Entries of the two descriptor tables.
use tinu_os.Prelude.{ℕ, ◌+◌, ◌*◌, ◌≤◌, ◌<◌, ◌≡◌, refl, none, some, [], ◌∷◌, arith, length, get_or}
use tinu_os.Gdt.{TssEntry, Gdt, empty_entry, gdt}
use tinu_os.Gdt.Fields.{base_of, limit_of, IsFlat, gdt_lem}
use tinu_os.Idt.{Idt, empty_gate, idt, no_handlers}
use tinu_os.Idt.Gates.{IsUserGate, idt_lem}

abbrev empty_tss : TssEntry
empty_tss = record {
  prev_tss = 0;
  esp0 = 0;
  ss0 = 0;
  es = 0;
  cs = 0;
  ss = 0;
  ds = 0;
  fs = 0;
  gs = 0;
  iomap_base = 0;
}

abbrev empty_gdt : Gdt
empty_gdt = record {
  gp = empty_entry ∷ empty_entry ∷ empty_entry ∷ empty_entry ∷ empty_entry ∷ empty_entry ∷ [];
  gp_address = 4096;
  limit = 0;
  base = 0;
  tss_entry = empty_tss;
  loaded = none;
}

empty_gdt-length : 2 < length empty_gdt.gp
empty_gdt-length = ground arith

gdt_lem_example :
    ((gdt empty_gdt).loaded ≡ some (47, 4096))
    × (base_of (get_or (gdt empty_gdt).gp 0 empty_entry)
          + limit_of (get_or (gdt empty_gdt).gp 0 empty_entry)
        ≡ 0)
    × IsFlat 0x9A (get_or (gdt empty_gdt).gp 1 empty_entry)
    × IsFlat 0x92 (get_or (gdt empty_gdt).gp 2 empty_entry)
    × IsFlat 0xFA (get_or (gdt empty_gdt).gp 3 empty_entry)
    × IsFlat 0xF2 (get_or (gdt empty_gdt).gp 4 empty_entry)
    × (get_or (gdt empty_gdt).gp 5 empty_entry ≡ empty_entry)
gdt_lem_example =
    gdt_lem empty_gdt empty_entry empty_entry empty_entry empty_entry empty_entry empty_entry refl

abbrev empty_idt : Idt
empty_idt = record {
  id = [];
  id_address = 8192;
  limit = 0;
  base = 0;
  interrupt_descriptors = [];
  trace = [];
  loaded = none;
}

abbrev stub : ℕ → ℕ
stub j = 0x10_0000 + j * 16

idt_lem_example :
    ((idt stub empty_idt).loaded ≡ some (2047, 8192))
    × (33 < 48 → IsUserGate (stub 33) (get_or (idt stub empty_idt).id 33 empty_gate))
    × (48 ≤ 33 → get_or (idt stub empty_idt).id 33 empty_gate ≡ empty_gate)
    × ((idt stub empty_idt).interrupt_descriptors ≡ no_handlers)
idt_lem_example = idt_lem stub empty_idt 33 (omega arith)
