-- ===== src/Gdt.antt =====
-- io/gdt.c: the global descriptor table and the task state segment.
pub mod Fields
use tinu_os.Prelude.{
  ℕ, ◌-◌, ◌*◌, ◌/◌, ◌^◌, bit_and, bit_or, Option, some, List, get_or, set, u8, u16,
}

-- `struct gdt_entry`.
pub record GdtEntry : Type 0 where
  pub limit_low : ℕ
  pub base_low : ℕ
  pub base_middle : ℕ
  pub access : ℕ
  pub granularity : ℕ
  pub base_high : ℕ

abbrev pub empty_entry : GdtEntry
empty_entry = record {
  limit_low = 0;
  base_low = 0;
  base_middle = 0;
  access = 0;
  granularity = 0;
  base_high = 0;
}

-- The fields of `tss_entry_t` that the code sets to anything but zero, and `prev_tss` for the others.
pub record TssEntry : Type 0 where
  pub prev_tss : ℕ
  pub esp0 : ℕ
  pub ss0 : ℕ
  pub es : ℕ
  pub cs : ℕ
  pub ss : ℕ
  pub ds : ℕ
  pub fs : ℕ
  pub gs : ℕ
  pub iomap_base : ℕ

-- `gp`, `gdpt` and `tss_entry`, with the address of `gp` and the pointer that was last loaded by
-- `gdt_flush`.
pub record Gdt : Type 0 where
  pub gp : List GdtEntry
  pub gp_address : ℕ
  pub limit : ℕ
  pub base : ℕ
  pub tss_entry : TssEntry
  pub loaded : Option (ℕ × ℕ)

-- The entry that `set_gdt` writes over `old`: its `|=` reads back what the line above it wrote.
unfoldable pub entry : ℕ → ℕ → ℕ → ℕ → GdtEntry → GdtEntry
entry base limit access gran old =
    let e = record old {
      base_low = u16 (bit_and base 0xFFFF);
      base_middle = u8 (bit_and (base / 2 ^ 16) 0xFF);
      base_high = u8 (bit_and (base / 2 ^ 24) 0xFF);
      limit_low = u16 (bit_and limit 0xFFFF);
      granularity = u8 (bit_and (limit / 2 ^ 16) 0x0F);
    } in
    record e { granularity = u8 (bit_or e.granularity (bit_and gran 0xF0)); access = u8 access }

unfoldable pub set_gdt : ℕ → ℕ → ℕ → ℕ → ℕ → Gdt → Gdt
set_gdt num base limit access gran g = record g {
  gp = set g.gp num (entry base limit access gran (get_or g.gp num empty_entry));
}

abbrev pub gdt_entry_size : ℕ
gdt_entry_size = 8

abbrev pub tss_entry_size : ℕ
tss_entry_size = 104

abbrev zero_tss : TssEntry
zero_tss = record {
  prev_tss = 0;
  esp0 = 0;
  ss0 = 0;
  es = 0;
  cs = 0;
  ss = 0;
  ds = 0;
  fs = 0;
  gs = 0;
  iomap_base = 0;
}

-- The `base` and `limit` that `set_tss` computes are not used.
unfoldable pub set_tss : ℕ → ℕ → ℕ → Gdt → Gdt
set_tss num ss0 esp0 g =
    let g = set_gdt num 4096 103 0x89 0x00 g in
    record g {
      tss_entry = record zero_tss {
        ss0 = ss0;
        esp0 = esp0;
        cs = 0x08;
        ss = 0x10;
        ds = 0x10;
        es = 0x10;
        fs = 0x10;
        gs = 0x10;
        iomap_base = tss_entry_size;
      };
    }

-- `lgdt` loads the pointer that lies at the address.
unfoldable pub gdt_flush : Gdt → Gdt
gdt_flush g = record g { loaded = some (g.limit, g.base) }

unfoldable pub gdt : Gdt → Gdt
gdt g =
    let g = record g { limit = gdt_entry_size * 6 - 1; base = g.gp_address } in
    let g = set_gdt 0 0 0 0 0 g in
    let g = set_gdt 1 0 0xFFFF_FFFF 0x9A 0xCF g in
    let g = set_gdt 2 0 0xFFFF_FFFF 0x92 0xCF g in
    let g = set_gdt 3 0 0xFFFF_FFFF 0xFA 0xCF g in
    let g = set_gdt 4 0 0xFFFF_FFFF 0xF2 0xCF g in gdt_flush g

unfoldable pub set_kernel_stack : ℕ → Gdt → Gdt
set_kernel_stack stack g = record g { tss_entry = record g.tss_entry { esp0 = stack } }
