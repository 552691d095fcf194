-- ===== src/Gdt/Fields.antt =====
-- What the processor reads out of an entry of the table in io/gdt.c.
use tinu_os.Prelude.{
  ℕ, ◌+◌, ◌-◌, ◌*◌, ◌/◌, ◌%◌, ◌^◌, ◌<◌, bit_and, bit_or, ◌≡◌, refl, ap, ◌∙◌, inl, inr, some, [],
  ◌∷◌, arith, ◌==◌, if◌then◌else◌, ==→eq, Bool-cases, length, get_or, get_or-set_self,
  get_or-set_ne, u8,
}
use tinu_os.Prelude.Bits.{bit_and_mask, bit_and_shifted, bit_or_fields_right}
use tinu_os.Gdt.{GdtEntry, Gdt, empty_entry, entry, set_gdt, gdt, gdt_flush}

-- The base and the limit that an entry describes, and its four flags.
abbrev pub base_of : GdtEntry → ℕ
base_of e = e.base_low + e.base_middle * 2 ^ 16 + e.base_high * 2 ^ 24

abbrev pub limit_of : GdtEntry → ℕ
limit_of e = e.limit_low + e.granularity % 16 * 2 ^ 16

abbrev pub flags_of : GdtEntry → ℕ
flags_of e = e.granularity / 16

-- The bytes that are addressed: in units of 4096 if the top flag is set.
abbrev pub last_byte : GdtEntry → ℕ
last_byte e = if flags_of e / 8 == 0 then limit_of e else limit_of e * 4096 + 4095

granularity-sum : (a g : ℕ) → a < 16 → bit_or a (bit_and g 0xF0) ≡ g / 16 % 16 * 16 + a
granularity-sum a g h =
    ap (bit_or a) (bit_and_shifted 4 g 15 ∙ ap (λ (t : ℕ). t * 16) (bit_and_mask 4 (g / 16)))
    ∙ bit_or_fields_right 4 (g / 16 % 16) a h

-- An entry gives back the base, the low 20 bits of the limit, the access byte and the upper four bits of
-- `gran`, whatever stood there before.
pub entry_lem :
    (base limit access gran : ℕ) (old : GdtEntry)
    → base < 2 ^ 32
    → limit < 2 ^ 32
    → access < 2 ^ 8
    → gran < 2 ^ 8
    → let e = entry base limit access gran old in
      (base_of e ≡ base)
      × (limit_of e ≡ limit % 2 ^ 20)
      × (e.access ≡ access)
      × (flags_of e ≡ gran / 16)
unfolding entry
entry_lem base limit access gran old hb hl ha hg =
    let low : ℕ = u8 (bit_and (limit / 2 ^ 16) 0x0F) in
    let nibble = bit_and_mask 4 (limit / 2 ^ 16) in
    let gran_byte = granularity-sum low gran (omega (arith, nibble)) in
    (
      omega (
        arith,
        bit_and_mask 16 base,
        bit_and_mask 8 (base / 2 ^ 16),
        bit_and_mask 8 (base / 2 ^ 24),
      ),
      omega (arith, bit_and_mask 16 limit, nibble, gran_byte),
      omega arith,
      omega (arith, nibble, gran_byte),
    )

-- `set_gdt` writes that entry at its index and no other.
pub set_gdt_lem :
    (num base limit access gran : ℕ) (g : Gdt) (j : ℕ)
    → num < length g.gp
    → get_or (set_gdt num base limit access gran g).gp j empty_entry ≡ (
        if j == num
        then entry base limit access gran (get_or g.gp num empty_entry)
        else get_or g.gp j empty_entry)
unfolding set_gdt
set_gdt_lem num base limit access gran g j h = elim (Bool-cases (j == num)) [
  | inl same ↦
      rw (same, ==→eq j num same)
        (get_or-set_self g.gp num (entry base limit access gran (get_or g.gp num empty_entry))
          empty_entry h)
  | inr other ↦ rw other (
      get_or-set_ne g.gp num j (entry base limit access gran (get_or g.gp num empty_entry))
        empty_entry (ground arith))
]

-- A segment that starts at 0 and covers all four gigabytes, with an access byte.
pub record IsFlat (byte : ℕ) (e : GdtEntry) : Type 0 where
  pub base : base_of e ≡ 0
  pub last : last_byte e ≡ 2 ^ 32 - 1
  pub access : e.access ≡ byte
  pub flags : flags_of e ≡ 0xC

flat :
    (access : ℕ) (old : GdtEntry)
    → access < 2 ^ 8
    → IsFlat access (entry 0 0xFFFF_FFFF access 0xCF old)
flat access old h =
    let e = entry_lem 0 0xFFFF_FFFF access 0xCF old (omega arith) (omega arith) h (omega arith) in
    record { base = e.0; last = ground (arith, e.1, e.3); access = e.2; flags = e.3 }

-- `gdt` loads the table of six entries. In it, behind the null entry, stand flat segments of the whole
-- address space: code and data of the kernel, then code and data of user mode, told apart by the access
-- byte. The sixth entry is left as it was.
pub gdt_lem :
    (g : Gdt) (e0 e1 e2 e3 e4 e5 : GdtEntry)
    → g.gp ≡ e0 ∷ e1 ∷ e2 ∷ e3 ∷ e4 ∷ e5 ∷ []
    → ((gdt g).loaded ≡ some (47, g.gp_address))
      × (base_of (get_or (gdt g).gp 0 e5) + limit_of (get_or (gdt g).gp 0 e5) ≡ 0)
      × IsFlat 0x9A (get_or (gdt g).gp 1 e5)
      × IsFlat 0x92 (get_or (gdt g).gp 2 e5)
      × IsFlat 0xFA (get_or (gdt g).gp 3 e5)
      × IsFlat 0xF2 (get_or (gdt g).gp 4 e5)
      × (get_or (gdt g).gp 5 e0 ≡ e5)
unfolding gdt gdt_flush set_gdt
gdt_lem g e0 e1 e2 e3 e4 e5 six =
    let null = entry_lem 0 0 0 0 e0 (omega arith) (omega arith) (omega arith) (omega arith) in
    rw six (
      refl,
      omega (arith, null),
      flat 0x9A e1 (omega arith),
      flat 0x92 e2 (omega arith),
      flat 0xFA e3 (omega arith),
      flat 0xF2 e4 (omega arith),
      refl,
    )
