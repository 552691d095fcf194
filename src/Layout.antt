-- ===== src/Layout.antt =====
-- include/memlayout.h and the address macros of include/paging.h.
pub mod Rounding
use tinu_os.Prelude.{ℕ, ◌+◌, ◌-◌, ◌*◌, ◌/◌, ◌^◌, bit_and, bit_or, u32, sub32}

abbrev pub extmem : ℕ
extmem = 0x10_0000

abbrev pub phystop : ℕ
phystop = 0xE00_0000

abbrev pub devspace : ℕ
devspace = 0xFE00_0000

abbrev pub kernbase : ℕ
kernbase = 0x8000_0000

abbrev pub kernlink : ℕ
kernlink = kernbase + extmem

-- `V2P` and `P2V`, which wrap.
abbrev pub v2p : ℕ → ℕ
v2p a = sub32 (u32 a) kernbase

abbrev pub p2v : ℕ → ℕ
p2v a = u32 (a + kernbase)

abbrev pub page_size : ℕ
page_size = 4096

abbrev pub pde_shift : ℕ
pde_shift = 22

abbrev pub pte_shift : ℕ
pte_shift = 12

-- `PDE(va)` and `PTE(va)`.
unfoldable pub pde : ℕ → ℕ
pde va = bit_and (u32 va / 2 ^ pde_shift) 0x3FF

unfoldable pub pte : ℕ → ℕ
pte va = bit_and (u32 va / 2 ^ pte_shift) 0x3FF

-- `PGADDR(d, t, o)`.
unfoldable pub pgaddr : ℕ → ℕ → ℕ → ℕ
pgaddr d t o = u32 (bit_or (bit_or (u32 (d * 2 ^ pde_shift)) (u32 (t * 2 ^ pte_shift))) o)

-- `PGROUNDUP(P)`, where `~(PAGE_SIZE-1)` is 0xFFFFF000.
unfoldable pub pgroundup : ℕ → ℕ
pgroundup p = bit_and (u32 (p + page_size - 1)) 0xFFFF_F000

-- Flags of the page tables.
abbrev pub pte_p : ℕ
pte_p = 1

abbrev pub pte_rw : ℕ
pte_rw = 2

abbrev pub pde_ps : ℕ
pde_ps = 128
