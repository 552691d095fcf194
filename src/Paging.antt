-- ===== src/Paging.antt =====
-- mmu/mmu.c: the page tables, over the page allocator of mmu/kmalloc.c.
-- `none` is a call that has not returned: a lock was not free within the fuel, or a loop ran out of rounds.
pub mod Walk
pub mod Ready
pub mod Mapping
pub mod Fault
use tinu_os.Prelude.{
  ℕ, zero, suc, ◌+◌, ◌*◌, ◌^◌, bit_and, bit_or, Bool, not, Option, none, some, List, [], ◌∷◌, ◌==◌,
  if◌then◌else◌, length, u32, sub32, ◌>>=◌,
}
use tinu_os.Memory.{Memory, load32, store32, memset}
use tinu_os.Layout.{
  v2p, p2v, pde, pte, page_size, pte_p, pte_rw, kernbase, kernlink, extmem, phystop, devspace,
}
use tinu_os.Spinlock.{print}
use tinu_os.PageAlloc.{Kmem, kalloc}

-- The flags of include/mmu.h.
abbrev pub page_present : ℕ
page_present = 0 * 2 ^ 1

abbrev pub page_user : ℕ
page_user = 1 * 2 ^ 2

abbrev pub page_read : ℕ
page_read = 1 * 2 ^ 3

abbrev pub page_write : ℕ
page_write = 1 * 2 ^ 4

-- `(V2P(pte)) | PAGE_PRESENT | PAGE_READ | PAGE_WRITE | PAGE_USER`
unfoldable pub directory_entry : ℕ → ℕ
directory_entry table =
    bit_or (bit_or (bit_or (bit_or (v2p table) page_present) page_read) page_write) page_user

-- `&pgdir[PDE(va)]` and `&pte[PTE(va)]`
unfoldable pub directory_slot : ℕ → ℕ → ℕ
directory_slot pgdir va = u32 (pgdir + pde va * 4)

unfoldable pub table_slot : ℕ → ℕ → ℕ
table_slot table va = u32 (table + pte va * 4)

-- The `else` of `pagewalk`: a table of its own, whatever `kalloc` returned.
unfoldable pub new_table : ℕ → ℕ → ℕ × Kmem → ℕ × Kmem
new_table pgdir va (table, k) = (
  table_slot table va,
  record k {
    mem =
        store32 (memset k.mem table 0 page_size) (directory_slot pgdir va) (directory_entry table);
  },
)

-- `alloc` is never read.
unfoldable pub pagewalk : ℕ → ℕ → ℕ → Kmem → Option (ℕ × Kmem)
unfolding new_table
pagewalk fuel pgdir va k =
    let entry = load32 k.mem (directory_slot pgdir va) in
    if bit_and entry pte_p == 0
    then kalloc fuel k >>= (λ r. some (new_table pgdir va r))
    else some (table_slot (p2v entry) va, k)

-- `(u32) -1`
abbrev pub failure : ℕ
failure = 0xffff_ffff

-- One round of the loop in `mappages` behind `pagewalk`: `none` if it goes on. `pointer` is the value of the
-- variable `pte`, which is never set. `*pte = (pagewalk(…)) == 0` stores the outcome of the comparison.
unfoldable pub map_page : ℕ → ℕ → ℕ → Bool → ℕ → Kmem → Option ℕ × Kmem
map_page pointer pa perm last slot k =
    let stored : ℕ = if slot == 0 then 1 else 0 in
    let k = record k { mem = store32 k.mem pointer stored } in
    if not (stored == 0)
    then (some failure, k)
    else if not (bit_and (load32 k.mem pointer) pte_p == 0)
    then (some 0, record k { cpu = print "remapped" k.cpu })
    else (
      if last then some 0 else none,
      record k { mem = store32 k.mem pointer (bit_or (bit_or pa perm) pte_p) },
    )

-- `return`, or on to the next round.
abbrev pub unless_done : Option ℕ → Kmem → Option (ℕ × Kmem) → Option (ℕ × Kmem)
unless_done none k rest = rest
unless_done (some code) k rest = some (code, k)

-- The loop, which moves `start` and `end` on together.
unfoldable pub map_pages : ℕ → ℕ → ℕ → ℕ → ℕ → ℕ → ℕ → ℕ → Kmem → Option (ℕ × Kmem)
unfolding map_page
map_pages fuel zero pointer pgdir start end pa perm k = none
map_pages fuel (suc rounds) pointer pgdir start end pa perm k =
    pagewalk fuel pgdir start k >>= λ (slot, k').
    let (r, k'') = map_page pointer pa perm (start == end) slot k' in
    unless_done r k'' (
      map_pages fuel rounds pointer pgdir (u32 (start + page_size)) (u32 (end + page_size)) pa perm
        k'')

unfoldable pub mappages : ℕ → ℕ → ℕ → ℕ → ℕ → ℕ → ℕ → ℕ → Kmem → Option (ℕ × Kmem)
unfolding map_pages
mappages fuel rounds pointer pgdir va size pa perm k =
    map_pages fuel rounds pointer pgdir va (sub32 (u32 (va + size)) 1) pa perm k

-- `struct kmap`.
pub record Kmap : Type 0 where
  pub virt : ℕ
  pub phy_start : ℕ
  pub phy_end : ℕ
  pub perm : ℕ

-- The table of mappings; `data_address` is the linker's symbol `data`.
unfoldable pub kmap : ℕ → List Kmap
kmap data_address =
    record { virt = kernbase; phy_start = 0; phy_end = extmem; perm = pte_rw }
    ∷ record { virt = kernlink; phy_start = v2p kernlink; phy_end = v2p data_address; perm = 0 }
    ∷ record { virt = data_address; phy_start = v2p data_address; phy_end = phystop; perm = pte_rw }
    ∷ record { virt = devspace; phy_start = devspace; phy_end = 0; perm = pte_rw }
    ∷ []

-- The loop over the table. `mappages` returns a `u32`, which is never below 0, so its result is not looked at.
-- `pointer` gives the value of the unset variable in each call, by the number of entries behind it.
unfoldable pub map_all : ℕ → ℕ → (ℕ → ℕ) → ℕ → List Kmap → Kmem → Option Kmem
unfolding mappages
map_all fuel rounds pointer pgdir [] k = some k
map_all fuel rounds pointer pgdir (e ∷ es) k =
    mappages fuel rounds (pointer (length es)) pgdir e.virt (sub32 e.phy_end e.phy_start)
      e.phy_start e.perm k
    >>= λ (_, k'). map_all fuel rounds pointer pgdir es k'

unfoldable pub pagetable_init : ℕ → ℕ → (ℕ → ℕ) → ℕ → Kmem → Option (ℕ × Kmem)
unfolding map_all kmap
pagetable_init fuel rounds pointer data_address k = kalloc fuel k >>= λ (pgdir, k').
    let cleared = record k' { mem = memset k'.mem pgdir 0 page_size } in
    if pgdir == 0
    then some (0, k')
    else (map_all fuel rounds pointer pgdir (kmap data_address) cleared
        >>= (λ k''. some (pgdir, k'')))

-- `kernpgdir` afterwards.
unfoldable pub paging_install : ℕ → ℕ → (ℕ → ℕ) → ℕ → Kmem → Option (ℕ × Kmem)
unfolding pagetable_init
paging_install fuel rounds pointer data_address k =
    pagetable_init fuel rounds pointer data_address k
