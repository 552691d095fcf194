-- ===== src/Paging/Walk.antt =====
-- `pagewalk` of mmu/mmu.c on a page directory, with the free pages as a stack.
use tinu_os.Prelude.{
  ℕ, suc, ◌+◌, ◌*◌, ◌%◌, ◌≤◌, ◌<◌, bit_and, bit_or, ◌≡◌, refl, ap, ◌∙◌, ◌≢◌, inl, inr, true, some,
  List, [], ◌∷◌, arith, ◌==◌, if◌then◌else◌, ==→eq, Bool-cases, u32,
}
use tinu_os.Prelude.Bits.{bit_and_mask, bit_or_step}
use tinu_os.Memory.{Memory, load32, store32, memset}
use tinu_os.Memory.Frame.{
  load32-store32_self, load32-store32_ne, load32-memset_ne, load32-memset_zero,
}
use tinu_os.Layout.{v2p, page_size, pde}
use tinu_os.Layout.Rounding.{pde-div}
use tinu_os.PageAlloc.{Kmem}
use tinu_os.PageAlloc.FreeList.{IsPage, Fresh, FreeList}
use tinu_os.PageAlloc.Stack.{IsStack, kalloc-pop}
use tinu_os.Paging.{
  directory_entry, directory_slot, table_slot, new_table, pagewalk, page_present, page_read,
  page_write, page_user,
}

-- The first words of the pages are the same.
abbrev pub SameLinks : Memory → Memory → List ℕ → Type 0
SameLinks m m' [] = Unit
SameLinks m m' (q ∷ qs) = (load32 m' q ≡ load32 m q) × SameLinks m m' qs

pub FreeList-same :
    (m m' : Memory) (p : ℕ) (ps : List ℕ) → SameLinks m m' ps → FreeList m p ps → FreeList m' p ps
FreeList-same m m' p [] same l = l
FreeList-same m m' p (q ∷ qs) same l =
    (l.0, l.1, l.2, rw same.0 (FreeList-same m m' (load32 m q) qs same.1 l.3))

-- A write inside a page that is not on the list leaves the links of the list alone.
pub FreeList-store32 :
    (m : Memory) (page a v p : ℕ) (ps : List ℕ)
    → IsPage page
    → page ≤ a
    → a + 4 ≤ page + page_size
    → Fresh page ps
    → FreeList m p ps
    → FreeList (store32 m a v) p ps
FreeList-store32 m page a v p ps hp lo hi fresh l =
    FreeList-same m (store32 m a v) p ps (same ps p fresh l) l
  where
    same : (qs : List ℕ) (q : ℕ) → Fresh page qs → FreeList m q qs → SameLinks m (store32 m a v) qs
    same [] q f h = tt
    same (r ∷ rs) q f h =
        (load32-store32_ne m a r v (omega (arith, hp, h.1, f.0)), same rs (load32 m r) f.1 h.3)

pub FreeList-memset :
    (m : Memory) (page v p : ℕ) (ps : List ℕ)
    → IsPage page
    → Fresh page ps
    → FreeList m p ps
    → FreeList (memset m page v page_size) p ps
FreeList-memset m page v p ps hp fresh l =
    FreeList-same m (memset m page v page_size) p ps (same ps p fresh l) l
  where
    same :
        (qs : List ℕ) (q : ℕ)
        → Fresh page qs
        → FreeList m q qs
        → SameLinks m (memset m page v page_size) qs
    same [] q f h = tt
    same (r ∷ rs) q f h = (
      load32-memset_ne m page v page_size r (omega (arith, hp, h.1, f.0)),
      same rs (load32 m r) f.1 h.3,
    )

-- A page directory none of whose entries is marked as present, apart from the free pages.
pub record IsDirectory (k : Kmem) (pgdir : ℕ) (ps : List ℕ) : Type 0 where
  pub stack : IsStack k ps
  pub page : IsPage pgdir
  pub apart : Fresh pgdir ps
  pub absent : (i : ℕ) → i < 1024 → load32 k.mem (pgdir + i * 4) % 2 ≡ 0

directory_slot_lem : (pgdir va : ℕ) → IsPage pgdir → directory_slot pgdir va ≡ pgdir + pde va * 4
unfolding directory_slot
directory_slot_lem pgdir va page = omega (arith, page, pde-div va)

bit_or-parity : (a b : ℕ) → b % 2 ≡ 0 → bit_or a b % 2 ≡ a % 2
bit_or-parity a b h = omega (arith, bit_or_step a b)

-- The entry that `pagewalk` writes is not marked as present: `PAGE_PRESENT` is 0.
pub directory_entry-absent : (p : ℕ) → IsPage p → u32 (directory_entry p) % 2 ≡ 0
unfolding directory_entry
directory_entry-absent p page =
    let physical : ℕ = v2p p in
    let a : ℕ = bit_or physical page_present in
    let b : ℕ = bit_or a page_read in
    let c : ℕ = bit_or b page_write in
    omega (
      arith,
      page,
      bit_or-parity physical page_present (omega arith),
      bit_or-parity a page_read (omega arith),
      bit_or-parity b page_write (omega arith),
      bit_or-parity c page_user (omega arith),
    )

-- What `pagewalk` leaves when it takes the page `p` for a table.
pub record Walked (k : Kmem) (pgdir va p : ℕ) (ps : List ℕ) (k' : Kmem) : Type 0 where
  pub directory : IsDirectory k' pgdir ps
  pub entry : load32 k'.mem (pgdir + pde va * 4) ≡ u32 (directory_entry p)
  pub table : (i : ℕ) → i < 1024 → load32 k'.mem (p + i * 4) ≡ 0

module _ (m : Memory) (p pgdir d v : ℕ) (page : IsPage p) (root : IsPage pgdir) (ne : pgdir ≢ p)
    (small : d < 1024) where
  -- The entries of the directory after a table at `p` was cleared and entry `d` written.
  entry_after :
      (i : ℕ)
      → i < 1024
      → load32 (store32 (memset m p 0 page_size) (pgdir + d * 4) v) (pgdir + i * 4)
        ≡ (if i == d then u32 v else load32 m (pgdir + i * 4))
  entry_after i h = elim (Bool-cases (i == d)) [
    | inl hit ↦
        let e : i ≡ d = ==→eq i d hit in
        rw (hit, e) (load32-store32_self (memset m p 0 page_size) (pgdir + d * 4) v)
    | inr miss ↦ rw miss (
        load32-store32_ne (memset m p 0 page_size) (pgdir + d * 4) (pgdir + i * 4) v
          (ground (arith, miss))
        ∙ load32-memset_ne m p 0 page_size (pgdir + i * 4) (omega (arith, page, root, ne)))
  ]

  table_after :
      (i : ℕ)
      → i < 1024
      → load32 (store32 (memset m p 0 page_size) (pgdir + d * 4) v) (p + i * 4) ≡ 0
  table_after i h =
      load32-store32_ne (memset m p 0 page_size) (pgdir + d * 4) (p + i * 4) v
        (omega (arith, page, root, ne))
      ∙ load32-memset_zero m p page_size (p + i * 4) (omega arith) (omega arith)

new_table-Walked :
    (pgdir va p : ℕ) (ps : List ℕ) (k j : Kmem)
    → IsDirectory k pgdir (p ∷ ps)
    → IsStack j ps
    → j.mem ≡ k.mem
    → IsPage p
    → Fresh p ps
    → Walked k pgdir va p ps (new_table pgdir va (p, j)).1
unfolding new_table
new_table-Walked pgdir va p ps k j d st same hp fresh =
    let slot : ℕ = pgdir + pde va * 4 in
    let at = directory_slot_lem pgdir va d.page in
    let m1 : Memory = memset j.mem p 0 page_size in
    let v : ℕ = directory_entry p in
    let bound : pde va < 1024 = omega (arith, pde-div va) in
    let cleared = FreeList-memset j.mem p 0 j.freelist ps hp fresh st.chain in
    let inside : slot + 4 ≤ pgdir + page_size = omega arith in
    let chain =
      FreeList-store32 m1 pgdir slot v j.freelist ps d.page (omega arith) inside d.apart.1
        cleared in
    rw at (record {
      directory = record {
        stack = record { chain = chain; available = st.available };
        page = d.page;
        apart = d.apart.1;
        absent = λ i h.
            ap (λ (t : ℕ). t % 2)
              (entry_after j.mem p pgdir (pde va) v hp d.page d.apart.0 bound i h)
            ∙ still i h;
      };
      entry = load32-store32_self m1 slot v;
      table = table_after j.mem p pgdir (pde va) v hp d.page d.apart.0 bound;
    })
  where
    still :
        (i : ℕ)
        → i < 1024
        → (if i == pde va then u32 (directory_entry p) else load32 j.mem (pgdir + i * 4)) % 2 ≡ 0
    still i h =
        ground (
          arith,
          directory_entry-absent p hp,
          d.absent i h,
          ap (λ m. load32 m (pgdir + i * 4)) same,
        )

-- On a page directory none of whose entries is present, and with a free page, `pagewalk` takes the first free
-- page for a new table, whatever the address: it clears that page, enters it in the directory, and returns the
-- place of the entry for the address in it. The entry is not marked as present, so neither the directory nor
-- the next call knows of the table.
pub pagewalk-Walked :
    (fuel pgdir va p : ℕ) (ps : List ℕ) (k : Kmem)
    → IsDirectory k pgdir (p ∷ ps)
    → (k' : Kmem) × (pagewalk (suc fuel) pgdir va k ≡ some (table_slot p va, k'))
      × Walked k pgdir va p ps k'
unfolding pagewalk
pagewalk-Walked fuel pgdir va p ps k d =
    let (j, run, st, same) = kalloc-pop fuel p k ps d.stack in
    let at = directory_slot_lem pgdir va d.page in
    let none_there = d.absent (pde va) (omega (arith, pde-div va)) in
    let clear : (bit_and (load32 k.mem (directory_slot pgdir va)) 1 == 0) ≡ true =
      rw at (ground (arith, bit_and_mask 1 (load32 k.mem (pgdir + pde va * 4)), none_there)) in
    let c = d.stack.chain in
    (
      (new_table pgdir va (p, j)).1,
      rw (clear, run) (unfold new_table in refl),
      new_table-Walked pgdir va p ps k j d st same c.1 c.2,
    )
