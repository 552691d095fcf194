-- ===== src/Paging/Mapping.antt =====
-- `mappages` and `pagetable_init` of mmu/mmu.c: the entry of a page never reaches its table.
use tinu_os.Prelude.{
  ℕ, zero, suc, ◌+◌, ◌*◌, ◌%◌, ◌^◌, ◌≤◌, ◌<◌, bit_or, ◌≡◌, refl, sym, ap, ◌∙◌, ◌≢◌, ◌⊎◌, true,
  false, none, some, List, [], ◌∷◌, ◌++◌, arith, ◌==◌, length, u32, sub32,
}
use mathlib.Core.Path.{subst}
use tinu_os.Memory.{Memory, load32, store32, memset}
use tinu_os.Memory.Frame.{load32-store32_self, load32-store32_ne, load32-memset_zero}
use tinu_os.Layout.{page_size, pte_p, pte_rw, kernbase, extmem}
use tinu_os.PageAlloc.{Kmem}
use tinu_os.PageAlloc.Stack.{IsStack, kalloc-pop}
use tinu_os.Paging.{
  pagewalk, table_slot, map_page, map_pages, mappages, map_all, kmap, pagetable_init,
}
use tinu_os.Paging.Walk.{FreeList-memset, pagewalk-Walked}
use tinu_os.Paging.Ready.{OutsidePages, IsReady, map_page_lem, IsReady-map_page, table_slot-ne-zero}

-- One round that goes on.
map_pages_round :
    (fuel pointer pgdir start end pa perm slot : ℕ) (k k1 k2 : Kmem)
    → pagewalk (suc fuel) pgdir start k ≡ some (slot, k1)
    → (start == end) ≡ false
    → map_page pointer pa perm false slot k1 ≡ (none, k2)
    → (rounds : ℕ)
    → map_pages (suc fuel) (suc rounds) pointer pgdir start end pa perm k
      ≡ map_pages
          (suc fuel)
          rounds
          pointer
          pgdir
          (u32 (start + page_size))
          (u32 (end + page_size))
          pa
          perm
          k2
unfolding map_pages
map_pages_round fuel pointer pgdir start end pa perm slot k k1 k2 run more round rounds =
    rw (run, more, round) refl

-- Each round of the loop takes a free page, as long as there are any, when `start` and `end` differ, which they then
-- still do.
map_pages_onward :
    (fuel pointer pgdir start end pa perm : ℕ) (qs ps : List ℕ) (k : Kmem)
    → IsReady k pgdir pointer (qs ++ ps)
    → start < 2 ^ 32
    → end < 2 ^ 32
    → start ≢ end
    → (k' : Kmem) × (start' : ℕ) × (end' : ℕ) × IsReady k' pgdir pointer ps
      × (start' ≡ u32 (start + length qs * page_size))
      × (end' ≡ u32 (end + length qs * page_size))
      × (start' ≢ end')
      × ((rounds : ℕ)
          → map_pages (suc fuel) (length qs + rounds) pointer pgdir start end pa perm k
            ≡ map_pages (suc fuel) rounds pointer pgdir start' end' pa perm k')
map_pages_onward fuel pointer pgdir start end pa perm [] ps k r hs he ne = (
  k,
  start,
  end,
  r,
  omega arith,
  omega arith,
  ne,
  λ rounds.
      let none_left : 0 + rounds ≡ rounds = omega arith in
      ap (λ (n : ℕ). map_pages (suc fuel) n pointer pgdir start end pa perm k) none_left,
)
map_pages_onward fuel pointer pgdir start end pa perm (p ∷ qs) ps k r hs he ne =
    let (k1, run, w) = pagewalk-Walked fuel pgdir start p (qs ++ ps) k r.directory in
    let page = r.directory.stack.chain.1 in
    let more : (start == end) ≡ false = ground arith in
    let round =
      map_page_lem pointer pa perm (table_slot p start) false k1
        (table_slot-ne-zero p start page) in
    let v : ℕ = bit_or (bit_or pa perm) pte_p in
    let k2 : Kmem = record k1 { mem = store32 (store32 k1.mem pointer 0) pointer v } in
    let after : IsReady k1 pgdir pointer (qs ++ ps) = record {
      directory = w.directory;
      outside = (r.outside.0, r.outside.1.1);
    } in
    let round_on =
      map_pages_round fuel pointer pgdir start end pa perm (table_slot p start) k k1 k2 run more
        round in
    let (k', start', end', ready, at_start, at_end, apart, rest) =
      map_pages_onward fuel pointer pgdir (u32 (start + page_size)) (u32 (end + page_size)) pa perm
        qs ps k2 (IsReady-map_page k1 pgdir pointer 0 v (qs ++ ps) after) (omega arith)
        (omega arith) (omega arith) in
    (
      k',
      start',
      end',
      ready,
      omega (arith, at_start),
      omega (arith, at_end),
      apart,
      λ rounds.
          let one : suc (length qs) + rounds ≡ suc (length qs + rounds) = omega arith in
          rw one (round_on (length qs + rounds)) ∙ rest rounds,
    )

map_pages_stopped :
    (fuel pointer pgdir start end pa perm : ℕ) (k : Kmem)
    → map_pages fuel 0 pointer pgdir start end pa perm k ≡ none
unfolding map_pages
map_pages_stopped fuel pointer pgdir start end pa perm k = refl

-- On a directory without present entries, and when its unset variable `pte` points outside the directory and the free
-- pages, `mappages` of any size but 1 takes a free page in each round, as long as there are any: behind as many rounds as
-- there are pages `qs` at the front of the list it has not returned, these pages are gone from the list, and the loop goes
-- on with the other rounds, both bounds of it having moved on by as many pages, modulo 2 ^ 32, so that they still differ.
pub mappages_endless :
    (fuel pointer pgdir va size pa perm : ℕ) (qs ps : List ℕ) (k : Kmem)
    → IsReady k pgdir pointer (qs ++ ps)
    → va < 2 ^ 32
    → size < 2 ^ 32
    → size ≢ 1
    → (k' : Kmem) × (start : ℕ) × (end : ℕ) × IsReady k' pgdir pointer ps
      × (start ≡ u32 (va + length qs * page_size))
      × (end ≡ u32 (sub32 (u32 (va + size)) 1 + length qs * page_size))
      × (start ≢ end)
      × ((rounds : ℕ)
          → mappages (suc fuel) (length qs + rounds) pointer pgdir va size pa perm k
            ≡ map_pages (suc fuel) rounds pointer pgdir start end pa perm k')
      × (mappages (suc fuel) (length qs) pointer pgdir va size pa perm k ≡ none)
unfolding mappages
mappages_endless fuel pointer pgdir va size pa perm qs ps k r hva hs ne =
    let last : ℕ = sub32 (u32 (va + size)) 1 in
    let (k', start, end, ready, at_start, at_end, apart, run) =
      map_pages_onward fuel pointer pgdir va last pa perm qs ps k r hva (omega arith)
        (omega arith) in
    let all : length qs ≡ length qs + 0 = omega arith in
    (
      k',
      start,
      end,
      ready,
      at_start,
      at_end,
      apart,
      run,
      ap (λ (n : ℕ). map_pages (suc fuel) n pointer pgdir va last pa perm k) all
          ∙ run 0
          ∙ map_pages_stopped (suc fuel) pointer pgdir start end pa perm k',
    )

-- The same for fewer rounds than there are free pages.
mappages_going :
    (fuel rounds pointer pgdir va size pa perm : ℕ) (ps : List ℕ) (k : Kmem)
    → rounds ≤ length ps
    → IsReady k pgdir pointer ps
    → va < 2 ^ 32
    → size < 2 ^ 32
    → size ≢ 1
    → mappages (suc fuel) rounds pointer pgdir va size pa perm k ≡ none
mappages_going fuel rounds pointer pgdir va size pa perm ps k enough r hva hs ne =
    let (qs, rest, e, n) = front rounds ps enough in
    let w =
      mappages_endless fuel pointer pgdir va size pa perm qs rest k
        (subst (λ xs. IsReady k pgdir pointer xs) e r) hva hs ne in
    ap (λ (j : ℕ). mappages (suc fuel) j pointer pgdir va size pa perm k) (sym n) ∙ w.8
  where
    front :
        (n : ℕ) (ps : List ℕ)
        → n ≤ length ps
        → (qs : List ℕ) × (rest : List ℕ) × (ps ≡ qs ++ rest) × (length qs ≡ n)
    front zero ps h = ([], ps, refl, refl)
    front (suc n) [] h = absurd (omega arith)
    front (suc n) (p ∷ ps) h =
        let (qs, rest, e, l) = front n ps (omega arith) in
        (p ∷ qs, rest, ap (λ xs. p ∷ xs) e, omega (arith, l))

OutsidePages-zero :
    (m : Memory) (pointer a p v : ℕ)
    → (pointer + 4 ≤ p) ⊎ (p + page_size ≤ pointer)
    → p ≤ a
    → a + 4 ≤ p + page_size
    → load32 (store32 m pointer v) a ≡ load32 m a
OutsidePages-zero m pointer a p v out lo hi = load32-store32_ne m pointer a v (omega arith)

-- Under the same conditions and with a free page `p`, `mappages` of size 1 does return, with 0. The mapping goes
-- where the unset variable points: the new table, at `p`, stays empty.
pub mappages-unmapped :
    (fuel rounds pointer pgdir va pa perm p : ℕ) (ps : List ℕ) (k : Kmem)
    → IsReady k pgdir pointer (p ∷ ps)
    → va < 2 ^ 32
    → (k' : Kmem) × (mappages (suc fuel) (suc rounds) pointer pgdir va 1 pa perm k ≡ some (0, k'))
      × IsReady k' pgdir pointer ps
      × (load32 k'.mem pointer ≡ u32 (bit_or (bit_or pa perm) pte_p))
      × ((i : ℕ) → i < 1024 → load32 k'.mem (p + i * 4) ≡ 0)
unfolding mappages map_pages
mappages-unmapped fuel rounds pointer pgdir va pa perm p ps k r hva =
    let (k1, run, w) = pagewalk-Walked fuel pgdir va p ps k r.directory in
    let page = r.directory.stack.chain.1 in
    let end : ℕ = sub32 (u32 (va + 1)) 1 in
    let last : (va == end) ≡ true = ground arith in
    let round =
      map_page_lem pointer pa perm (table_slot p va) true k1 (table_slot-ne-zero p va page) in
    let v : ℕ = bit_or (bit_or pa perm) pte_p in
    let m0 : Memory = store32 k1.mem pointer 0 in
    let out = r.outside.1.0 in
    (
      record k1 { mem = store32 m0 pointer v },
      rw (run, last, round) refl,
      IsReady-map_page k1 pgdir pointer 0 v ps
          (record { directory = w.directory; outside = (r.outside.0, r.outside.1.1) }),
      load32-store32_self m0 pointer v,
      λ i h.
          OutsidePages-zero m0 pointer (p + i * 4) p v out (omega arith) (omega arith)
          ∙ OutsidePages-zero k1.mem pointer (p + i * 4) p 0 out (omega arith) (omega arith)
          ∙ w.table i h,
    )

-- `pagetable_init` makes the first free page the directory; when the unset variable of its first `mappages` points
-- outside the free pages, that call is still taking pages when there is only one left.
pub pagetable_init_endless :
    (fuel rounds data_address p : ℕ) (pointer : ℕ → ℕ) (ps : List ℕ) (k : Kmem)
    → rounds ≤ length ps
    → IsStack k (p ∷ ps)
    → OutsidePages (pointer 3) (p ∷ ps)
    → pagetable_init (suc fuel) rounds pointer data_address k ≡ none
unfolding pagetable_init map_all kmap
pagetable_init_endless fuel rounds data_address p pointer ps k enough st out =
    let (j, run, left, same) = kalloc-pop fuel p k ps st in
    let page = st.chain.1 in
    let fresh = st.chain.2 in
    let cleared : Kmem = record j { mem = memset j.mem p 0 page_size } in
    let ready : IsReady cleared p (pointer 3) ps = record {
      directory = record {
        stack = record {
          chain = FreeList-memset j.mem p 0 j.freelist ps page fresh left.chain;
          available = left.available;
        };
        page = page;
        apart = fresh;
        absent = λ i h.
            ap (λ (t : ℕ). t % 2)
              (load32-memset_zero j.mem p page_size (p + i * 4) (omega arith) (omega arith));
      };
      outside = out;
    } in
    let there : (p == 0) ≡ false = ground (arith, page) in
    let stuck =
      mappages_going fuel rounds (pointer 3) p kernbase extmem 0 pte_rw ps cleared enough ready
        (omega arith) (omega arith) (omega arith) in
    rw (run, there, stuck) refl
