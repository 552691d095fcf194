-- ===== src/PageAlloc/Range.antt =====
-- `freerange` and `kinit1` of mmu/kmalloc.c: which pages the free list holds after them.
use tinu_os.Prelude.{
  ℕ, zero, suc, ◌+◌, ◌-◌, ◌*◌, ◌/◌, ◌%◌, ◌^◌, ◌≤◌, ◌<◌, ◌≡◌, refl, ◌∙◌, ◌↔◌, ◌⊎◌, inl, Bool, true,
  false, ◌||◌, some, List, [], ◌∷◌, arith, leb, ◌==◌, length, u32,
}
use tinu_os.Layout.{page_size, pgroundup}
use tinu_os.Layout.Rounding.{pgroundup-div}
use tinu_os.PageAlloc.{Kmem, free_pages, kinit1}
use tinu_os.Spinlock.{initlock}
use tinu_os.PageAlloc.FreeList.{IsPage, Fresh}
use tinu_os.PageAlloc.Stack.{IsStack, kfree-push}

-- The `n` pages from `p` on, pushed one after another on `ps`.
unfoldable pub span : ℕ → ℕ → List ℕ → List ℕ
span p zero ps = ps
span p (suc n) ps = span (p + page_size) n (p ∷ ps)

abbrev pub has : ℕ → List ℕ → Bool
has q [] = false
has q (p ∷ ps) = (q == p) || has q ps

-- Every page of `ps` ends at `p` or before.
abbrev pub Below : ℕ → List ℕ → Type 0
Below p [] = Unit
Below p (q ∷ qs) = (q + page_size ≤ p) × Below p qs

Below-Fresh : (p : ℕ) (ps : List ℕ) → Below p ps → Fresh p ps
Below-Fresh p [] b = tt
Below-Fresh p (q ∷ qs) b = (omega arith, Below-Fresh p qs b.1)

Below-step : (p : ℕ) (ps : List ℕ) → Below p ps → Below (p + page_size) ps
Below-step p [] b = tt
Below-step p (q ∷ qs) b = (omega arith, Below-step p qs b.1)

-- The loop pushes each whole page up to `vend`.
free_pages-span :
    (fuel n rounds p vend : ℕ) (k : Kmem) (ps : List ℕ)
    → IsStack k ps
    → Below p ps
    → p % page_size ≡ 0
    → 0 < p
    → p + n * page_size ≤ vend
    → vend < p + (n + 1) * page_size
    → vend + page_size < 2 ^ 32
    → n < rounds
    → (k' : Kmem) × (free_pages (suc fuel) rounds p vend k ≡ some k') × IsStack k' (span p n ps)
unfolding free_pages span
free_pages-span fuel n zero p vend k ps st b al pos lo hi small enough = absurd (omega arith)
free_pages-span fuel zero (suc rounds) p vend k ps st b al pos lo hi small enough =
    (k, ground arith, st)
free_pages-span fuel (suc n) (suc rounds) p vend k ps st b al pos lo hi small enough =
    let page : IsPage p = omega arith in
    let (j, freed, st') = kfree-push fuel p k ps st page (Below-Fresh p ps b) in
    let (k', rest, st'') =
      free_pages-span fuel n rounds (p + page_size) vend j (p ∷ ps) st'
        (omega arith, Below-step p ps b) (omega arith) (omega arith) (omega arith) (omega arith)
        small (omega arith) in
    let next : u32 (p + page_size) ≡ p + page_size = omega arith in
    let go : leb (p + page_size) vend ≡ true = ground arith in (k', rw (next, go, freed) rest, st'')

has-span :
    (n p q : ℕ) (ps : List ℕ)
    → p % page_size ≡ 0
    → (has q (span p n ps) ≡ true)
      ↔ ((has q ps ≡ true) ⊎ ((q % page_size ≡ 0) × (p ≤ q) × (q + page_size ≤ p + n * page_size)))
unfolding span
has-span zero p q ps al = (λ h. inl h, λ h. ground arith)
has-span (suc n) p q ps al =
    let ih = has-span n (p + page_size) q (p ∷ ps) (omega arith) in
    (λ h. ground (arith, ih.0 h), λ h. ih.1 (ground arith))

pub pages-between :
    (vstart vend q : ℕ)
    → vstart + page_size ≤ vend
    → vend + page_size < 2 ^ 32
    → (has q (span (pgroundup vstart) ((vend - pgroundup vstart) / page_size) []) ≡ true)
      ↔ ((q % page_size ≡ 0) × (vstart ≤ q) × (q + page_size ≤ vend))
pages-between vstart vend q room small =
    let bounds = pgroundup-div vstart in
    let n : ℕ = (vend - pgroundup vstart) / page_size in
    let inside = has-span n (pgroundup vstart) q [] (omega (arith, bounds)) in
    (λ h. ground (arith, inside.0 h, bounds), λ h. inside.1 (ground (arith, bounds)))

-- The pages that `kinit1` frees, the last one first.
abbrev pub pages_of : ℕ → ℕ → List ℕ
pages_of vstart vend = span (pgroundup vstart) ((vend - pgroundup vstart) / page_size) []

length-span : (n p : ℕ) (ps : List ℕ) → length (span p n ps) ≡ n + length ps
unfolding span
length-span zero p ps = omega arith
length-span (suc n) p ps = omega (arith, length-span n (p + page_size) (p ∷ ps))

pub length-pages_of :
    (vstart vend : ℕ) → length (pages_of vstart vend) ≡ (vend - pgroundup vstart) / page_size
length-pages_of vstart vend =
    length-span ((vend - pgroundup vstart) / page_size) (pgroundup vstart) [] ∙ omega arith

pub kinit1-pages_of :
    (fuel rounds vstart vend : ℕ) (k : Kmem)
    → k.freelist ≡ 0
    → 0 < vstart
    → vstart + page_size ≤ vend
    → vend + page_size < 2 ^ 32
    → (vend - pgroundup vstart) / page_size < rounds
    → (k' : Kmem) × (kinit1 (suc fuel) rounds vstart vend k ≡ some k')
      × IsStack k' (pages_of vstart vend)
unfolding kinit1
kinit1-pages_of fuel rounds vstart vend k empty pos room small enough =
    let first : ℕ = pgroundup vstart in
    let n : ℕ = (vend - first) / page_size in
    let start : Kmem = record k { lock = initlock "kmem" k.lock; use_lock = 0 } in
    let stack : IsStack start [] = record { chain = empty; available = inl refl } in
    let bounds = pgroundup-div vstart in
    free_pages-span fuel n rounds first vend start [] stack tt (omega (arith, bounds))
      (omega (arith, bounds)) (omega (arith, bounds)) (omega (arith, bounds)) small
      (omega (arith, bounds))

-- With an empty free list, and a range that starts above 0, has room for a page and ends a page before
-- the end of the address space or earlier, `kinit1(vstart, vend)` returns in one round more than there
-- are whole aligned pages between them, or with more rounds, and leaves exactly the whole aligned pages between `vstart` and `vend` on the
-- free list, each of them once.
pub kinit1-pages :
    (fuel rounds vstart vend : ℕ) (k : Kmem)
    → k.freelist ≡ 0
    → 0 < vstart
    → vstart + page_size ≤ vend
    → vend + page_size < 2 ^ 32
    → (vend - pgroundup vstart) / page_size < rounds
    → (k' : Kmem) × (ps : List ℕ) × (kinit1 (suc fuel) rounds vstart vend k ≡ some k')
      × IsStack k' ps
      × (length ps ≡ (vend - pgroundup vstart) / page_size)
      × ((q : ℕ)
          → (has q ps ≡ true) ↔ ((q % page_size ≡ 0) × (vstart ≤ q) × (q + page_size ≤ vend)))
kinit1-pages fuel rounds vstart vend k empty pos room small enough =
    let (k', done, st) = kinit1-pages_of fuel rounds vstart vend k empty pos room small enough in
    (
      k',
      pages_of vstart vend,
      done,
      st,
      length-pages_of vstart vend,
      λ q. pages-between vstart vend q (omega arith) (omega arith),
    )
