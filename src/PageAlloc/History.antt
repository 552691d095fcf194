-- ===== src/PageAlloc/History.antt =====
-- Whole histories of calls of `kalloc` and `kfree` against a plain stack of pages.
use tinu_os.Prelude.{ℕ, suc, ◌≡◌, refl, Option, some, List, [], ◌∷◌, ◌>>=◌}
use tinu_os.PageAlloc.{Kmem, kalloc, kfree}
use tinu_os.PageAlloc.FreeList.{IsPage, Fresh}
use tinu_os.PageAlloc.Stack.{IsStack, kfree-push, kalloc-pop, kalloc_empty}

pub data Call : Type 0 where
  take : Call
  give : (page : ℕ) → Call

-- The calls made one after the other on the allocator; the pages that were handed out, in order.
unfoldable pub run : ℕ → List Call → Kmem → Option (List ℕ × Kmem)
run fuel [] k = some ([], k)
run fuel (take ∷ cs) k = do (p, k') ← kalloc fuel k; (ps, k'') ← run fuel cs k'; some (p ∷ ps, k'')
run fuel (give p ∷ cs) k = do k' ← kfree fuel p k; run fuel cs k'

-- What the calls are to do with a stack of pages: NULL for a page when the stack is empty.
abbrev pub top : List ℕ → ℕ
top [] = 0
top (p ∷ ps) = p

abbrev pub below : List ℕ → List ℕ
below [] = []
below (p ∷ ps) = ps

abbrev pub answers : List Call → List ℕ → List ℕ
answers [] ps = []
answers (take ∷ cs) ps = top ps ∷ answers cs (below ps)
answers (give p ∷ cs) ps = answers cs (p ∷ ps)

abbrev pub left_over : List Call → List ℕ → List ℕ
left_over [] ps = ps
left_over (take ∷ cs) ps = left_over cs (below ps)
left_over (give p ∷ cs) ps = left_over cs (p ∷ ps)

-- Only pages that are not free are given back.
abbrev pub Allowed : List Call → List ℕ → Type 0
Allowed [] ps = Unit
Allowed (take ∷ cs) ps = Allowed cs (below ps)
Allowed (give p ∷ cs) ps = IsPage p × Fresh p ps × Allowed cs (p ∷ ps)

kalloc-top :
    (fuel : ℕ) (k : Kmem) (ps : List ℕ)
    → IsStack k ps
    → (k' : Kmem) × (kalloc (suc fuel) k ≡ some (top ps, k')) × IsStack k' (below ps)
kalloc-top fuel k [] st = let (k', run, left, _) = kalloc_empty fuel k st in (k', run, left)
kalloc-top fuel k (p ∷ ps) st =
    let (k', run, left, _) = kalloc-pop fuel p k ps st in (k', run, left)

-- With the lock available and fuel for one round of it, any history of calls in which only pages that are not free
-- are given back returns. It hands out what a plain stack of pages would, NULL when that is empty, and leaves the
-- free list standing for the same stack.
pub run-answers :
    (fuel : ℕ) (cs : List Call) (k : Kmem) (ps : List ℕ)
    → IsStack k ps
    → Allowed cs ps
    → (k' : Kmem) × (run (suc fuel) cs k ≡ some (answers cs ps, k')) × IsStack k' (left_over cs ps)
unfolding run
run-answers fuel [] k ps st ok = (k, refl, st)
run-answers fuel (take ∷ cs) k ps st ok =
    let (k1, first, left) = kalloc-top fuel k ps st in
    let (k2, rest, end) = run-answers fuel cs k1 (below ps) left ok in
    (k2, rw (first, rest) refl, end)
run-answers fuel (give p ∷ cs) k ps st ok =
    let (k1, first, left) = kfree-push fuel p k ps st ok.0 ok.1 in
    let (k2, rest, end) = run-answers fuel cs k1 (p ∷ ps) left ok.2 in (k2, rw first rest, end)
