-- ===== src/Tests/Sharing.antt =====
-- A run of the page allocator with several processors.
use tinu_os.Prelude.{ℕ, ◌≡◌, refl, none, List, [], ◌∷◌, arith}
use tinu_os.Memory.{load32}
use tinu_os.Spinlock.{Lock, xchg, initlock}
use tinu_os.PageAlloc.FreeList.{FreeList}
use tinu_os.PageAlloc.Sharing.{
  Shared, wants, looks, saw, took, move, after_xchg, Reach, here, next, ask, take_lock, look,
}
use tinu_os.PageAlloc.Sharing.Pages.{Unowned}
use tinu_os.PageAlloc.Sharing.Exclusive.{at_start, kalloc-exclusive}
use tinu_os.PageAlloc.Sharing.Unlocked.{kalloc-shared}

abbrev a_lock : Lock
a_lock = record { name = "kmem"; locked = 1 }

-- One page, at 4096, and one call of `kalloc`.
abbrev one_page : Shared
one_page = at_start 1 a_lock (λ _. 0) 4096 (λ _. none)

abbrev called : Shared
called = record one_page { pc = move one_page.pc 7 wants }

abbrev locked : Shared
locked = record called {
  lock = (xchg called.lock 1).1;
  pc = move called.pc 7 (after_xchg (xchg called.lock 1).0 wants looks);
}

abbrev looked : Shared
looked = record locked { pc = move locked.pc 7 (saw 4096) }

looked_reached : Reach one_page looked
unfolding xchg initlock
looked_reached = next (next (next here (ask 7 refl)) (take_lock 7 refl (omega arith))) (look 7 refl)

one_page-FreeList : FreeList (λ _. 0) 4096 (4096 ∷ [])
unfolding load32
one_page-FreeList =
    (refl, record { aligned = refl; nonzero = omega arith; small = omega arith }, tt, refl)

kalloc-exclusive_example :
    (looked.owner 4096 ≡ none)
    × (qs : List ℕ) × FreeList looked.mem looked.freelist qs
    × Unowned looked.owner qs
kalloc-exclusive_example =
    kalloc-exclusive 1 a_lock (λ _. 0) 4096 (λ _. none) (4096 ∷ []) 7 4096 (omega arith)
      one_page-FreeList (refl, tt) looked_reached refl (omega arith)

kalloc-shared_example :
    (t : Shared) × Reach (at_start 0 a_lock (λ _. 0) 4096 (λ _. none)) t
    × (t.pc 7 ≡ took 4096)
    × (t.pc 3 ≡ took 4096)
kalloc-shared_example =
    kalloc-shared a_lock (λ _. 0) 4096 (λ _. none) 7 3 (omega arith) (omega arith)
