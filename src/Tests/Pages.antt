-- ===== src/Tests/Pages.antt =====
-- Runs of the page allocator, and concrete addresses.
use tinu_os.Prelude.{
  ℕ, ◌+◌, ◌-◌, ◌/◌, ◌%◌, ◌≤◌, ◌≡◌, refl, ◌↔◌, inr, true, some, List, [], ◌∷◌, arith, length,
}
use tinu_os.Layout.{pgroundup, page_size, pde, pte, pgaddr}
use tinu_os.Layout.Rounding.{pde-pte-pgaddr}
use tinu_os.Memory.{load32}
use tinu_os.Spinlock.{Lock, Cpu}
use tinu_os.PageAlloc.{Kmem, kinit1}
use tinu_os.PageAlloc.FreeList.{IsPage}
use tinu_os.PageAlloc.Stack.{IsStack}
use tinu_os.PageAlloc.History.{Call, take, give, run, answers, left_over, run-answers}
use tinu_os.PageAlloc.Range.{has, kinit1-pages}

abbrev pub free_lock : Lock
free_lock = record { locked = 0; name = "kmem" }

abbrev pub cpu : Cpu
cpu = record { interrupts = true; edi = 0; log = [] }

abbrev pub no_pages : Kmem
no_pages = record { mem = λ _. 0; cpu = cpu; lock = free_lock; use_lock = 1; freelist = 0 }

no_pages-IsStack : IsStack no_pages []
no_pages-IsStack = record { chain = refl; available = inr refl }

-- A single page, whose first word is 0.
abbrev pub one_page : Kmem
one_page = record { mem = λ _. 0; cpu = cpu; lock = free_lock; use_lock = 1; freelist = 8192 }

at_8192-IsPage : IsPage 8192
at_8192-IsPage = record { aligned = omega arith; nonzero = omega arith; small = omega arith }

pub one_page-IsStack : IsStack one_page (8192 ∷ [])
unfolding load32
one_page-IsStack = record { chain = (refl, at_8192-IsPage, tt, refl); available = inr refl }

-- Three takes and a page given back.
abbrev calls : List Call
calls = take ∷ take ∷ give 12288 ∷ take ∷ []

run-answers_example :
    (k' : Kmem) × (run 1 calls one_page ≡ some (answers calls (8192 ∷ []), k'))
    × IsStack k' (left_over calls (8192 ∷ []))
run-answers_example =
    run-answers 0 calls one_page (8192 ∷ []) one_page-IsStack
      (record { aligned = omega arith; nonzero = omega arith; small = omega arith }, tt, tt)

taken : answers calls (8192 ∷ []) ≡ 8192 ∷ 0 ∷ 12288 ∷ []
taken = refl

abbrev held : Kmem
held = record one_page { lock = record { locked = 1; name = "kmem" } }

kinit1-pages_example :
    (k' : Kmem) × (ps : List ℕ) × (kinit1 1 3 5000 20000 no_pages ≡ some k')
    × IsStack k' ps
    × (length ps ≡ (20000 - pgroundup 5000) / page_size)
    × ((q : ℕ) → (has q ps ≡ true) ↔ ((q % page_size ≡ 0) × (5000 ≤ q) × (q + page_size ≤ 20000)))
unfolding pgroundup
kinit1-pages_example =
    kinit1-pages 0 3 5000 20000 no_pages refl (omega arith) (omega arith) (omega arith)
      (omega arith)

pde-pte-pgaddr_example :
    (pde (pgaddr 512 7 99) ≡ 512) × (pte (pgaddr 512 7 99) ≡ 7) × (pgaddr 512 7 99 % page_size ≡ 99)
pde-pte-pgaddr_example = pde-pte-pgaddr 512 7 99 (omega arith) (omega arith) (omega arith)
