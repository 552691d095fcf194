-- ===== src/PageAlloc/Sharing/Exclusive.antt =====
-- No page of mmu/kmalloc.c is given to two processors.
use tinu_os.Prelude.{ℕ, ◌≡◌, ◌≢◌, Option, none, List, ◌∷◌, arith}
use tinu_os.Memory.{Memory}
use tinu_os.Spinlock.{Lock, xchg, initlock}
use tinu_os.PageAlloc.FreeList.{FreeList}
use tinu_os.PageAlloc.Sharing.{
  Shared, after_xchg, Step, ask, take_lock, pass_by, look, find_none, unlink, finish_take, leave,
  wipe, write, take_lock_back, pass_by_back, link, put, finish_give, leave_back, Reach, here, next,
  idle, wants, looks, saw, took, returns, links,
}
use tinu_os.PageAlloc.Sharing.Locked.{IsLocked, Step-IsLocked}
use tinu_os.PageAlloc.Sharing.Pages.{Unowned}
use tinu_os.PageAlloc.Sharing.Kept.{
  IsKept, moved-IsKept, unlink-IsKept, wipe-IsKept, write-IsKept, link-IsKept, put-IsKept,
}

-- One step, whatever it is.
Step-IsKept :
    {s t : Shared} (ps : List ℕ) → Step s t → IsLocked s → IsKept s ps → (qs : List ℕ) × IsKept t qs
Step-IsKept {s} ps (ask i e) lk x =
    (ps, moved-IsKept s ps i wants s.lock x (λ r q. cc) (λ q h. cc) (λ q h. cc))
Step-IsKept {s} ps (take_lock i e u) lk x = (
  ps,
  moved-IsKept s ps i (after_xchg (xchg s.lock 1).0 wants looks) (xchg s.lock 1).1 x
      (λ r q. absurd (ground arith)) (λ q h. absurd (ground arith)) (λ q h. ground arith),
)
Step-IsKept {s} ps (look i e) lk x = (
  ps,
  moved-IsKept s ps i (saw s.freelist) s.lock x (λ r q. ground arith) (λ q h. cc) (λ q h. cc),
)
Step-IsKept {s} ps (find_none i e) lk x =
    (ps, moved-IsKept s ps i (took 0) s.lock x (λ r q. cc) (λ q h. cc) (λ q h. cc))
Step-IsKept {s} ps (unlink i r e ne) lk x =
    let (_, qs, y) = unlink-IsKept s ps i r lk x e ne in (qs, y)
Step-IsKept {s} ps (finish_take i r e u) lk x = (
  ps,
  moved-IsKept s ps i idle (record s.lock { locked = 0 }) x (λ r q. cc) (λ q h. cc) (λ q h. cc),
)
Step-IsKept {s} ps (wipe i p e good o) lk x = (ps, wipe-IsKept s ps i p x e good o)
Step-IsKept {s} ps (write i p m e good o same) lk x = (ps, write-IsKept s ps i p m x e good o same)
Step-IsKept {s} ps (take_lock_back i p e u) lk x = (
  ps,
  moved-IsKept s ps i (after_xchg (xchg s.lock 1).0 (returns p) (links p)) (xchg s.lock 1).1 x
      (λ r q. absurd (ground arith)) (λ q h. ground arith) (λ q h. ground arith),
)
Step-IsKept {s} ps (link i p e) lk x = (ps, link-IsKept s ps i p lk x e)
Step-IsKept {s} ps (put i p e) lk x = (p ∷ ps, put-IsKept s ps i p lk x e)
Step-IsKept {s} ps (finish_give i e u) lk x = (
  ps,
  moved-IsKept s ps i idle (record s.lock { locked = 0 }) x (λ r q. cc) (λ q h. cc) (λ q h. cc),
)
Step-IsKept {s} ps (pass_by i e u) lk x = absurd (lk.in_use u)
Step-IsKept {s} ps (leave i r e u) lk x = absurd (lk.in_use u)
Step-IsKept {s} ps (pass_by_back i p e u) lk x = absurd (lk.in_use u)
Step-IsKept {s} ps (leave_back i e u) lk x = absurd (lk.in_use u)

Reach-IsKept :
    {s t : Shared} (ps : List ℕ)
    → IsLocked s
    → IsKept s ps
    → Reach s t
    → IsLocked t × (qs : List ℕ) × IsKept t qs
Reach-IsKept ps lk x here = (lk, ps, x)
Reach-IsKept ps lk x (next r st) =
    let (lk1, qs, y) = Reach-IsKept ps lk x r in
    let (rs, z) = Step-IsKept qs st lk1 y in (Step-IsLocked st lk1, rs, z)

-- All processors outside, the lock initialised, and a list of pages that are nobody's.
abbrev pub at_start : ℕ → Lock → Memory → ℕ → (ℕ → Option ℕ) → Shared
at_start use_lock lk mem freelist owner = record {
  use_lock = use_lock;
  lock = initlock lk.name lk;
  mem = mem;
  freelist = freelist;
  pc = λ _. idle;
  owner = owner;
}

-- With `use_lock` set, however any number of processors interleave their calls of `kalloc` and `kfree`, when the list holds
-- distinct pages at first that are nobody's, and processors give back their own pages only: at any moment the list still
-- holds distinct pages that are nobody's, and a page that `kalloc` is about to hand out is nobody's, so that it is never
-- given to two processors. (kinit1 clears `use_lock`, and nothing in the kernel sets it.)
pub kalloc-exclusive :
    (use_lock : ℕ) (lk : Lock) (mem : Memory) (freelist : ℕ) (owner : ℕ → Option ℕ) (ps : List ℕ)
    {t : Shared} (i r : ℕ)
    → use_lock ≢ 0
    → FreeList mem freelist ps
    → Unowned owner ps
    → Reach (at_start use_lock lk mem freelist owner) t
    → t.pc i ≡ saw r
    → r ≢ 0
    → (t.owner r ≡ none) × (qs : List ℕ) × FreeList t.mem t.freelist qs × Unowned t.owner qs
kalloc-exclusive use_lock lk mem freelist owner ps {t} i r in_use list free reach at ne =
    let start : Shared = at_start use_lock lk mem freelist owner in
    let outside : IsLocked start = record {
      in_use = in_use;
      held = λ k q. cc;
      alone = λ k l q u. cc;
    } in
    let kept : IsKept start ps = record {
      chain = list;
      unowned = free;
      seen = λ k q e. cc;
      owned = λ k q e. cc;
      next_set = λ k q e. cc;
    } in
    let (lk1, qs, x) = Reach-IsKept ps outside kept reach in
    ((unlink-IsKept t qs i r lk1 x at ne).0, qs, x.chain, x.unowned)
