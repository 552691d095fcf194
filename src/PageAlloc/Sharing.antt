-- ===== src/PageAlloc/Sharing.antt =====
-- mmu/kmalloc.c on several processors: `kalloc` and `kfree` interleaved at their accesses to the lock, the list and the
-- pages. The lock is taken and given back only if `use_lock` is set.
pub mod Locked
pub mod Pages
pub mod Kept
pub mod Exclusive
pub mod Unlocked
use tinu_os.Prelude.{
  ℕ, ◌+◌, ◌≤◌, ◌<◌, ◌≡◌, ◌≢◌, ◌⊎◌, Bool, true, false, Option, none, some, ◌==◌, if◌then◌else◌,
}
use tinu_os.Memory.{Memory, load32, store32, memset}
use tinu_os.Layout.{page_size}
use tinu_os.Spinlock.{Lock, xchg, initlock}
use tinu_os.PageAlloc.FreeList.{IsPage}

-- Where a processor stands. `wants`, `looks`, `saw` and `took` are in `kalloc`: in `acquire`, before `r = kmem.freelist`, before
-- the list is changed, and before `release`. `returns`, `links`, `linked` and `gave` are in `kfree`: in `acquire`, before
-- `r->next` is written, before `kmem.freelist` is, and before `release`.
pub data Pc : Type 0 where
  idle wants looks gave : Pc
  saw took returns links linked : ℕ → Pc

-- The members of `kmem`, the memory, where the processors stand, and whose a page is: `owner p` is none for a page that
-- is nobody's.
pub record Shared : Type 0 where
  pub lock : Lock
  pub use_lock : ℕ
  pub mem : Memory
  pub freelist : ℕ
  pub pc : ℕ → Pc
  pub owner : ℕ → Option ℕ

abbrev pub move : (ℕ → Pc) → ℕ → Pc → ℕ → Pc
move f i p j = if j == i then p else f j

abbrev pub assign : (ℕ → Option ℕ) → ℕ → Option ℕ → ℕ → Option ℕ
assign f p o q = if q == p then o else f q

abbrev pub after_xchg : ℕ → Pc → Pc → Pc
after_xchg old in_loop behind = if old == 0 then behind else in_loop

-- The accesses of the processors. `pass_by`, `pass_by_back`, `leave` and `leave_back` are the four `if (kmem.use_lock)`
-- when it is not set. One that is in no call writes to pages of its own, and gives back only such pages. The
-- messages of the code, and the interrupts that `acquire` turns off, are left out.
pub data Step (s : Shared) : Shared → Type 0 where
  ask : (i : ℕ) → s.pc i ≡ idle → Step s (record s { pc = move s.pc i wants })
  take_lock :
      (i : ℕ)
      → s.pc i ≡ wants
      → s.use_lock ≢ 0
      → Step s (record s {
        lock = (xchg s.lock 1).1;
        pc = move s.pc i (after_xchg (xchg s.lock 1).0 wants looks);
      })
  pass_by : (i : ℕ) → s.pc i ≡ wants → s.use_lock ≡ 0 → Step s (record s { pc = move s.pc i looks })
  look : (i : ℕ) → s.pc i ≡ looks → Step s (record s { pc = move s.pc i (saw s.freelist) })
  find_none : (i : ℕ) → s.pc i ≡ saw 0 → Step s (record s { pc = move s.pc i (took 0) })
  unlink :
      (i r : ℕ)
      → s.pc i ≡ saw r
      → r ≢ 0
      → Step s (record s {
        freelist = load32 s.mem r;
        pc = move s.pc i (took r);
        owner = assign s.owner r (some i);
      })
  finish_take :
      (i r : ℕ)
      → s.pc i ≡ took r
      → s.use_lock ≢ 0
      → Step s (record s { lock = record s.lock { locked = 0 }; pc = move s.pc i idle })
  leave : (i r : ℕ) → s.pc i ≡ took r → s.use_lock ≡ 0 → Step s (record s { pc = move s.pc i idle })
  wipe :
      (i p : ℕ)
      → s.pc i ≡ idle
      → IsPage p
      → s.owner p ≡ some i
      → Step s (record s { mem = memset s.mem p 1 page_size; pc = move s.pc i (returns p) })
  write :
      (i p : ℕ) (mem' : Memory)
      → s.pc i ≡ idle
      → IsPage p
      → s.owner p ≡ some i
      → ((x : ℕ) → (x < p) ⊎ (p + page_size ≤ x) → mem' x ≡ s.mem x)
      → Step s (record s { mem = mem' })
  take_lock_back :
      (i p : ℕ)
      → s.pc i ≡ returns p
      → s.use_lock ≢ 0
      → Step s (record s {
        lock = (xchg s.lock 1).1;
        pc = move s.pc i (after_xchg (xchg s.lock 1).0 (returns p) (links p));
      })
  pass_by_back :
      (i p : ℕ)
      → s.pc i ≡ returns p
      → s.use_lock ≡ 0
      → Step s (record s { pc = move s.pc i (links p) })
  link :
      (i p : ℕ)
      → s.pc i ≡ links p
      → Step s (record s { mem = store32 s.mem p s.freelist; pc = move s.pc i (linked p) })
  put :
      (i p : ℕ)
      → s.pc i ≡ linked p
      → Step s (record s { freelist = p; pc = move s.pc i gave; owner = assign s.owner p none })
  finish_give :
      (i : ℕ)
      → s.pc i ≡ gave
      → s.use_lock ≢ 0
      → Step s (record s { lock = record s.lock { locked = 0 }; pc = move s.pc i idle })
  leave_back :
      (i : ℕ) → s.pc i ≡ gave → s.use_lock ≡ 0 → Step s (record s { pc = move s.pc i idle })

pub data Reach (s : Shared) : Shared → Type 0 where
  here : Reach s s
  next : {t u : Shared} → Reach s t → Step t u → Reach s u

-- Between `acquire` and `release`.
abbrev pub is_inside : Pc → Bool
is_inside idle = false
is_inside wants = false
is_inside (returns p) = false
is_inside looks = true
is_inside gave = true
is_inside (saw r) = true
is_inside (took r) = true
is_inside (links p) = true
is_inside (linked p) = true

-- The page that a call of `kfree` is about.
abbrev pub page_of : Pc → Option ℕ
page_of (returns p) = some p
page_of (links p) = some p
page_of (linked p) = some p
page_of idle = none
page_of wants = none
page_of looks = none
page_of gave = none
page_of (saw r) = none
page_of (took r) = none
