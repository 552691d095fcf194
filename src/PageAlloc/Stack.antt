-- ===== src/PageAlloc/Stack.antt =====
-- `kfree` and `kalloc` of mmu/kmalloc.c as the two ends of a stack of pages.
use tinu_os.Prelude.{
  ℕ, suc, ◌^◌, ◌≤◌, ◌<◌, ◌≡◌, refl, ◌≢◌, ◌⊎◌, inl, inr, false, none, some, List, [], ◌∷◌, arith,
  leb, ◌==◌, if◌then◌else◌, Bool-cases,
}
use tinu_os.Layout.{v2p, phystop, page_size, kernbase}
use tinu_os.Memory.{load32, store32, memset}
use tinu_os.Spinlock.{release}
use tinu_os.Spinlock.Acquire.{acquire-free, acquire-held}
use tinu_os.PageAlloc.{Kmem, enter, leave, warn, wiped, pushed, kfree, kalloc}
use tinu_os.PageAlloc.FreeList.{
  IsPage, Fresh, FreeList, linked, FreeList-cons, FreeList-eq, head-lt,
}

-- The lock is not used, or nobody holds it.
abbrev pub IsAvailable : Kmem → Type 0
IsAvailable k = (k.use_lock ≡ 0) ⊎ (k.lock.locked ≡ 0)

-- `k'` differs from `k` at most in the lock and the processor, and its lock can be taken.
pub record SameHeap (k k' : Kmem) : Type 0 where
  pub mem : k'.mem ≡ k.mem
  pub freelist : k'.freelist ≡ k.freelist
  pub use_lock : k'.use_lock ≡ k.use_lock

enter_lem :
    (fuel : ℕ) (k : Kmem)
    → IsAvailable k
    → (k' : Kmem) × (enter (suc fuel) k ≡ some k') × SameHeap k k'
unfolding enter
enter_lem fuel k free = elim (Bool-cases (k.use_lock == 0)) [
  | inl off ↦ (k, ground arith, record { mem = refl; freelist = refl; use_lock = refl })
  | inr on ↦ (
    record k { lock = record k.lock { locked = 1 }; cpu = record k.cpu { interrupts = false } },
    ground (arith, acquire-free fuel k.lock k.cpu),
    record { mem = refl; freelist = refl; use_lock = refl },
  )
]

leave-SameHeap : (k : Kmem) → SameHeap k (leave k)
unfolding leave
leave-SameHeap k = ground arith

leave-IsAvailable : (k : Kmem) → IsAvailable (leave k)
unfolding leave release
leave-IsAvailable k = ground arith

-- The outcome of giving the page `p` back.
pub record Freed (p : ℕ) (k k' : Kmem) : Type 0 where
  pub mem : k'.mem ≡ linked k.mem p k.freelist
  pub freelist : k'.freelist ≡ p
  pub use_lock : k'.use_lock ≡ k.use_lock
  pub available : IsAvailable k'

wiped_lem :
    (p : ℕ) (k : Kmem)
    → ((wiped p k).mem ≡ memset k.mem p 1 page_size)
      × ((wiped p k).freelist ≡ k.freelist)
      × ((wiped p k).use_lock ≡ k.use_lock)
      × ((wiped p k).lock ≡ k.lock)
unfolding wiped warn
wiped_lem p k = ground arith

wiped-IsAvailable : (p : ℕ) (k : Kmem) → IsAvailable k → IsAvailable (wiped p k)
wiped-IsAvailable p k free = ground (arith, wiped_lem p k)

pushed_lem :
    (p : ℕ) (k : Kmem)
    → ((pushed p k).mem ≡ store32 k.mem p k.freelist)
      × ((pushed p k).freelist ≡ p)
      × ((pushed p k).use_lock ≡ k.use_lock)
unfolding pushed leave
pushed_lem p k = ground arith

pushed-IsAvailable : (p : ℕ) (k : Kmem) → IsAvailable (pushed p k)
unfolding pushed
pushed-IsAvailable p k =
    leave-IsAvailable (record k { mem = store32 k.mem p k.freelist; freelist = p })

kfree-after : (p : ℕ) (k j : Kmem) → SameHeap (wiped p k) j → Freed p k (pushed p j)
kfree-after p k j same = record {
  mem = ground (arith, wiped_lem p k, pushed_lem p j);
  freelist = ground (arith, pushed_lem p j);
  use_lock = ground (arith, wiped_lem p k, pushed_lem p j);
  available = pushed-IsAvailable p j;
}

pub kfree-Freed :
    (fuel p : ℕ) (k : Kmem)
    → IsAvailable k
    → (k' : Kmem) × (kfree (suc fuel) p k ≡ some k') × Freed p k k'
unfolding kfree
kfree-Freed fuel p k free =
    let (j, entered, same) = enter_lem fuel (wiped p k) (wiped-IsAvailable p k free) in
    (pushed p j, rw entered, kfree-after p k j same)

-- The free list stands for the pages `ps`, and its lock can be taken.
pub record IsStack (k : Kmem) (ps : List ℕ) : Type 0 where
  pub chain : FreeList k.mem k.freelist ps
  pub available : IsAvailable k

-- With its lock available and fuel for one round, `kfree` of a page that is not on the free list
-- returns, and puts that page in front of the others.
pub kfree-push :
    (fuel p : ℕ) (k : Kmem) (ps : List ℕ)
    → IsStack k ps
    → IsPage p
    → Fresh p ps
    → (k' : Kmem) × (kfree (suc fuel) p k ≡ some k') × IsStack k' (p ∷ ps)
kfree-push fuel p k ps st hp fresh =
    let (k', e, f) = kfree-Freed fuel p k st.available in
    let chain =
      FreeList-cons k.mem p k.freelist ps hp (head-lt k.mem k.freelist ps st.chain) fresh
        st.chain in
    (k', e, record { chain = FreeList-eq (p ∷ ps) f.mem f.freelist chain; available = f.available })

kalloc_lem :
    (fuel : ℕ) (k : Kmem)
    → IsAvailable k
    → (k' : Kmem) × (kalloc (suc fuel) k ≡ some (k.freelist, k'))
      × (k'.mem ≡ k.mem)
      × (k'.freelist ≡ (if k.freelist == 0 then k.freelist else load32 k.mem k.freelist))
      × IsAvailable k'
unfolding kalloc
kalloc_lem fuel k free =
    let (j, entered, same) = enter_lem fuel k free in
    let popped : Kmem =
      if j.freelist == 0 then j else record j { freelist = load32 j.mem j.freelist } in
    let kept = leave-SameHeap popped in
    (
      leave popped,
      ground (arith, entered, same),
      ground (arith, same, kept),
      ground (arith, same, kept),
      leave-IsAvailable popped,
    )

-- With its lock available and fuel for one round, `kalloc` returns the page in front of the free list
-- and takes it off; memory is as it was.
pub kalloc-pop :
    (fuel p : ℕ) (k : Kmem) (ps : List ℕ)
    → IsStack k (p ∷ ps)
    → (k' : Kmem) × (kalloc (suc fuel) k ≡ some (p, k')) × IsStack k' ps × (k'.mem ≡ k.mem)
kalloc-pop fuel p k ps st =
    let (k', e, m, f, a) = kalloc_lem fuel k st.available in
    let c = st.chain in
    (
      k',
      rw e (ground arith),
      record { chain = FreeList-eq ps m (ground arith) c.3; available = a },
      m,
    )

-- With its lock available, fuel for one round and no page left, `kalloc` returns NULL, and the free
-- list stays empty.
pub kalloc_empty :
    (fuel : ℕ) (k : Kmem)
    → IsStack k []
    → (k' : Kmem) × (kalloc (suc fuel) k ≡ some (0, k')) × IsStack k' [] × (k'.mem ≡ k.mem)
kalloc_empty fuel k st =
    let (k', e, m, f, a) = kalloc_lem fuel k st.available in
    (k', rw e (ground arith), record { chain = ground arith; available = a }, m)

-- If the lock is in use and held, and nobody else releases it, neither `kfree` nor `kalloc` ever
-- returns.
pub held_lock_blocks :
    (fuel p : ℕ) (k : Kmem)
    → k.use_lock ≢ 0
    → k.lock.locked ≢ 0
    → (kfree fuel p k ≡ none) × (kalloc fuel k ≡ none)
unfolding kfree kalloc
held_lock_blocks fuel p k used held = (
  rw (blocked (wiped p k) (ground (arith, wiped_lem p k)) (ground (arith, wiped_lem p k))),
  rw (blocked k used held),
)
  where
    blocked : (j : Kmem) → j.use_lock ≢ 0 → j.lock.locked ≢ 0 → enter fuel j ≡ none
    blocked j u h = unfold enter in ground (arith, acquire-held fuel j.lock j.cpu)

-- For an address in the kernel's half, `kfree` prints its warning exactly when the physical address
-- is not below PHYSTOP.
pub warn-phystop :
    (p : ℕ) (k : Kmem)
    → kernbase ≤ p
    → p < 2 ^ 32
    → ((warn p k).cpu.log ≡ (if leb phystop (v2p p) then "kfree" ∷ k.cpu.log else k.cpu.log))
      × ((warn p k).mem ≡ k.mem)
      × ((warn p k).freelist ≡ k.freelist)
unfolding warn
warn-phystop p k lo hi = ground arith
