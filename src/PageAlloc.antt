-- ===== src/PageAlloc.antt =====
-- mmu/kmalloc.c: the allocator of 4096-byte pages, a free list that runs through the free pages.
-- `none` is a call that does not return: its lock was not free within the fuel, or its loop ran out
-- of rounds.
pub mod FreeList
pub mod Stack
pub mod Range
pub mod History
pub mod Sharing
use tinu_os.Prelude.{ℕ, zero, suc, ◌+◌, Option, none, some, leb, ◌==◌, if◌then◌else◌, u32, ◌>>=◌}
use tinu_os.Memory.{Memory, load32, store32, memset}
use tinu_os.Layout.{v2p, phystop, page_size, pgroundup}
use tinu_os.Spinlock.{Lock, Cpu, print, initlock, acquire, release}

-- `kmem`, with the memory and the processor.
pub record Kmem : Type 0 where
  pub mem : Memory
  pub cpu : Cpu
  pub lock : Lock
  pub use_lock : ℕ
  pub freelist : ℕ

-- `if (kmem.use_lock) acquire(&kmem.lock);`
unfoldable pub enter : ℕ → Kmem → Option Kmem
enter fuel k =
    if k.use_lock == 0
    then some k
    else (do (lk, c) ← acquire fuel k.lock k.cpu; some (record k { lock = lk; cpu = c }))

-- `if (kmem.use_lock) release(&kmem.lock);`
unfoldable pub leave : Kmem → Kmem
leave k =
    if k.use_lock == 0
    then k
    else (let (lk, c) = release k.lock k.cpu in record k { lock = lk; cpu = c })

-- `if ((u32)p >= V2P(PHYSTOP)) kprintf("kfree");`
unfoldable pub warn : ℕ → Kmem → Kmem
warn p k = if leb (v2p phystop) (u32 p) then record k { cpu = print "kfree" k.cpu } else k

-- `kfree` up to the lock, and from there on.
unfoldable pub wiped : ℕ → Kmem → Kmem
wiped p k = let k = warn p k in record k { mem = memset k.mem p 1 page_size }

unfoldable pub pushed : ℕ → Kmem → Kmem
pushed p k = leave (record k { mem = store32 k.mem p k.freelist; freelist = p })

unfoldable pub kfree : ℕ → ℕ → Kmem → Option Kmem
kfree fuel p k = do k ← enter fuel (wiped p k); some (pushed p k)

unfoldable pub kalloc : ℕ → Kmem → Option (ℕ × Kmem)
kalloc fuel k = do
  k ← enter fuel k
  let r = k.freelist
  let k = if r == 0 then k else record k { freelist = load32 k.mem r }
  some (r, leave k)

-- `for (; p+PAGE_SIZE <= (char *)vend; p+=PAGE_SIZE) kfree(p);`
unfoldable pub free_pages : ℕ → ℕ → ℕ → ℕ → Kmem → Option Kmem
free_pages fuel zero p vend k = none
free_pages fuel (suc rounds) p vend k =
    let rest = kfree fuel p k >>= free_pages fuel rounds (u32 (p + page_size)) vend in
    if leb (u32 (p + page_size)) vend then rest else some k

unfoldable pub freerange : ℕ → ℕ → ℕ → ℕ → Kmem → Option Kmem
unfolding free_pages
freerange fuel rounds vstart vend k = free_pages fuel rounds (pgroundup vstart) vend k

unfoldable pub kinit1 : ℕ → ℕ → ℕ → ℕ → Kmem → Option Kmem
unfolding freerange
kinit1 fuel rounds vstart vend k =
    freerange fuel rounds vstart vend (record k { lock = initlock "kmem" k.lock; use_lock = 0 })
