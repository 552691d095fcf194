-- ===== src/Heap/Chain.antt =====
-- What the chain of headers of mmu/umalloc.c stands for, and what a write to one header leaves alone.
use tinu_os.Prelude.{ℕ, ◌+◌, ◌*◌, ◌/◌, ◌%◌, ◌^◌, ◌≤◌, ◌<◌, ◌≡◌, ◌⊎◌, List, [], ◌∷◌, arith, u32}
use tinu_os.Memory.{Memory, load32}
use tinu_os.Memory.Frame.{load32-store32_self, load32-store32_ne}
use tinu_os.Heap.{
  header_size, heap_magic, size, next, magic, is_hole, set_size, set_next, set_magic, set_is_hole,
}

-- A block: where its header lies, the size in it, and whether it is used.
pub record Block : Type 0 where
  pub addr : ℕ
  pub bytes : ℕ
  pub used : ℕ

-- Two headers that share no byte.
abbrev pub Apart : ℕ → ℕ → Type 0
Apart a b = (a + header_size ≤ b) ⊎ (b + header_size ≤ a)

abbrev pub AllApart : ℕ → List Block → Type 0
AllApart a [] = Unit
AllApart a (b ∷ bs) = Apart a b.addr × AllApart a bs

-- The header at `b.addr` says what `b` says.
pub record Describes (m : Memory) (b : Block) : Type 0 where
  pub positive : 0 < b.addr
  pub small : b.addr + header_size ≤ 2 ^ 32
  pub bytes : size m b.addr ≡ b.bytes
  pub used : is_hole m b.addr ≡ b.used
  pub sealed : magic m b.addr ≡ heap_magic

-- From `p` the `next` fields lead through the blocks `bs` to NULL.
abbrev pub Chain : Memory → ℕ → List Block → Type 0
Chain m p [] = p ≡ 0
Chain m p (b ∷ bs) = (p ≡ b.addr) × Describes m b × AllApart b.addr bs × Chain m (next m b.addr) bs

-- `m'` differs from `m` at most in the header at `a`.
abbrev pub SameOff : ℕ → Memory → Memory → Type 0
SameOff a m m' = (x : ℕ) → (a + header_size ≤ x) ⊎ (x + 4 ≤ a) → load32 m' x ≡ load32 m x

-- The four words of the header at `a` are the same.
abbrev pub SameHeader : ℕ → Memory → Memory → Type 0
SameHeader a m m' =
    (load32 m' a ≡ load32 m a)
    × (load32 m' (a + 4) ≡ load32 m (a + 4))
    × (load32 m' (a + 8) ≡ load32 m (a + 8))
    × (load32 m' (a + 12) ≡ load32 m (a + 12))

pub SameOff-SameHeader : (a b : ℕ) (m m' : Memory) → SameOff a m m' → Apart a b → SameHeader b m m'
SameOff-SameHeader a b m m' same apart = (
  same b (omega arith),
  same (b + 4) (omega arith),
  same (b + 8) (omega arith),
  same (b + 12) (omega arith),
)

pub Describes-same :
    (m m' : Memory) (b : Block) → SameHeader b.addr m m' → Describes m b → Describes m' b
unfolding size is_hole magic
Describes-same m m' b same d = ground arith

pub next-same : (m m' : Memory) (a : ℕ) → SameHeader a m m' → next m' a ≡ next m a
unfolding next
next-same m m' a same = same.1

pub Chain-frame :
    (a : ℕ) (m m' : Memory) (p : ℕ) (bs : List Block)
    → SameOff a m m'
    → AllApart a bs
    → Chain m p bs
    → Chain m' p bs
Chain-frame a m m' p [] same apart c = c
Chain-frame a m m' p (b ∷ bs) same apart c = (
  c.0,
  Describes-same m m' b (SameOff-SameHeader a b.addr m m' same apart.0) c.1,
  c.2,
  Chain-frame a m m' (next m' b.addr) bs same apart.1
      (rw (next-same m m' b.addr (SameOff-SameHeader a b.addr m m' same apart.0)) c.3),
)

-- What the four writes leave alone, and what they are read back as.
pub set_size-SameOff : (m : Memory) (a v : ℕ) → SameOff a m (set_size m a v)
unfolding set_size
set_size-SameOff m a v x h = load32-store32_ne m a x v (omega arith)

pub set_next-SameOff : (m : Memory) (a v : ℕ) → SameOff a m (set_next m a v)
unfolding set_next
set_next-SameOff m a v x h = load32-store32_ne m (a + 4) x v (omega arith)

pub set_is_hole-SameOff : (m : Memory) (a v : ℕ) → SameOff a m (set_is_hole m a v)
unfolding set_is_hole
set_is_hole-SameOff m a v x h = load32-store32_ne m (a + 12) x _ (omega arith)

pub set_size-fields :
    (m : Memory) (a v : ℕ)
    → (size (set_size m a v) a ≡ u32 v)
      × (next (set_size m a v) a ≡ next m a)
      × (magic (set_size m a v) a ≡ magic m a)
      × (is_hole (set_size m a v) a ≡ is_hole m a)
unfolding set_size size next magic is_hole
set_size-fields m a v = (
  load32-store32_self m a v,
  load32-store32_ne m a (a + 4) v (omega arith),
  load32-store32_ne m a (a + 8) v (omega arith),
  rw (load32-store32_ne m a (a + 12) v (omega arith)),
)

pub set_next-fields :
    (m : Memory) (a v : ℕ)
    → (size (set_next m a v) a ≡ size m a)
      × (next (set_next m a v) a ≡ u32 v)
      × (magic (set_next m a v) a ≡ magic m a)
      × (is_hole (set_next m a v) a ≡ is_hole m a)
unfolding set_next size next magic is_hole
set_next-fields m a v = (
  load32-store32_ne m (a + 4) a v (omega arith),
  load32-store32_self m (a + 4) v,
  load32-store32_ne m (a + 4) (a + 8) v (omega arith),
  rw (load32-store32_ne m (a + 4) (a + 12) v (omega arith)),
)

pub set_is_hole-fields :
    (m : Memory) (a v : ℕ)
    → (size (set_is_hole m a v) a ≡ size m a)
      × (next (set_is_hole m a v) a ≡ next m a)
      × (magic (set_is_hole m a v) a ≡ magic m a)
      × (is_hole (set_is_hole m a v) a ≡ v % 2)
unfolding set_is_hole size next magic is_hole
set_is_hole-fields m a v =
    let w : ℕ = load32 m (a + 12) / 2 * 2 + v % 2 in
    (
      load32-store32_ne m (a + 12) a w (omega arith),
      load32-store32_ne m (a + 12) (a + 4) w (omega arith),
      load32-store32_ne m (a + 12) (a + 8) w (omega arith),
      omega (arith, load32-store32_self m (a + 12) w),
    )

pub Chain-eq : (m : Memory) {p p' : ℕ} (bs : List Block) → p' ≡ p → Chain m p bs → Chain m p' bs
Chain-eq m bs e c = rw e c

pub start-lt : (m : Memory) (p : ℕ) (bs : List Block) → Chain m p bs → p < 2 ^ 32
start-lt m p [] c = omega arith
start-lt m p (b ∷ bs) c = omega arith

pub set_magic-SameOff : (m : Memory) (a v : ℕ) → SameOff a m (set_magic m a v)
unfolding set_magic
set_magic-SameOff m a v x h = load32-store32_ne m (a + 8) x v (omega arith)

pub set_magic-fields :
    (m : Memory) (a v : ℕ)
    → (size (set_magic m a v) a ≡ size m a)
      × (next (set_magic m a v) a ≡ next m a)
      × (magic (set_magic m a v) a ≡ u32 v)
      × (is_hole (set_magic m a v) a ≡ is_hole m a)
unfolding set_magic size next magic is_hole
set_magic-fields m a v = (
  load32-store32_ne m (a + 8) a v (omega arith),
  load32-store32_ne m (a + 8) (a + 4) v (omega arith),
  load32-store32_self m (a + 8) v,
  rw (load32-store32_ne m (a + 8) (a + 12) v (omega arith)),
)

pub Chain-eq_mem :
    {m m' : Memory} {p p' : ℕ} (bs : List Block) → m' ≡ m → p' ≡ p → Chain m p bs → Chain m' p' bs
Chain-eq_mem bs e f c = rw (e, f) c
