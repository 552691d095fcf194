-- ===== src/Memory/Frame.antt =====
-- What a load sees after a store and after `memset`.
use tinu_os.Prelude.{ℕ, zero, suc, ◌+◌, ◌≤◌, ◌<◌, ◌≡◌, ◌⊎◌, arith, if◌then◌else◌, u8, u32}
use tinu_os.Memory.{Memory, store8, load32, store32, memset, within}

pub load32-store32_self : (m : Memory) (a v : ℕ) → load32 (store32 m a v) a ≡ u32 v
unfolding load32 store32
load32-store32_self m a v = ground arith

pub load32-store32_ne :
    (m : Memory) (a b v : ℕ) → (a + 4 ≤ b) ⊎ (b + 4 ≤ a) → load32 (store32 m a v) b ≡ load32 m b
unfolding load32 store32
load32-store32_ne m a b v h = ground arith

pub store32_ne : (m : Memory) (a x v : ℕ) → (a + 4 ≤ x) ⊎ (x < a) → store32 m a v x ≡ m x
unfolding store32
store32_ne m a x v h = ground arith

-- `memset` writes the byte at each address of its range and nowhere else.
pub memset_lem :
    (m : Memory) (b val n x : ℕ) → memset m b val n x ≡ (if within b n x then u8 val else m x)
unfolding memset store8
memset_lem m b val zero x = ground arith
memset_lem m b val (suc n) x = ground (arith, memset_lem (store8 m b val) (b + 1) val n x)

pub load32-memset_ne :
    (m : Memory) (b val n a : ℕ)
    → (b + n ≤ a) ⊎ (a + 4 ≤ b)
    → load32 (memset m b val n) a ≡ load32 m a
unfolding load32
load32-memset_ne m b val n a h = ground (
  arith,
  memset_lem m b val n a,
  memset_lem m b val n (a + 1),
  memset_lem m b val n (a + 2),
  memset_lem m b val n (a + 3),
)

pub load32-memset_zero :
    (m : Memory) (b n a : ℕ) → b ≤ a → a + 4 ≤ b + n → load32 (memset m b 0 n) a ≡ 0
unfolding load32
load32-memset_zero m b n a p q = ground (
  arith,
  memset_lem m b 0 n a,
  memset_lem m b 0 n (a + 1),
  memset_lem m b 0 n (a + 2),
  memset_lem m b 0 n (a + 3),
)
