-- ===== src/Memory.antt =====
-- The byte memory of the machine, and the memory routines of system.c.
-- An address is a number; the program's own address arithmetic wraps where it is written.
pub mod Frame
pub mod Copying
use tinu_os.Prelude.{
  ℕ, zero, suc, ◌+◌, ◌*◌, ◌/◌, ◌^◌, Bool, ◌&&◌, ltb, leb, ◌==◌, if◌then◌else◌, u8,
}

abbrev pub Memory : Type 0
Memory = ℕ → ℕ

unfoldable pub store8 : Memory → ℕ → ℕ → Memory
store8 m a v x = if x == a then u8 v else m x

-- A `u32` lies in four bytes, the lowest first.
unfoldable pub load32 : Memory → ℕ → ℕ
load32 m a = m a + m (a + 1) * 2 ^ 8 + m (a + 2) * 2 ^ 16 + m (a + 3) * 2 ^ 24

unfoldable pub store32 : Memory → ℕ → ℕ → Memory
unfolding store8
store32 m a v =
    store8 (store8 (store8 (store8 m a v) (a + 1) (v / 2 ^ 8)) (a + 2) (v / 2 ^ 16)) (a + 3)
      (v / 2 ^ 24)

-- `cld; rep stosb`: `count` stores of the low byte of `val`, upwards.
unfoldable pub memset : Memory → ℕ → ℕ → ℕ → Memory
memset m b val zero = m
memset m b val (suc count) = memset (store8 m b val) (b + 1) val count

-- `cld; rep movsb`.
unfoldable pub memcpy : Memory → ℕ → ℕ → ℕ → Memory
memcpy m dest src zero = m
memcpy m dest src (suc n) = memcpy (store8 m dest (m src)) (dest + 1) (src + 1) n

abbrev pub within : ℕ → ℕ → ℕ → Bool
within a n x = leb a x && ltb x (a + n)
