-- ===== src/Heap/Split.antt =====
-- `malloc` of mmu/umalloc.c when the chain has a free block: it is cut in two.
use tinu_os.Prelude.{ℕ, ◌+◌, ◌^◌, ◌<◌, ◌≡◌, some, List, [], ◌∷◌, ◌++◌, arith, length, u32}
use tinu_os.Memory.{Memory}
use tinu_os.Heap.{Heap, heap_magic, magic, malloc_found, malloc, split}
use tinu_os.Heap.Chain.{Block, Chain}
use tinu_os.Heap.Release.{user_pointer}
use tinu_os.Heap.Grow.{AllUsed, first_free-append, total_size}
use tinu_os.Heap.Carve.{split-taken, split-Chain, allocated, remainder, HasRoom}

head_of :
    (m : Memory) (p : ℕ) (us : List Block) (b : Block) (bs : List Block)
    → Chain m p (us ++ (b ∷ bs))
    → (0 < p) × (magic m p ≡ heap_magic)
head_of m p [] b bs ch = ground (arith, ch.0, ch.1)
head_of m p (c ∷ us) b bs ch = ground (arith, ch.0, ch.1)

-- When a well-formed chain has a free block and the fuel is above the number of used ones in front of
-- it, `malloc` of at least one byte returns the first one, whatever size it has: no request is too
-- large for it, and the break stays where it was.
pub malloc-first_free :
    (float_bits : ℕ → ℕ) (fuel asked : ℕ) (h : Heap) (us : List Block) (b : Block) (bs : List Block)
    → length us < fuel
    → Chain h.mem h.heap_bottom (us ++ (b ∷ bs))
    → AllUsed us
    → b.used ≡ 0
    → 0 < b.addr
    → 0 < asked
    → malloc float_bits fuel asked h
      ≡ some (
        user_pointer b.addr,
        record h { mem = split h.mem b.addr asked (total_size float_bits asked) },
      )
unfolding malloc malloc_found
malloc-first_free float_bits fuel asked h us b bs enough ch u f pos some_bytes = ground (
  arith,
  head_of h.mem h.heap_bottom us b bs ch,
  first_free-append fuel h.mem h.heap_bottom us b bs enough ch u f,
)

-- When the first free block of a well-formed chain is at least as large as the request, rounded up to
-- a power of two, and a header, and the header of the rest falls on no other header, `malloc` returns
-- that block, with fuel above the number of blocks in front of it. The chain then stands for the old
-- list with the block cut in two: the requested part, used, and the rest, free.
pub malloc-split :
    (float_bits : ℕ → ℕ) (fuel asked : ℕ) (h : Heap) (us : List Block) (b : Block) (bs : List Block)
    → length us < fuel
    → Chain h.mem h.heap_bottom (us ++ (b ∷ bs))
    → AllUsed us
    → b.used ≡ 0
    → 0 < b.addr
    → 0 < asked
    → asked < 2 ^ 32
    → HasRoom (total_size float_bits asked) us b bs
    → (m' : Memory) × (malloc float_bits fuel asked h
        ≡ some (user_pointer b.addr, record h { mem = m' }))
      × Chain m' h.heap_bottom
          (us ++ (allocated b asked ∷ remainder b (total_size float_bits asked) ∷ bs))
malloc-split float_bits fuel asked h us b bs enough ch u f pos some_bytes word r =
    let total : ℕ = total_size float_bits asked in
    let n : u32 (b.addr + total) ≡ b.addr + total = omega (arith, r.in_space) in
    (
      split h.mem b.addr asked total,
      malloc-first_free float_bits fuel asked h us b bs enough ch u f pos some_bytes,
      rw (split-taken h.mem b.addr asked total, n)
          (split-Chain h.mem h.heap_bottom asked total us b bs word ch r),
    )
