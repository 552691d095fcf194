-- ===== src/Tests/Heaps.antt =====
-- Runs of `malloc` and `free` on small heaps.
use tinu_os.Prelude.{
  ℕ, ◌+◌, ◌^◌, ◌≤◌, ◌<◌, ◌≡◌, refl, ◌≢◌, inl, inr, some, List, [], ◌∷◌, arith, u32,
}
use tinu_os.Memory.{Memory, load32, store32, store8}
use tinu_os.Heap.{
  Heap, heap_magic, size, next, magic, is_hole, set_size, set_next, set_magic, set_is_hole,
  max_heap,
}
use tinu_os.Heap.{malloc, free, next_power_of_two}
use tinu_os.Heap.{text, hex}
use tinu_os.Heap.Chain.{Block, Chain}
use tinu_os.Heap.Merge.{NoneAdjacent, in_use, total}
use tinu_os.Heap.Break.{IsBounded}
use tinu_os.Heap.Release.{user_pointer, free-NoneAdjacent}
use tinu_os.Heap.Grow.{total_size, Grown, malloc-Grown, free-malloc_lost}
use tinu_os.Heap.Carve.{HasRoom}
use tinu_os.Heap.Power.{next_power_of_two-least}
use tinu_os.Tests.Floats.{count, power_bits, power_bits-IsFloatConversion}

abbrev pub header : ℕ → ℕ → ℕ → ℕ → Memory → Memory
header a bytes onward used m =
    set_is_hole (set_magic (set_next (set_size m a bytes) a onward) a heap_magic) a used

abbrev pub block : ℕ → ℕ → ℕ → Block
block a bytes used = record { addr = a; bytes = bytes; used = used }

abbrev pub heap_on : Memory → ℕ → Heap
heap_on m brk = record {
  mem = m;
  heap = 4096;
  heap_bottom = 4096;
  heap_top = 504096;
  g_kbrk = brk;
  log = [];
}

abbrev empty_heap : Heap
empty_heap = record {
  mem = λ _. 0;
  heap = 4096;
  heap_bottom = 0;
  heap_top = 0;
  g_kbrk = 0;
  log = [];
}

empty_heap-IsBounded : IsBounded empty_heap
empty_heap-IsBounded = record { placed = omega arith; fits = omega arith; unset_or_set = inl refl }

-- A free block, a used one and a free one.
abbrev three_blocks : List Block
three_blocks = block 4096 256 0 ∷ block 4368 100 1 ∷ block 4484 50 0 ∷ []

abbrev three_headers : Memory
three_headers = header 4096 256 4368 0 (header 4368 100 4484 1 (header 4484 50 0 0 (λ _. 0)))

three_headers-Chain : Chain three_headers 4096 three_blocks
unfolding set_size set_next set_magic set_is_hole size next magic is_hole load32 store32 store8
three_headers-Chain = (
  refl,
  record { positive = omega arith; small = omega arith; bytes = refl; used = refl; sealed = refl },
  (inl (omega arith), (inl (omega arith), tt)),
  (
    refl,
    record {
      positive = omega arith;
      small = omega arith;
      bytes = refl;
      used = refl;
      sealed = refl;
    },
    (inl (omega arith), tt),
    (
      refl,
      record {
        positive = omega arith;
        small = omega arith;
        bytes = refl;
        used = refl;
        sealed = refl;
      },
      tt,
      refl,
    ),
  ),
)

-- A single used block, without and with a header elsewhere.
abbrev one_used : List Block
one_used = block 4096 256 1 ∷ []

abbrev one_header : Memory
one_header = header 4096 256 0 1 (λ _. 0)

abbrev stray_header : Memory
stray_header = header 8192 100 0 1 one_header

one_header-Chain : Chain one_header 4096 one_used
unfolding set_size set_next set_magic set_is_hole size next magic is_hole load32 store32 store8
one_header-Chain = (
  refl,
  record { positive = omega arith; small = omega arith; bytes = refl; used = refl; sealed = refl },
  tt,
  refl,
)

stray_header-Chain : Chain stray_header 4096 one_used
unfolding set_size set_next set_magic set_is_hole size next magic is_hole load32 store32 store8
stray_header-Chain = (
  refl,
  record { positive = omega arith; small = omega arith; bytes = refl; used = refl; sealed = refl },
  tt,
  refl,
)

stray_header-sealed : magic stray_header 8192 ≡ heap_magic
unfolding set_size set_next set_magic set_is_hole magic load32 store32 store8
stray_header-sealed = refl

one_header_bad : magic one_header 5984 ≢ heap_magic
unfolding set_size set_next set_magic set_is_hole magic load32 store32 store8
one_header_bad = omega arith

one_header-IsBounded : IsBounded (heap_on one_header 4368)
one_header-IsBounded = record {
  placed = omega arith;
  fits = omega arith;
  unset_or_set = inr (refl, refl, omega arith, omega arith);
}

one_header-room : 4368 + total_size power_bits 100 < 4096 + max_heap
unfolding next_power_of_two count
one_header-room = omega arith

three_headers-HasRoom :
    HasRoom
      (total_size power_bits 32)
      []
      (block 4096 256 0)
      (block 4368 100 1 ∷ block 4484 50 0 ∷ [])
unfolding next_power_of_two count
three_headers-HasRoom = record {
  apart = (inr (omega arith), (inl (omega arith), (inl (omega arith), tt)));
  in_space = omega arith;
  enough = omega arith;
  word = omega arith;
}

free-NoneAdjacent_example :
    (m' : Memory) × (bs' : List Block) × (free 4 (user_pointer 4368) (heap_on three_headers 4550)
      ≡ some (record (heap_on three_headers 4550) { mem = m' }))
    × Chain m' 4096 bs'
    × NoneAdjacent bs'
    × (in_use bs' ≡ [])
    × (u32 (total bs') ≡ u32 (total three_blocks))
free-NoneAdjacent_example =
    free-NoneAdjacent 4 4368 (heap_on three_headers 4550) three_blocks (omega arith)
      three_headers-Chain refl

next_power_of_two-least_example :
    (k : ℕ) × (next_power_of_two power_bits 100 ≡ 2 ^ k) × (100 ≤ 2 ^ k) × (2 ^ k < 200)
next_power_of_two-least_example =
    next_power_of_two-least power_bits power_bits-IsFloatConversion 100 (omega arith) (omega arith)

malloc-Grown_example :
    (h' : Heap) × (malloc power_bits 2 100 (heap_on one_header 4368) ≡ some (user_pointer 4368, h'))
    × Grown (heap_on one_header 4368) 100 one_used h'
malloc-Grown_example =
    malloc-Grown power_bits 2 100 (heap_on one_header 4368) (block 4096 256 1) []
      power_bits-IsFloatConversion one_header-IsBounded (omega arith) one_header-Chain (refl, tt)
      (omega arith, tt) (omega arith) (omega arith) one_header-room

free-malloc_lost_example :
    (p : ℕ) × (h' h'' : Heap) × (malloc power_bits 2 100 (heap_on one_header 4368) ≡ some (p, h'))
    × (free 2 p h' ≡ some h'')
    × (h''.mem ≡ h'.mem)
    × (h''.log
        ≡ text " which does not exist!\n" ∷ hex p ∷ text "Tried to free the memory at 0x" ∷ h'.log)
free-malloc_lost_example =
    free-malloc_lost power_bits 2 100 (heap_on one_header 4368) (block 4096 256 1) []
      power_bits-IsFloatConversion one_header-IsBounded (omega arith) one_header-Chain (refl, tt)
      (omega arith, tt) (omega arith) (omega arith) one_header-room
