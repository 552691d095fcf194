-- ===== src/Tests/Allocations.antt =====
-- Runs of sequences of calls of `malloc` and `free`.
use tinu_os.Prelude.{◌≤◌, ◌≡◌, refl, inl, some, List, [], ◌∷◌, arith}
use tinu_os.Memory.{Memory, load32, store32, store8}
use tinu_os.Heap.{
  size, next, magic, is_hole, set_size, set_next, set_magic, set_is_hole, next_power_of_two,
}
use tinu_os.Heap.Chain.{Block, Chain}
use tinu_os.Heap.Merge.{merge}
use tinu_os.Heap.Release.{mark, user_pointer}
use tinu_os.Heap.Grow.{total_size}
use tinu_os.Heap.Carve.{allocated, remainder}
use tinu_os.Heap.Order.{InOrder}
use tinu_os.Heap.History.{Call, ask, give, run_calls, Serves, served, asked, gave, run_calls-Serves}
use tinu_os.Heap.Leak.{shrunk, malloc-free_shrunk}
use tinu_os.Tests.Floats.{count, power_bits, power_bits-IsFloatConversion}
use tinu_os.Tests.Heaps.{header, block, heap_on}

-- A free block and a used one.
abbrev two_blocks : List Block
two_blocks = block 4096 256 0 ∷ block 4368 100 1 ∷ []

abbrev two_headers : Memory
two_headers = header 4096 256 4368 0 (header 4368 100 0 1 (λ _. 0))

two_headers-Chain : Chain two_headers 4096 two_blocks
unfolding set_size set_next set_magic set_is_hole size next magic is_hole load32 store32 store8
two_headers-Chain = (
  refl,
  record { positive = omega arith; small = omega arith; bytes = refl; used = refl; sealed = refl },
  (inl (omega arith), tt),
  (
    refl,
    record {
      positive = omega arith;
      small = omega arith;
      bytes = refl;
      used = refl;
      sealed = refl;
    },
    tt,
    refl,
  ),
)

enough_room : total_size power_bits 100 ≤ 256
unfolding next_power_of_two count
enough_room = omega arith

-- A request, and then the used block is given back.
abbrev after_request : List Block
after_request =
    allocated (block 4096 256 0) 100
    ∷ remainder (block 4096 256 0) (total_size power_bits 100)
    ∷ block 4368 100 1
    ∷ []

abbrev request_and_release : List Call
request_and_release = ask 100 ∷ give (user_pointer 4368) ∷ []

release-Serves :
    Serves power_bits after_request
      (give (user_pointer 4368) ∷ [])
      []
      (merge (mark 4368 after_request))
unfolding next_power_of_two count
release-Serves = gave 4368 refl served

request-Serves :
    Serves power_bits two_blocks request_and_release
      (user_pointer 4096 ∷ [])
      (merge (mark 4368 after_request))
request-Serves =
    asked [] (block 4096 256 0) (block 4368 100 1 ∷ []) refl tt refl (omega arith) (omega arith)
      enough_room release-Serves

run_calls-Serves_example :
    (m' : Memory) × (run_calls power_bits 5 request_and_release (heap_on two_headers 4484)
      ≡ some (user_pointer 4096 ∷ [], record (heap_on two_headers 4484) { mem = m' }))
    × Chain m' 4096 (merge (mark 4368 after_request))
    × InOrder 4096 4484 (merge (mark 4368 after_request))
run_calls-Serves_example =
    run_calls-Serves power_bits 5 4096 4484 (heap_on two_headers 4484) two_blocks
      (merge (mark 4368 after_request)) request_and_release (user_pointer 4096 ∷ [])
      power_bits-IsFloatConversion two_headers-Chain (omega arith, (omega arith, omega arith))
      (omega arith) (omega arith) (omega arith) request-Serves

malloc-free_shrunk_example :
    (m' : Memory) × (run_calls power_bits 5
        (ask 100 ∷ give (user_pointer 4096) ∷ [])
        (heap_on two_headers 4484)
      ≡ some (user_pointer 4096 ∷ [], record (heap_on two_headers 4484) { mem = m' }))
    × Chain m' 4096 (shrunk power_bits 100 (block 4096 256 0) ∷ block 4368 100 1 ∷ [])
malloc-free_shrunk_example =
    malloc-free_shrunk power_bits 5 4096 4484 100 (heap_on two_headers 4484) [] (block 4096 256 0)
      (block 4368 100 1 ∷ []) power_bits-IsFloatConversion two_headers-Chain
      (omega arith, (omega arith, omega arith)) (omega arith) (omega arith) tt (refl, tt) refl
      (omega arith) (omega arith) enough_room (omega arith)

-- 28 bytes are lost.
twenty_eight_lost : (shrunk power_bits 100 (block 4096 256 0)).bytes ≡ 228
unfolding next_power_of_two count
twenty_eight_lost = refl
