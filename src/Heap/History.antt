-- ===== src/Heap/History.antt =====
-- Sequences of calls of `malloc` and `free` of mmu/umalloc.c, against the list of blocks that they are to keep.
use tinu_os.Prelude.{
  ℕ, ◌+◌, ◌^◌, ◌≤◌, ◌<◌, ◌≡◌, refl, ap, ◌∙◌, true, Option, some, List, [], ◌∷◌, ◌++◌, arith, length,
  length-append, ◌>>=◌,
}
use mathlib.Core.Path.{subst}
use tinu_os.Memory.{Memory}
use tinu_os.Heap.{Heap, malloc, free}
use tinu_os.Heap.Chain.{Block, Chain}
use tinu_os.Heap.Merge.{merge}
use tinu_os.Heap.Release.{has_addr, mark, user_pointer, free-merge, length-mark}
use tinu_os.Heap.Grow.{AllUsed, total_size, total_size_bounds}
use tinu_os.Heap.Power.{IsFloatConversion}
use tinu_os.Heap.Carve.{allocated, remainder}
use tinu_os.Heap.Split.{malloc-split}
use tinu_os.Heap.Order.{
  InOrder, InOrder-mark, InOrder-merge, length-merge, InOrder-split, InOrder-HasRoom,
}

-- A call with its argument.
pub data Call : Type 0 where
  ask : ℕ → Call
  give : ℕ → Call

-- The calls, one after the other, and the pointers that `malloc` returned, in order.
unfoldable pub run_calls : (ℕ → ℕ) → ℕ → List Call → Heap → Option (List ℕ × Heap)
run_calls float_bits fuel [] h = some ([], h)
run_calls float_bits fuel (ask n ∷ calls) h = malloc float_bits fuel n h >>= λ (p, h').
    run_calls float_bits fuel calls h' >>= λ (ps, h''). some (p ∷ ps, h'')
run_calls float_bits fuel (give p ∷ calls) h =
    free fuel p h >>= λ h'. run_calls float_bits fuel calls h'

-- What the calls are to do with the blocks: a request takes the first part of the first free block, which is large
-- enough for it rounded up, with a header; a block that is given back becomes free, and every run of free blocks one.
pub data Serves (float_bits : ℕ → ℕ) : List Block → List Call → List ℕ → List Block → Type 0 where
  served : {bs : List Block} → Serves float_bits bs [] [] bs
  asked :
      {cs cs' : List Block} {n : ℕ} {calls : List Call} {ps : List ℕ} (us : List Block) (b : Block)
      (bs : List Block)
      → cs ≡ us ++ (b ∷ bs)
      → AllUsed us
      → b.used ≡ 0
      → 0 < n
      → n ≤ 2 ^ 29
      → total_size float_bits n ≤ b.bytes
      → Serves float_bits
          (us ++ (allocated b n ∷ remainder b (total_size float_bits n) ∷ bs))
          calls
          ps
          cs'
      → Serves float_bits cs (ask n ∷ calls) (user_pointer b.addr ∷ ps) cs'
  gave :
      {bs cs' : List Block} {calls : List Call} {ps : List ℕ} (a : ℕ)
      → has_addr a bs ≡ true
      → Serves float_bits (merge (mark a bs)) calls ps cs'
      → Serves float_bits bs (give (user_pointer a) ∷ calls) ps cs'

-- What a sequence of calls leaves.
abbrev Leaves : (ℕ → ℕ) → ℕ → ℕ → ℕ → Heap → List Call → List ℕ → List Block → Type 0
Leaves float_bits fuel lo hi h calls ps bs =
    (m' : Memory) × (run_calls float_bits fuel calls h ≡ some (ps, record h { mem = m' }))
    × Chain m' h.heap_bottom bs
    × InOrder lo hi bs

after_ask :
    (float_bits : ℕ → ℕ) (fuel n p lo hi : ℕ) (h : Heap) (m : Memory) (calls : List Call)
    (ps : List ℕ) (bs : List Block)
    → malloc float_bits fuel n h ≡ some (p, record h { mem = m })
    → Leaves float_bits fuel lo hi (record h { mem = m }) calls ps bs
    → Leaves float_bits fuel lo hi h (ask n ∷ calls) (p ∷ ps) bs
unfolding run_calls
after_ask float_bits fuel n p lo hi h m calls ps bs run (m', rest, chain, order) = (
  m',
  ap (λ r. r >>= λ (q, h'). run_calls float_bits fuel calls h' >>= λ (qs, h''). some (q ∷ qs, h''))
        run
      ∙ ap (λ r. r >>= λ (qs, h''). some (p ∷ qs, h'')) rest,
  chain,
  order,
)

after_give :
    (float_bits : ℕ → ℕ) (fuel p lo hi : ℕ) (h : Heap) (m : Memory) (calls : List Call)
    (ps : List ℕ) (bs : List Block)
    → free fuel p h ≡ some (record h { mem = m })
    → Leaves float_bits fuel lo hi (record h { mem = m }) calls ps bs
    → Leaves float_bits fuel lo hi h (give p ∷ calls) ps bs
unfolding run_calls
after_give float_bits fuel p lo hi h m calls ps bs run (m', rest, chain, order) =
    (m', ap (λ r. r >>= λ h'. run_calls float_bits fuel calls h') run ∙ rest, chain, order)

-- For sequences of calls that never ask too much: each request is of 1 to 2 ^ 29 bytes and, rounded up and with
-- its header, fits into the first free block of that moment (which `malloc` takes without comparing sizes), and
-- each pointer that is given back is that of a block of the chain. When the conversion to float is that of IEEE
-- single precision, the chain stands for blocks that lie one behind the other between `lo` and `hi`, `lo` above 0
-- and `hi` at most 2 ^ 32, and the fuel is above the number of blocks and calls: `malloc` returns the pointers to
-- the first free blocks, and the chain then stands for the blocks that come of splitting these blocks and of
-- freeing and joining blocks in the order of the calls. These lie one behind the other between the same bounds, so
-- that no two overlap.
pub run_calls-Serves :
    (float_bits : ℕ → ℕ) (fuel lo hi : ℕ) (h : Heap) (bs bs' : List Block) (calls : List Call)
    (ps : List ℕ)
    → IsFloatConversion float_bits
    → Chain h.mem h.heap_bottom bs
    → InOrder lo hi bs
    → 0 < lo
    → hi ≤ 2 ^ 32
    → length bs + length calls < fuel
    → Serves float_bits bs calls ps bs'
    → (m' : Memory) × (run_calls float_bits fuel calls h ≡ some (ps, record h { mem = m' }))
      × Chain m' h.heap_bottom bs'
      × InOrder lo hi bs'
run_calls-Serves float_bits fuel lo hi h bs bs' calls ps ieee chain order pos small enough served =
    (h.mem, unfold run_calls in refl, chain, order)
run_calls-Serves float_bits fuel lo hi h cs bs' calls ps ieee chain order pos small enough
      (asked {n = n} {calls = more} {ps = qs} us b bs e used free_block some_bytes few room rest) =
    let total : ℕ = total_size float_bits n in
    let bounds = total_size_bounds float_bits n ieee some_bytes few in
    let order' = subst (λ xs. InOrder lo hi xs) e order in
    let (has_room, above) =
      InOrder-HasRoom lo hi total us b bs pos small (omega (arith, bounds.0)) room order' in
    let blocks : length cs ≡ length (us ++ (b ∷ bs)) = ap length e in
    let sum = length-append us (b ∷ bs) in
    let sum' = length-append us (allocated b n ∷ remainder b total ∷ bs) in
    let (m1, run, chain1) =
      malloc-split float_bits fuel n h us b bs (omega (arith, blocks, sum))
        (subst (λ xs. Chain h.mem h.heap_bottom xs) e chain) used free_block (omega arith)
        some_bytes (omega arith) has_room in
    after_ask float_bits fuel n (user_pointer b.addr) lo hi h m1 more qs bs' run (
      run_calls-Serves float_bits fuel lo hi (record h { mem = m1 })
        (us ++ (allocated b n ∷ remainder b total ∷ bs)) bs' more qs ieee chain1
        (InOrder-split lo hi n total us b bs bounds.0 room order') pos small
        (omega (arith, blocks, sum, sum')) rest)
run_calls-Serves float_bits fuel lo hi h bs bs' calls ps ieee chain order pos small enough
      (gave {calls = more} a there rest) =
    let (m1, run, chain1) = free-merge fuel a h bs (omega arith) chain there in
    let shorter = length-merge (mark a bs) in
    let same = length-mark a bs in
    after_give float_bits fuel (user_pointer a) lo hi h m1 more ps bs' run (
      run_calls-Serves float_bits fuel lo hi (record h { mem = m1 }) (merge (mark a bs)) bs' more ps
        ieee chain1 (InOrder-merge lo hi (mark a bs) small (InOrder-mark a lo hi bs order)) pos
        small (omega (arith, shorter, same)) rest)
