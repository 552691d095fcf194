-- ===== src/Heap/Leak.antt =====
-- What is lost when `malloc` and `free` of mmu/umalloc.c follow one another.
use tinu_os.Prelude.{
  ℕ, ◌+◌, ◌-◌, ◌^◌, ◌≤◌, ◌<◌, ◌≡◌, refl, ap, ◌∙◌, inl, inr, true, false, some, List, [], ◌∷◌, ◌++◌,
  arith, ◌==◌, Bool-cases, length, length-append, u32,
}
use mathlib.Core.Path.{subst}
use tinu_os.Memory.{Memory}
use tinu_os.Heap.{Heap, header_size}
use tinu_os.Heap.Chain.{Block, Chain}
use tinu_os.Heap.Merge.{joined, merge_from, merge}
use tinu_os.Heap.Release.{has_addr, mark, user_pointer}
use tinu_os.Heap.Grow.{AllUsed, total_size, total_size_bounds}
use tinu_os.Heap.Power.{IsFloatConversion}
use tinu_os.Heap.Carve.{allocated, remainder}
use tinu_os.Heap.Order.{InOrder, InOrder-split, InOrder-HasRoom}
use tinu_os.Heap.History.{ask, give, run_calls, served, asked, gave, run_calls-Serves}

-- The blocks behind the bound lie elsewhere than `a`.
mark-behind : (a lo hi : ℕ) (bs : List Block) → a < lo → InOrder lo hi bs → mark a bs ≡ bs
mark-behind a lo hi [] l h = refl
mark-behind a lo hi (b ∷ bs) l h =
    let rest = mark-behind a (b.addr + header_size + b.bytes) hi bs (omega (arith, h.0)) h.1 in
    let miss : (b.addr == a) ≡ false = ground (arith, h.0) in rw (miss, rest) refl

above_bound :
    (lo hi : ℕ) (us : List Block) (b : Block) (bs : List Block)
    → InOrder lo hi (us ++ (b ∷ bs))
    → lo ≤ b.addr
above_bound lo hi [] b bs h = h.0
above_bound lo hi (c ∷ us) b bs h =
    omega (arith, h.0, above_bound (c.addr + header_size + c.bytes) hi us b bs h.1)

mark-at :
    (lo hi : ℕ) (us : List Block) (b : Block) (bs : List Block)
    → InOrder lo hi (us ++ (b ∷ bs))
    → (mark b.addr (us ++ (b ∷ bs)) ≡ us ++ (record b { used = 0 } ∷ bs))
      × (has_addr b.addr (us ++ (b ∷ bs)) ≡ true)
mark-at lo hi [] b bs h =
    let hit : (b.addr == b.addr) ≡ true = ground arith in
    let rest = mark-behind b.addr (b.addr + header_size + b.bytes) hi bs (omega arith) h.1 in
    (rw (hit, rest) refl, rw hit refl)
mark-at lo hi (c ∷ us) b bs h =
    let above = above_bound (c.addr + header_size + c.bytes) hi us b bs h.1 in
    let miss : (c.addr == b.addr) ≡ false = ground (arith, above) in
    let (rest, there) = mark-at (c.addr + header_size + c.bytes) hi us b bs h.1 in
    (rw (miss, rest) refl, rw (miss, there) refl)

merge-used : (c : Block) (bs : List Block) → c.used ≡ 1 → merge (c ∷ bs) ≡ c ∷ merge bs
unfolding merge merge_from
merge-used c [] u = refl
merge-used c (d ∷ ds) u = let keep : (c.used == 0) ≡ false = ground (arith, u) in rw keep refl

merge-append :
    (us : List Block) (b : Block) (bs : List Block)
    → AllUsed us
    → merge (us ++ (b ∷ bs)) ≡ us ++ merge (b ∷ bs)
merge-append [] b bs u = refl
merge-append (c ∷ us) b bs u =
    merge-used c (us ++ (b ∷ bs)) u.0 ∙ ap (λ xs. c ∷ xs) (merge-append us b bs u.1)

merge_from-used : (b : Block) (bs : List Block) → AllUsed bs → merge_from b bs ≡ b ∷ bs
unfolding merge_from
merge_from-used b [] u = refl
merge_from-used b (c ∷ cs) u =
    let keep : (c.used == 0) ≡ false = ground (arith, u.0) in
    elim (Bool-cases (b.used == 0)) [
      | inl free_block ↦ rw (free_block, keep) (ap (λ xs. b ∷ xs) (merge_from-used c cs u.1))
      | inr used ↦ rw used (ap (λ xs. b ∷ xs) (merge_from-used c cs u.1))
    ]

merge_halves :
    (b c : Block) (bs : List Block)
    → b.used ≡ 0
    → c.used ≡ 0
    → AllUsed bs
    → merge (b ∷ c ∷ bs) ≡ joined b c ∷ bs
unfolding merge merge_from
merge_halves b c bs f g u =
    let first : (b.used == 0) ≡ true = ground (arith, f) in
    let second : (c.used == 0) ≡ true = ground (arith, g) in
    rw (first, second) (merge_from-used (joined b c) bs u)

-- The block behind a request that was given back: what the rounding up added is lost.
abbrev pub shrunk : (ℕ → ℕ) → ℕ → Block → Block
shrunk float_bits n b = record b {
  bytes = b.bytes - (total_size float_bits n - header_size - n);
  used = 0;
}

joined-shrunk :
    (float_bits : ℕ → ℕ) (n : ℕ) (b : Block)
    → n + header_size ≤ total_size float_bits n
    → total_size float_bits n ≤ b.bytes
    → b.bytes < 2 ^ 32
    → joined (record (allocated b n) { used = 0 }) (remainder b (total_size float_bits n))
      ≡ shrunk float_bits n b
joined-shrunk float_bits n b room enough word =
    let e : u32 (n + u32 (b.bytes - total_size float_bits n + header_size))
        ≡ b.bytes - (total_size float_bits n - header_size - n) =
      omega arith in
    ap (λ (k : ℕ). record b { bytes = k; used = 0 }) e

-- When the only free block of blocks that lie one behind the other below 2 ^ 32 is large enough for a request, rounded up,
-- and a header, and the conversion to float is that of IEEE single precision, then `malloc` followed by `free` of its result
-- leaves the same blocks, with fuel above their number and three, but the free one has shrunk: it has lost the bytes
-- by which the request was rounded up.
pub malloc-free_shrunk :
    (float_bits : ℕ → ℕ) (fuel lo hi n : ℕ) (h : Heap) (us : List Block) (b : Block)
    (bs : List Block)
    → IsFloatConversion float_bits
    → Chain h.mem h.heap_bottom (us ++ (b ∷ bs))
    → InOrder lo hi (us ++ (b ∷ bs))
    → 0 < lo
    → hi ≤ 2 ^ 32
    → AllUsed us
    → AllUsed bs
    → b.used ≡ 0
    → 0 < n
    → n ≤ 2 ^ 29
    → total_size float_bits n ≤ b.bytes
    → length us + length bs + 3 < fuel
    → (m' : Memory) × (run_calls float_bits fuel (ask n ∷ give (user_pointer b.addr) ∷ []) h
        ≡ some (user_pointer b.addr ∷ [], record h { mem = m' }))
      × Chain m' h.heap_bottom (us ++ (shrunk float_bits n b ∷ bs))
malloc-free_shrunk float_bits fuel lo hi n h us b bs ieee chain order pos small before behind
      free_block some_bytes few room enough =
    let total : ℕ = total_size float_bits n in
    let bounds = total_size_bounds float_bits n ieee some_bytes few in
    let cut : List Block = remainder b total ∷ bs in
    let order' = InOrder-split lo hi n total us b bs bounds.0 room order in
    let (marked, there) = mark-at lo hi us (allocated b n) cut order' in
    let word =
      (InOrder-HasRoom lo hi total us b bs pos small (omega (arith, bounds.0)) room order).0.word in
    let back : Block = record (allocated b n) { used = 0 } in
    let left : merge (mark b.addr (us ++ (allocated b n ∷ cut)))
        ≡ us ++ (shrunk float_bits n b ∷ bs) =
      ap merge marked
      ∙ merge-append us back cut before
      ∙ ap (λ xs. us ++ xs)
          (merge_halves back (remainder b total) bs refl refl behind
            ∙ ap (λ x. x ∷ bs) (joined-shrunk float_bits n b bounds.0 room word)) in
    let (m', run, chain', _) =
      run_calls-Serves float_bits fuel lo hi h (us ++ (b ∷ bs))
        (merge (mark b.addr (us ++ (allocated b n ∷ cut))))
        (ask n ∷ give (user_pointer b.addr) ∷ []) (user_pointer b.addr ∷ []) ieee chain order pos
        small (omega (arith, length-append us (b ∷ bs)))
        (asked us b bs refl before free_block some_bytes few room (gave b.addr there served)) in
    (m', run, subst (λ xs. Chain m' h.heap_bottom xs) left chain')
