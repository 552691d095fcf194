-- ===== src/Heap/Order.antt =====
-- Blocks that lie one behind the other in memory, as the heap of mmu/umalloc.c keeps them.
use tinu_os.Prelude.{
  ℕ, suc, ◌+◌, ◌-◌, ◌^◌, ◌≤◌, ◌<◌, ◌≡◌, sym, inl, inr, List, [], ◌∷◌, ◌++◌, arith, ◌==◌, Bool-cases,
  length,
}
use tinu_os.Heap.{header_size}
use tinu_os.Heap.Chain.{Block, AllApart}
use tinu_os.Heap.Merge.{joined, both_free, merge_from, merge}
use tinu_os.Heap.Release.{mark}
use tinu_os.Heap.Carve.{allocated, remainder, HasRoom}

-- From `lo` to `hi`, no block with its header overlaps another one.
abbrev pub InOrder : ℕ → ℕ → List Block → Type 0
InOrder lo hi [] = lo ≤ hi
InOrder lo hi (b ∷ bs) = (lo ≤ b.addr) × InOrder (b.addr + header_size + b.bytes) hi bs

InOrder-bounds : (lo hi : ℕ) (bs : List Block) → InOrder lo hi bs → lo ≤ hi
InOrder-bounds lo hi [] h = h
InOrder-bounds lo hi (b ∷ bs) h =
    omega (arith, h.0, InOrder-bounds (b.addr + header_size + b.bytes) hi bs h.1)

InOrder-below : (lo lo' hi : ℕ) (bs : List Block) → lo' ≤ lo → InOrder lo hi bs → InOrder lo' hi bs
InOrder-below lo lo' hi [] l h = omega (arith, h)
InOrder-below lo lo' hi (b ∷ bs) l h = (omega (arith, h.0), h.1)

pub InOrder-mark : (a lo hi : ℕ) (bs : List Block) → InOrder lo hi bs → InOrder lo hi (mark a bs)
InOrder-mark a lo hi [] h = h
InOrder-mark a lo hi (b ∷ bs) h =
    let rest = InOrder-mark a (b.addr + header_size + b.bytes) hi bs h.1 in
    elim (Bool-cases (b.addr == a)) [
      | inl hit ↦ rw hit (h.0, rest)
      | inr miss ↦ rw miss (h.0, rest)
    ]

InOrder-merge_from :
    (lo hi : ℕ) (b : Block) (bs : List Block)
    → hi ≤ 2 ^ 32
    → InOrder lo hi (b ∷ bs)
    → InOrder lo hi (merge_from b bs)
unfolding merge_from
InOrder-merge_from lo hi b [] small h = h
InOrder-merge_from lo hi b (c ∷ cs) small h =
    let end : ℕ = c.addr + header_size + c.bytes in
    let last = InOrder-bounds end hi cs h.1.1 in
    let sum : b.addr + header_size + (joined b c).bytes ≤ end = omega (arith, h.0, h.1.0, last) in
    elim (Bool-cases (both_free b c)) [
      | inl go ↦ rw go (
          InOrder-merge_from lo hi (joined b c) cs small
            (h.0, InOrder-below end (b.addr + header_size + (joined b c).bytes) hi cs sum h.1.1))
      | inr stop ↦
          rw stop (h.0, InOrder-merge_from (b.addr + header_size + b.bytes) hi c cs small h.1)
    ]

pub InOrder-merge :
    (lo hi : ℕ) (bs : List Block) → hi ≤ 2 ^ 32 → InOrder lo hi bs → InOrder lo hi (merge bs)
unfolding merge
InOrder-merge lo hi [] small h = h
InOrder-merge lo hi (b ∷ bs) small h = InOrder-merge_from lo hi b bs small h

length-merge_from : (b : Block) (bs : List Block) → length (merge_from b bs) ≤ suc (length bs)
unfolding merge_from
length-merge_from b [] = omega arith
length-merge_from b (c ∷ cs) = elim (Bool-cases (both_free b c)) [
  | inl go ↦ rw go (omega (arith, length-merge_from (joined b c) cs))
  | inr stop ↦ rw stop (omega (arith, length-merge_from c cs))
]

pub length-merge : (bs : List Block) → length (merge bs) ≤ length bs
unfolding merge
length-merge [] = omega arith
length-merge (b ∷ bs) = length-merge_from b bs

-- A header before the blocks is apart from all of theirs.
AllApart-InOrder :
    (p lo hi : ℕ) (bs : List Block) → p + header_size ≤ lo → InOrder lo hi bs → AllApart p bs
AllApart-InOrder p lo hi [] l h = tt
AllApart-InOrder p lo hi (b ∷ bs) l h = (
  inl (omega (arith, h.0)),
  AllApart-InOrder p (b.addr + header_size + b.bytes) hi bs (omega (arith, h.0)) h.1,
)

-- Cutting a block keeps the order.
pub InOrder-split :
    (lo hi asked total : ℕ) (us : List Block) (b : Block) (bs : List Block)
    → asked + header_size ≤ total
    → total ≤ b.bytes
    → InOrder lo hi (us ++ (b ∷ bs))
    → InOrder lo hi (us ++ (allocated b asked ∷ remainder b total ∷ bs))
InOrder-split lo hi asked total [] b bs room enough h =
    let same : b.addr + header_size + b.bytes ≡ b.addr + total + header_size + (b.bytes - total) =
      omega arith in
    (h.0, (omega arith, rw (sym same) h.1))
InOrder-split lo hi asked total (c ∷ us) b bs room enough h =
    (h.0, InOrder-split (c.addr + header_size + c.bytes) hi asked total us b bs room enough h.1)

-- Where the header of the rest may lie.
pub InOrder-HasRoom :
    (lo hi total : ℕ) (us : List Block) (b : Block) (bs : List Block)
    → 0 < lo
    → hi ≤ 2 ^ 32
    → header_size ≤ total
    → total ≤ b.bytes
    → InOrder lo hi (us ++ (b ∷ bs))
    → HasRoom total us b bs × (lo ≤ b.addr)
InOrder-HasRoom lo hi total [] b bs pos small room enough h =
    let end : ℕ = b.addr + header_size + b.bytes in
    let last = InOrder-bounds end hi bs h.1 in
    (
      record {
        apart = (inr (omega arith), AllApart-InOrder (b.addr + total) end hi bs (omega arith) h.1);
        in_space = omega (arith, last);
        enough = enough;
        word = omega (arith, last, h.0);
      },
      h.0,
    )
InOrder-HasRoom lo hi total (c ∷ us) b bs pos small room enough h =
    let (r, above) =
      InOrder-HasRoom (c.addr + header_size + c.bytes) hi total us b bs (omega arith) small room
        enough h.1 in
    (
      record {
        apart = (inr (omega (arith, above)), r.apart);
        in_space = r.in_space;
        enough = r.enough;
        word = r.word;
      },
      omega (arith, above, h.0),
    )
