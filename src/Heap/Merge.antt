-- ===== src/Heap/Merge.antt =====
-- A list of blocks in which every run of free blocks becomes one, as `free` in mmu/umalloc.c is to leave it.
use tinu_os.Prelude.{
  ℕ, ◌+◌, ◌≤◌, ◌≡◌, refl, inl, inr, Bool, false, ◌&&◌, List, [], ◌∷◌, arith, ◌==◌, if◌then◌else◌,
  Bool-cases, length, u32,
}
use tinu_os.Heap.{header_size}
use tinu_os.Heap.Chain.{Block, Apart, AllApart}

-- `b` with the bytes of `c` and of its header.
abbrev pub joined : Block → Block → Block
joined b c = record b { bytes = u32 (b.bytes + u32 (c.bytes + header_size)) }

abbrev pub both_free : Block → Block → Bool
both_free b c = b.used == 0 && c.used == 0

-- Every run of free blocks becomes one block.
unfoldable pub merge_from : Block → List Block → List Block
merge_from b [] = b ∷ []
merge_from b (c ∷ cs) = if both_free b c then merge_from (joined b c) cs else b ∷ merge_from c cs

unfoldable pub merge : List Block → List Block
unfolding merge_from
merge [] = []
merge (b ∷ bs) = merge_from b bs

-- What the inner loop leaves at its block, and the blocks behind it.
unfoldable pub swallow : Block → List Block → Block × List Block
swallow b [] = (b, [])
swallow b (c ∷ cs) = if both_free b c then swallow (joined b c) cs else (b, c ∷ cs)

pub merge-swallow :
    (b : Block) (bs : List Block) → merge (b ∷ bs) ≡ (swallow b bs).0 ∷ merge (swallow b bs).1
unfolding merge swallow
merge-swallow b [] = refl
merge-swallow b (c ∷ cs) = ground (arith, merge-swallow (joined b c) cs)

pub length-swallow : (b : Block) (bs : List Block) → length (swallow b bs).1 ≤ length bs
unfolding swallow
length-swallow b [] = omega arith
length-swallow b (c ∷ cs) = ground (arith, length-swallow (joined b c) cs)

pub addr-swallow : (b : Block) (bs : List Block) → (swallow b bs).0.addr ≡ b.addr
unfolding swallow
addr-swallow b [] = refl
addr-swallow b (c ∷ cs) = ground (arith, addr-swallow (joined b c) cs)

pub AllApart-swallow :
    (a : ℕ) (b : Block) (bs : List Block) → AllApart a bs → AllApart a (swallow b bs).1
unfolding swallow
AllApart-swallow a b [] h = tt
AllApart-swallow a b (c ∷ cs) h = elim (Bool-cases (both_free b c)) [
  | inl go ↦ rw go (AllApart-swallow a (joined b c) cs h.1)
  | inr stop ↦ rw stop h
]

AllApart-merge_from :
    (a : ℕ) (b : Block) (bs : List Block)
    → Apart a b.addr
    → AllApart a bs
    → AllApart a (merge_from b bs)
unfolding merge_from
AllApart-merge_from a b [] h hs = (h, tt)
AllApart-merge_from a b (c ∷ cs) h hs = elim (Bool-cases (both_free b c)) [
  | inl go ↦ rw go (AllApart-merge_from a (joined b c) cs h hs.1)
  | inr stop ↦ rw stop (h, AllApart-merge_from a c cs hs.0 hs.1)
]

pub AllApart-merge : (a : ℕ) (bs : List Block) → AllApart a bs → AllApart a (merge bs)
unfolding merge
AllApart-merge a [] h = tt
AllApart-merge a (b ∷ bs) h = AllApart-merge_from a b bs h.0 h.1

-- No two blocks next to one another are free.
abbrev pub NoneAdjacent : List Block → Type 0
NoneAdjacent [] = Unit
NoneAdjacent (b ∷ []) = Unit
NoneAdjacent (b ∷ c ∷ cs) = (both_free b c ≡ false) × NoneAdjacent (c ∷ cs)

-- The bytes of the blocks and of their headers.
abbrev pub total : List Block → ℕ
total [] = 0
total (b ∷ bs) = b.bytes + header_size + total bs

abbrev pub in_use : List Block → List Block
in_use [] = []
in_use (b ∷ bs) = if b.used == 0 then in_use bs else b ∷ in_use bs

-- The first block of the merged list has the flag of the first block.
NoneAdjacent-cons :
    (b c : Block) (cs : List Block)
    → both_free b c ≡ false
    → NoneAdjacent (merge_from c cs)
    → NoneAdjacent (b ∷ merge_from c cs)
unfolding merge_from
NoneAdjacent-cons b c [] h n = (h, tt)
NoneAdjacent-cons b c (d ∷ ds) h n = elim (Bool-cases (both_free c d)) [
  | inl go ↦ rw go (NoneAdjacent-cons b (joined c d) ds h (rw go at n))
  | inr stop ↦ rw stop (h, rw stop at n)
]

pub NoneAdjacent-merge_from : (b : Block) (bs : List Block) → NoneAdjacent (merge_from b bs)
unfolding merge_from
NoneAdjacent-merge_from b [] = tt
NoneAdjacent-merge_from b (c ∷ cs) = elim (Bool-cases (both_free b c)) [
  | inl go ↦ rw go (NoneAdjacent-merge_from (joined b c) cs)
  | inr stop ↦ rw stop (NoneAdjacent-cons b c cs stop (NoneAdjacent-merge_from c cs))
]

total-merge_from :
    (b : Block) (bs : List Block) → u32 (total (merge_from b bs)) ≡ u32 (total (b ∷ bs))
unfolding merge_from
total-merge_from b [] = refl
total-merge_from b (c ∷ cs) = elim (Bool-cases (both_free b c)) [
  | inl go ↦ rw go (omega (arith, total-merge_from (joined b c) cs))
  | inr stop ↦ rw stop (omega (arith, total-merge_from c cs))
]

in_use-merge_from : (b : Block) (bs : List Block) → in_use (merge_from b bs) ≡ in_use (b ∷ bs)
unfolding merge_from
in_use-merge_from b [] = refl
in_use-merge_from b (c ∷ cs) = elim (Bool-cases (both_free b c)) [
  | inl go ↦ rw go (ground (arith, in_use-merge_from (joined b c) cs))
  | inr stop ↦ rw stop (ground (arith, in_use-merge_from c cs))
]

-- Merging leaves no two free blocks side by side, keeps every used block as it is, in order, and keeps
-- the number of bytes, modulo 2 ^ 32.
pub merge_lem :
    (bs : List Block)
    → NoneAdjacent (merge bs)
      × (in_use (merge bs) ≡ in_use bs)
      × (u32 (total (merge bs)) ≡ u32 (total bs))
unfolding merge
merge_lem [] = (tt, refl, refl)
merge_lem (b ∷ bs) = (NoneAdjacent-merge_from b bs, in_use-merge_from b bs, total-merge_from b bs)
