-- ===== src/Heap/Coalesce.antt =====
-- The coalescing loops of `free` in mmu/umalloc.c against a merge of lists of blocks.
use tinu_os.Prelude.{
  ℕ, zero, suc, ◌+◌, ◌^◌, ◌≤◌, ◌<◌, ◌≡◌, refl, sym, ap, ◌∙◌, ◌⊎◌, inl, inr, some, List, [], ◌∷◌,
  arith, Bool-cases, length, u32,
}
use tinu_os.Memory.{Memory, load32}
use tinu_os.Heap.{header_size, size, next, set_size, set_next, absorb, coalesce}
use tinu_os.Heap.Chain.{
  Block, Apart, AllApart, Describes, Chain, SameOff, SameHeader, SameOff-SameHeader, Describes-same,
  next-same, Chain-frame, Chain-eq, set_size-SameOff, set_next-SameOff, set_size-fields,
  set_next-fields, start-lt,
}
use tinu_os.Heap.Merge.{
  joined, both_free, merge, swallow, merge-swallow, length-swallow, addr-swallow, AllApart-swallow,
  AllApart-merge,
}

-- One round of the inner loop: the block at `a` takes over the bytes and the successor of `c`.
abbrev step : Memory → Block → Memory
step m b =
    let n : ℕ = next m b.addr in
    let grown = set_size m b.addr (u32 (size m b.addr + u32 (size m n + header_size))) in
    set_next grown b.addr (next grown n)

step-SameOff : (m : Memory) (b : Block) → SameOff b.addr m (step m b)
step-SameOff m b x h = set_next-SameOff _ b.addr _ x h ∙ set_size-SameOff m b.addr _ x h

step-Describes :
    (m : Memory) (b c : Block)
    → Describes m b
    → Apart b.addr c.addr
    → next m b.addr ≡ c.addr
    → Describes m c
    → next m c.addr < 2 ^ 32
    → Describes (step m b) (joined b c) × (next (step m b) b.addr ≡ next m c.addr)
step-Describes m b c d apart e dc small =
    let a : ℕ = b.addr in
    let v : ℕ = u32 (size m a + u32 (size m (next m a) + header_size)) in
    let grown : Memory = set_size m a v in
    let first = set_size-fields m a v in
    let second = set_next-fields grown a (next grown (next m a)) in
    let apart_from_c = SameOff-SameHeader a c.addr m grown (set_size-SameOff m a v) apart in
    let kept : next grown (next m a) ≡ next m c.addr =
      ap (next grown) e ∙ next-same m grown c.addr apart_from_c in
    (
      record {
        positive = d.positive;
        small = d.small;
        bytes = ground (arith, first, second);
        used = second.3 ∙ first.3 ∙ d.used;
        sealed = second.2 ∙ first.2 ∙ d.sealed;
      },
      second.1 ∙ ap u32 kept ∙ omega arith,
    )

-- What the loops leave alone: every word outside the headers of the blocks.
abbrev pub Off : ℕ → List Block → Type 0
Off x [] = Unit
Off x (b ∷ bs) = ((b.addr + header_size ≤ x) ⊎ (x + 4 ≤ b.addr)) × Off x bs

abbrev pub SameOutside : List Block → Memory → Memory → Type 0
SameOutside bs m m' = (x : ℕ) → Off x bs → load32 m' x ≡ load32 m x

-- The inner loop ends with fuel above the number of blocks behind the first.
record Absorbed (m : Memory) (b : Block) (bs : List Block) (m' : Memory) : Type 0 where
  block : Describes m' (swallow b bs).0
  rest : Chain m' (next m' b.addr) (swallow b bs).1
  same : SameOff b.addr m m'

absorb-swallow :
    (fuel : ℕ) (m : Memory) (b : Block) (bs : List Block)
    → length bs < fuel
    → Describes m b
    → AllApart b.addr bs
    → Chain m (next m b.addr) bs
    → (m' : Memory) × (absorb fuel m b.addr ≡ some m') × Absorbed m b bs m'
unfolding absorb swallow
absorb-swallow zero m b bs enough d apart ch = absurd (omega arith)
absorb-swallow (suc fuel) m b [] enough d apart ch =
    (m, ground arith, record { block = d; rest = ch; same = λ x h. refl })
absorb-swallow (suc fuel) m b (c ∷ cs) enough d apart ch = elim (Bool-cases (both_free b c)) [
  | inl go ↦
      let onward = step-Describes m b c d apart.0 ch.0 ch.1 (start-lt m _ cs ch.3) in
      let behind =
        Chain-frame b.addr m (step m b) (next m c.addr) cs (step-SameOff m b) apart.1 ch.3 in
      let (m', run, done) =
        absorb-swallow fuel (step m b) (joined b c) cs (omega arith) onward.0 apart.1
          (Chain-eq (step m b) cs onward.1 behind) in
      (
        m',
        ground (arith, run),
        record {
          block = rw go done.block;
          rest = rw go done.rest;
          same = λ x h. done.same x h ∙ step-SameOff m b x h;
        },
      )
  | inr stop ↦
      (m, ground arith, record { block = rw stop d; rest = rw stop ch; same = λ x h. refl })
]

AllApart-Off : (a d : ℕ) (bs : List Block) → d + 4 ≤ header_size → AllApart a bs → Off (a + d) bs
AllApart-Off a d [] h apart = tt
AllApart-Off a d (b ∷ bs) h apart = (omega arith, AllApart-Off a d bs h apart.1)

SameOutside-SameHeader :
    (a : ℕ) (m m' : Memory) (bs : List Block)
    → SameOutside bs m m'
    → AllApart a bs
    → SameHeader a m m'
SameOutside-SameHeader a m m' bs same apart = (
  ap (load32 m') (sym here)
      ∙ same (a + 0) (AllApart-Off a 0 bs (omega arith) apart)
      ∙ ap (load32 m) here,
  same (a + 4) (AllApart-Off a 4 bs (omega arith) apart),
  same (a + 8) (AllApart-Off a 8 bs (omega arith) apart),
  same (a + 12) (AllApart-Off a 12 bs (omega arith) apart),
)
  where
    here : a + 0 ≡ a
    here = omega arith

Off-swallow : (x : ℕ) (b : Block) (bs : List Block) → Off x bs → Off x (swallow b bs).1
unfolding swallow
Off-swallow x b [] h = tt
Off-swallow x b (c ∷ cs) h = elim (Bool-cases (both_free b c)) [
  | inl go ↦ rw go (Off-swallow x (joined b c) cs h.1)
  | inr stop ↦ rw stop h
]

pub record Coalesced (m : Memory) (p : ℕ) (bs : List Block) (m' : Memory) : Type 0 where
  pub chain : Chain m' p (merge bs)
  pub same : SameOutside bs m m'

coalesce-suc :
    (fuel : ℕ) (m m1 m2 : Memory) (p a : ℕ)
    → p ≡ a
    → 0 < a
    → absorb (suc fuel) m a ≡ some m1
    → coalesce fuel m1 (next m1 a) ≡ some m2
    → coalesce (suc fuel) m p ≡ some m2
unfolding coalesce
coalesce-suc fuel m m1 m2 p a e pos inner outer = rw e (ground (arith, inner, outer))

Chain-cons :
    (m : Memory) (p a : ℕ) (b : Block) (bs : List Block)
    → p ≡ a
    → b.addr ≡ a
    → Describes m b
    → AllApart a bs
    → Chain m (next m a) bs
    → Chain m p (b ∷ bs)
Chain-cons m p a b bs e f d apart ch = (e ∙ sym f, d, rw f apart, rw f ch)

-- The outer loop, on a well-formed chain and with fuel above its length, ends with the merged list.
pub coalesce-Coalesced :
    (fuel : ℕ) (m : Memory) (p : ℕ) (bs : List Block)
    → length bs < fuel
    → Chain m p bs
    → (m' : Memory) × (coalesce fuel m p ≡ some m') × Coalesced m p bs m'
coalesce-Coalesced zero m p bs enough ch = absurd (omega arith)
coalesce-Coalesced (suc fuel) m p [] enough ch =
    (m, unfold coalesce in ground arith, record { chain = unfold merge in ch; same = λ x h. refl })
coalesce-Coalesced (suc fuel) m p (b ∷ bs) enough ch =
    let (m1, inner, one) = absorb-swallow (suc fuel) m b bs (omega arith) ch.1 ch.2 ch.3 in
    let left = (swallow b bs).1 in
    let shorter = length-swallow b bs in
    let (m2, outer, rest) =
      coalesce-Coalesced fuel m1 (next m1 b.addr) left (omega (arith, shorter)) one.rest in
    let apart = AllApart-swallow b.addr b bs ch.2 in
    let at = addr-swallow b bs in
    let kept = SameOutside-SameHeader b.addr m1 m2 left rest.same apart in
    (
      m2,
      coalesce-suc fuel m m1 m2 p b.addr ch.0 ch.1.positive inner outer,
      record {
        chain = rw (merge-swallow b bs) (
            Chain-cons m2 p b.addr (swallow b bs).0 (merge left) ch.0 at
              (Describes-same m1 m2 (swallow b bs).0 (rw at kept) one.block)
              (AllApart-merge b.addr left apart)
              (Chain-eq m2 (merge left) (next-same m1 m2 b.addr kept) rest.chain));
        same = λ x h. rest.same x (Off-swallow x b bs h.1) ∙ one.same x h.0;
      },
    )
