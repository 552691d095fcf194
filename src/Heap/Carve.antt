-- ===== src/Heap/Carve.antt =====
-- The writes by which `malloc` of mmu/umalloc.c cuts a free block of the chain in two.
use tinu_os.Prelude.{
  ℕ, ◌+◌, ◌-◌, ◌^◌, ◌≤◌, ◌<◌, ◌≡◌, refl, sym, ap, ◌∙◌, List, [], ◌∷◌, ◌++◌, arith, u32, sub32,
}
use tinu_os.Memory.{Memory}
use tinu_os.Heap.{
  header_size, heap_magic, size, next, magic, is_hole, set_size, set_next, set_magic, set_is_hole,
  split,
}
use tinu_os.Heap.Chain.{
  Block, Apart, AllApart, Describes, Chain, SameOff, SameOff-SameHeader, Describes-same, next-same,
  Chain-frame, Chain-eq, set_size-SameOff, set_next-SameOff, set_magic-SameOff, set_is_hole-SameOff,
  set_size-fields, set_next-fields, set_magic-fields, set_is_hole-fields, start-lt,
}

-- The writes to the header of the rest, and those to the header of the block.
abbrev pub carved : Memory → ℕ → ℕ → ℕ → Memory
carved m a n total =
    let m1 = set_size m n (sub32 (size m a) total) in
    let m2 = set_magic m1 n heap_magic in set_is_hole (set_next m2 n (next m2 a)) n 0

abbrev pub taken : Memory → ℕ → ℕ → ℕ → Memory
taken m a n asked = set_is_hole (set_next (set_size m a asked) a n) a 1

pub split-taken :
    (m : Memory) (a asked total : ℕ)
    → split m a asked total ≡ taken (carved m a (u32 (a + total)) total) a (u32 (a + total)) asked
unfolding split
split-taken m a asked total = refl

carved-SameOff : (m : Memory) (a n total : ℕ) → SameOff n m (carved m a n total)
carved-SameOff m a n total x h =
    set_is_hole-SameOff _ n _ x h
    ∙ set_next-SameOff _ n _ x h
    ∙ set_magic-SameOff _ n _ x h
    ∙ set_size-SameOff m n _ x h

taken-SameOff : (m : Memory) (a n asked : ℕ) → SameOff a m (taken m a n asked)
taken-SameOff m a n asked x h =
    set_is_hole-SameOff _ a _ x h ∙ set_next-SameOff _ a _ x h ∙ set_size-SameOff m a _ x h

-- The rest of the block, which is free.
abbrev pub remainder : Block → ℕ → Block
remainder b total = record { addr = b.addr + total; bytes = b.bytes - total; used = 0 }

abbrev pub allocated : Block → ℕ → Block
allocated b asked = record { addr = b.addr; bytes = asked; used = 1 }

carved-Describes :
    (m : Memory) (b : Block) (n total : ℕ)
    → Describes m b
    → Apart n b.addr
    → n ≡ b.addr + total
    → n + header_size ≤ 2 ^ 32
    → total ≤ b.bytes
    → b.bytes < 2 ^ 32
    → next m b.addr < 2 ^ 32
    → Describes (carved m b.addr n total) (remainder b total)
      × (next (carved m b.addr n total) n ≡ next m b.addr)
carved-Describes m b n total d apart e small room word link =
    let m1 = set_size m n (sub32 (size m b.addr) total) in
    let m2 = set_magic m1 n heap_magic in
    let m3 = set_next m2 n (next m2 b.addr) in
    let f = set_size-fields m n (sub32 (size m b.addr) total) in
    let g = set_magic-fields m1 n heap_magic in
    let k = set_next-fields m2 n (next m2 b.addr) in
    let l = set_is_hole-fields m3 n 0 in
    let kept : next m2 b.addr ≡ next m b.addr =
      next-same m1 m2 b.addr
        (SameOff-SameHeader n b.addr m1 m2 (set_magic-SameOff m1 n heap_magic) apart)
      ∙ next-same m m1 b.addr (SameOff-SameHeader n b.addr m m1 (set_size-SameOff m n _) apart) in
    (
      record {
        positive = omega (arith, d.positive);
        small = omega arith;
        bytes =
            ap (size (carved m b.addr n total)) (sym e)
            ∙ l.0
            ∙ k.0
            ∙ g.0
            ∙ f.0
            ∙ omega (arith, d.bytes);
        used = ap (is_hole (carved m b.addr n total)) (sym e) ∙ l.3;
        sealed = ap (magic (carved m b.addr n total)) (sym e) ∙ l.2 ∙ k.2 ∙ g.2;
      },
      l.1 ∙ k.1 ∙ omega (arith, kept),
    )

taken-Describes :
    (m : Memory) (b : Block) (n asked : ℕ)
    → Describes m b
    → asked < 2 ^ 32
    → n < 2 ^ 32
    → Describes (taken m b.addr n asked) (allocated b asked)
      × (next (taken m b.addr n asked) b.addr ≡ n)
taken-Describes m b n asked d small word =
    let a : ℕ = b.addr in
    let m1 = set_size m a asked in
    let m2 = set_next m1 a n in
    let f = set_size-fields m a asked in
    let g = set_next-fields m1 a n in
    let k = set_is_hole-fields m2 a 1 in
    (
      record {
        positive = d.positive;
        small = d.small;
        bytes = k.0 ∙ g.0 ∙ f.0 ∙ omega arith;
        used = k.3;
        sealed = k.2 ∙ g.2 ∙ f.2 ∙ d.sealed;
      },
      k.1 ∙ g.1 ∙ omega arith,
    )

AllApart-split :
    (x asked total : ℕ) (us : List Block) (b : Block) (bs : List Block)
    → AllApart x (us ++ (b ∷ bs))
    → Apart x (b.addr + total)
    → AllApart x (us ++ (allocated b asked ∷ remainder b total ∷ bs))
AllApart-split x asked total [] b bs h n = (h.0, (n, h.1))
AllApart-split x asked total (c ∷ us) b bs h n = (h.0, AllApart-split x asked total us b bs h.1 n)

AllApart-tail :
    (x : ℕ) (us : List Block) (b : Block) (bs : List Block)
    → AllApart x (us ++ (b ∷ bs))
    → Apart x b.addr
AllApart-tail x [] b bs h = h.0
AllApart-tail x (c ∷ us) b bs h = AllApart-tail x us b bs h.1

-- The header of the rest overlaps no header of the chain, and lies in the address space.
pub record HasRoom (total : ℕ) (us : List Block) (b : Block) (bs : List Block) : Type 0 where
  pub apart : AllApart (b.addr + total) (us ++ (b ∷ bs))
  pub in_space : b.addr + total + header_size ≤ 2 ^ 32
  pub enough : total ≤ b.bytes
  pub word : b.bytes < 2 ^ 32

split-first :
    (m : Memory) (p asked total : ℕ) (b : Block) (bs : List Block)
    → asked < 2 ^ 32
    → Chain m p (b ∷ bs)
    → HasRoom total [] b bs
    → Chain
        (taken (carved m b.addr (b.addr + total) total) b.addr (b.addr + total) asked)
        p
        (allocated b asked ∷ remainder b total ∷ bs)
split-first m p asked total b bs small ch r =
    let a : ℕ = b.addr in
    let n : ℕ = b.addr + total in
    let m1 = carved m a n total in
    let m2 = taken m1 a n asked in
    let link = start-lt m (next m a) bs ch.3 in
    let (rest, onward) =
      carved-Describes m b n total ch.1 r.apart.0 refl r.in_space r.enough r.word link in
    let b1 =
      Describes-same m m1 b (SameOff-SameHeader n a m m1 (carved-SameOff m a n total) r.apart.0)
        ch.1 in
    let (block, first) = taken-Describes m1 b n asked b1 small (omega (arith, r.in_space)) in
    let far =
      SameOff-SameHeader a n m1 m2 (taken-SameOff m1 a n asked) (ground (arith, r.apart.0)) in
    let tail1 = Chain-frame n m m1 (next m a) bs (carved-SameOff m a n total) r.apart.1 ch.3 in
    let tail2 = Chain-frame a m1 m2 (next m a) bs (taken-SameOff m1 a n asked) ch.2 tail1 in
    (
      ch.0,
      block,
      (ground (arith, r.apart.0), ch.2),
      (
        first,
        Describes-same m1 m2 (remainder b total) far rest,
        r.apart.1,
        Chain-eq m2 bs (next-same m1 m2 n far ∙ onward) tail2,
      ),
    )

pub split-Chain :
    (m : Memory) (p asked total : ℕ) (us : List Block) (b : Block) (bs : List Block)
    → asked < 2 ^ 32
    → Chain m p (us ++ (b ∷ bs))
    → HasRoom total us b bs
    → Chain
        (taken (carved m b.addr (b.addr + total) total) b.addr (b.addr + total) asked)
        p
        (us ++ (allocated b asked ∷ remainder b total ∷ bs))
split-Chain m p asked total [] b bs small ch r = split-first m p asked total b bs small ch r
split-Chain m p asked total (c ∷ us) b bs small ch r =
    let a : ℕ = b.addr in
    let n : ℕ = b.addr + total in
    let m1 = carved m a n total in
    let m2 = taken m1 a n asked in
    let rest =
      split-Chain m (next m c.addr) asked total us b bs small ch.3
        (record { apart = r.apart.1; in_space = r.in_space; enough = r.enough; word = r.word }) in
    let off_n = SameOff-SameHeader n c.addr m m1 (carved-SameOff m a n total) r.apart.0 in
    let off_a =
      SameOff-SameHeader a c.addr m1 m2 (taken-SameOff m1 a n asked)
        (ground (arith, AllApart-tail c.addr us b bs ch.2)) in
    (
      ch.0,
      Describes-same m1 m2 c off_a (Describes-same m m1 c off_n ch.1),
      AllApart-split c.addr asked total us b bs ch.2 (ground (arith, r.apart.0)),
      Chain-eq m2 (us ++ (allocated b asked ∷ remainder b total ∷ bs))
          (next-same m1 m2 c.addr off_a ∙ next-same m m1 c.addr off_n) rest,
    )
