-- ===== src/Heap/Grow.antt =====
-- `malloc` of mmu/umalloc.c: a block from `ksbrk`, and a block of the chain.
use tinu_os.Prelude.{
  ℕ, zero, suc, ◌+◌, ◌^◌, ◌≤◌, ◌<◌, ◌≡◌, refl, ◌∙◌, ◌⊎◌, inl, inr, false, some, List, [], ◌∷◌, ◌++◌,
  arith, ltb, ltb→lt, Bool-cases, length, u32,
}
use tinu_os.Memory.{Memory}
use tinu_os.Heap.{
  Heap, text, hex, header_size, heap_magic, max_heap, next, set_size, set_next, set_magic,
  set_is_hole, next_power_of_two, first_free, new_block, malloc_found, malloc, free,
}
use tinu_os.Heap.Power.{IsFloatConversion, next_power_of_two-least}
use tinu_os.Heap.Break.{IsBounded, break_of, ksbrk-grant}
use tinu_os.Heap.Chain.{
  Block, AllApart, Describes, Chain, SameOff, Chain-frame, Chain-eq_mem, set_size-SameOff,
  set_next-SameOff, set_magic-SameOff, set_is_hole-SameOff, set_size-fields, set_next-fields,
  set_magic-fields, set_is_hole-fields,
}
use tinu_os.Heap.Release.{has_addr, user_pointer, free_unknown}

-- What `malloc` asks of `ksbrk`.
abbrev pub total_size : (ℕ → ℕ) → ℕ → ℕ
total_size float_bits asked = u32 (next_power_of_two float_bits asked + header_size)

pub total_size_bounds :
    (float_bits : ℕ → ℕ) (asked : ℕ)
    → IsFloatConversion float_bits
    → 0 < asked
    → asked ≤ 2 ^ 29
    → (asked + header_size ≤ total_size float_bits asked) × (total_size float_bits asked < 2 ^ 31)
total_size_bounds float_bits asked ieee pos small = elim (Bool-cases (ltb 1 asked)) [
  | inl big ↦
      omega
        (arith, next_power_of_two-least float_bits ieee asked (ltb→lt 1 asked big) (omega arith))
  | inr one ↦ unfold next_power_of_two in ground arith
]

-- The header that `malloc` writes into a new block.
abbrev header : Memory → ℕ → ℕ → Memory
header m p asked = set_next (set_is_hole (set_magic (set_size m p asked) p heap_magic) p 1) p 0

header-SameOff : (m : Memory) (p asked : ℕ) → SameOff p m (header m p asked)
header-SameOff m p asked x h =
    set_next-SameOff _ p _ x h
    ∙ set_is_hole-SameOff _ p _ x h
    ∙ set_magic-SameOff _ p _ x h
    ∙ set_size-SameOff m p asked x h

header-Describes :
    (m : Memory) (p asked : ℕ)
    → 0 < p
    → p + header_size ≤ 2 ^ 32
    → asked < 2 ^ 32
    → Describes (header m p asked) (record { addr = p; bytes = asked; used = 1 })
      × (next (header m p asked) p ≡ 0)
header-Describes m p asked pos small word =
    let one = set_size m p asked in
    let two = set_magic one p heap_magic in
    let three = set_is_hole two p 1 in
    let f = set_size-fields m p asked in
    let g = set_magic-fields one p heap_magic in
    let k = set_is_hole-fields two p 1 in
    let l = set_next-fields three p 0 in
    (
      record {
        positive = pos;
        small = small;
        bytes = l.0 ∙ k.0 ∙ g.0 ∙ f.0 ∙ omega arith;
        used = l.3 ∙ k.3;
        sealed = l.2 ∙ k.2 ∙ g.2;
      },
      l.1,
    )

-- A block that `ksbrk` grants lies at the old break; one that it refuses changes no memory.
new_block_lem :
    (asked total : ℕ) (h : Heap)
    → IsBounded h
    → 0 < total
    → total < 2 ^ 31
    → ((break_of h + total < h.heap + max_heap)
        × ((new_block asked total h).0 ≡ user_pointer (break_of h))
        × ((new_block asked total h).1.mem ≡ header h.mem (break_of h) asked)
        × ((new_block asked total h).1.heap_bottom ≡ h.heap))
      ⊎ ((h.heap + max_heap ≤ break_of h + total)
          × ((new_block asked total h).0 ≡ 0)
          × ((new_block asked total h).1.mem ≡ h.mem)
          × ((new_block asked total h).1.heap_bottom ≡ h.heap))
unfolding new_block
new_block_lem asked total h b pos small = ground (arith, b, ksbrk-grant total h b pos small)

abbrev pub AllUsed : List Block → Type 0
AllUsed [] = Unit
AllUsed (b ∷ bs) = (b.used ≡ 1) × AllUsed bs

-- Every header of the chain ends at `p` or before.
abbrev pub EndsBefore : ℕ → List Block → Type 0
EndsBefore p [] = Unit
EndsBefore p (b ∷ bs) = (b.addr + header_size ≤ p) × EndsBefore p bs

EndsBefore-AllApart : (p : ℕ) (bs : List Block) → EndsBefore p bs → AllApart p bs
EndsBefore-AllApart p [] h = tt
EndsBefore-AllApart p (b ∷ bs) h = (inr h.0, EndsBefore-AllApart p bs h.1)

EndsBefore-has_addr : (p : ℕ) (bs : List Block) → EndsBefore p bs → has_addr p bs ≡ false
EndsBefore-has_addr p [] h = refl
EndsBefore-has_addr p (b ∷ bs) h = ground (arith, EndsBefore-has_addr p bs h.1)

-- The loop of `malloc` walks past used blocks.
pub first_free-AllUsed :
    (fuel : ℕ) (m : Memory) (p : ℕ) (bs : List Block)
    → length bs < fuel
    → Chain m p bs
    → AllUsed bs
    → first_free fuel m p ≡ some 0
unfolding first_free
first_free-AllUsed zero m p bs enough ch u = absurd (omega arith)
first_free-AllUsed (suc fuel) m p [] enough ch u = ground arith
first_free-AllUsed (suc fuel) m p (b ∷ bs) enough ch u =
    rw ch.0
      (ground (arith, ch.1, first_free-AllUsed fuel m (next m b.addr) bs (omega arith) ch.3 u.1))

pub first_free-append :
    (fuel : ℕ) (m : Memory) (p : ℕ) (us : List Block) (b : Block) (bs : List Block)
    → length us < fuel
    → Chain m p (us ++ (b ∷ bs))
    → AllUsed us
    → b.used ≡ 0
    → first_free fuel m p ≡ some b.addr
unfolding first_free
first_free-append zero m p us b bs enough ch u f = absurd (omega arith)
first_free-append (suc fuel) m p [] b bs enough ch u f = rw ch.0 (ground (arith, ch.1))
first_free-append (suc fuel) m p (c ∷ us) b bs enough ch u f = rw ch.0 (
    ground (arith, ch.1, first_free-append fuel m (next m c.addr) us b bs (omega arith) ch.3 u.1 f))

-- What a call leaves when it gives a new block behind the chain `bs`.
pub record Grown (h : Heap) (asked : ℕ) (bs : List Block) (h' : Heap) : Type 0 where
  pub chain : Chain h'.mem h'.heap_bottom bs
  pub block : Describes h'.mem (record { addr = break_of h; bytes = asked; used = 1 })
  pub unlinked : has_addr (break_of h) bs ≡ false

pub malloc_path :
    (float_bits : ℕ → ℕ) (fuel asked : ℕ) (h : Heap) (c : Block) (cs : List Block)
    → 0 < asked
    → Chain h.mem h.heap_bottom (c ∷ cs)
    → (m : ℕ) → first_free fuel h.mem h.heap_bottom ≡ some m
    → malloc float_bits fuel asked h ≡ some (malloc_found asked (total_size float_bits asked) m h)
unfolding malloc
malloc_path float_bits fuel asked h c cs pos ch m found =
    ground (arith, ch.0, ch.1.positive, ch.1.sealed, found)

-- On a heap with its pointers in the array and with fuel above the number of blocks: when every block
-- of the chain is used and lies before the break, and the array has room, `malloc` of up to 2 ^ 29
-- bytes returns a new block at the break, whose header is filled in. The chain still stands for the
-- same blocks: the new one is not linked to it.
pub malloc-Grown :
    (float_bits : ℕ → ℕ) (fuel asked : ℕ) (h : Heap) (c : Block) (cs : List Block)
    → IsFloatConversion float_bits
    → IsBounded h
    → length (c ∷ cs) < fuel
    → Chain h.mem h.heap_bottom (c ∷ cs)
    → AllUsed (c ∷ cs)
    → EndsBefore (break_of h) (c ∷ cs)
    → 0 < asked
    → asked ≤ 2 ^ 29
    → break_of h + total_size float_bits asked < h.heap + max_heap
    → (h' : Heap) × (malloc float_bits fuel asked h ≡ some (user_pointer (break_of h), h'))
      × Grown h asked (c ∷ cs) h'
malloc-Grown float_bits fuel asked h c cs ieee b enough ch u ends pos small room =
    let bs : List Block = c ∷ cs in
    let total : ℕ = total_size float_bits asked in
    let p : ℕ = break_of h in
    let fits = total_size_bounds float_bits asked ieee pos small in
    let made = new_block_lem asked total h b (omega (arith, fits)) (omega (arith, fits)) in
    let found = first_free-AllUsed fuel h.mem h.heap_bottom bs enough ch u in
    let path = malloc_path float_bits fuel asked h c cs pos ch 0 found in
    let h' : Heap = (new_block asked total h).1 in
    let bottom : h'.heap_bottom ≡ h.heap_bottom = ground (arith, made, ch.0, ch.1.positive, b) in
    let memory : h'.mem ≡ header h.mem p asked = ground (arith, made, room) in
    let old =
      Chain-frame p h.mem (header h.mem p asked) h.heap_bottom bs (header-SameOff h.mem p asked)
        (EndsBefore-AllApart p bs ends) ch in
    let new =
      header-Describes h.mem p asked (omega (arith, ends)) (omega (arith, b, fits)) (omega arith) in
    (
      h',
      path ∙ (unfold malloc_found in ground (arith, made, room)),
      record {
        chain = Chain-eq_mem bs memory bottom old;
        block = rw memory new.0;
        unlinked = EndsBefore-has_addr p bs ends;
      },
    )

-- On a heap with its pointers in the array and with fuel above the number of blocks: when every block
-- of the chain is used and lies before the break, and the array has room, the block that `malloc` of
-- up to 2 ^ 29 bytes makes cannot be given back. `free` of it reports that the block does not exist
-- and leaves memory as it is.
pub free-malloc_lost :
    (float_bits : ℕ → ℕ) (fuel asked : ℕ) (h : Heap) (c : Block) (cs : List Block)
    → IsFloatConversion float_bits
    → IsBounded h
    → length (c ∷ cs) < fuel
    → Chain h.mem h.heap_bottom (c ∷ cs)
    → AllUsed (c ∷ cs)
    → EndsBefore (break_of h) (c ∷ cs)
    → 0 < asked
    → asked ≤ 2 ^ 29
    → break_of h + total_size float_bits asked < h.heap + max_heap
    → (p : ℕ) × (h' h'' : Heap) × (malloc float_bits fuel asked h ≡ some (p, h'))
      × (free fuel p h' ≡ some h'')
      × (h''.mem ≡ h'.mem)
      × (h''.log
          ≡ text " which does not exist!\n"
            ∷ hex p
            ∷ text "Tried to free the memory at 0x"
            ∷ h'.log)
free-malloc_lost float_bits fuel asked h c cs ieee b enough ch u ends pos small room =
    let (h', run, g) =
      malloc-Grown float_bits fuel asked h c cs ieee b enough ch u ends pos small room in
    let said =
      free_unknown fuel (break_of h) h' (c ∷ cs) enough g.chain g.block.positive g.block.small
        g.block.sealed g.unlinked in
    (user_pointer (break_of h), h', _, run, said, refl, refl)
