-- ===== src/Heap/Release.antt =====
-- `free` of mmu/umalloc.c on a well-formed chain.
use tinu_os.Prelude.{
  ℕ, zero, suc, ◌+◌, ◌^◌, ◌≤◌, ◌<◌, ◌≡◌, refl, sym, ap, ◌∙◌, ◌≢◌, inl, inr, Bool, true, false, ◌||◌,
  some, List, [], ◌∷◌, arith, ◌==◌, if◌then◌else◌, ==→eq, Bool-cases, length, u32, sub32,
}
use tinu_os.Memory.{Memory}
use tinu_os.Heap.{
  Heap, text, hex, print, header_size, heap_magic, next, magic, set_is_hole, find, free,
}
use tinu_os.Heap.Merge.{merge, NoneAdjacent, in_use, total, merge_lem}
use tinu_os.Heap.Coalesce.{coalesce-Coalesced}
use tinu_os.Heap.Chain.{
  Block, Apart, AllApart, Chain, SameOff-SameHeader, Describes-same, next-same, Chain-frame,
  Chain-eq, set_is_hole-SameOff, set_is_hole-fields,
}

abbrev pub has_addr : ℕ → List Block → Bool
has_addr a [] = false
has_addr a (b ∷ bs) = b.addr == a || has_addr a bs

abbrev pub freed : ℕ → Block → Block
freed a b = if b.addr == a then record b { used = 0 } else b

-- The blocks, that at `a` marked as free.
abbrev pub mark : ℕ → List Block → List Block
mark a [] = []
mark a (b ∷ bs) = freed a b ∷ mark a bs

pub length-mark : (a : ℕ) (bs : List Block) → length (mark a bs) ≡ length bs
length-mark a [] = refl
length-mark a (b ∷ bs) = ap suc (length-mark a bs)

AllApart-mark : (x a : ℕ) (bs : List Block) → AllApart x bs → AllApart x (mark a bs)
AllApart-mark x a [] h = tt
AllApart-mark x a (b ∷ bs) h = (ground arith, AllApart-mark x a bs h.1)

mark-apart : (a : ℕ) (bs : List Block) → AllApart a bs → mark a bs ≡ bs
mark-apart a [] h = refl
mark-apart a (b ∷ bs) h = ground (arith, mark-apart a bs h.1)

has_addr-Apart : (x a : ℕ) (bs : List Block) → AllApart x bs → has_addr a bs ≡ true → Apart a x
has_addr-Apart x a [] h i = cc
has_addr-Apart x a (b ∷ bs) h i = ground (arith, has_addr-Apart x a bs h.1)

-- Clearing the bit of the first block.
mark_first :
    (m : Memory) (a p : ℕ) (b : Block) (bs : List Block)
    → b.addr ≡ a
    → Chain m p (b ∷ bs)
    → Chain (set_is_hole m a 0) p (record b { used = 0 } ∷ bs)
mark_first m a p b bs e ch =
    let fields = set_is_hole-fields m a 0 in
    (
      ch.0,
      record {
        positive = ch.1.positive;
        small = ch.1.small;
        bytes = ground (arith, fields, ch.1);
        used = ground (arith, fields);
        sealed = ground (arith, fields, ch.1);
      },
      ch.2,
      Chain-eq (set_is_hole m a 0) bs (ground (arith, fields)) (
          Chain-frame a m (set_is_hole m a 0) (next m b.addr) bs (set_is_hole-SameOff m a 0)
            (rw (sym e) ch.2) ch.3),
    )

-- Clearing the bit of one block.
Chain-mark :
    (m : Memory) (a p : ℕ) (bs : List Block)
    → has_addr a bs ≡ true
    → Chain m p bs
    → Chain (set_is_hole m a 0) p (mark a bs)
Chain-mark m a p [] i ch = cc
Chain-mark m a p (b ∷ bs) i ch = elim (Bool-cases (b.addr == a)) [
  | inl hit ↦
      rw (hit, mark-apart a bs (rw (sym (==→eq b.addr a hit)) ch.2))
        (mark_first m a p b bs (==→eq b.addr a hit) ch)
  | inr miss ↦
      let there : has_addr a bs ≡ true = ground arith in
      let same =
        SameOff-SameHeader a b.addr m (set_is_hole m a 0) (set_is_hole-SameOff m a 0)
          (has_addr-Apart b.addr a bs ch.2 there) in
      let rest =
        Chain-eq (set_is_hole m a 0) (mark a bs) (next-same m (set_is_hole m a 0) b.addr same)
          (Chain-mark m a (next m b.addr) bs there ch.3) in
      rw miss (
        ch.0,
        Describes-same m (set_is_hole m a 0) b same ch.1,
        AllApart-mark b.addr a bs ch.2,
        rest,
      )
]

-- The walk of `free` ends at the block, or at NULL if there is none.
find-has_addr :
    (fuel : ℕ) (m : Memory) (a p : ℕ) (bs : List Block)
    → length bs < fuel
    → Chain m p bs
    → find fuel m a p ≡ some (if has_addr a bs then a else 0)
unfolding find
find-has_addr zero m a p bs enough ch = absurd (omega arith)
find-has_addr (suc fuel) m a p [] enough ch = ground arith
find-has_addr (suc fuel) m a p (b ∷ bs) enough ch =
    rw ch.0 (ground (arith, ch.1, find-has_addr fuel m a (next m b.addr) bs (omega arith) ch.3))

magic_of_has :
    (m : Memory) (a p : ℕ) (bs : List Block)
    → has_addr a bs ≡ true
    → Chain m p bs
    → (magic m a ≡ heap_magic) × (0 < a) × (a + header_size ≤ 2 ^ 32)
magic_of_has m a p [] i ch = cc
magic_of_has m a p (b ∷ bs) i ch = elim (Bool-cases (b.addr == a)) [
  | inl hit ↦ rw (sym (==→eq b.addr a hit)) (ch.1.sealed, ch.1.positive, ch.1.small)
  | inr miss ↦ magic_of_has m a (next m b.addr) bs (ground arith) ch.3
]

-- The pointer that `malloc` gave for the block whose header lies at `a`.
abbrev pub user_pointer : ℕ → ℕ
user_pointer a = u32 (a + header_size)

-- On a well-formed chain, and with fuel above the number of its blocks, `free` of one of them returns.
-- It marks that block as free, and the chain then stands for the list in which every run of free
-- blocks is one block. Nothing but the memory changes.
pub free-merge :
    (fuel a : ℕ) (h : Heap) (bs : List Block)
    → length bs < fuel
    → Chain h.mem h.heap_bottom bs
    → has_addr a bs ≡ true
    → (m' : Memory) × (free fuel (user_pointer a) h ≡ some (record h { mem = m' }))
      × Chain m' h.heap_bottom (merge (mark a bs))
unfolding free
free-merge fuel a h bs enough ch i =
    let known = magic_of_has h.mem a h.heap_bottom bs i ch in
    let back : sub32 (user_pointer a) header_size ≡ a = omega (arith, known) in
    let found = find-has_addr fuel h.mem a h.heap_bottom bs enough ch in
    let (m', run, done) =
      coalesce-Coalesced fuel (set_is_hole h.mem a 0) h.heap_bottom (mark a bs)
        (rw (length-mark a bs) enough) (Chain-mark h.mem a h.heap_bottom bs i ch) in
    (m', rw back (ground (arith, known, found, run)), done.chain)

total-mark : (a : ℕ) (bs : List Block) → total (mark a bs) ≡ total bs
total-mark a [] = refl
total-mark a (b ∷ bs) = ground (arith, total-mark a bs)

-- On a well-formed chain, and with fuel above the number of its blocks, `free` of one of them returns,
-- and the chain then stands for blocks of which no two next to one another are free. The used ones are
-- those from before without the one that was freed, in their order and unchanged, and no byte is lost,
-- modulo 2 ^ 32.
pub free-NoneAdjacent :
    (fuel a : ℕ) (h : Heap) (bs : List Block)
    → length bs < fuel
    → Chain h.mem h.heap_bottom bs
    → has_addr a bs ≡ true
    → (m' : Memory) × (bs' : List Block) × (free fuel (user_pointer a) h
        ≡ some (record h { mem = m' }))
      × Chain m' h.heap_bottom bs'
      × NoneAdjacent bs'
      × (in_use bs' ≡ in_use (mark a bs))
      × (u32 (total bs') ≡ u32 (total bs))
free-NoneAdjacent fuel a h bs enough ch i =
    let (m', run, chain) = free-merge fuel a h bs enough ch i in
    let (apart, used, bytes) = merge_lem (mark a bs) in
    (m', merge (mark a bs), run, chain, apart, used, bytes ∙ ap u32 (total-mark a bs))

-- On a well-formed chain, and with fuel above the number of its blocks, `free` of a pointer whose
-- header carries the magic number but is not in the chain says so, and changes nothing else.
pub free_unknown :
    (fuel a : ℕ) (h : Heap) (bs : List Block)
    → length bs < fuel
    → Chain h.mem h.heap_bottom bs
    → 0 < a
    → a + header_size ≤ 2 ^ 32
    → magic h.mem a ≡ heap_magic
    → has_addr a bs ≡ false
    → free fuel (user_pointer a) h
      ≡ some (record h {
        log =
            text " which does not exist!\n"
            ∷ hex (user_pointer a)
            ∷ text "Tried to free the memory at 0x"
            ∷ h.log;
      })
unfolding free
free_unknown fuel a h bs enough ch pos small sealed i =
    let back : sub32 (user_pointer a) header_size ≡ a = omega arith in
    rw back (ground (arith, find-has_addr fuel h.mem a h.heap_bottom bs enough ch))

-- `free` of a pointer with no magic number before it says so, and changes nothing else.
pub free_corrupted :
    (fuel ap : ℕ) (h : Heap)
    → magic h.mem (sub32 ap header_size) ≢ heap_magic
    → free fuel ap h ≡ some (print (text "Free() is corrupted!\n") h)
unfolding free
free_corrupted fuel ap h bad = ground arith
