-- ===== src/Heap.antt =====
-- mmu/umalloc.c: the heap of variable-size blocks behind `malloc` and `free`.
-- `header_t` takes 16 bytes: `size` at 0, `next` at 4, `magic` at 8 and the bit `is_hole` at 12. The
-- field is named the other way round: 1 is a used block and 0 a free one.
-- Memory is total, since page 0 is mapped and a read through NULL yields whatever lies there. The
-- loops along the chain run on fuel; `none` means that it ran out.
pub mod Power
pub mod Break
pub mod Chain
pub mod Merge
pub mod Coalesce
pub mod Release
pub mod Grow
pub mod Carve
pub mod Split
pub mod Order
pub mod History
pub mod Leak
use Prim.Native.String.{String}
use tinu_os.Prelude.{
  ℕ, zero, suc, ◌+◌, ◌*◌, ◌/◌, ◌%◌, ◌^◌, ap, not, ◌&&◌, Option, none, some, List, ◌∷◌, ltb, leb,
  ◌==◌, if◌then◌else◌, u32, sub32, ◌>>=◌,
}
use tinu_os.Memory.{Memory, load32, store32}

abbrev pub heap_magic : ℕ
heap_magic = 0xdead_beef

abbrev pub max_heap : ℕ
max_heap = 500_000

abbrev pub header_size : ℕ
header_size = 16

-- The fields of `header_t`.
unfoldable pub size : Memory → ℕ → ℕ
size m a = load32 m a

unfoldable pub next : Memory → ℕ → ℕ
next m a = load32 m (a + 4)

unfoldable pub magic : Memory → ℕ → ℕ
magic m a = load32 m (a + 8)

unfoldable pub is_hole : Memory → ℕ → ℕ
is_hole m a = load32 m (a + 12) % 2

unfoldable pub set_size : Memory → ℕ → ℕ → Memory
set_size m a v = store32 m a v

unfoldable pub set_next : Memory → ℕ → ℕ → Memory
set_next m a v = store32 m (a + 4) v

unfoldable pub set_magic : Memory → ℕ → ℕ → Memory
set_magic m a v = store32 m (a + 8) v

unfoldable pub set_is_hole : Memory → ℕ → ℕ → Memory
set_is_hole m a v = store32 m (a + 12) (load32 m (a + 12) / 2 * 2 + v % 2)

-- What the file prints: a text by `kprintf`, a number by `terminal_write_hex`.
pub data Message : Type 0 where
  text : String → Message
  hex : ℕ → Message

-- The static variables of the file, `heap` being the address of the array, with the memory and what
-- was printed, newest first.
pub record Heap : Type 0 where
  pub mem : Memory
  pub heap : ℕ
  pub heap_bottom : ℕ
  pub heap_top : ℕ
  pub g_kbrk : ℕ
  pub log : List Message

abbrev pub print : Message → Heap → Heap
print s h = record h { log = s ∷ h.log }

-- `float_bits v` are the bits of `(float)v`: what a conversion gives is a parameter.
unfoldable pub next_power_of_two : (ℕ → ℕ) → ℕ → ℕ
next_power_of_two float_bits v =
    if ltb 1 v
    then (let t : ℕ = u32 (2 ^ sub32 (float_bits v / 2 ^ 23) 0x7f) in
        u32 (t * 2 ^ (if ltb t v then 1 else 0)))
    else 1

-- `if (heap_bottom == NULL) …`
unfoldable pub set_up : Heap → Heap
set_up h =
    if h.heap_bottom == 0
    then record h { heap_bottom = h.heap; g_kbrk = h.heap; heap_top = u32 (h.heap + max_heap) }
    else h

-- `new_brk` is set in both `if`s; the second, which always runs, is the one that counts.
unfoldable pub ksbrk : ℕ → Heap → ℕ × Heap
ksbrk allocate h =
    if allocate == 0
    then (0, print (text "Could not allocate NULL block!\n") h)
    else (let h' = set_up h in
        let new_brk = u32 (h'.g_kbrk + allocate) in
        if leb new_brk h'.heap_bottom
        then (0, h')
        else if leb h'.heap_top new_brk
        then (0, h')
        else (h'.g_kbrk, record h' { g_kbrk = new_brk }))

-- The inner loop of `free`: a free block swallows the free blocks behind it.
unfoldable pub absorb : ℕ → Memory → ℕ → Option Memory
absorb zero m a = none
absorb (suc fuel) m a =
    let n : ℕ = next m a in
    let grown = set_size m a (u32 (size m a + u32 (size m n + header_size))) in
    let rest = absorb fuel (set_next grown a (next grown n)) a in
    if is_hole m a == 0 && (is_hole m n == 0 && not (n == 0)) then rest else some m

-- The outer loop.
unfoldable pub coalesce : ℕ → Memory → ℕ → Option Memory
coalesce zero m a = none
coalesce (suc fuel) m a =
    let rest = absorb (suc fuel) m a >>= (λ m'. coalesce fuel m' (next m' a)) in
    if a == 0 then some m else rest

-- `for (; n != NULL; n = n->next) if (n == m) break;`
unfoldable pub find : ℕ → Memory → ℕ → ℕ → Option ℕ
find zero m a n = none
find (suc fuel) m a n =
    let rest = find fuel m a (next m n) in
    if n == 0 then some n else if n == a then some n else rest

-- `free` once the walk along the chain has ended at `n`.
unfoldable pub free_found : ℕ → ℕ → ℕ → ℕ → Heap → Option Heap
free_found fuel ap m n h =
    if n == 0
    then some (
        print (text " which does not exist!\n")
          (print (hex ap) (print (text "Tried to free the memory at 0x") h)))
    else coalesce fuel (set_is_hole h.mem m 0) h.heap_bottom
      >>= (λ mem. some (record h { mem = mem }))

unfoldable pub free : ℕ → ℕ → Heap → Option Heap
unfolding free_found
free fuel ap h =
    let m = sub32 ap header_size in
    if not (magic h.mem m == heap_magic)
    then some (print (text "Free() is corrupted!\n") h)
    else find fuel h.mem m h.heap_bottom >>= (λ n. free_found fuel ap m n h)

-- The `else` of the loop in `malloc`: the block `m` is cut at `total_size` bytes.
unfoldable pub split : Memory → ℕ → ℕ → ℕ → Memory
split mem m asked total_size =
    let n = u32 (m + total_size) in
    let mem = set_size mem n (sub32 (size mem m) total_size) in
    let mem = set_magic mem n heap_magic in
    let mem = set_next mem n (next mem m) in
    let mem = set_is_hole mem n 0 in
    let mem = set_size mem m asked in let mem = set_next mem m n in set_is_hole mem m 1

-- The loop: the first block that is not used.
unfoldable pub first_free : ℕ → Memory → ℕ → Option ℕ
first_free zero mem m = none
first_free (suc fuel) mem m =
    let rest = first_free fuel mem (next mem m) in
    if m == 0 then some m else if is_hole mem m == 1 then rest else some m

-- The end of `malloc`: a new block from `ksbrk`.
unfoldable pub new_block : ℕ → ℕ → Heap → ℕ × Heap
new_block asked total_size h =
    let (p, h') = ksbrk total_size h in
    if p == 0
    then (0, h')
    else (let mem = set_size h'.mem p asked in
        let mem = set_magic mem p heap_magic in
        let mem = set_is_hole mem p 1 in
        (u32 (p + header_size), record h' { mem = set_next mem p 0 }))

-- `malloc` once the walk along the chain has ended at `m`.
unfoldable pub malloc_found : ℕ → ℕ → ℕ → Heap → ℕ × Heap
malloc_found asked total_size m h =
    if m == 0
    then new_block asked total_size h
    else (u32 (m + header_size), record h { mem = split h.mem m asked total_size })

unfoldable pub malloc : (ℕ → ℕ) → ℕ → ℕ → Heap → Option (ℕ × Heap)
unfolding malloc_found
malloc float_bits fuel asked h =
    let total_size = u32 (next_power_of_two float_bits asked + header_size) in
    if asked == 0
    then some (0, h)
    else if h.heap_bottom == 0
    then some (new_block asked total_size h)
    else if not (magic h.mem h.heap_bottom == heap_magic)
    then some (0, print (text "Malloc() is corrupted!\n") h)
    else first_free fuel h.mem h.heap_bottom >>= (λ m. some (malloc_found asked total_size m h))
