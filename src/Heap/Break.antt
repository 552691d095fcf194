-- ===== src/Heap/Break.antt =====
-- `ksbrk` of mmu/umalloc.c: the end of the heap only moves up, and never past the array.
use tinu_os.Prelude.{ℕ, ◌+◌, ◌^◌, ◌≤◌, ◌<◌, ◌≡◌, ◌≢◌, ◌⊎◌, arith, ltb, ◌==◌, if◌then◌else◌}
use tinu_os.Heap.{Heap, max_heap, set_up, ksbrk}

-- The array lies in the address space, and the break between its ends. Before the first call the
-- three pointers are NULL.
pub record IsBounded (h : Heap) : Type 0 where
  pub placed : 0 < h.heap
  pub fits : h.heap + max_heap < 2 ^ 32
  pub unset_or_set :
      (h.heap_bottom ≡ 0)
      ⊎ (h.heap_bottom ≡ h.heap)
        × (h.heap_top ≡ h.heap + max_heap)
        × (h.heap ≤ h.g_kbrk)
        × (h.g_kbrk < h.heap + max_heap)

-- Where the next block will start.
abbrev pub break_of : Heap → ℕ
break_of h = if h.heap_bottom == 0 then h.heap else h.g_kbrk

-- `ksbrk` keeps its pointers inside the array on every branch, whatever the request, negative ones
-- included.
pub ksbrk-IsBounded : (allocate : ℕ) (h : Heap) → IsBounded h → IsBounded (ksbrk allocate h).1
unfolding ksbrk set_up
ksbrk-IsBounded allocate h b = ground arith

-- With the pointers in the array, a positive request below 2 ^ 31 is granted exactly if it ends before
-- the end of the array. Then it starts at the old break, the break moves up by just that much, and
-- memory is as it was. If not, the result is NULL and the break stays.
pub ksbrk-grant :
    (allocate : ℕ) (h : Heap)
    → IsBounded h
    → 0 < allocate
    → allocate < 2 ^ 31
    → let (p, h') = ksbrk allocate h in
      (p ≡ (if ltb (break_of h + allocate) (h.heap + max_heap) then break_of h else 0))
      × (break_of h' ≡ (
          if ltb (break_of h + allocate) (h.heap + max_heap)
          then break_of h + allocate
          else break_of h))
      × (h'.heap_bottom ≡ h.heap)
      × (h'.mem ≡ h.mem)
      × (h'.heap ≡ h.heap)
unfolding ksbrk set_up
ksbrk-grant allocate h b pos small = ground arith

-- With the pointers in the array, two positive requests below 2 ^ 31 that are both granted get ranges
-- that do not overlap, inside the array.
pub ksbrk-disjoint :
    (n k : ℕ) (h : Heap)
    → IsBounded h
    → 0 < n
    → n < 2 ^ 31
    → 0 < k
    → k < 2 ^ 31
    → let (p, h') = ksbrk n h in
      let (q, _) = ksbrk k h' in
      p ≢ 0 → q ≢ 0 → (h.heap ≤ p) × (p + n ≤ q) × (q + k < h.heap + max_heap)
ksbrk-disjoint n k h b pn sn pk sk hp hq = ground (
  arith,
  b,
  ksbrk-IsBounded n h b,
  ksbrk-grant n h b pn sn,
  ksbrk-grant k (ksbrk n h).1 (ksbrk-IsBounded n h b) pk sk,
)
