-- ===== src/Paging/Ready.antt =====
-- The round of `mappages` of mmu/mmu.c, and when the free pages are out of its way.
use tinu_os.Prelude.{
  ℕ, ◌+◌, ◌*◌, ◌%◌, ◌≤◌, bit_or, ◌≡◌, ap, ◌∙◌, ◌≢◌, ◌⊎◌, Bool, none, some, List, [], ◌∷◌, arith,
  if◌then◌else◌,
}
use tinu_os.Prelude.Bits.{bit_and_mask}
use tinu_os.Memory.{Memory, load32, store32}
use tinu_os.Memory.Frame.{load32-store32_self, load32-store32_ne}
use tinu_os.Layout.{page_size, pte_p}
use tinu_os.Layout.Rounding.{pte-div}
use tinu_os.PageAlloc.{Kmem}
use tinu_os.PageAlloc.FreeList.{IsPage}
use tinu_os.Paging.{table_slot, map_page}
use tinu_os.Paging.Walk.{SameLinks, FreeList-same, IsDirectory}

-- The word at `a` lies in none of the pages.
abbrev pub OutsidePages : ℕ → List ℕ → Type 0
OutsidePages a [] = Unit
OutsidePages a (q ∷ qs) = ((a + 4 ≤ q) ⊎ (q + page_size ≤ a)) × OutsidePages a qs

-- A directory with no present entry, and an unset variable that points to none of the pages.
pub record IsReady (k : Kmem) (pgdir pointer : ℕ) (ps : List ℕ) : Type 0 where
  pub directory : IsDirectory k pgdir ps
  pub outside : OutsidePages pointer (pgdir ∷ ps)

SameLinks-store32 :
    (m : Memory) (a v : ℕ) (ps : List ℕ) → OutsidePages a ps → SameLinks m (store32 m a v) ps
SameLinks-store32 m a v [] h = tt
SameLinks-store32 m a v (q ∷ qs) h =
    (load32-store32_ne m a q v (omega arith), SameLinks-store32 m a v qs h.1)

pub IsReady-store32 :
    (k : Kmem) (pgdir pointer v : ℕ) (ps : List ℕ)
    → IsReady k pgdir pointer ps
    → IsReady (record k { mem = store32 k.mem pointer v }) pgdir pointer ps
IsReady-store32 k pgdir pointer v ps r =
    let d = r.directory in
    let out = r.outside.0 in
    record {
      directory = record {
        stack = record {
          chain =
              FreeList-same k.mem (store32 k.mem pointer v) k.freelist ps
                (SameLinks-store32 k.mem pointer v ps r.outside.1) d.stack.chain;
          available = d.stack.available;
        };
        page = d.page;
        apart = d.apart;
        absent = λ i h.
            ap (λ (t : ℕ). t % 2) (load32-store32_ne k.mem pointer (pgdir + i * 4) v (omega arith))
            ∙ d.absent i h;
      };
      outside = r.outside;
    }

-- What a round leaves when the walk gave it a place other than NULL.
pub map_page_lem :
    (pointer pa perm slot : ℕ) (last : Bool) (k : Kmem)
    → slot ≢ 0
    → map_page pointer pa perm last slot k ≡ (
      if last then some 0 else none,
      record k { mem = store32 (store32 k.mem pointer 0) pointer (bit_or (bit_or pa perm) pte_p) },
    )
unfolding map_page
map_page_lem pointer pa perm slot last k h =
    let back = load32-store32_self k.mem pointer 0 in
    ground (arith, back, bit_and_mask 1 (load32 (store32 k.mem pointer 0) pointer))

pub IsReady-map_page :
    (k : Kmem) (pgdir pointer v w : ℕ) (ps : List ℕ)
    → IsReady k pgdir pointer ps
    → IsReady (record k { mem = store32 (store32 k.mem pointer v) pointer w }) pgdir pointer ps
IsReady-map_page k pgdir pointer v w ps r =
    IsReady-store32 (record k { mem = store32 k.mem pointer v }) pgdir pointer w ps
      (IsReady-store32 k pgdir pointer v ps r)

pub table_slot-ne-zero : (p va : ℕ) → IsPage p → table_slot p va ≢ 0
unfolding table_slot
table_slot-ne-zero p va page = omega (arith, page, pte-div va)
