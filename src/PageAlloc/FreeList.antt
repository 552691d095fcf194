-- ===== src/PageAlloc/FreeList.antt =====
-- What the free list of mmu/kmalloc.c stands for: a chain of distinct pages through memory.
use tinu_os.Prelude.{ℕ, ◌+◌, ◌%◌, ◌^◌, ◌≤◌, ◌<◌, ◌≡◌, refl, ◌∙◌, ◌≢◌, ◌⊎◌, List, [], ◌∷◌, arith}
use tinu_os.Memory.{Memory, load32, store32, memset}
use tinu_os.Memory.Frame.{load32-store32_self, load32-store32_ne, load32-memset_ne}
use tinu_os.Layout.{page_size}

-- The address of a page, other than the page at NULL.
pub record IsPage (p : ℕ) : Type 0 where
  pub aligned : p % page_size ≡ 0
  pub nonzero : 0 < p
  pub small : p < 2 ^ 32

abbrev pub Fresh : ℕ → List ℕ → Type 0
Fresh p [] = Unit
Fresh p (q ∷ qs) = (p ≢ q) × Fresh p qs

-- From `p`, the first words lead through the pages `ps` to NULL.
abbrev pub FreeList : Memory → ℕ → List ℕ → Type 0
FreeList m p [] = p ≡ 0
FreeList m p (q ∷ qs) = (p ≡ q) × IsPage q × Fresh q qs × FreeList m (load32 m q) qs

abbrev pub linked : Memory → ℕ → ℕ → Memory
linked m p head = store32 (memset m p 1 page_size) p head

-- The words at other pages survive `kfree`.
load32-linked_ne :
    (m : Memory) (p head q : ℕ)
    → IsPage p
    → IsPage q
    → p ≢ q
    → load32 (linked m p head) q ≡ load32 m q
load32-linked_ne m p head q hp hq ne =
    load32-store32_ne (memset m p 1 page_size) p q head (omega arith)
    ∙ load32-memset_ne m p 1 page_size q apart
  where
    apart : (p + page_size ≤ q) ⊎ (q + 4 ≤ p)
    apart = omega arith

FreeList-linked :
    (m : Memory) (p head : ℕ)
    → IsPage p
    → (start : ℕ) (ps : List ℕ) → Fresh p ps
    → FreeList m start ps
    → FreeList (linked m p head) start ps
FreeList-linked m p head hp start [] fresh l = l
FreeList-linked m p head hp start (q ∷ qs) fresh l = (
  l.0,
  l.1,
  l.2,
  FreeList-linked m p head hp (load32 (linked m p head) q) qs fresh.1
      (rw (load32-linked_ne m p head q hp l.1 fresh.0) l.3),
)

-- Linking a fresh page in front of the list.
pub FreeList-cons :
    (m : Memory) (p head : ℕ) (ps : List ℕ)
    → IsPage p
    → head < 2 ^ 32
    → Fresh p ps
    → FreeList m head ps
    → FreeList (linked m p head) p (p ∷ ps)
FreeList-cons m p head ps hp small fresh l =
    (refl, hp, fresh, rw first (FreeList-linked m p head hp head ps fresh l))
  where
    first : load32 (linked m p head) p ≡ head
    first = load32-store32_self (memset m p 1 page_size) p head ∙ omega arith

pub head-lt : (m : Memory) (head : ℕ) (ps : List ℕ) → FreeList m head ps → head < 2 ^ 32
head-lt m head [] l = omega arith
head-lt m head (q ∷ qs) l = omega arith

pub FreeList-eq :
    {m m' : Memory} {p p' : ℕ} (ps : List ℕ) → m' ≡ m → p' ≡ p → FreeList m p ps → FreeList m' p' ps
FreeList-eq ps e f l = rw (e, f) l
