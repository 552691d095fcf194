-- ===== src/PageAlloc/Sharing/Pages.antt =====
-- The pages of the shared list of mmu/kmalloc.c, and writes to other pages.
use tinu_os.Prelude.{
  ℕ, ◌+◌, ◌≤◌, ◌<◌, ◌≡◌, sym, ap, ◌∙◌, ◌≢◌, ◌⊎◌, false, Option, none, some, List, [], ◌∷◌, arith,
  ◌==◌,
}
use tinu_os.Memory.{Memory, load32, store32, memset}
use tinu_os.Memory.Frame.{load32-store32_ne, load32-memset_ne}
use tinu_os.Layout.{page_size}
use tinu_os.PageAlloc.FreeList.{IsPage, Fresh, FreeList}
use tinu_os.PageAlloc.Sharing.{assign}

-- The pages of the list are nobody's.
abbrev pub Unowned : (ℕ → Option ℕ) → List ℕ → Type 0
Unowned owner [] = Unit
Unowned owner (q ∷ qs) = (owner q ≡ none) × Unowned owner qs

pub Fresh-owned :
    (owner : ℕ → Option ℕ) (p i : ℕ) (ps : List ℕ)
    → owner p ≡ some i
    → Unowned owner ps
    → Fresh p ps
Fresh-owned owner p i [] e u = tt
Fresh-owned owner p i (q ∷ qs) e u =
    (λ same. cc (sym e ∙ ap owner same ∙ u.0), Fresh-owned owner p i qs e u.1)

pub Unowned-assign :
    (owner : ℕ → Option ℕ) (p : ℕ) (o : Option ℕ) (ps : List ℕ)
    → Fresh p ps
    → Unowned owner ps
    → Unowned (assign owner p o) ps
Unowned-assign owner p o [] f u = tt
Unowned-assign owner p o (q ∷ qs) f u =
    let other : (q == p) ≡ false = ground (arith, f.0) in
    (rw other u.0, Unowned-assign owner p o qs f.1 u.1)

pub Unowned-free :
    (owner : ℕ → Option ℕ) (p : ℕ) (ps : List ℕ)
    → Unowned owner ps
    → Unowned (assign owner p none) ps
Unowned-free owner p [] u = tt
Unowned-free owner p (q ∷ qs) u = (ground (arith, u.0), Unowned-free owner p qs u.1)

-- A list outlives writes to a page that is not in it.
pub FreeList-same :
    (m m' : Memory) (p start : ℕ) (ps : List ℕ)
    → ((q : ℕ) → IsPage q → q ≢ p → load32 m' q ≡ load32 m q)
    → Fresh p ps
    → FreeList m start ps
    → FreeList m' start ps
FreeList-same m m' p start [] same f l = l
FreeList-same m m' p start (q ∷ qs) same f l =
    let e = same q l.1 (λ back. f.0 (sym back)) in
    (l.0, l.1, l.2, rw e (FreeList-same m m' p (load32 m q) qs same f.1 l.3))

pub wiped_elsewhere :
    (m : Memory) (p q : ℕ)
    → IsPage p
    → IsPage q
    → q ≢ p
    → load32 (memset m p 1 page_size) q ≡ load32 m q
wiped_elsewhere m p q hp hq ne = load32-memset_ne m p 1 page_size q apart
  where
    apart : (p + page_size ≤ q) ⊎ (q + 4 ≤ p)
    apart = omega arith

pub linked_elsewhere :
    (m : Memory) (p q v : ℕ) → IsPage p → IsPage q → q ≢ p → load32 (store32 m p v) q ≡ load32 m q
linked_elsewhere m p q v hp hq ne = load32-store32_ne m p q v apart
  where
    apart : (p + 4 ≤ q) ⊎ (q + 4 ≤ p)
    apart = omega arith

pub written_elsewhere :
    (m m' : Memory) (p q : ℕ)
    → IsPage p
    → IsPage q
    → q ≢ p
    → ((x : ℕ) → (x < p) ⊎ (p + page_size ≤ x) → m' x ≡ m x)
    → load32 m' q ≡ load32 m q
unfolding load32
written_elsewhere m m' p q hp hq ne same =
    let apart : (p + page_size ≤ q) ⊎ (q + 4 ≤ p) = omega (arith, hp.aligned, hq.aligned) in
    omega (
      arith,
      same q (omega (arith, apart)),
      same (q + 1) (omega (arith, apart)),
      same (q + 2) (omega (arith, apart)),
      same (q + 3) (omega (arith, apart)),
    )
