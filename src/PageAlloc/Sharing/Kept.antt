-- ===== src/PageAlloc/Sharing/Kept.antt =====
-- What each access to the shared list of mmu/kmalloc.c leaves.
use tinu_os.Prelude.{
  ℕ, ◌+◌, ◌≤◌, ◌<◌, ◌≡◌, refl, sym, ap, ◌∙◌, ◌≢◌, ◌⊎◌, inl, inr, true, none, some, List, [], ◌∷◌,
  arith, ◌==◌, Bool-cases,
}
use tinu_os.Memory.{Memory, load32, store32, memset}
use tinu_os.Memory.Frame.{load32-store32_self}
use tinu_os.Layout.{page_size}
use tinu_os.Spinlock.{Lock}
use tinu_os.PageAlloc.FreeList.{IsPage, FreeList, head-lt}
use tinu_os.PageAlloc.Sharing.{
  Pc, Shared, move, assign, is_inside, page_of, idle, gave, saw, took, returns, links, linked,
}
use tinu_os.PageAlloc.Sharing.Locked.{IsLocked, no_other}
use tinu_os.PageAlloc.Sharing.Pages.{
  Unowned, Fresh-owned, Unowned-assign, Unowned-free, FreeList-same, wiped_elsewhere,
  linked_elsewhere, written_elsewhere,
}

-- What holds of the list and of the pages on their way to it, whatever stands in the lock.
pub record IsKept (s : Shared) (ps : List ℕ) : Type 0 where
  pub chain : FreeList s.mem s.freelist ps
  pub unowned : Unowned s.owner ps
  pub seen : (i r : ℕ) → s.pc i ≡ saw r → r ≡ s.freelist
  pub owned : (i p : ℕ) → page_of (s.pc i) ≡ some p → (s.owner p ≡ some i) × IsPage p
  pub next_set : (i p : ℕ) → s.pc i ≡ linked p → load32 s.mem p ≡ s.freelist

-- The steps that change nothing but where one processor stands, and the lock.
pub moved-IsKept :
    (s : Shared) (ps : List ℕ) (i : ℕ) (p : Pc) (lk : Lock)
    → IsKept s ps
    → ((r : ℕ) → p ≡ saw r → r ≡ s.freelist)
    → ((q : ℕ) → page_of p ≡ some q → page_of (s.pc i) ≡ some q)
    → ((q : ℕ) → p ≢ linked q)
    → IsKept (record s { lock = lk; pc = move s.pc i p }) ps
moved-IsKept s ps i p lk x sees same unlinked = record {
  chain = x.chain;
  unowned = x.unowned;
  seen = λ k r e. ground (arith, x.seen k r, sees r);
  owned = λ k q e. ground (arith, x.owned k q, same q, x.owned i q);
  next_set = λ k q e. ground (arith, x.next_set k q, unlinked q);
}

-- The first page of the list is unlinked.
pub unlink-IsKept :
    (s : Shared) (ps : List ℕ) (i r : ℕ)
    → IsLocked s
    → IsKept s ps
    → s.pc i ≡ saw r
    → r ≢ 0
    → (s.owner r ≡ none)
      × (qs : List ℕ) × IsKept
          (record s {
            freelist = load32 s.mem r;
            pc = move s.pc i (took r);
            owner = assign s.owner r (some i);
          })
          qs
unlink-IsKept s [] i r lk x e ne = absurd (ne (x.seen i r e ∙ x.chain))
unlink-IsKept s (q ∷ qs) i r lk x e ne =
    let head : r ≡ q = x.seen i r e ∙ x.chain.0 in
    let inside : is_inside (s.pc i) ≡ true = ap is_inside e in
    let nobody : s.owner r ≡ none = rw head x.unowned.0 in
    (
      nobody,
      qs,
      record {
        chain = rw head x.chain.3;
        unowned = Unowned-assign s.owner r (some i) qs (rw head x.chain.2) x.unowned.1;
        seen = λ k t f. ground (arith, no_other s i k (saw t) lk inside);
        owned = λ k p f. ground (arith, x.owned k p, nobody);
        next_set = λ k p f. ground (arith, no_other s i k (linked p) lk inside);
      },
    )

pub wipe-IsKept :
    (s : Shared) (ps : List ℕ) (i p : ℕ)
    → IsKept s ps
    → s.pc i ≡ idle
    → IsPage p
    → s.owner p ≡ some i
    → IsKept (record s { mem = memset s.mem p 1 page_size; pc = move s.pc i (returns p) }) ps
wipe-IsKept s ps i p x e good o = record {
  chain =
      FreeList-same s.mem (memset s.mem p 1 page_size) p s.freelist ps
        (λ q h ne. wiped_elsewhere s.mem p q good h ne) (Fresh-owned s.owner p i ps o x.unowned)
        x.chain;
  unowned = x.unowned;
  seen = λ k r f. ground (arith, x.seen k r);
  owned = λ k q f. ground (arith, x.owned k q, good, o);
  next_set = λ k q f. elim (Bool-cases (k == i)) [
    | inl own ↦ absurd (ground arith)
    | inr other ↦
        let f' : s.pc k ≡ linked q = rw other at f in
        let theirs = x.owned k q (ap page_of f') in
        let apart : q ≢ p = λ same. ground arith in
        wiped_elsewhere s.mem p q good theirs.1 apart ∙ x.next_set k q f'
  ];
}

pub link-IsKept :
    (s : Shared) (ps : List ℕ) (i p : ℕ)
    → IsLocked s
    → IsKept s ps
    → s.pc i ≡ links p
    → IsKept (record s { mem = store32 s.mem p s.freelist; pc = move s.pc i (linked p) }) ps
link-IsKept s ps i p lk x e =
    let inside : is_inside (s.pc i) ≡ true = ap is_inside e in
    let mine = x.owned i p (ap page_of e) in
    let small = head-lt s.mem s.freelist ps x.chain in
    record {
      chain =
          FreeList-same s.mem (store32 s.mem p s.freelist) p s.freelist ps
            (λ q h ne. linked_elsewhere s.mem p q s.freelist mine.1 h ne)
            (Fresh-owned s.owner p i ps mine.0 x.unowned) x.chain;
      unowned = x.unowned;
      seen = λ k r f. ground (arith, x.seen k r);
      owned = λ k q f. ground (arith, x.owned k q, mine);
      next_set = λ k q f. elim (Bool-cases (k == i)) [
        | inl own ↦
            let same : p ≡ q = ground arith in
            let written : load32 (store32 s.mem p s.freelist) p ≡ s.freelist =
              load32-store32_self s.mem p s.freelist ∙ omega arith in
            rw (sym same) written
        | inr other ↦
            let f' : s.pc k ≡ linked q = rw other at f in
            absurd (ground (arith, no_other s i k (linked q) lk inside (ground arith) f'))
      ];
    }

pub put-IsKept :
    (s : Shared) (ps : List ℕ) (i p : ℕ)
    → IsLocked s
    → IsKept s ps
    → s.pc i ≡ linked p
    → IsKept
        (record s { freelist = p; pc = move s.pc i gave; owner = assign s.owner p none })
        (p ∷ ps)
put-IsKept s ps i p lk x e =
    let inside : is_inside (s.pc i) ≡ true = ap is_inside e in
    let mine = x.owned i p (ap page_of e) in
    record {
      chain = (
        refl,
        mine.1,
        Fresh-owned s.owner p i ps mine.0 x.unowned,
        rw (x.next_set i p e) x.chain,
      );
      unowned = (ground arith, Unowned-free s.owner p ps x.unowned);
      seen = λ k r f. ground (arith, no_other s i k (saw r) lk inside);
      owned = λ k q f. ground (arith, x.owned k q, mine);
      next_set = λ k q f. ground (arith, no_other s i k (linked q) lk inside);
    }

-- A processor writes to a page of its own.
pub write-IsKept :
    (s : Shared) (ps : List ℕ) (i p : ℕ) (mem' : Memory)
    → IsKept s ps
    → s.pc i ≡ idle
    → IsPage p
    → s.owner p ≡ some i
    → ((x : ℕ) → (x < p) ⊎ (p + page_size ≤ x) → mem' x ≡ s.mem x)
    → IsKept (record s { mem = mem' }) ps
write-IsKept s ps i p mem' x e good o same = record {
  chain =
      FreeList-same s.mem mem' p s.freelist ps
        (λ q h ne. written_elsewhere s.mem mem' p q good h ne same)
        (Fresh-owned s.owner p i ps o x.unowned) x.chain;
  unowned = x.unowned;
  seen = x.seen;
  owned = x.owned;
  next_set = λ k q f.
      let theirs = x.owned k q (ap page_of f) in
      let apart : q ≢ p = λ back. ground arith in
      written_elsewhere s.mem mem' p q good theirs.1 apart same ∙ x.next_set k q f;
}
