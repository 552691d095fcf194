-- ===== src/PageAlloc/Sharing/Unlocked.antt =====
-- What mmu/kmalloc.c does on several processors as kinit1 leaves it, without the lock.
use tinu_os.Prelude.{ℕ, ◌≡◌, refl, ◌≢◌, true, false, Option, some, arith, ◌==◌}
use tinu_os.Memory.{Memory, load32}
use tinu_os.Spinlock.{Lock}
use tinu_os.PageAlloc.Sharing.{
  Shared, move, assign, ask, pass_by, look, unlink, Reach, here, next, wants, looks, saw, took,
}
use tinu_os.PageAlloc.Sharing.Exclusive.{at_start}

-- Without the lock, as kinit1 leaves it, two processors can be given the same page, whatever the memory and the list hold,
-- when the list is not empty: both come to stand behind the change of the list in `kalloc` with its first page.
pub kalloc-shared :
    (lk : Lock) (mem : Memory) (freelist : ℕ) (owner : ℕ → Option ℕ) (i j : ℕ)
    → freelist ≢ 0
    → i ≢ j
    → (t : Shared) × Reach (at_start 0 lk mem freelist owner) t
      × (t.pc i ≡ took freelist)
      × (t.pc j ≡ took freelist)
kalloc-shared lk mem freelist owner i j some_page apart =
    let s0 : Shared = at_start 0 lk mem freelist owner in
    let s1 : Shared = record s0 { pc = move s0.pc i wants } in
    let s2 : Shared = record s1 { pc = move s1.pc j wants } in
    let s3 : Shared = record s2 { pc = move s2.pc i looks } in
    let s4 : Shared = record s3 { pc = move s3.pc j looks } in
    let s5 : Shared = record s4 { pc = move s4.pc i (saw freelist) } in
    let s6 : Shared = record s5 { pc = move s5.pc j (saw freelist) } in
    let owned = assign owner freelist (some i) in
    let s7 : Shared = record s6 {
      freelist = load32 mem freelist;
      pc = move s6.pc i (took freelist);
      owner = owned;
    } in
    let s8 : Shared = record s7 {
      freelist = load32 mem freelist;
      pc = move s7.pc j (took freelist);
      owner = assign owned freelist (some j);
    } in
    let ij : (i == j) ≡ false = ground (arith, apart) in
    let ji : (j == i) ≡ false = ground (arith, apart) in
    let ii : (i == i) ≡ true = ground arith in
    let jj : (j == j) ≡ true = ground arith in
    let r1 : Reach s0 s1 = next here (ask i refl) in
    let r2 : Reach s0 s2 = next r1 (ask j (rw ji refl)) in
    let r3 : Reach s0 s3 = next r2 (pass_by i (rw (ij, ii) refl) refl) in
    let r4 : Reach s0 s4 = next r3 (pass_by j (rw (ji, jj) refl) refl) in
    let r5 : Reach s0 s5 = next r4 (look i (rw (ij, ii) refl)) in
    let r6 : Reach s0 s6 = next r5 (look j (rw (ji, jj) refl)) in
    let r7 : Reach s0 s7 = next r6 (unlink i freelist (rw (ij, ii) refl) some_page) in
    let r8 : Reach s0 s8 = next r7 (unlink j freelist (rw (ji, jj) refl) some_page) in
    (s8, r8, rw (ij, ii) refl, rw jj refl)
