-- ===== src/Spinlock/Exclusion.antt =====
-- mmu/spinlock.c on several processors: `acquire` and `release` interleaved at the atomic exchange
-- and at the store that frees the lock.
use tinu_os.Prelude.{ℕ, ◌≡◌, arith, ◌==◌, if◌then◌else◌}
use tinu_os.Spinlock.{Lock, xchg, initlock}

-- Where a processor stands: outside, in the `while` of `acquire`, or between `acquire` and `release`.
pub data Pc : Type 0 where
  outside spinning inside : Pc

pub record System : Type 0 where
  pub lock : Lock
  pub pc : ℕ → Pc

abbrev pub move : (ℕ → Pc) → ℕ → Pc → ℕ → Pc
move f i p j = if j == i then p else f j

-- One exchange by a processor in the loop.
abbrev pub after_xchg : ℕ → Pc
after_xchg old = if old == 0 then inside else spinning

pub data Step (s : System) : System → Type 0 where
  enter : (i : ℕ) → s.pc i ≡ outside → Step s (record s { pc = move s.pc i spinning })
  exchange :
      (i : ℕ)
      → s.pc i ≡ spinning
      → Step s
          (record { lock = (xchg s.lock 1).1; pc = move s.pc i (after_xchg (xchg s.lock 1).0) })
  leave :
      (i : ℕ)
      → s.pc i ≡ inside
      → Step s (record { lock = record s.lock { locked = 0 }; pc = move s.pc i outside })

pub data Reach (s : System) : System → Type 0 where
  here : Reach s s
  next : {t u : System} → Reach s t → Step t u → Reach s u

-- Who is inside holds the lock, and is alone.
pub record IsExclusive (s : System) : Type 0 where
  pub held : (i : ℕ) → s.pc i ≡ inside → s.lock.locked ≡ 1
  pub alone : (i j : ℕ) → s.pc i ≡ inside → s.pc j ≡ inside → i ≡ j

pub Step-IsExclusive : {s t : System} → Step s t → IsExclusive s → IsExclusive t
Step-IsExclusive {s} (enter i p) x = record {
  held = λ k q. ground (arith, x.held k);
  alone = λ k l q r. ground (arith, x.alone k l);
}
Step-IsExclusive {s} (exchange i p) x = record {
  held = λ k q. unfold xchg in ground (arith, x.held k);
  alone = λ k l q r. unfold xchg in ground (arith, x.alone k l, x.held k, x.held l);
}
Step-IsExclusive {s} (leave i p) x = record {
  held = λ k q. ground (arith, x.held k, x.alone k i);
  alone = λ k l q r. ground (arith, x.alone k l);
}

Reach-IsExclusive : {s t : System} → IsExclusive s → Reach s t → IsExclusive t
Reach-IsExclusive x here = x
Reach-IsExclusive x (next r st) = Step-IsExclusive st (Reach-IsExclusive x r)

-- From a state with every processor outside and the lock just initialised, no interleaving of any
-- number of processors brings two of them between `acquire` and `release` at once, and whenever one is
-- there, the lock word is 1.
pub acquire-excludes :
    (lk : Lock) {t : System} {i : ℕ}
    → Reach (record { lock = initlock lk.name lk; pc = λ _. outside }) t
    → t.pc i ≡ inside
    → (t.lock.locked ≡ 1) × ((j : ℕ) → t.pc j ≡ inside → j ≡ i)
acquire-excludes lk {t} {i} r h = (x.held i h, λ j q. x.alone j i q h)
  where
    x : IsExclusive t
    x = Reach-IsExclusive (record { held = λ k q. cc; alone = λ k l q u. cc }) r
