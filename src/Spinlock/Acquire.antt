-- ===== src/Spinlock/Acquire.antt =====
-- mmu/spinlock.c on one processor: when `acquire` returns, and what `release` gives back.
use tinu_os.Prelude.{ℕ, zero, suc, ◌≡◌, refl, sym, ap, ◌≢◌, true, false, none, some, arith}
use tinu_os.Spinlock.{Lock, Cpu, xchg, spin, acquire, release}

pub spin-free :
    (fuel : ℕ) (lk : Lock) → lk.locked ≡ 0 → spin (suc fuel) lk ≡ some (record lk { locked = 1 })
unfolding spin xchg
spin-free fuel lk h = ground arith

pub spin-held : (fuel : ℕ) (lk : Lock) → lk.locked ≢ 0 → spin fuel lk ≡ none
unfolding spin xchg
spin-held zero lk h = refl
spin-held (suc fuel) lk h = ground (arith, spin-held fuel (record lk { locked = 1 }))

-- On one processor `acquire` of a free lock takes it with interrupts off, whatever the fuel above
-- zero, and prints nothing.
pub acquire-free :
    (fuel : ℕ) (lk : Lock) (c : Cpu)
    → lk.locked ≡ 0
    → acquire (suc fuel) lk c ≡ some (record lk { locked = 1 }, record c { interrupts = false })
unfolding acquire
acquire-free fuel lk c h = ground (arith, spin-free fuel lk)

-- With no other processor to release it, `acquire` of a held lock never returns.
pub acquire-held : (fuel : ℕ) (lk : Lock) (c : Cpu) → lk.locked ≢ 0 → acquire fuel lk c ≡ none
unfolding acquire
acquire-held fuel lk c h = ground (arith, spin-held fuel lk)

-- On one processor, when the lock is free: `acquire` returns after one round, with the lock taken and interrupts off. Until
-- `release` another `acquire` does not return, whatever number of rounds it is given. `release` then gives back the lock as
-- it was at first, with interrupts on, also if they were off before `acquire`.
pub release-acquire :
    (fuel : ℕ) (lk : Lock) (c : Cpu)
    → lk.locked ≡ 0
    → (lk' : Lock) × (c' : Cpu) × (acquire (suc fuel) lk c ≡ some (lk', c'))
      × (lk'.locked ≡ 1)
      × (c'.interrupts ≡ false)
      × ((rounds : ℕ) → acquire rounds lk' c' ≡ none)
      × ((release lk' c').0 ≡ lk)
      × ((release lk' c').1.interrupts ≡ true)
unfolding release
release-acquire fuel lk c h = (
  record lk { locked = 1 },
  record c { interrupts = false },
  acquire-free fuel lk c h,
  refl,
  refl,
  λ rounds.
      acquire-held rounds (record lk { locked = 1 }) (record c { interrupts = false })
        (omega arith),
  ap (λ (n : ℕ). record lk { locked = n }) (sym h),
  refl,
)
