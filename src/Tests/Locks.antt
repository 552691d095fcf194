-- ===== src/Tests/Locks.antt =====
-- Runs of the spinlock, of the interrupt dispatcher and of the timer.
use tinu_os.Prelude.{
  ℕ, ◌≡◌, refl, true, false, none, some, [], arith, ◌==◌, if◌then◌else◌, length, replicate,
  length-replicate,
}
use tinu_os.Spinlock.{Lock, Cpu, initlock, acquire, release, xchg}
use tinu_os.Spinlock.Acquire.{release-acquire}
use tinu_os.Spinlock.Exclusion.{
  System, outside, spinning, inside, Reach, here, next, enter, exchange, acquire-excludes,
}
use tinu_os.Isrs.{Isrs}
use tinu_os.Timer.{sleep}
use tinu_os.Timer.Ticks.{sleep-ticks}
use tinu_os.Tests.Pages.{free_lock, cpu}

-- Interrupts are off before.
abbrev quiet : Cpu
quiet = record cpu { interrupts = false }

release-acquire_example :
    (lk' : Lock) × (c' : Cpu) × (acquire 3 free_lock quiet ≡ some (lk', c'))
    × (lk'.locked ≡ 1)
    × (c'.interrupts ≡ false)
    × ((rounds : ℕ) → acquire rounds lk' c' ≡ none)
    × ((release lk' c').0 ≡ free_lock)
    × ((release lk' c').1.interrupts ≡ true)
release-acquire_example = release-acquire 2 free_lock quiet refl

abbrev start : System
start = record { lock = initlock "kmem" free_lock; pc = λ _. outside }

abbrev entered : System
entered = record { lock = free_lock; pc = λ j. if j == 2 then spinning else outside }

abbrev taken : System
taken = record {
  lock = record free_lock { locked = 1 };
  pc = λ j. if j == 2 then inside else (if j == 2 then spinning else outside);
}

taken_reached : Reach start taken
unfolding initlock xchg
taken_reached = next {t = entered} (next here (enter 2 refl)) (exchange 2 refl)

acquire-excludes_example : (taken.lock.locked ≡ 1) × ((j : ℕ) → taken.pc j ≡ inside → j ≡ 2)
acquire-excludes_example = acquire-excludes free_lock taken_reached refl

abbrev no_handler : Isrs
no_handler = record { interrupt_descriptors = replicate 256 0; trace = [] }

no_handler-length : length no_handler.interrupt_descriptors ≡ 256
no_handler-length = length-replicate {A = ℕ} 256 0

sleep-ticks_example : sleep 7 100 5 ≡ some 105
sleep-ticks_example = sleep-ticks 7 100 5 (omega arith)
