-- ===== src/Spinlock.antt =====
-- mmu/spinlock.c, with the processor state that it touches.
-- A wait for the lock runs on fuel: `none` means that the lock was not free in that many rounds.
pub mod Acquire
pub mod Exclusion
use Prim.Native.String.{String}
use tinu_os.Prelude.{
  ℕ, zero, suc, ◌-◌, bit_and, Bool, true, false, not, Option, none, some, List, ◌∷◌, ◌==◌,
  if◌then◌else◌,
}

-- `struct spinlock`; `cpu` and `pcs` are never used.
pub record Lock : Type 0 where
  pub locked : ℕ
  pub name : String

-- The interrupt flag, the register that `read_eflags` pops, and what was printed, newest first.
pub record Cpu : Type 0 where
  pub interrupts : Bool
  pub edi : ℕ
  pub log : List String

abbrev pub print : String → Cpu → Cpu
print s c = record c { log = s ∷ c.log }

-- `IF` of include/mmu.h.
abbrev pub interrupt_flag : ℕ
interrupt_flag = 0x200

-- `pushal; popl`: the last register that `pushal` pushes is EDI, so that is what comes back.
unfoldable pub read_eflags : Cpu → ℕ
read_eflags c = c.edi

unfoldable pub cli : Cpu → Cpu
cli c = record c { interrupts = false }

unfoldable pub sti : Cpu → Cpu
sti c = record c { interrupts = true }

unfoldable pub holding : Lock → Bool
holding lk = not (lk.locked == 0)

unfoldable pub pushcli : Cpu → Cpu
unfolding cli
pushcli c = cli c

unfoldable pub popcli : Cpu → Cpu
unfolding sti read_eflags
popcli c =
    sti
      (if bit_and (read_eflags c) interrupt_flag == 0 then c else print "popcli - interruptable" c)

unfoldable pub initlock : String → Lock → Lock
initlock name lk = record lk { name = name; locked = 0 }

-- The atomic exchange gives the old value.
unfoldable pub xchg : Lock → ℕ → ℕ × Lock
xchg lk v = (lk.locked, record lk { locked = v })

-- `while (xchg(&lk->locked, 1) != 0);`
unfoldable pub spin : ℕ → Lock → Option Lock
spin zero lk = none
spin (suc fuel) lk =
    let (old, lk') = xchg lk 1 in let rest = spin fuel lk' in if old == 0 then some lk' else rest

unfoldable pub acquire : ℕ → Lock → Cpu → Option (Lock × Cpu)
unfolding pushcli holding
acquire fuel lk c =
    let c = pushcli c in
    let c = if holding lk then print "acquire\n" c else c in
    elim (spin fuel lk) [ none ↦ none | some lk' ↦ some (lk', c) ]

unfoldable pub release : Lock → Cpu → Lock × Cpu
unfolding popcli holding
release lk c =
    let c = if holding lk then c else print "release" c in (record lk { locked = 0 }, popcli c)
