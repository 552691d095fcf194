-- ===== src/Ports.antt =====
-- The port instructions of include/boot.h. The device behind a port is not part of the program: what it
-- answers is a parameter, a function of everything that has passed the ports so far.
use tinu_os.Prelude.{ℕ, List, ◌∷◌, u8, u16}

pub data Event : Type 0 where
  output : (value port : ℕ) → Event
  input : (value port : ℕ) → Event

-- The newest event comes first.
abbrev pub Trace : Type 0
Trace = List Event

abbrev pub Device : Type 0
Device = Trace → ℕ → ℕ

-- `outb(v, port)`
unfoldable pub outb : ℕ → ℕ → Trace → Trace
outb v port t = output (u8 v) (u16 port) ∷ t

-- `inb(port)`
unfoldable pub inb : Device → ℕ → Trace → ℕ × Trace
inb device port t = let v = u8 (device t (u16 port)) in (v, input v (u16 port) ∷ t)
