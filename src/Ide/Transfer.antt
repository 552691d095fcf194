-- ===== src/Ide/Transfer.antt =====
-- The block transfers of drivers/ide.c, with insl of include/boot.h.
use tinu_os.Prelude.{
  ℕ, zero, suc, ◌+◌, ◌*◌, ◌≤◌, ◌<◌, bit_or, ◌≡◌, refl, ap, ◌∙◌, ◌⊎◌, inl, inr, Option, none, some,
  List, [], ◌∷◌, arith, get_or, u32,
}
use tinu_os.Memory.{Memory, load32, store32}
use tinu_os.Memory.Frame.{load32-store32_self, store32_ne}
use tinu_os.Ports.{Trace, input, Device}
use tinu_os.Ide.{Ide, port, control}

-- `cld; rep insl`: `cnt` words from the port, upwards from `addr`.
unfoldable pub insl : Device → ℕ → ℕ → ℕ → Memory → Trace → Memory × Trace
insl device p addr zero m t = (m, t)
insl device p addr (suc cnt) m t =
    let v = u32 (device t p) in insl device p (addr + 4) cnt (store32 m addr v) (input v p ∷ t)

-- No port, no transfer.
unfoldable pub read_words : Device → Option ℕ → ℕ → ℕ → Memory → Trace → Memory × Trace
unfolding insl
read_words device none buffer quads m t = (m, t)
read_words device (some p) buffer quads m t = insl device p buffer quads m t

-- The segment registers are the same before and after.
unfoldable pub ide_read_buffer : Device → ℕ → ℕ → ℕ → ℕ → Memory → Ide → Memory × Ide
unfolding read_words control
ide_read_buffer device channel reg buffer quads m s =
    let c = s.channels channel in
    let t = control c reg (bit_or 0x80 c.nien) s.trace in
    let (m, t) = read_words device (port c reg) buffer quads m t in
    (m, record s { trace = control c reg c.nien t })

-- The words that the device gives, one after the other.
abbrev pub words : Device → ℕ → ℕ → Trace → List ℕ
words device p zero t = []
words device p (suc n) t = let v = u32 (device t p) in v ∷ words device p n (input v p ∷ t)

insl_before :
    (device : Device) (p addr cnt : ℕ) (m : Memory) (t : Trace) (x : ℕ)
    → x < addr
    → (insl device p addr cnt m t).0 x ≡ m x
unfolding insl
insl_before device p addr zero m t x h = refl
insl_before device p addr (suc cnt) m t x h =
    let v : ℕ = u32 (device t p) in
    insl_before device p (addr + 4) cnt (store32 m addr v) (input v p ∷ t) x (omega arith)
    ∙ store32_ne m addr x v (inr h)

insl_behind :
    (device : Device) (p addr cnt : ℕ) (m : Memory) (t : Trace) (x : ℕ)
    → addr + cnt * 4 ≤ x
    → (insl device p addr cnt m t).0 x ≡ m x
unfolding insl
insl_behind device p addr zero m t x h = refl
insl_behind device p addr (suc cnt) m t x h =
    let v : ℕ = u32 (device t p) in
    insl_behind device p (addr + 4) cnt (store32 m addr v) (input v p ∷ t) x (omega arith)
    ∙ store32_ne m addr x v (inl (omega arith))

load32-same :
    (m m' : Memory) (a : ℕ) → ((x : ℕ) → x < a + 4 → m' x ≡ m x) → load32 m' a ≡ load32 m a
unfolding load32
load32-same m m' a h = omega (
  arith,
  h a (omega arith),
  h (a + 1) (omega arith),
  h (a + 2) (omega arith),
  h (a + 3) (omega arith),
)

insl-words :
    (device : Device) (p addr cnt : ℕ) (m : Memory) (t : Trace) (i : ℕ)
    → i < cnt
    → load32 (insl device p addr cnt m t).0 (addr + i * 4) ≡ get_or (words device p cnt t) i 0
unfolding insl
insl-words device p addr zero m t i h = absurd (omega arith)
insl-words device p addr (suc cnt) m t zero h =
    let v : ℕ = u32 (device t p) in
    let e : addr + 0 * 4 ≡ addr = omega arith in
    let stored : Memory = store32 m addr v in
    ap (load32 (insl device p (addr + 4) cnt stored (input v p ∷ t)).0) e
    ∙ load32-same stored (insl device p (addr + 4) cnt stored (input v p ∷ t)).0 addr
        (insl_before device p (addr + 4) cnt stored (input v p ∷ t))
    ∙ load32-store32_self m addr v
    ∙ omega arith
insl-words device p addr (suc cnt) m t (suc i) h =
    let v : ℕ = u32 (device t p) in
    let e : addr + suc i * 4 ≡ addr + 4 + i * 4 = omega arith in
    let stored : Memory = store32 m addr v in
    ap (load32 (insl device p (addr + 4) cnt stored (input v p ∷ t)).0) e
    ∙ insl-words device p (addr + 4) cnt stored (input v p ∷ t) i (omega arith)

read_words_lem :
    (device : Device) (o : Option ℕ) (p buffer quads : ℕ) (m : Memory) (t : Trace)
    → o ≡ some p
    → read_words device o buffer quads m t ≡ insl device p buffer quads m t
unfolding read_words
read_words_lem device o p buffer quads m t e = rw e refl

-- For a register with a port, ide_read_buffer stores as many words as asked for, in the order in which the port gives
-- them after the control register was written, from the buffer's start on, and changes no other byte.
pub ide_read_buffer-words :
    (device : Device) (channel reg buffer quads p : ℕ) (m : Memory) (s : Ide)
    → port (s.channels channel) reg ≡ some p
    → let m' = (ide_read_buffer device channel reg buffer quads m s).0 in
      let c = s.channels channel in
      let t = control c reg (bit_or 0x80 c.nien) s.trace in
      ((i : ℕ) → i < quads → load32 m' (buffer + i * 4) ≡ get_or (words device p quads t) i 0)
      × ((x : ℕ) → (x < buffer) ⊎ (buffer + quads * 4 ≤ x) → m' x ≡ m x)
unfolding ide_read_buffer
ide_read_buffer-words device channel reg buffer quads p m s there =
    let c = s.channels channel in
    let t = control c reg (bit_or 0x80 c.nien) s.trace in
    let run = ap (λ r. r.0) (read_words_lem device (port c reg) p buffer quads m t there) in
    (
      λ i h.
          ap (λ (n : Memory). load32 n (buffer + i * 4)) run
          ∙ insl-words device p buffer quads m t i h,
      λ x h. ap (λ (n : Memory). n x) run ∙ outside device p buffer quads m t x h,
    )
  where
    outside :
        (device : Device) (p addr cnt : ℕ) (m : Memory) (t : Trace) (x : ℕ)
        → (x < addr) ⊎ (addr + cnt * 4 ≤ x)
        → (insl device p addr cnt m t).0 x ≡ m x
    outside device p addr cnt m t x (inl h) = insl_before device p addr cnt m t x h
    outside device p addr cnt m t x (inr h) = insl_behind device p addr cnt m t x h
