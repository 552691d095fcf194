-- ===== src/Memory/Copying.antt =====
-- What `memcpy` of system.c leaves in memory.
use tinu_os.Prelude.{
  ℕ, zero, suc, ◌+◌, ◌-◌, ◌≤◌, ◌≡◌, ◌∙◌, ◌⊎◌, inl, inr, arith, ◌==◌, if◌then◌else◌, Bool-cases, u8,
}
use tinu_os.Memory.{Memory, store8, memcpy, within}

-- When the source does not begin below the destination, or ends before it begins, `memcpy` puts the bytes of the
-- source, as they were, at the destination, and changes nothing else.
pub memcpy_lem :
    (m : Memory) (dest src n x : ℕ)
    → (dest ≤ src) ⊎ (src + n ≤ dest)
    → memcpy m dest src n x ≡ (if within dest n x then u8 (m (src + (x - dest))) else m x)
unfolding memcpy store8
memcpy_lem m dest src zero x h = ground arith
memcpy_lem m dest src (suc n) x h =
    let rest = memcpy_lem (store8 m dest (m src)) (dest + 1) (src + 1) n x (omega arith) in
    elim (Bool-cases (x == dest)) [
      | inl here ↦
          let first : src + (x - dest) ≡ src = ground arith in rest ∙ rw first (ground arith)
      | inr other ↦ elim (Bool-cases (within (dest + 1) n x)) [
        | inl inside ↦
            let there : src + 1 + (x - (dest + 1)) ≡ src + (x - dest) = ground arith in
            rest ∙ rw (inside, there) (ground arith)
        | inr outside ↦ rest ∙ rw outside (ground arith)
      ]
    ]
