-- ===== src/Kernel/Entry.antt =====
-- The first page directory of kernel.c.
use tinu_os.Prelude.{
  ℕ, ◌+◌, ◌*◌, ◌/◌, ◌%◌, ◌^◌, ◌<◌, ◌≡◌, refl, ap, ◌∙◌, inl, inr, true, false, ◌&&◌, ◌||◌, Option,
  none, some, arith, ltb, leb, ◌==◌, if◌then◌else◌, Bool-cases,
}
use tinu_os.Layout.{kernbase, v2p, pde}
use tinu_os.Layout.Rounding.{pde-div}
use tinu_os.Kernel.{entrypgdir, first_end}

-- Where the entry of a directory with pages of 4MB leads. Bit 0 is the present bit.
abbrev pub translate : ℕ → ℕ → Option ℕ
translate entry va = if entry % 2 == 1 then some (entry / 2 ^ 22 * 2 ^ 22 + va % 2 ^ 22) else none

entrypgdir_value : (i : ℕ) → entrypgdir i ≡ (if i == 0 || i == 512 then 131 else 0)
unfolding entrypgdir
entrypgdir_value i = refl

-- The entries are those of the first 4MB and of the 4MB from KERNBASE on.
mapped :
    (va : ℕ)
    → va < 2 ^ 32
    → (pde va == 0 || pde va == 512)
      ≡ (ltb va (4 * 1024 * 1024) || (leb kernbase va && ltb va first_end))
mapped va small = ground (arith, pde-div va)

-- Of all virtual addresses, entrypgdir maps those below 4MB, to themselves, and the 4MB from KERNBASE on, to what V2P
-- makes of them. The latter end where the range of kinit1 does.
pub entrypgdir_lem :
    (va : ℕ)
    → va < 2 ^ 32
    → translate (entrypgdir (pde va)) va ≡ (
        if ltb va (4 * 1024 * 1024)
        then some va
        else if leb kernbase va && ltb va first_end
        then some (v2p va)
        else none)
entrypgdir_lem va small = elim (Bool-cases (ltb va (4 * 1024 * 1024))) [
  | inl low ↦
      let here : (pde va == 0 || pde va == 512) ≡ true = mapped va small ∙ rw low refl in
      rw (entrypgdir_value (pde va), here, low) (ap some (ground (arith, low)))
  | inr high ↦ elim (Bool-cases (leb kernbase va && ltb va first_end)) [
    | inl kernel ↦
        let here : (pde va == 0 || pde va == 512) ≡ true =
          mapped va small ∙ rw (high, kernel) refl in
        rw (entrypgdir_value (pde va), here, high, kernel) (ap some (ground (arith, kernel)))
    | inr outside ↦
        let here : (pde va == 0 || pde va == 512) ≡ false =
          mapped va small ∙ rw (high, outside) refl in
        rw (entrypgdir_value (pde va), here, high, outside) refl
  ]
]
