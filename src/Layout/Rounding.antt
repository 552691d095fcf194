-- ===== src/Layout/Rounding.antt =====
-- The address macros as arithmetic.
use tinu_os.Prelude.{ℕ, ◌+◌, ◌-◌, ◌*◌, ◌/◌, ◌%◌, ◌^◌, ◌≤◌, ◌<◌, ◌≡◌, ◌∙◌, arith, u32}
use tinu_os.Prelude.Bits.{bit_and_mask, bit_and_shifted, bit_or_fields}
use tinu_os.Layout.{pde, pte, pgaddr, pgroundup, page_size}

pub pde-div : (va : ℕ) → pde va ≡ u32 va / 2 ^ 22
unfolding pde
pde-div va = omega (arith, bit_and_mask 10 (u32 va / 2 ^ 22))

pub pte-div : (va : ℕ) → pte va ≡ u32 va / 2 ^ 12 % 2 ^ 10
unfolding pte
pte-div va = bit_and_mask 10 (u32 va / 2 ^ 12)

pub pgroundup-div : (p : ℕ) → pgroundup p ≡ u32 (p + 4095) / 4096 * 4096
unfolding pgroundup
pgroundup-div p =
    bit_and_shifted 12 (u32 (p + page_size - 1)) 0xF_FFFF
    ∙ omega (arith, bit_and_mask 20 (u32 (p + page_size - 1) / 2 ^ 12))

-- Up to the last page of the address space, `PGROUNDUP(P)` is the least multiple of the page size that
-- is not below `P`.
pub pgroundup-least :
    (p : ℕ)
    → p + 4095 < 2 ^ 32
    → (pgroundup p % page_size ≡ 0)
      × (p ≤ pgroundup p)
      × ((q : ℕ) → q % page_size ≡ 0 → p ≤ q → pgroundup p ≤ q)
pgroundup-least p h = (
  omega (arith, pgroundup-div p),
  omega (arith, pgroundup-div p),
  λ q e l. omega (arith, pgroundup-div p),
)

pgaddr-sum :
    (d t o : ℕ) → d < 2 ^ 10 → t < 2 ^ 10 → o < 2 ^ 12 → pgaddr d t o ≡ d * 2 ^ 22 + t * 2 ^ 12 + o
unfolding pgaddr
pgaddr-sum d t o hd ht ho =
    ground
      (arith, bit_or_fields 22 d (t * 2 ^ 12) (omega arith), bit_or_fields 12 (d * 2 ^ 10 + t) o ho)

-- An address is put together from its directory index, its table index and its offset, and taken apart
-- into them again.
pub pde-pte-pgaddr :
    (d t o : ℕ)
    → d < 2 ^ 10
    → t < 2 ^ 10
    → o < 2 ^ 12
    → (pde (pgaddr d t o) ≡ d) × (pte (pgaddr d t o) ≡ t) × (pgaddr d t o % page_size ≡ o)
pde-pte-pgaddr d t o hd ht ho = (
  omega (arith, pde-div (pgaddr d t o), pgaddr-sum d t o hd ht ho),
  omega (arith, pte-div (pgaddr d t o), pgaddr-sum d t o hd ht ho),
  omega (arith, pgaddr-sum d t o hd ht ho),
)
