-- ===== src/Tests/Strings.antt =====
-- Runs of the string routines.
use tinu_os.Prelude.{
  ℕ, ◌+◌, ◌<◌, ◌≡◌, refl, ◌≢◌, ◌⊎◌, inr, ◌||◌, some, [], ◌∷◌, arith, ◌==◌, if◌then◌else◌, get_or,
  u8, sub32,
}
use tinu_os.Memory.{Memory}
use tinu_os.Strings.{memcmp, strcpy, strncpy, strlen}
use tinu_os.Strings.Copy.{Holds, SameBut, strcpy-strlen, strncpy_lem}
use tinu_os.Strings.Compare.{SameBytes, FirstDifference, memcmp_lem}

-- "hi" at 100, and "ho" at 300.
abbrev words : Memory
words x =
    if x == 100 || x == 300 then b'h' else if x == 101 then b'i' else if x == 301 then b'o' else 0

strcpy-strlen_example :
    (m' : Memory) × (strcpy 3 words 200 100 ≡ some m')
    × Holds m' 200 (b'h' ∷ b'i' ∷ [])
    × (strlen 3 m' 200 ≡ some 2)
    × SameBut 200 3 words m'
strcpy-strlen_example =
    strcpy-strlen 3 words 200 100 (b'h' ∷ b'i' ∷ []) (omega arith)
      (refl, omega arith, omega arith, (refl, omega arith, omega arith, refl)) (inr (omega arith))

strncpy_lem_example :
    ((j : ℕ) → j < 5 → strncpy words 200 100 5 (200 + j) ≡ get_or (b'h' ∷ b'i' ∷ []) j 0)
    × SameBut 200 5 words (strncpy words 200 100 5)
strncpy_lem_example =
    strncpy_lem words 200 100 5 (b'h' ∷ b'i' ∷ [])
      (refl, omega arith, omega arith, (refl, omega arith, omega arith, refl)) (inr (omega arith))

memcmp_lem_example :
    (SameBytes words 100 300 2 × (memcmp words 100 300 2 ≡ 0))
    ⊎ ((k : ℕ) × FirstDifference words 100 300 2 k
        × (memcmp words 100 300 2 ≡ sub32 (u8 (words (100 + k))) (u8 (words (300 + k))))
        × (memcmp words 100 300 2 ≢ 0))
memcmp_lem_example = memcmp_lem words 100 300 2
