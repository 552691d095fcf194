-- ===== src/Strings/Compare.antt =====
-- What memcmp tells of two pieces of memory.
use tinu_os.Prelude.{
  ℕ, zero, suc, ◌+◌, ◌<◌, ◌≡◌, refl, ◌≢◌, ◌⊎◌, inl, inr, arith, ◌==◌, ==→eq, Bool-cases, u8, sub32,
}
use tinu_os.Memory.{Memory}
use tinu_os.Strings.{memcmp}

-- The first `n` bytes at `p` and at `q` are the same.
abbrev pub SameBytes : Memory → ℕ → ℕ → ℕ → Type 0
SameBytes m p q n = (i : ℕ) → i < n → u8 (m (p + i)) ≡ u8 (m (q + i))

-- Byte `k` is the first that differs.
pub record FirstDifference (m : Memory) (p q n k : ℕ) : Type 0 where
  pub inside : k < n
  pub before : SameBytes m p q k
  pub differs : u8 (m (p + k)) ≢ u8 (m (q + k))

SameBytes-suc :
    (m : Memory) (p q n : ℕ)
    → u8 (m p) ≡ u8 (m q)
    → SameBytes m (p + 1) (q + 1) n
    → SameBytes m p q (suc n)
SameBytes-suc m p q n first rest zero h =
    let e : p + 0 ≡ p = omega arith in let f : q + 0 ≡ q = omega arith in rw (e, f) first
SameBytes-suc m p q n first rest (suc i) h =
    let e : p + suc i ≡ p + 1 + i = omega arith in
    let f : q + suc i ≡ q + 1 + i = omega arith in rw (e, f) (rest i (omega arith))

FirstDifference-suc :
    (m : Memory) (p q n k : ℕ)
    → u8 (m p) ≡ u8 (m q)
    → FirstDifference m (p + 1) (q + 1) n k
    → FirstDifference m p q (suc n) (suc k)
FirstDifference-suc m p q n k first d =
    let e : p + suc k ≡ p + 1 + k = omega arith in
    let f : q + suc k ≡ q + 1 + k = omega arith in
    record {
      inside = omega (arith, d.inside);
      before = SameBytes-suc m p q k first d.before;
      differs = rw (e, f) d.differs;
    }

-- Of two pieces of memory, either all bytes are the same and `memcmp` returns 0, or it returns the difference of
-- the first two bytes that differ, which is not 0, as an `int`.
pub memcmp_lem :
    (m : Memory) (p q n : ℕ)
    → (SameBytes m p q n × (memcmp m p q n ≡ 0))
      ⊎ ((k : ℕ) × FirstDifference m p q n k
          × (memcmp m p q n ≡ sub32 (u8 (m (p + k))) (u8 (m (q + k))))
          × (memcmp m p q n ≢ 0))
unfolding memcmp
memcmp_lem m p q zero = inl (λ i h. absurd (omega arith), refl)
memcmp_lem m p q (suc n) = elim (Bool-cases (u8 (m p) == u8 (m q))) [
  | inl same ↦ rw same (elim (memcmp_lem m (p + 1) (q + 1) n) [
    | inl (all, zeroed) ↦ inl (SameBytes-suc m p q n (==→eq _ _ same) all, zeroed)
    | inr (k, d, at, nonzero) ↦
        let e : p + suc k ≡ p + 1 + k = omega arith in
        let f : q + suc k ≡ q + 1 + k = omega arith in
        inr (suc k, FirstDifference-suc m p q n k (==→eq _ _ same) d, rw (e, f) at, nonzero)
  ])
  | inr other ↦
      let e : p + 0 ≡ p = omega arith in
      let f : q + 0 ≡ q = omega arith in
      rw other (
        inr (
          0,
          record {
            inside = omega arith;
            before = λ i h. absurd (omega arith);
            differs = rw (e, f) (ground arith);
          },
          rw (e, f) refl,
          ground arith,
        ))
]
