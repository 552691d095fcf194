-- ===== src/Strings/Copy.antt =====
-- What strlen, strcpy and strncpy do with a text in memory.
use tinu_os.Prelude.{
  ℕ, zero, suc, ◌+◌, ◌≤◌, ◌<◌, ◌≡◌, refl, ap, ◌∙◌, ◌⊎◌, false, some, List, [], ◌∷◌, arith, ◌==◌,
  if◌then◌else◌, length, get_or,
}
use mathlib.Core.Path.{subst}
use tinu_os.Memory.{Memory, store8, within}
use tinu_os.Strings.{copy_text, strcpy, pad, copy_some, strncpy, count_text, strlen}

-- From `p` on, memory holds the bytes `cs`, none of them zero, and then a zero.
abbrev pub Holds : Memory → ℕ → List ℕ → Type 0
Holds m p [] = m p ≡ 0
Holds m p (c ∷ cs) = (m p ≡ c) × (0 < c) × (c < 256) × Holds m (p + 1) cs

-- `m'` differs from `m` at most in the `n` bytes from `a` on.
abbrev pub SameBut : ℕ → ℕ → Memory → Memory → Type 0
SameBut a n m m' = (x : ℕ) → within a n x ≡ false → m' x ≡ m x

Holds-same :
    (m m' : Memory) (p : ℕ) (cs : List ℕ)
    → ((x : ℕ) → p ≤ x → x < p + length cs + 1 → m' x ≡ m x)
    → Holds m p cs
    → Holds m' p cs
Holds-same m m' p [] same h = same p (omega arith) (omega arith) ∙ h
Holds-same m m' p (c ∷ cs) same h = (
  same p (omega arith) (omega arith) ∙ h.0,
  h.1,
  h.2,
  Holds-same m m' (p + 1) cs (λ x l r. same x (omega arith) (omega arith)) h.3,
)

count_text_lem :
    (fuel : ℕ) (m : Memory) (s i : ℕ) (cs : List ℕ)
    → length cs < fuel
    → Holds m (s + i) cs
    → count_text fuel m s i ≡ some (i + length cs)
unfolding count_text
count_text_lem zero m s i cs enough h = absurd (omega arith)
count_text_lem (suc fuel) m s i [] enough h = ground arith
count_text_lem (suc fuel) m s i (c ∷ cs) enough h =
    let e : s + i + 1 ≡ s + (i + 1) = omega arith in
    let rest = count_text_lem fuel m s (i + 1) cs (omega arith) (subst (λ p. Holds m p cs) e h.3) in
    ground (arith, rest)

-- The bytes at `src` survive a write to `dest`.
copy_text_lem :
    (fuel : ℕ) (m : Memory) (dest src i : ℕ) (cs : List ℕ)
    → length cs < fuel
    → Holds m (src + i) cs
    → (dest + i + length cs < src + i) ⊎ (src + i + length cs < dest + i)
    → (m' : Memory) × (copy_text fuel m dest src i ≡ some m')
      × Holds m' (dest + i) cs
      × SameBut (dest + i) (suc (length cs)) m m'
unfolding copy_text store8
copy_text_lem zero m dest src i cs enough h apart = absurd (omega arith)
copy_text_lem (suc fuel) m dest src i [] enough h apart =
    (store8 m (dest + i) (m (src + i)), ground arith, ground arith, λ x out. ground arith)
copy_text_lem (suc fuel) m dest src i (c ∷ cs) enough h apart =
    let e : src + i + 1 ≡ src + (i + 1) = omega arith in
    let f : dest + (i + 1) ≡ dest + i + 1 = omega arith in
    let m1 : Memory = store8 m (dest + i) (m (src + i)) in
    let left = Holds-same m m1 (src + i + 1) cs (λ x l r. ground arith) h.3 in
    let (m', run, copied, same) =
      copy_text_lem fuel m1 dest src (i + 1) cs (omega arith) (subst (λ p. Holds m1 p cs) e left)
        (omega arith) in
    (
      m',
      ground (arith, run),
      (
        same (dest + i) (ground arith) ∙ ground arith,
        h.1,
        h.2,
        subst (λ p. Holds m' p cs) f copied,
      ),
      λ x out. same x (ground arith) ∙ ground arith,
    )

-- When memory holds a text at `src`, and its copy at `dest` would not overlap it, `strcpy` returns, with fuel
-- above the length of the text. Memory then holds the text at `dest` too, `strlen` of it is its length, and no
-- byte outside the copy has changed.
pub strcpy-strlen :
    (fuel : ℕ) (m : Memory) (dest src : ℕ) (cs : List ℕ)
    → length cs < fuel
    → Holds m src cs
    → (dest + length cs < src) ⊎ (src + length cs < dest)
    → (m' : Memory) × (strcpy fuel m dest src ≡ some m')
      × Holds m' dest cs
      × (strlen fuel m' dest ≡ some (length cs))
      × SameBut dest (suc (length cs)) m m'
unfolding strcpy strlen
strcpy-strlen fuel m dest src cs enough h apart =
    let e : src ≡ src + 0 = omega arith in
    let f : dest + 0 ≡ dest = omega arith in
    let (m', run, copied, same) =
      copy_text_lem fuel m dest src 0 cs enough (subst (λ p. Holds m p cs) e h) (omega arith) in
    (
      m',
      run,
      subst (λ p. Holds m' p cs) f copied,
      count_text_lem fuel m' dest 0 cs enough copied ∙ ap some (omega arith),
      subst (λ p. SameBut p (suc (length cs)) m m') f same,
    )

pad_lem :
    (left : ℕ) (m : Memory) (dest i x : ℕ)
    → pad left m dest i x ≡ (if within (dest + i) left x then 0 else m x)
unfolding pad store8
pad_lem zero m dest i x = ground arith
pad_lem (suc left) m dest i x = pad_lem left (store8 m (dest + i) 0) dest (i + 1) x ∙ ground arith

pad-SameBut : (left : ℕ) (m : Memory) (dest i : ℕ) → SameBut (dest + i) left m (pad left m dest i)
pad-SameBut left m dest i x out = pad_lem left m dest i x ∙ rw out refl

pad-zero : (left : ℕ) (m : Memory) (dest i j : ℕ) → j < left → pad left m dest i (dest + i + j) ≡ 0
pad-zero left m dest i j h = pad_lem left m dest i (dest + i + j) ∙ ground arith

-- What the first loop and the second leave.
record Padded (left : ℕ) (m : Memory) (at : ℕ) (cs : List ℕ) (m' : Memory) : Type 0 where
  inside : (j : ℕ) → j < left → m' (at + j) ≡ get_or cs j 0
  outside : SameBut at left m m'

Padded-suc :
    (left : ℕ) (m m1 m' : Memory) (at c : ℕ) (cs : List ℕ)
    → m1 at ≡ c
    → SameBut at 1 m m1
    → Padded left m1 (at + 1) cs m'
    → Padded (suc left) m at (c ∷ cs) m'
Padded-suc left m m1 m' at c cs first rest p = record {
  inside = byte;
  outside = λ x out. p.outside x (ground arith) ∙ rest x (ground arith);
}
  where
    byte : (j : ℕ) → j < suc left → m' (at + j) ≡ get_or (c ∷ cs) j 0
    byte zero h = let e : at + 0 ≡ at = omega arith in rw e (p.outside at (ground arith) ∙ first)
    byte (suc j) h =
        let e : at + suc j ≡ at + 1 + j = omega arith in rw e (p.inside j (omega arith))

copy_some-Padded :
    (left : ℕ) (m : Memory) (dest src i : ℕ) (cs : List ℕ)
    → Holds m (src + i) cs
    → (dest + i + left ≤ src + i) ⊎ (src + i + length cs < dest + i)
    → Padded left m (dest + i) cs (copy_some left m dest src i)
unfolding copy_some
copy_some-Padded zero m dest src i cs h apart = record {
  inside = λ j l. absurd (omega arith);
  outside = λ x out. refl;
}
copy_some-Padded (suc left) m dest src i [] h apart = rw h (record {
  inside = λ j l. pad-zero (suc left) m dest i j l;
  outside = pad-SameBut (suc left) m dest i;
})
copy_some-Padded (suc left) m dest src i (c ∷ cs) h apart =
    let e : src + i + 1 ≡ src + (i + 1) = omega arith in
    let f : dest + (i + 1) ≡ dest + i + 1 = omega arith in
    let m1 : Memory = store8 m (dest + i) (m (src + i)) in
    let unread = Holds-same m m1 (src + i + 1) cs (λ x l r. unfold store8 in ground arith) h.3 in
    let rest =
      copy_some-Padded left m1 dest src (i + 1) cs (subst (λ p. Holds m1 p cs) e unread)
        (omega arith) in
    let stop : (m (src + i) == 0) ≡ false = ground arith in
    rw stop (
      Padded-suc left m m1 (copy_some left m1 dest src (i + 1)) (dest + i) c cs
        (unfold store8 in ground arith) (λ x out. unfold store8 in ground arith)
        (subst (λ p. Padded left m1 p cs (copy_some left m1 dest src (i + 1))) f rest))

-- When memory holds a text at `src`, and the `n` bytes at `dest` do not overlap it, `strncpy` fills exactly these
-- `n` bytes: with the text or its beginning, and behind it with zeros.
pub strncpy_lem :
    (m : Memory) (dest src n : ℕ) (cs : List ℕ)
    → Holds m src cs
    → (dest + n ≤ src) ⊎ (src + length cs < dest)
    → ((j : ℕ) → j < n → strncpy m dest src n (dest + j) ≡ get_or cs j 0)
      × SameBut dest n m (strncpy m dest src n)
unfolding strncpy
strncpy_lem m dest src n cs h apart =
    let e : src ≡ src + 0 = omega arith in
    let f : dest + 0 ≡ dest = omega arith in
    let p = copy_some-Padded n m dest src 0 cs (subst (λ p. Holds m p cs) e h) (omega arith) in
    let q = subst (λ p. Padded n m p cs (copy_some n m dest src 0)) f p in (q.inside, q.outside)
