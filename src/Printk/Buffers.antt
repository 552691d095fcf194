-- ===== src/Printk/Buffers.antt =====
-- Texts in the buffers of printk.c.
use tinu_os.Prelude.{
  ℕ, zero, suc, ◌+◌, ◌≤◌, ◌<◌, ◌≡◌, refl, sym, ap, ◌∙◌, List, [], ◌∷◌, ◌++◌, arith, length,
  replicate, length-append, u8,
}
use mathlib.Core.Path.{ap₂}
use tinu_os.Digits.{digit_char, digit_value}
use tinu_os.Texts.{text, AllBytes, text-same, text-add, length-text}
use tinu_os.Printk.{Buffer, Out, put, zeros, put_all}

-- `zeros` writes that many zeros and nothing else.
pub zeros_lem :
    (left : ℕ) (o : Out)
    → ((zeros left o).ptr ≡ o.ptr + left)
      × (text (zeros left o).buf o.ptr left ≡ replicate left b'0')
      × ((j : ℕ) → j < o.ptr → (zeros left o).buf j ≡ o.buf j)
unfolding zeros put text
zeros_lem zero o = (omega arith, refl, λ j h. refl)
zeros_lem (suc left) o =
    let rest = zeros_lem left (put b'0' o) in
    (
      omega (arith, rest.0),
      ap₂ ◌∷◌ (rest.2 o.ptr (omega arith) ∙ ground arith) rest.1,
      λ j h. rest.2 j (omega arith) ∙ ground arith,
    )

-- `put_all` writes its text, if that consists of bytes.
pub put_all_lem :
    (cs : List ℕ) (o : Out)
    → AllBytes cs
    → ((put_all cs o).ptr ≡ o.ptr + length cs)
      × (text (put_all cs o).buf o.ptr (length cs) ≡ cs)
      × ((j : ℕ) → j < o.ptr → (put_all cs o).buf j ≡ o.buf j)
unfolding put_all put text
put_all_lem [] o h = (omega arith, refl, λ j l. refl)
put_all_lem (c ∷ cs) o h =
    let rest = put_all_lem cs (put c o) h.1 in
    (
      omega (arith, rest.0),
      ap₂ ◌∷◌ (rest.2 o.ptr (omega arith) ∙ ground arith) rest.1,
      λ j l. rest.2 j (omega arith) ∙ ground arith,
    )

-- From `o` on, the text `cs` has been written, and what stood before is as it was.
pub record Writes (o : Out) (cs : List ℕ) (o' : Out) : Type 0 where
  pub moved : o'.ptr ≡ o.ptr + length cs
  pub holds : text o'.buf o.ptr (length cs) ≡ cs
  pub before : (j : ℕ) → j < o.ptr → o'.buf j ≡ o.buf j

pub Writes-put : (c : ℕ) (o : Out) → Writes o (u8 c ∷ []) (put c o)
unfolding put text
Writes-put c o = record { moved = refl; holds = ground arith; before = λ j h. ground arith }

pub Writes-byte : (c : ℕ) (o : Out) → c < 256 → Writes o (c ∷ []) (put c o)
unfolding put text
Writes-byte c o h = record { moved = refl; holds = ground arith; before = λ j l. ground arith }

pub Writes-put_all : (cs : List ℕ) (o : Out) → AllBytes cs → Writes o cs (put_all cs o)
Writes-put_all cs o h =
    let w = put_all_lem cs o h in record { moved = w.0; holds = w.1; before = w.2 }

pub Writes-nil : (o : Out) → Writes o [] o
unfolding text
Writes-nil o = record { moved = omega arith; holds = refl; before = λ j h. refl }

-- What was written is the text that stands there now.
pub Writes-text :
    (o o' : Out) (n : ℕ)
    → o'.ptr ≡ o.ptr + n
    → ((j : ℕ) → j < o.ptr → o'.buf j ≡ o.buf j)
    → Writes o (text o'.buf o.ptr n) o'
Writes-text o o' n e h =
    let l = length-text o'.buf o.ptr n in
    record { moved = omega (arith, e, l); holds = ap (text o'.buf o.ptr) l; before = h }

-- One text behind the other.
pub Writes-append :
    (o o1 o2 : Out) (cs ds : List ℕ) → Writes o cs o1 → Writes o1 ds o2 → Writes o (cs ++ ds) o2
Writes-append o o1 o2 cs ds w v =
    let n = length-append cs ds in
    let front =
      text-same o1.buf o2.buf o.ptr (length cs) (λ j l r. v.before j (omega (arith, w.moved))) in
    record {
      moved = omega (arith, w.moved, v.moved, n);
      holds =
          ap (text o2.buf o.ptr) n
          ∙ text-add o2.buf o.ptr (length cs) (length ds)
          ∙ ap₂ ◌++◌ (front ∙ w.holds)
              (ap (λ (q : ℕ). text o2.buf q (length ds)) (sym w.moved) ∙ v.holds);
      before = λ j h. v.before j (omega (arith, w.moved)) ∙ w.before j h;
    }

-- What is known of every place of a text holds of all of its characters.
abbrev pub AllDigits : ℕ → List ℕ → Type 0
AllDigits base [] = Unit
AllDigits base (c ∷ cs) =
    (digit_value c < base) × (digit_char (digit_value c) ≡ c) × AllDigits base cs

pub AllDigits-text :
    (base : ℕ) (b : Buffer) (p n : ℕ)
    → ((j : ℕ)
        → p ≤ j
        → j < p + n
        → (digit_value (b j) < base) × (digit_char (digit_value (b j)) ≡ b j))
    → AllDigits base (text b p n)
unfolding text
AllDigits-text base b p zero h = tt
AllDigits-text base b p (suc n) h =
    let here = h p (omega arith) (omega arith) in
    (here.0, here.1, AllDigits-text base b (p + 1) n (λ j l r. h j (omega arith) (omega arith)))

pub AllDigits-append :
    (base : ℕ) (cs ds : List ℕ) → AllDigits base cs → AllDigits base ds → AllDigits base (cs ++ ds)
AllDigits-append base [] ds h k = k
AllDigits-append base (c ∷ cs) ds h k = (h.0, h.1, AllDigits-append base cs ds h.2 k)

pub AllDigits-zeros : (base n : ℕ) → 0 < base → AllDigits base (replicate n b'0')
AllDigits-zeros base zero h = tt
AllDigits-zeros base (suc n) h = (h, refl, AllDigits-zeros base n h)
