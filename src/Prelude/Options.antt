-- ===== src/Prelude/Options.antt =====
-- Steps that may have no result, one after the other.
use mathlib.Core.Path.{◌≡◌, ap, ◌∙◌}
use mathlib.Core.Option.{Option, none, some}

infixl 5 ◌>>=◌
abbrev pub ◌>>=◌ {ℓ κ} : {A : Type ℓ} {B : Type κ} → Option A → (A → Option B) → Option B
none >>= f = none
some a >>= f = f a

-- A first step that has a result.
pub bind_some {ℓ κ} :
    {A : Type ℓ} {B : Type κ} (o : Option A) (a : A) (f : A → Option B) (r : Option B)
    → o ≡ some a
    → f a ≡ r
    → (o >>= f) ≡ r
bind_some o a f r e g = ap (λ x. x >>= f) e ∙ g
