-- ===== src/Prelude/Outcome.antt =====
-- The result of a Python call: a value, or the message of the `ValueError` that it raises.
use Prim.Native.String.{String}
use mathlib.Core.Path.{◌≡◌, refl}
use mathlib.Core.Logic.{◌⊎◌, inl, inr}
use mathlib.Core.Bool.{Bool, true, false}

pub data Outcome {ℓ} (A : Type ℓ) : Type ℓ where
  ok : A → Outcome A
  raised : String → Outcome A

infixl 5 ◌>>=◌ ◌>>◌
abbrev pub ◌>>=◌ {ℓ κ} : {A : Type ℓ} {B : Type κ} → Outcome A → (A → Outcome B) → Outcome B
ok a >>= f = f a
raised e >>= f = raised e

abbrev pub ◌>>◌ {ℓ} : {B : Type ℓ} → Outcome (Unit {0}) → Outcome B → Outcome B
m >> k = m >>= λ _. k

-- `if bad: raise ValueError(message)`
abbrev pub refuse : Bool → String → Outcome (Unit {0})
refuse true message = raised message
refuse false message = ok tt

pub Outcome-cases {ℓ} :
    {A : Type ℓ} (o : Outcome A) → ((e : String) × (o ≡ raised e)) ⊎ ((a : A) × (o ≡ ok a))
Outcome-cases (ok a) = inr (a, refl)
Outcome-cases (raised e) = inl (e, refl)
