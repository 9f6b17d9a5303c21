-- ===== src/Prelude/Stateful.antt =====
-- A method of an object: from the object's state to what it returns or raises, and the next state.
-- What a method changed before it raises stays changed.
use Prim.Native.String.{String}
use mathlib.Core.Bool.{Bool, true, false}
use hsl.Prelude.Outcome.{Outcome, ok, raised}

abbrev pub Stateful {ℓ} : Type ℓ → Type ℓ → Type ℓ
Stateful S A = S → Outcome A × S

module _ {S : Type 0} where
  abbrev pub continue : {A B : Type 0} → (A → Stateful S B) → Outcome A × S → Outcome B × S
  continue f (ok a, s) = f a s
  continue f (raised e, s) = (raised e, s)

  infixl 5 ◌>>=◌ ◌>>◌
  abbrev pub ◌>>=◌ : {A B : Type 0} → Stateful S A → (A → Stateful S B) → Stateful S B
  ◌>>=◌ m f s = continue f (m s)

  abbrev pub ◌>>◌ : {B : Type 0} → Stateful S (Unit {0}) → Stateful S B → Stateful S B
  ◌>>◌ m k s = continue (λ _. k) (m s)

  abbrev pub give : {A : Type 0} → A → Stateful S A
  give a s = (ok a, s)

  abbrev pub modify : (S → S) → Stateful S (Unit {0})
  modify f s = (ok tt, f s)

  -- `if bad: raise ValueError(message)`
  abbrev pub require : Bool → String → Stateful S (Unit {0})
  require true message s = (raised message, s)
  require false message s = (ok tt, s)
