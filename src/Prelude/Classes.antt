-- ===== src/Prelude/Classes.antt =====
-- Equality tests of Python's `==`, as an instance for each type of keys and payloads.
use Prim.Native.Nat.{ℕ}
use Prim.Native.String.{String}
use mathlib.Core.Path.{◌≡◌}
use mathlib.Core.Logic.{◌↔◌}
use mathlib.Core.Bool.{Bool, true, false, not, ◌&&◌}
use native.Mathlib.Omega.{arith}
use text.Mathlib.Text.{◌==◌ as str_eq}
use text.Mathlib.TextEquality.{eq_iff}
use hsl.Prelude.Tests.{nat_eqb, nat_eqb_iff}

pub record Eq {ℓ} (A : Type ℓ) : Type ℓ where
  pub beq : A → A → Bool
  pub beq_iff : (a b : A) → (beq a b ≡ true) ↔ (a ≡ b)

module _ {ℓ} {A : Type ℓ} ⦃e : Eq A⦄ where
  infix 50 ◌!=◌ ◌==◌
  abbrev pub ◌!=◌ : A → A → Bool
  a != b = not (e.beq a b)

  abbrev pub ◌==◌ : A → A → Bool
  a == b = e.beq a b

instance abbrev pub string_eq : Eq String
string_eq = record { beq = str_eq; beq_iff = eq_iff }

-- A key that is a pair of texts.
abbrev pub pair_beq : String × String → String × String → Bool
pair_beq p q = str_eq p.0 q.0 && str_eq p.1 q.1

pub pair_beq_iff : (p q : String × String) → (pair_beq p q ≡ true) ↔ (p ≡ q)
pair_beq_iff p q = ground (arith, eq_iff p.0 q.0, eq_iff p.1 q.1)

instance abbrev pub pair_eq : Eq (String × String)
pair_eq = record { beq_iff = pair_beq_iff; beq = pair_beq }

instance abbrev pub nat_eq : Eq ℕ
nat_eq = record { beq_iff = nat_eqb_iff; beq = nat_eqb }

abbrev pub bool_beq : Bool → Bool → Bool
bool_beq true b = b
bool_beq false b = not b

pub bool_beq_iff : (a b : Bool) → (bool_beq a b ≡ true) ↔ (a ≡ b)
bool_beq_iff a b = ground arith

instance abbrev pub bool_eq : Eq Bool
bool_eq = record { beq_iff = bool_beq_iff; beq = bool_beq }
