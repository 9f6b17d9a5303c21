-- ===== src/Prelude/Lists.antt =====
-- Lists measured by native numbers, and the tests and predicates on lists that the models share.
use Prim.Native.Nat.{ℕ, zero, suc, ◌+◌, ◌-◌}
use mathlib.Core.Path.{◌≡◌, refl}
use mathlib.Core.Logic.{◌⊎◌, inl, inr}
use mathlib.Core.Bool.{Bool, true, false, ◌&&◌, ◌||◌}
use mathlib.Core.List.{List, [], ◌∷◌, ◌++◌}
use native.Mathlib.Omega.{arith}
use hsl.Prelude.Classes.{Eq, ◌==◌}

module _ {ℓ} {A : Type ℓ} where
  abbrev pub length : List A → ℕ
  length [] = 0
  length (x ∷ xs) = suc (length xs)

  pub length-append : (xs ys : List A) → length (xs ++ ys) ≡ length xs + length ys
  length-append [] ys = omega arith
  length-append (x ∷ xs) ys = omega (arith, length-append xs ys)

  abbrev pub drop : ℕ → List A → List A
  drop zero xs = xs
  drop (suc n) [] = []
  drop (suc n) (x ∷ xs) = drop n xs

  pub length-drop : (n : ℕ) (xs : List A) → length (drop n xs) ≡ length xs - n
  length-drop zero xs = omega arith
  length-drop (suc n) [] = omega arith
  length-drop (suc n) (x ∷ xs) = omega (arith, length-drop n xs)

  abbrev pub any : (A → Bool) → List A → Bool
  any p [] = false
  any p (x ∷ xs) = p x || any p xs

  abbrev pub all : (A → Bool) → List A → Bool
  all p [] = true
  all p (x ∷ xs) = p x && all p xs

module _ {ℓ κ} {A : Type ℓ} where
  abbrev pub All : (A → Type κ) → List A → Type κ
  All P [] = Unit
  All P (x ∷ xs) = P x × All P xs

module _ {A : Type 0} where
  abbrev pub IsIn : A → List A → Type 0
  IsIn a [] = ⊥
  IsIn a (x ∷ xs) = (a ≡ x) ⊎ IsIn a xs

  pub IsIn-append-left : (a : A) (xs ys : List A) → IsIn a xs → IsIn a (xs ++ ys)
  IsIn-append-left a [] ys h = absurd h
  IsIn-append-left a (x ∷ xs) ys (inl same) = inl same
  IsIn-append-left a (x ∷ xs) ys (inr later) = inr (IsIn-append-left a xs ys later)

  pub IsIn-append-right : (a : A) (xs ys : List A) → IsIn a ys → IsIn a (xs ++ ys)
  IsIn-append-right a [] ys h = h
  IsIn-append-right a (x ∷ xs) ys h = inr (IsIn-append-right a xs ys h)

  pub All-IsIn {κ} : (P : A → Type κ) (a : A) (xs : List A) → All P xs → IsIn a xs → P a
  All-IsIn P a [] ps h = absurd h
  All-IsIn P a (x ∷ xs) ps (inl same) = rw same ps.0
  All-IsIn P a (x ∷ xs) ps (inr later) = All-IsIn P a xs ps.1 later

  pub All-map {κ μ} :
      (P : A → Type κ) (Q : A → Type μ)
      → ((a : A) → P a → Q a)
      → (xs : List A) → All P xs
      → All Q xs
  All-map P Q f [] ps = tt
  All-map P Q f (x ∷ xs) ps = (f x ps.0, All-map P Q f xs ps.1)

  pub All-of-IsIn {κ} : (P : A → Type κ) (xs : List A) → ((a : A) → IsIn a xs → P a) → All P xs
  All-of-IsIn P [] f = tt
  All-of-IsIn P (x ∷ xs) f = (f x (inl refl), All-of-IsIn P xs (λ a i. f a (inr i)))

  -- An empty list, or its head and its tail.
  pub List-cases : (xs : List A) → (xs ≡ []) ⊎ ((x : A) × (rest : List A) × (xs ≡ x ∷ rest))
  List-cases [] = inl refl
  List-cases (x ∷ rest) = inr (x, rest, refl)

module _ {ℓ} {A : Type ℓ} ⦃e : Eq A⦄ where
  -- `a in xs`
  abbrev pub contains : A → List A → Bool
  contains a [] = false
  contains a (x ∷ xs) = x == a || contains a xs

  -- `xs <= ys` on sets
  abbrev pub is_subset : List A → List A → Bool
  is_subset [] ys = true
  is_subset (x ∷ xs) ys = contains x ys && is_subset xs ys

  -- `xs == ys` on sets
  abbrev pub same_set : List A → List A → Bool
  same_set xs ys = is_subset xs ys && is_subset ys xs

  -- `len(set(xs)) == len(xs)`
  abbrev pub is_unique : List A → Bool
  is_unique [] = true
  is_unique (x ∷ xs) = elim (contains x xs) [ true ↦ false | false ↦ is_unique xs ]
