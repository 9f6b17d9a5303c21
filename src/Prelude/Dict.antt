-- ===== src/Prelude/Dict.antt =====
-- Python's `dict`, in insertion order: an assignment to a key that is there keeps its place.
use Prim.Native.Nat.{suc, ◌≤◌}
use mathlib.Core.Path.{◌≡◌, refl}
use mathlib.Core.Bool.{Bool, true, false}
use mathlib.Core.Option.{Option, none, some}
use mathlib.Core.List.{List, [], ◌∷◌}
use native.Mathlib.Omega.{arith}
use hsl.Prelude.Tests.{if◌then◌else◌}
use hsl.Prelude.Classes.{Eq, ◌==◌}
use hsl.Prelude.Lists.{length}

abbrev pub Dict : Type 0 → Type 0 → Type 0
Dict K V = List (K × V)

module _ {K V : Type 0} ⦃e : Eq K⦄ where
  -- d.get(k)
  unfoldable pub get : K → Dict K V → Option V
  get k [] = none
  get k ((j, v) ∷ d) = if j == k then some v else get k d

  -- k in d
  unfoldable pub has : K → Dict K V → Bool
  has k [] = false
  has k ((j, v) ∷ d) = if j == k then true else has k d

  -- d[k] = v
  unfoldable pub put : K → V → Dict K V → Dict K V
  put k v [] = (k, v) ∷ []
  put k v ((j, w) ∷ d) = if j == k then (j, v) ∷ d else (j, w) ∷ put k v d

  -- d.pop(k, None)
  unfoldable pub pop : K → Dict K V → Dict K V
  pop k [] = []
  pop k ((j, v) ∷ d) = let rest = pop k d in if j == k then rest else (j, v) ∷ rest

  pub get-put :
      (k j : K) (v : V) (d : Dict K V) → get j (put k v d) ≡ (if k == j then some v else get j d)
  unfolding get put
  get-put k j v [] = refl
  get-put k j v ((i, w) ∷ d) =
      ground (arith, e.beq_iff k j, e.beq_iff i k, e.beq_iff i j, get-put k j v d)

  pub get-pop : (k j : K) (d : Dict K V) → get j (pop k d) ≡ (if k == j then none else get j d)
  unfolding get pop
  get-pop k j [] = ground arith
  get-pop k j ((i, w) ∷ d) =
      ground (arith, e.beq_iff k j, e.beq_iff i k, e.beq_iff i j, get-pop k j d)

  pub length-put :
      (k : K) (v : V) (d : Dict K V)
      → length (put k v d) ≡ (if has k d then length d else suc (length d))
  unfolding put has
  length-put k v [] = refl
  length-put k v ((j, w) ∷ d) = ground (arith, length-put k v d)

  pub length-pop-le : (k : K) (d : Dict K V) → length (pop k d) ≤ length d
  unfolding pop
  length-pop-le k [] = omega arith
  length-pop-le k ((j, w) ∷ d) = ground (arith, length-pop-le k d)

  pub get-none-has : (k : K) (d : Dict K V) → get k d ≡ none → has k d ≡ false
  unfolding get has
  get-none-has k [] h = refl
  get-none-has k ((j, w) ∷ d) h = ground (arith, get-none-has k d)

  pub get-some-has : (k : K) (d : Dict K V) {v : V} → get k d ≡ some v → has k d ≡ true
  unfolding get has
  get-some-has k [] h = ground arith
  get-some-has k ((j, w) ∷ d) {v} h = ground (arith, get-some-has k d {v = v})

-- d.values()
unfoldable pub values : {K V : Type 0} → Dict K V → List V
values [] = []
values ((k, v) ∷ d) = v ∷ values d
