-- ===== src/Tactics/Utility/Bounds.antt =====
-- The utility of normalized features under a valid profile: it is always there, and bounded.
use hsl.Prelude.{
  Bool, not, ◌||◌, sym, ap, ◌∙◌, All, is_blank, is_blank-is_empty, is_subset, same_set, zero, suc,
  Bool-cases, inl, inr, ℕ, ◌+◌, ◌*◌, ◌≤◌, String, true, false, ◌≡◌, refl, Option, some, List, [],
  ◌∷◌, arith, contains, eq_iff, string_eq, ◌==◌, is_unique, leb,
}
use hsl.Prelude.Int.{ℤ, pos, negsuc, ◌-ℤ◌, is_negative, leb_ℤ, ◌+ℤ◌, ◌*ℤ◌}
use hsl.Prelude.Outcome.{Outcome, ok, raised, ◌>>=◌}
use hsl.Prelude.Dict
use hsl.Prelude.Dict.{Dict}
use hsl.Match.Enums.{Role}
use hsl.Tactics.Utility.{
  UtilityProfile, UtilityResult, term_of, result_of, abs, unit_weight, unit_feature,
  weight_tolerance, utility_tolerance, names_of, check_names, check_result, is_close, unit_utility,
  total_mass, sum, terms_of, score, check_profile, role_features,
}

abs-add : (a b : ℤ) → abs (a +ℤ b) ≤ abs a + abs b
unfolding ◌+ℤ◌
abs-add a b = ground arith

mul_mono : (a m n : ℕ) → n ≤ m → a * n ≤ a * m
mul_mono a zero n h = let none_left : n ≡ 0 = omega (arith, h) in rw (none_left) (omega arith)
mul_mono a (suc m) n h = elim (Bool-cases (leb n m)) [
  | inl below ↦ let rest = mul_mono a m n (ground (arith, below)) in omega (arith, rest)
  | inr top ↦ let same : n ≡ suc m = ground (arith, h, top) in rw (same) (omega arith)
]

abs-scaled : (a : ℤ) (n : ℕ) → abs (a *ℤ pos n) ≡ abs a * n
unfolding ◌*ℤ◌
abs-scaled (pos a) n = ground arith
abs-scaled (negsuc a) n = ground arith

abs-scale : (a : ℤ) (n m : ℕ) → n ≤ m → abs (a *ℤ pos n) ≤ abs a * m
unfolding ◌*ℤ◌
abs-scale a n m h = rw (abs-scaled a n) (mul_mono (abs a) m n h)

-- The mass of the weights of `names`.
abbrev mass_of : Option ℤ → ℕ
mass_of Option.none = 0
mass_of (some weight) = abs weight

spread : List String → Dict String ℤ → ℕ
spread [] weights = 0
spread (name ∷ names) weights = mass_of (Dict.get name weights) + spread names weights

spread-other :
    (names : List String) (key : String) (weight : ℤ) (weights : Dict String ℤ)
    → contains key names ≡ false
    → spread names ((key, weight) ∷ weights) ≡ spread names weights
unfolding spread Dict.get
spread-other [] key weight weights h = refl
spread-other (name ∷ names) key weight weights h =
    let rest = spread-other names key weight weights (ground (arith, h)) in
    ground (arith, h, rest, eq_iff key name, eq_iff name key)

spread-cons :
    (names : List String) (key : String) (weight : ℤ) (weights : Dict String ℤ)
    → is_unique names ≡ true
    → spread names ((key, weight) ∷ weights) ≤ abs weight + spread names weights
unfolding spread Dict.get
spread-cons [] key weight weights unique = omega arith
spread-cons (name ∷ names) key weight weights unique =
    let rest = spread-cons names key weight weights (ground (arith, unique)) in
    elim (Bool-cases (key == name)) [
      | inr other ↦ ground (arith, other, rest)
      | inl same ↦
          let fresh : contains key names ≡ false = ground (arith, unique, eq_iff key name, same) in
          let equal = spread-other names key weight weights fresh in ground (arith, same, equal)
    ]

spread-nil : (names : List String) → spread names [] ≡ 0
unfolding spread Dict.get
spread-nil [] = refl
spread-nil (name ∷ names) = omega (arith, spread-nil names)

spread-le :
    (names : List String) (weights : Dict String ℤ)
    → is_unique names ≡ true
    → spread names weights ≤ total_mass weights
spread-le names [] unique = omega (arith, spread-nil names)
spread-le names ((key, weight) ∷ weights) unique =
    omega (arith, spread-cons names key weight weights unique, spread-le names weights unique)

step-le :
    (name : String) (feature weight : Option ℤ) (rest : Outcome (Dict String ℤ))
    (terms : Dict String ℤ) (k : ℕ)
    → (do term ← term_of name feature weight; others ← rest; ok (term ∷ others)) ≡ ok terms
    → ((others : Dict String ℤ) → rest ≡ ok others → abs (sum others) ≤ k)
    → abs (sum terms) ≤ mass_of weight * unit_feature + k
step-le name (some (pos n)) (some w) (ok others) terms k h bound =
    elim (Bool-cases (leb n unit_feature)) [
      | inr large ↦ ground (arith, h, large)
      | inl fits ↦
          let same : terms ≡ (name, w *ℤ pos n) ∷ others = ground (arith, h, fits) in
          rw (same) (
            omega (
              arith,
              abs-add (w *ℤ pos n) (sum others),
              abs-scale w n unit_feature (ground (arith, fits)),
              bound others refl,
            ))
    ]
step-le name (some (negsuc n)) (some w) (ok others) terms k h bound = ground (arith, h)
step-le name (some (pos n)) (some w) (raised e) terms k h bound = ground (arith, h)
step-le name (some (negsuc n)) (some w) (raised e) terms k h bound = ground (arith, h)
step-le name (some x) Option.none rest terms k h bound = ground (arith, h)
step-le name Option.none weight rest terms k h bound = ground (arith, h)

terms_of-le :
    (names : List String) (features weights terms : Dict String ℤ)
    → terms_of names features weights ≡ ok terms
    → abs (sum terms) ≤ spread names weights * unit_feature
unfolding terms_of spread
terms_of-le [] features weights terms h = ground (arith, h)
terms_of-le (name ∷ names) features weights terms h =
    let stepped =
      step-le name (Dict.get name features) (Dict.get name weights)
        (terms_of names features weights) terms (spread names weights * unit_feature) h
        (λ others. terms_of-le names features weights others) in
    omega (arith, stepped)

features_unique : (role : Role) → is_unique (role_features role) ≡ true
features_unique Role.guardian = refl
features_unique Role.explorer = refl

-- A feature that is normalized to [0, 1].
abbrev pub is_normalized : ℤ → Bool
is_normalized feature = not (is_negative feature || not (leb_ℤ feature (pos unit_feature)))

get-contained :
    (name : String) (entries : Dict String ℤ)
    → contains name (names_of entries) ≡ true
    → (value : ℤ) × (Dict.get name entries ≡ some value)
unfolding Dict.get
get-contained name [] h = absurd (ground (arith, h))
get-contained name ((key, value) ∷ entries) h = elim (Bool-cases (key == name)) [
  | inl same ↦ (value, ground (arith, same))
  | inr other ↦
      let rest = get-contained name entries (ground (arith, h, other)) in
      (rest.0, ground (arith, other, rest.1))
]

get-normalized :
    (name : String) (entries : Dict String ℤ) (value : ℤ)
    → All (λ entry. is_normalized entry.1 ≡ true) entries
    → Dict.get name entries ≡ some value
    → is_normalized value ≡ true
unfolding Dict.get
get-normalized name [] value h found = absurd (ground (arith, found))
get-normalized name ((key, x) ∷ entries) value h found = elim (Bool-cases (key == name)) [
  | inl same ↦
      let here : x ≡ value = ground (arith, found, same) in ap is_normalized (sym here) ∙ h.0
  | inr other ↦ get-normalized name entries value h.1 (ground (arith, found, other))
]

term_of-normalized :
    (name : String) (feature weight : ℤ)
    → is_normalized feature ≡ true
    → term_of name (some feature) (some weight) ≡ ok (name, weight *ℤ feature)
term_of-normalized name (pos n) weight h = ground (arith, h)
term_of-normalized name (negsuc n) weight h = ground (arith, h)

-- A contribution is the product of the weight and the feature that it is named for.
abbrev pub IsProduct : Dict String ℤ → Dict String ℤ → String × ℤ → Type 0
IsProduct features weights (name, value) =
    (feature : ℤ) × (weight : ℤ) × (Dict.get name features ≡ some feature)
    × (Dict.get name weights ≡ some weight)
    × (value ≡ weight *ℤ feature)

-- Every named term is there when every name has a normalized feature and a weight.
terms_of-total :
    (names : List String) (features weights : Dict String ℤ)
    → is_subset names (names_of features) ≡ true
    → is_subset names (names_of weights) ≡ true
    → All (λ entry. is_normalized entry.1 ≡ true) features
    → (terms : Dict String ℤ) × (terms_of names features weights ≡ ok terms)
      × (names_of terms ≡ names)
      × All (IsProduct features weights) terms
unfolding terms_of
terms_of-total [] features weights f w normal = ([], refl, refl, tt)
terms_of-total (name ∷ names) features weights f w normal =
    let (feature, found) = get-contained name features (ground (arith, f)) in
    let (weight, weighed) = get-contained name weights (ground (arith, w)) in
    let (terms, rest, named, products) =
      terms_of-total names features weights (ground (arith, f)) (ground (arith, w)) normal in
    let good = get-normalized name features feature normal found in
    let term = term_of-normalized name feature weight good in
    (
      (name, weight *ℤ feature) ∷ terms,
      rw (found, weighed, term, rest) refl,
      ap (λ ns. name ∷ ns) named,
      ((feature, weight, found, weighed, refl {a = weight *ℤ feature}), products),
    )

profile-weights :
    (p : UtilityProfile)
    → check_profile p ≡ ok tt
    → (total_mass p.weights ≤ unit_weight + weight_tolerance)
      × (same_set (names_of p.weights) (role_features p.role) ≡ true)
      × (is_blank p.profile_id ≡ false)
      × (p.schema_version ≡ 1)
unfolding check_profile
profile-weights p valid = ground (arith, valid)

utility-bounded :
    (p : UtilityProfile) (features terms : Dict String ℤ)
    → check_profile p ≡ ok tt
    → terms_of (role_features p.role) features p.weights ≡ ok terms
    → abs (sum terms) ≤ unit_utility + utility_tolerance
utility-bounded p features terms valid found = omega (
  arith,
  terms_of-le (role_features p.role) features p.weights terms found,
  spread-le (role_features p.role) p.weights (features_unique p.role),
  (profile-weights p valid).0,
)

-- `check_names` reads the names alone.
unvalued : List String → Dict String ℤ
unvalued [] = []
unvalued (name ∷ names) = (name, pos 0) ∷ unvalued names

check_names-unvalued :
    (missing twice : String) (seen : List String) (entries : Dict String ℤ)
    → check_names missing twice seen entries
      ≡ check_names missing twice seen (unvalued (names_of entries))
unfolding unvalued
check_names-unvalued missing twice seen [] = refl
check_names-unvalued missing twice seen ((name, value) ∷ entries) =
    rw (check_names-unvalued missing twice (name ∷ seen) entries) refl

check_names-role :
    (missing twice : String) (role : Role)
    → check_names missing twice [] (unvalued (role_features role)) ≡ ok tt
unfolding unvalued
check_names-role missing twice Role.guardian = refl
check_names-role missing twice Role.explorer = refl

is_close_refl : (a : ℤ) → is_close a a ≡ true
unfolding ◌-ℤ◌
is_close_refl a = ground arith

result_of-valid :
    (p : UtilityProfile) (features terms : Dict String ℤ)
    → check_profile p ≡ ok tt
    → terms_of (role_features p.role) features p.weights ≡ ok terms
    → names_of terms ≡ role_features p.role
    → check_result (result_of terms p) ≡ ok tt
unfolding check_result
result_of-valid p features terms valid found named =
    let twice : String = "contribution names must be non-empty and unique" in
    let names : check_names twice twice [] terms ≡ ok tt =
      check_names-unvalued twice twice [] terms
      ∙ (ap (λ ns. check_names twice twice [] (unvalued ns)) named
          ∙ check_names-role twice twice p.role) in
    let (mass, own, identified, version) = profile-weights p valid in
    ground (
      arith,
      names,
      utility-bounded p features terms valid found,
      is_blank-is_empty p.profile_id identified,
      version,
      is_close_refl (sum terms),
    )

-- Under a valid profile, `score` of a full set of features that are normalized to [0, 1] returns: none
-- of its own checks of the utility, and none of those of its result, ever raises. The utility is the
-- sum of the contributions, one for each feature of the role in the order of their names, each the
-- product of the feature and its weight, and stays within [-1, 1] up to the tolerance that the profile's
-- mass has.
pub score-bounded :
    (features : Dict String ℤ) (p : UtilityProfile)
    → check_profile p ≡ ok tt
    → same_set (names_of features) (role_features p.role) ≡ true
    → All (λ entry. is_normalized entry.1 ≡ true) features
    → (r : UtilityResult) × (score features p ≡ ok r)
      × (abs r.value ≤ unit_utility + utility_tolerance)
      × (r.value ≡ sum r.contributions)
      × (names_of r.contributions ≡ role_features p.role)
      × All (IsProduct features p.weights) r.contributions
unfolding score
score-bounded features p valid full normal =
    let (mass, own, identified, version) = profile-weights p valid in
    let (terms, found, named, products) =
      terms_of-total (role_features p.role) features p.weights (ground (arith, full))
        (ground (arith, own)) normal in
    let bounded = utility-bounded p features terms valid found in
    let checked = result_of-valid p features terms valid found named in
    (
      result_of terms p,
      ground (arith, full, found, bounded, checked),
      bounded,
      refl {a = sum terms},
      named,
      products,
    )
