-- ===== src/Tactics/Utility.antt =====
-- hsl_core/hsl_core/tactics/utility.py. A weight is an integer of the unit 1e-12, a feature one
-- of the unit 1e-6, and a product of both, as a utility, one of the unit 1e-18, so that the tolerance of
-- 1e-12 is 1 for a weight and 1000000 for a utility. A float is rounded to such a number, and a sum of
-- them is exact. Of the messages, the names that they quote are left out.
use hsl.Prelude.{
  ℕ, ◌+◌, ◌≡◌, String, Bool, true, false, not, ◌&&◌, ◌||◌, Option, some, List, [], ◌∷◌, map,
  if◌then◌else◌, leb, arith, is_empty, is_blank, contains, same_set, is_unique, nat_eqb, Eq, ◌==◌,
  ◌!=◌, string_eq, nat_eq, any,
}
use hsl.Prelude.Int.{ℤ, pos, negsuc, pos_part, neg_part, ◌+ℤ◌, ◌-ℤ◌, ◌*ℤ◌, is_negative, leb_ℤ}
use hsl.Prelude.Outcome.{Outcome, ok, raised, refuse, ◌>>=◌, ◌>>◌}
use hsl.Prelude.Dict
use hsl.Prelude.Dict.{Dict}
use hsl.Match.Enums.{Role, role_eq}
pub mod Bounds

-- `ROLE_FEATURES`, each set in the order of `sorted`.
abbrev pub role_features : Role → List String
role_features Role.guardian =
    "capture_opportunity" ∷ "duration_cost" ∷ "observation_gain" ∷ "portal_time_advantage"
    ∷ "pursuit_value" ∷ []
role_features Role.explorer =
    "alternative_exits" ∷ "base_progress" ∷ "capture_risk" ∷ "duration_cost" ∷ "escape_safety"
    ∷ "observation_gain" ∷ "visibility_loss" ∷ []

abbrev pub cost_features : List String
cost_features = "capture_risk" ∷ "duration_cost" ∷ []

pub record UtilityProfile : Type 0 where
  pub profile_id : String
  pub role : Role
  pub weights : Dict String ℤ
  pub schema_version : ℕ

pub record UtilityResult : Type 0 where
  pub value : ℤ
  pub contributions : Dict String ℤ
  pub profile_id : String
  pub schema_version : ℕ

abbrev pub abs : ℤ → ℕ
abs a = pos_part a + neg_part a

-- One, in the unit of a weight, of a feature and of a utility.
abbrev pub unit_weight : ℕ
unit_weight = 1000000000000

abbrev pub unit_feature : ℕ
unit_feature = 1000000

abbrev pub unit_utility : ℕ
unit_utility = 1000000000000000000

-- The tolerance of 1e-12, for a weight and for a utility.
abbrev pub weight_tolerance : ℕ
weight_tolerance = 1

abbrev pub utility_tolerance : ℕ
utility_tolerance = 1000000

-- The names of `entries` are non-empty, and none comes twice or is one of `seen`.
abbrev pub check_names : String → String → List String → Dict String ℤ → Outcome (Unit {0})
check_names missing twice seen [] = ok tt
check_names missing twice seen ((name, value) ∷ entries) = do
  refuse (is_empty name) missing
  refuse (contains name seen) twice
  check_names missing twice (name ∷ seen) entries

abbrev pub names_of : Dict String ℤ → List String
names_of = map (λ entry. entry.0)

abbrev check_signs : Dict String ℤ → Outcome (Unit {0})
check_signs [] = ok tt
check_signs ((name, weight) ∷ entries) = do
  refuse (contains name cost_features && not (leb_ℤ weight (pos 0)))
      "cost feature must have a non-positive weight"
  refuse (not (contains name cost_features) && is_negative weight)
      "benefit feature must have a non-negative weight"
  check_signs entries

abbrev pub total_mass : Dict String ℤ → ℕ
total_mass [] = 0
total_mass ((name, weight) ∷ entries) = abs weight + total_mass entries

-- `UtilityProfile.__post_init__`
unfoldable pub check_profile : UtilityProfile → Outcome (Unit {0})
check_profile p = do
  refuse (is_blank p.profile_id) "profile_id must be non-empty"
  refuse (p.schema_version != 1) "unsupported utility profile schema_version"
  check_names "weight feature names must be non-empty" "duplicate feature weight" [] p.weights
  refuse (not (same_set (names_of p.weights) (role_features p.role)))
      "utility feature schema mismatch"
  check_signs p.weights
  refuse (not (leb (total_mass p.weights) (unit_weight + weight_tolerance)))
      "sum of absolute utility weights must not exceed one"

abbrev pub sum : Dict String ℤ → ℤ
sum [] = pos 0
sum ((name, value) ∷ entries) = value +ℤ sum entries

-- Within [-1, 1], up to the tolerance of 1e-12.
abbrev pub is_bounded : ℤ → Bool
is_bounded value = leb (abs value) (unit_utility + utility_tolerance)

-- `math.isclose` at the absolute tolerance of 1e-12.
abbrev pub is_close : ℤ → ℤ → Bool
is_close a b = leb (abs (a -ℤ b)) utility_tolerance

-- `UtilityResult.__post_init__`
unfoldable pub check_result : UtilityResult → Outcome (Unit {0})
check_result r = do
  refuse (not (is_bounded r.value)) "utility must be finite and within [-1, 1]"
  refuse (is_empty r.profile_id) "profile_id must be non-empty"
  refuse (r.schema_version != 1) "unsupported utility result schema_version"
  check_names "contribution names must be non-empty and unique"
      "contribution names must be non-empty and unique" [] r.contributions
  refuse (not (is_close (sum r.contributions) r.value))
      "utility value does not equal the sum of contributions"

-- One turn of the loop of `score`: a name that is not there is a `KeyError`.
abbrev pub term_of : String → Option ℤ → Option ℤ → Outcome (String × ℤ)
term_of name (some feature) (some weight) = do
  refuse (is_negative feature || not (leb_ℤ feature (pos unit_feature)))
      "feature must be finite and normalized to [0, 1]"
  ok (name, weight *ℤ feature)
term_of name _ _ = raised name

unfoldable pub terms_of : List String → Dict String ℤ → Dict String ℤ → Outcome (Dict String ℤ)
unfolding Dict.get
terms_of [] features weights = ok []
terms_of (name ∷ names) features weights = do
  term ← term_of name (Dict.get name features) (Dict.get name weights)
  terms ← terms_of names features weights
  ok (term ∷ terms)

abbrev pub result_of : Dict String ℤ → UtilityProfile → UtilityResult
result_of terms p = record {
  value = sum terms;
  contributions = terms;
  profile_id = p.profile_id;
  schema_version = p.schema_version;
}

-- `score`, whose `ArithmeticError` is a message too.
unfoldable pub score : Dict String ℤ → UtilityProfile → Outcome UtilityResult
unfolding terms_of check_result
score features p = do
  refuse (not (same_set (names_of features) (role_features p.role))) "utility feature set mismatch"
  terms ← terms_of (role_features p.role) features p.weights
  refuse (not (is_bounded (sum terms))) "bounded utility escaped its proven range"
  check_result (result_of terms p)
  ok (result_of terms p)
