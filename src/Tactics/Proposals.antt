-- ===== src/Tactics/Proposals.antt =====
-- hsl_core/hsl_core/tactics/fsm.py: the proposals of options and the snapshot that they stand in, with
-- the validations of their constructors. What a constructor sorts keeps its order here, since nothing
-- reads that order.
use hsl.Prelude.{
  ℕ, ◌+◌, String, Bool, true, false, not, ◌&&◌, ◌||◌, ◌≡◌, ◌↔◌, Option, none, some, List, [], ◌∷◌,
  map, leb, ltb, arith, is_empty, is_blank, contains, same_set, is_unique, nat_eqb, Eq, ◌==◌, ◌!=◌,
  string_eq, nat_eq,
}
use hsl.Prelude.Int.{ℤ}
use hsl.Prelude.Outcome.{Outcome, ok, refuse, ◌>>◌}
use hsl.Prelude.Dict.{Dict}
use hsl.Match.Enums.{Role, role_eq}
use hsl.Options.{OptionKind, option_kind_eq, OptionGoal, OptionContext, is_hold_safe}
use hsl.Tactics.Utility.{check_names, names_of}

pub data TacticalGuard : Type 0 where
  robust_capture_opportunity credible_imminent_base_threat : TacticalGuard
  intercept_dominates_base_defense supported_intercept recent_occlusion : TacticalGuard
  useful_rival graph_search_viewpoint immediate_trap_risk verified_escape_route : TacticalGuard
  break_los_feasible contested_route alternate_route_available accepted_goal : TacticalGuard
  goal_threat_acceptable informative_safe_observation versioned_open_route : TacticalGuard

abbrev pub guard_int : TacticalGuard → ℕ
guard_int TacticalGuard.robust_capture_opportunity = 0
guard_int TacticalGuard.credible_imminent_base_threat = 1
guard_int TacticalGuard.intercept_dominates_base_defense = 2
guard_int TacticalGuard.supported_intercept = 3
guard_int TacticalGuard.recent_occlusion = 4
guard_int TacticalGuard.useful_rival = 5
guard_int TacticalGuard.graph_search_viewpoint = 6
guard_int TacticalGuard.immediate_trap_risk = 7
guard_int TacticalGuard.verified_escape_route = 8
guard_int TacticalGuard.break_los_feasible = 9
guard_int TacticalGuard.contested_route = 10
guard_int TacticalGuard.alternate_route_available = 11
guard_int TacticalGuard.accepted_goal = 12
guard_int TacticalGuard.goal_threat_acceptable = 13
guard_int TacticalGuard.informative_safe_observation = 14
guard_int TacticalGuard.versioned_open_route = 15

abbrev pub guard_beq : TacticalGuard → TacticalGuard → Bool
guard_beq a b = nat_eqb (guard_int a) (guard_int b)

pub guard_beq_iff : (a b : TacticalGuard) → (guard_beq a b ≡ true) ↔ (a ≡ b)
guard_beq_iff a b = ground arith

instance abbrev pub guard_eq : Eq TacticalGuard
guard_eq = record { beq = guard_beq; beq_iff = guard_beq_iff }

pub record InterceptionTiming : Type 0 where
  pub hypothesis_id : String
  pub evidence_id : String
  pub guardian_arrival_upper_ns : ℕ
  pub explorer_arrival_lower_ns : ℕ
  pub required_buffer_ns : ℕ

-- `InterceptionTiming.__post_init__`
unfoldable pub check_timing : InterceptionTiming → Outcome (Unit {0})
check_timing t = do
  refuse (is_blank t.hypothesis_id) "hypothesis_id must be non-empty"
  refuse (is_blank t.evidence_id) "evidence_id must be non-empty"

abbrev pub dominates_base_defense : InterceptionTiming → Bool
dominates_base_defense t =
    ltb (t.guardian_arrival_upper_ns + t.required_buffer_ns) t.explorer_arrival_lower_ns

pub record OptionProposal : Type 0 where
  pub stable_key : String
  pub goal : OptionGoal
  pub feasible : Bool
  pub infeasible_reason : String
  pub guard_facts : List TacticalGuard
  pub guard_evidence : List (TacticalGuard × String)
  pub features : Dict String ℤ
  pub urgency_rank : Option ℕ
  pub urgency_evidence_id : String
  pub interception_timing : Option InterceptionTiming

abbrev pub is_given : {A : Type 0} → Option A → Bool
is_given none = false
is_given (some a) = true

abbrev urgency_is_required : OptionGoal → Bool
urgency_is_required g =
    g.role == Role.explorer
    && (g.kind == OptionKind.keep_escape_route || g.kind == OptionKind.break_los)

abbrev check_urgency : Bool → String → Option ℕ → Outcome (Unit {0})
check_urgency required evidence_id none =
    refuse (not (is_empty evidence_id)) "urgency evidence requires an urgency_rank"
check_urgency required evidence_id (some rank) = do
  refuse (not (leb rank 255)) "urgency_rank must be an integer in [0, 255]"
  refuse (not required) "urgency_rank is only defined for explorer escape options"

abbrev check_evidence : List TacticalGuard → List (TacticalGuard × String) → Outcome (Unit {0})
check_evidence seen [] = ok tt
check_evidence seen ((fact, evidence_id) ∷ entries) = do
  refuse (contains fact seen) "guard evidence entries must be unique"
  refuse (is_blank evidence_id) "guard evidence IDs must be non-empty"
  check_evidence (fact ∷ seen) entries

-- `OptionProposal.__post_init__`
unfoldable pub check_proposal : OptionProposal → Outcome (Unit {0})
check_proposal p = do
  let required = urgency_is_required p.goal
  refuse (is_blank p.stable_key) "stable_key must be non-empty"
  refuse (p.feasible && not (is_empty p.infeasible_reason))
      "feasible proposals must not carry an infeasibility reason"
  refuse (not p.feasible && is_blank p.infeasible_reason) "infeasible proposals require a reason"
  refuse (required && not (is_given p.urgency_rank))
      "explorer escape options require an ordinal urgency_rank"
  refuse (required && is_blank p.urgency_evidence_id)
      "explorer escape options require urgency evidence"
  check_urgency required p.urgency_evidence_id p.urgency_rank
  refuse (is_given p.interception_timing && p.goal.kind != OptionKind.intercept_portal)
      "interception timing is only valid for INTERCEPT_PORTAL"
  refuse (not (is_unique p.guard_facts)) "guard_facts must be unique"
  check_evidence [] p.guard_evidence
  refuse (not (same_set (map (λ entry. entry.0) p.guard_evidence) p.guard_facts))
      "every guard fact requires exactly one evidence ID"
  check_names "feature names must be non-empty" "duplicate feature" [] p.features
  refuse (is_hold_safe p.goal.kind && not (same_set (names_of p.features) []))
      "HOLD_SAFE must not be utility-ranked"

pub record TacticalSnapshot : Type 0 where
  pub context : OptionContext
  pub proposals : List OptionProposal
  pub system_ready : Bool
  pub health_reason : String

-- `TacticalSnapshot.__post_init__`
unfoldable pub check_snapshot : TacticalSnapshot → Outcome (Unit {0})
check_snapshot s = do
  refuse (s.system_ready && not (is_empty s.health_reason))
      "ready snapshot must not have a health failure reason"
  refuse (not s.system_ready && is_blank s.health_reason)
      "unready snapshot requires a health failure reason"
  refuse (not (is_unique (map (λ p. p.stable_key) s.proposals)))
      "proposal stable keys must be unique"
  refuse (not (is_unique (map (λ p. p.goal.option_instance_id) s.proposals)))
      "proposal option_instance_id values must be unique"
