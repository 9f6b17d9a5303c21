-- ===== src/Tactics/Selector.antt =====
-- hsl_core/hsl_core/tactics/fsm.py: `TacticalSelector`. A utility and the hysteresis are integers of the
-- unit 1e-18.
use hsl.Prelude.{
  ℕ, ◌-◌, String, Bool, true, false, not, ◌&&◌, ◌||◌, Option, none, some, List, [], ◌∷◌, map,
  if◌then◌else◌, leb, ltb, length, contains, is_subset, same_set, is_empty, is_blank, str_le,
  nat_eqb, Eq, ◌==◌, ◌!=◌, string_eq, nat_eq,
}
use Prim.Native.String.{◌++◌ as append}
use hsl.Prelude.Int.{ℤ, pos, ltb_ℤ, leb_ℤ, ◌+ℤ◌}
use hsl.Prelude.Outcome.{Outcome, ok, raised, refuse, ◌>>=◌, ◌>>◌}
use hsl.Prelude.Dict.{Dict}
use hsl.Match.Enums.{Role, StagePhase, role_eq, phase_eq}
use hsl.Options.{
  OptionKind, kind_int, OptionGoal, OptionContext, OptionRegistry, PredicateDecision, is_hold_safe,
  check_initiation,
}
use hsl.Tactics.Utility.{
  UtilityProfile, UtilityResult, unit_utility, role_features, names_of, score,
}
use hsl.Tactics.Proposals.{
  TacticalGuard, guard_eq, OptionProposal, TacticalSnapshot, InterceptionTiming,
  dominates_base_defense,
}
use hsl.Tactics.Guards.{required_guards, guard_facts_valid, priority}
pub mod Choice
pub mod Selecting
pub mod Verdicts
pub mod Priority
pub mod Stops
pub mod Vetting
pub mod Selected
pub mod Origin

pub record CandidateEvaluation : Type 0 where
  pub stable_key : String
  pub kind : OptionKind
  pub applicable : Bool
  pub reason : String
  pub priority : Option ℕ
  pub utility : Option UtilityResult
  pub guard_evidence : List (TacticalGuard × String)
  pub urgency_rank : Option ℕ
  pub urgency_evidence_id : String

-- `_candidate_evaluation`
abbrev pub candidate_evaluation :
    OptionProposal → Bool → String → Option ℕ → Option UtilityResult → CandidateEvaluation
candidate_evaluation p applicable reason rank utility = record {
  stable_key = p.stable_key;
  kind = p.goal.kind;
  applicable = applicable;
  reason = reason;
  priority = rank;
  utility = utility;
  guard_evidence = p.guard_evidence;
  urgency_rank = p.urgency_rank;
  urgency_evidence_id = p.urgency_evidence_id;
}

abbrev pub rejected : OptionProposal → String → CandidateEvaluation
rejected p reason = candidate_evaluation p false reason none none

abbrev guard_name : TacticalGuard → String
guard_name TacticalGuard.robust_capture_opportunity = "ROBUST_CAPTURE_OPPORTUNITY"
guard_name TacticalGuard.credible_imminent_base_threat = "CREDIBLE_IMMINENT_BASE_THREAT"
guard_name TacticalGuard.intercept_dominates_base_defense = "INTERCEPT_DOMINATES_BASE_DEFENSE"
guard_name TacticalGuard.supported_intercept = "SUPPORTED_INTERCEPT"
guard_name TacticalGuard.recent_occlusion = "RECENT_OCCLUSION"
guard_name TacticalGuard.useful_rival = "USEFUL_RIVAL"
guard_name TacticalGuard.graph_search_viewpoint = "GRAPH_SEARCH_VIEWPOINT"
guard_name TacticalGuard.immediate_trap_risk = "IMMEDIATE_TRAP_RISK"
guard_name TacticalGuard.verified_escape_route = "VERIFIED_ESCAPE_ROUTE"
guard_name TacticalGuard.break_los_feasible = "BREAK_LOS_FEASIBLE"
guard_name TacticalGuard.contested_route = "CONTESTED_ROUTE"
guard_name TacticalGuard.alternate_route_available = "ALTERNATE_ROUTE_AVAILABLE"
guard_name TacticalGuard.accepted_goal = "ACCEPTED_GOAL"
guard_name TacticalGuard.goal_threat_acceptable = "GOAL_THREAT_ACCEPTABLE"
guard_name TacticalGuard.informative_safe_observation = "INFORMATIVE_SAFE_OBSERVATION"
guard_name TacticalGuard.versioned_open_route = "VERSIONED_OPEN_ROUTE"

abbrev pub all_guards : List TacticalGuard
all_guards =
    TacticalGuard.robust_capture_opportunity ∷ TacticalGuard.credible_imminent_base_threat
    ∷ TacticalGuard.intercept_dominates_base_defense ∷ TacticalGuard.supported_intercept
    ∷ TacticalGuard.recent_occlusion ∷ TacticalGuard.useful_rival
    ∷ TacticalGuard.graph_search_viewpoint ∷ TacticalGuard.immediate_trap_risk
    ∷ TacticalGuard.verified_escape_route ∷ TacticalGuard.break_los_feasible
    ∷ TacticalGuard.contested_route ∷ TacticalGuard.alternate_route_available
    ∷ TacticalGuard.accepted_goal ∷ TacticalGuard.goal_threat_acceptable
    ∷ TacticalGuard.informative_safe_observation ∷ TacticalGuard.versioned_open_route ∷ []

-- The names of what `required` has and `facts` has not, in the order of the guards, with commas.
unfoldable pub missing_names :
    List TacticalGuard → List TacticalGuard → List TacticalGuard → String → String
missing_names required facts [] separator = ""
missing_names required facts (guard ∷ guards) separator =
    let rest = missing_names required facts guards separator in
    let others = missing_names required facts guards "," in
    if contains guard required && not (contains guard facts)
    then append separator (append (guard_name guard) others)
    else rest

abbrev pub evaluate_priority : OptionProposal → UtilityResult → Option ℕ → CandidateEvaluation
evaluate_priority p utility none = rejected p "option_has_no_role_priority"
evaluate_priority p utility (some rank) =
    candidate_evaluation p true "applicable" (some rank) (some utility)

abbrev pub evaluate_utility : Role → OptionProposal → Outcome UtilityResult → CandidateEvaluation
evaluate_utility role p (raised e) = rejected p (append "invalid_utility_features:" e)
evaluate_utility role p (ok utility) =
    evaluate_priority p utility (priority role p.goal.kind p.guard_facts)

unfoldable pub evaluate_guards :
    UtilityProfile → Role → OptionProposal → Option (List TacticalGuard) → CandidateEvaluation
evaluate_guards profile role p none = rejected p "option_not_defined_for_role"
evaluate_guards profile role p (some required) =
    if not (is_subset required p.guard_facts)
    then rejected p
        (append "guard_not_satisfied:" (missing_names required p.guard_facts all_guards ""))
    else if not (same_set (names_of p.features) (role_features role))
    then rejected p "utility_feature_schema_mismatch"
    else evaluate_utility role p (score p.features profile)

abbrev has_advantage : Option InterceptionTiming → Bool
has_advantage none = false
has_advantage (some timing) = dominates_base_defense timing

-- The part of `_evaluate` on an option that moves.
unfoldable pub evaluate_motion :
    UtilityProfile → PredicateDecision → OptionProposal → Role → CandidateEvaluation
evaluate_motion profile decision p role =
    if not p.feasible
    then rejected p p.infeasible_reason
    else if p.goal.role != role
    then rejected p "role_not_allowed"
    else if not decision.accepted
    then rejected p decision.reason
    else if not (guard_facts_valid p)
    then rejected p "guard_fact_not_applicable"
    else if contains TacticalGuard.intercept_dominates_base_defense p.guard_facts
        && not (has_advantage p.interception_timing)
    then rejected p "intercept_time_advantage_not_proven"
    else evaluate_guards profile role p (required_guards role p.goal.kind p.guard_facts)

-- `_evaluate`
unfoldable pub evaluate :
    OptionRegistry → UtilityProfile → OptionProposal → OptionContext → Role → CandidateEvaluation
evaluate registry profile p c role =
    let decision = check_initiation registry p.goal c in
    if is_hold_safe p.goal.kind
    then (if not decision.accepted
        then rejected p decision.reason
        else candidate_evaluation p true "safe_fallback" none none)
    else evaluate_motion profile decision p role

-- `_blocked_by_global_gate`
abbrev pub blocked_by_global_gate : String → CandidateEvaluation → CandidateEvaluation
blocked_by_global_gate reason e = if is_hold_safe e.kind || not e.applicable then e else record e {
  applicable = false;
  reason = append "global_gate:" reason;
  priority = none;
  utility = none;
}

-- `_hard_stop_reason`
abbrev pub hard_stop_reason : TacticalSnapshot → String
hard_stop_reason s =
    if not s.system_ready
    then append "system_not_ready:" s.health_reason
    else if s.context.safety_stop
    then "safety_stop_active"
    else if not s.context.lease_valid
    then "stage_lease_invalid"
    else if s.context.stage_phase != StagePhase.active || not s.context.motion_authorized
    then "stage_motion_not_authorized"
    else ""

abbrev pub hold_proposals : List OptionProposal → List OptionProposal
hold_proposals [] = []
hold_proposals (p ∷ ps) =
    let rest = hold_proposals ps in if is_hold_safe p.goal.kind then p ∷ rest else rest

unfoldable pub check_fallback : PredicateDecision → Role → OptionProposal → Outcome OptionProposal
check_fallback decision role p = do
  refuse (p.goal.role != role || not decision.accepted)
      (append "HOLD_SAFE fallback is invalid: " decision.reason)
  refuse (not p.feasible) "HOLD_SAFE fallback must always be feasible"
  refuse (not (is_subset p.guard_facts [])) "HOLD_SAFE fallback must not require guard facts"
  ok p

-- `_fallback`
abbrev pub fallback_in :
    OptionRegistry → OptionContext → Role → List OptionProposal → Outcome OptionProposal
fallback_in registry c role (p ∷ []) = check_fallback (check_initiation registry p.goal c) role p
fallback_in registry c role _ = raised "exactly one HOLD_SAFE proposal is required"

unfoldable pub fallback : OptionRegistry → TacticalSnapshot → Role → Outcome OptionProposal
fallback registry s role = fallback_in registry s.context role (hold_proposals s.proposals)
