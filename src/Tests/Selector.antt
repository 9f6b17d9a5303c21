-- ===== src/Tests/Selector.antt =====
-- The tactical selector at concrete inputs.
use hsl.Prelude.{
  All, ◌+◌, String, true, false, none, some, List, [], ◌∷◌, ◌≡◌, ◌≤◌, refl, is_blank, is_empty,
  str_le, IsIn,
}
use hsl.Prelude.Int.{ℤ, pos, negsuc, ◌*ℤ◌, ◌+ℤ◌, ◌-ℤ◌}
use hsl.Prelude.Outcome.{ok}
use hsl.Prelude.Dict
use hsl.Prelude.Dict.{Dict}
use hsl.Match.Enums.{Role}
use hsl.Options.{
  OptionKind, OptionGoal, default_definitions, check_initiation, check_motion, check_target,
  check_hold_safe, is_hold_safe,
}
use hsl.Tactics.Utility.{
  UtilityProfile, UtilityResult, abs, unit_utility, utility_tolerance, sum, names_of, role_features,
  check_profile, score, terms_of, check_result,
}
use hsl.Tactics.Utility.Bounds.{IsProduct, score-bounded}
use hsl.Tactics.Proposals.{TacticalGuard, OptionProposal, TacticalSnapshot, check_snapshot}
use hsl.Tactics.Guards.{required_guards, guard_facts_valid, priority}
use hsl.Tactics.Selector.{
  CandidateEvaluation, evaluate, evaluate_motion, evaluate_guards, hard_stop_reason, fallback,
  check_fallback,
}
use hsl.Tactics.Selector.Choice.{
  TacticalSelector, CurrentOption, SelectionResult, eligible, sorted_evaluations, insert_evaluation,
  find_proposal, find_evaluation, best_of, is_before, validate_current,
}
use hsl.Tactics.Selector.Selecting.{
  evaluations, selecting, selection, select_among, select_best, choose, choose_by_utility,
  current_candidate,
}
use hsl.Tactics.Selector.Verdicts.{IsPreempted, choose-switched}
use hsl.Tactics.Selector.Stops.{selection-stopped}
use hsl.Tactics.Selector.Vetting.{IsVetted}
use hsl.Tactics.Selector.Selected.{selection-IsVetted}
use hsl.Tests.Options.{goal, context}

abbrev weights : Dict String ℤ
weights =
    ("alternative_exits", pos 100000000000)
    ∷ ("base_progress", pos 500000000000)
    ∷ ("capture_risk", negsuc 99999999999)
    ∷ ("duration_cost", negsuc 99999999999)
    ∷ ("escape_safety", pos 100000000000)
    ∷ ("observation_gain", pos 0)
    ∷ ("visibility_loss", pos 100000000000)
    ∷ []

abbrev features : Dict String ℤ
features =
    ("alternative_exits", pos 0)
    ∷ ("base_progress", pos 1000000)
    ∷ ("capture_risk", pos 0)
    ∷ ("duration_cost", pos 500000)
    ∷ ("escape_safety", pos 0)
    ∷ ("observation_gain", pos 0)
    ∷ ("visibility_loss", pos 0)
    ∷ []

abbrev profile : UtilityProfile
profile = record {
  profile_id = "explorer";
  role = Role.explorer;
  weights = weights;
  schema_version = 1;
}

abbrev contributions : Dict String ℤ
contributions =
    ("alternative_exits", pos 0)
    ∷ ("base_progress", pos 500000000000000000)
    ∷ ("capture_risk", pos 0)
    ∷ ("duration_cost", negsuc 49999999999999999)
    ∷ ("escape_safety", pos 0)
    ∷ ("observation_gain", pos 0)
    ∷ ("visibility_loss", pos 0)
    ∷ []

abbrev utility : UtilityResult
utility = record {
  value = pos 450000000000000000;
  contributions = contributions;
  profile_id = "explorer";
  schema_version = 1;
}

valid_profile : check_profile profile ≡ ok tt
unfolding check_profile is_blank
valid_profile = refl

score-bounded_example :
    (r : UtilityResult) × (score features profile ≡ ok r)
    × (abs r.value ≤ unit_utility + utility_tolerance)
    × (r.value ≡ sum r.contributions)
    × (names_of r.contributions ≡ role_features Role.explorer)
    × All (IsProduct features weights) r.contributions
score-bounded_example =
    score-bounded features profile valid_profile refl
      (refl, (refl, (refl, (refl, (refl, (refl, (refl, tt)))))))

abbrev hold_goal : OptionGoal
hold_goal = record goal {
  option_instance_id = "hold";
  kind = OptionKind.hold_safe;
  has_target_node = false;
  target_node_id = 0;
  position_tolerance_um = 0;
  yaw_tolerance_urad = 0;
  goal_zone_id = "";
}

abbrev hold : OptionProposal
hold = record {
  stable_key = "hold";
  goal = hold_goal;
  feasible = true;
  infeasible_reason = "";
  guard_facts = [];
  guard_evidence = [];
  features = [];
  urgency_rank = none;
  urgency_evidence_id = "";
  interception_timing = none;
}

abbrev advance : OptionProposal
advance = record hold {
  stable_key = "advance";
  goal = goal;
  guard_facts = TacticalGuard.accepted_goal ∷ TacticalGuard.goal_threat_acceptable ∷ [];
  guard_evidence =
      (TacticalGuard.accepted_goal, "map") ∷ (TacticalGuard.goal_threat_acceptable, "belief") ∷ [];
  features = features;
}

abbrev snapshot : TacticalSnapshot
snapshot = record {
  context = context;
  proposals = hold ∷ advance ∷ [];
  system_ready = true;
  health_reason = "";
}

abbrev selector : TacticalSelector
selector = record {
  utility_profile = profile;
  registry = default_definitions;
  hysteresis_delta_u = 50000000000000000;
  minimum_dwell_ns = 10;
  max_proposals = 16;
  last_now_ns = 0;
}

abbrev no_option : CurrentOption
no_option = record { stable_key = ""; option_instance_id = ""; started_at_ns = none }

valid_snapshot : check_snapshot snapshot ≡ ok tt
unfolding check_snapshot
valid_snapshot = refl

abbrev judged : CandidateEvaluation
judged = record {
  stable_key = "advance";
  kind = OptionKind.advance_base;
  applicable = true;
  reason = "applicable";
  priority = some 2;
  utility = some utility;
  guard_evidence = advance.guard_evidence;
  urgency_rank = none;
  urgency_evidence_id = "";
}

abbrev judged_hold : CandidateEvaluation
judged_hold = record {
  stable_key = "hold";
  kind = OptionKind.hold_safe;
  applicable = true;
  reason = "safe_fallback";
  priority = none;
  utility = none;
  guard_evidence = [];
  urgency_rank = none;
  urgency_evidence_id = "";
}

abbrev judgements : List CandidateEvaluation
judgements = judged ∷ judged_hold ∷ []

abbrev chosen : SelectionResult
chosen =
    selecting selector no_option judgements advance (some 2) (some utility)
      "highest_priority_then_utility"

selected : selection selector snapshot no_option ≡ ok chosen
unfolding evaluations sorted_evaluations insert_evaluation str_le evaluate evaluate_motion
    evaluate_guards required_guards guard_facts_valid priority score terms_of check_result ◌*ℤ◌ ◌+ℤ◌
    ◌-ℤ◌ Dict.get check_initiation check_hold_safe check_motion check_target default_definitions
    is_blank selection select_among select_best choose choose_by_utility current_candidate
    find_proposal find_evaluation best_of is_before eligible fallback check_fallback
    validate_current
selected = refl

selection-IsVetted_example :
    (is_empty (hard_stop_reason snapshot) ≡ true)
    × IsIn advance snapshot.proposals
    × IsVetted default_definitions snapshot advance
selection-IsVetted_example =
    selection-IsVetted selector snapshot no_option chosen valid_snapshot selected refl

abbrev stopped : TacticalSnapshot
stopped = record snapshot { context = record context { safety_stop = true } }

abbrev blocked : CandidateEvaluation
blocked = record judged {
  applicable = false;
  reason = "safety_stop_active";
  priority = none;
  utility = none;
}

abbrev safe_result : SelectionResult
safe_result =
    selecting selector no_option (blocked ∷ judged_hold ∷ []) hold none none "safety_stop_active"

stops : selection selector stopped no_option ≡ ok safe_result
unfolding evaluations sorted_evaluations insert_evaluation str_le evaluate evaluate_motion
    evaluate_guards required_guards guard_facts_valid priority score terms_of check_result ◌*ℤ◌ ◌+ℤ◌
    ◌-ℤ◌ Dict.get check_initiation check_hold_safe check_motion check_target default_definitions
    is_blank selection select_among select_best choose choose_by_utility current_candidate
    find_proposal find_evaluation best_of is_before eligible fallback check_fallback
    validate_current
stops = refl

selection-stopped_example :
    (is_hold_safe hold.goal.kind ≡ true)
    × ("safety_stop_active" ≡ hard_stop_reason stopped)
    × IsIn hold stopped.proposals
selection-stopped_example = selection-stopped selector stopped no_option safe_result refl stops

abbrev other : CandidateEvaluation
other = record judged {
  stable_key = "other";
  utility = some (record utility { value = pos 100000000000000000 });
}

abbrev running : CurrentOption
running = record { stable_key = "other"; option_instance_id = "o"; started_at_ns = some 1000 }

choose-switched_example : IsPreempted selector snapshot.proposals 1050 running judged other
unfolding choose choose_by_utility find_proposal ◌+ℤ◌
choose-switched_example = choose-switched selector snapshot.proposals 1050 running judged other refl
