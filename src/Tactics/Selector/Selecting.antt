-- ===== src/Tactics/Selector/Selecting.antt =====
-- hsl_core/hsl_core/tactics/fsm.py: the decision of `TacticalSelector.select`.
use hsl.Prelude.{
  ℕ, ◌-◌, String, not, ◌&&◌, ◌||◌, Option, none, some, List, map, if◌then◌else◌, ltb, length,
  is_empty, ◌==◌, ◌!=◌, string_eq, nat_eq,
}
use hsl.Prelude.Int.{pos, leb_ℤ, ltb_ℤ, ◌+ℤ◌}
use hsl.Prelude.Outcome.{Outcome, ok, raised, refuse, ◌>>=◌, ◌>>◌}
use hsl.Prelude.Stateful.{Stateful}
use hsl.Match.Enums.{role_eq}
use hsl.Tactics.Utility.{UtilityResult}
use hsl.Tactics.Proposals.{OptionProposal, TacticalSnapshot}
use hsl.Tactics.Selector.{
  CandidateEvaluation, evaluate, blocked_by_global_gate, hard_stop_reason, fallback,
}
use hsl.Tactics.Selector.Choice.{
  TacticalSelector, CurrentOption, SelectionResult, validate_current, sorted_evaluations,
  find_proposal, find_evaluation, urgency_rank, rank_of, value_of, best_of, is_eligible, eligible,
}

abbrev pub valid_current :
    CurrentOption → Option CandidateEvaluation → Option OptionProposal → Option CandidateEvaluation
valid_current current (some e) (some p) =
    if is_eligible e && p.goal.option_instance_id == current.option_instance_id
    then some e
    else none
valid_current current _ _ = none

-- The candidate of the current option, when `current_is_valid`.
unfoldable pub current_candidate :
    List OptionProposal → List CandidateEvaluation → CurrentOption → Option CandidateEvaluation
unfolding find_evaluation find_proposal
current_candidate ps es current =
    if is_empty current.stable_key
    then none
    else valid_current current (find_evaluation current.stable_key es)
        (find_proposal current.stable_key ps)

abbrev pub dwelt : TacticalSelector → ℕ → CurrentOption → ℕ
dwelt m now current = elim current.started_at_ns [ none ↦ now | some started ↦ now - started ]

abbrev gain_reason : CandidateEvaluation → CandidateEvaluation → String
gain_reason best current =
    if ltb_ℤ (value_of current) (value_of best) then "hysteresis" else "utility_tie"

-- The choice between the best candidate and the one of the current option, of the same priority.
unfoldable pub choose_by_utility :
    TacticalSelector
    → List OptionProposal
    → ℕ
    → CurrentOption
    → CandidateEvaluation
    → CandidateEvaluation
    → CandidateEvaluation × String
unfolding find_proposal
choose_by_utility m ps now current best held =
    let best_urgency = urgency_rank (find_proposal best.stable_key ps) in
    let held_urgency = urgency_rank (find_proposal held.stable_key ps) in
    if ltb held_urgency best_urgency
    then (best, "higher_urgency_preemption")
    else if ltb best_urgency held_urgency
    then (held, "current_higher_urgency")
    else if leb_ℤ (value_of best) (value_of held +ℤ pos m.hysteresis_delta_u)
    then (held, gain_reason best held)
    else if ltb (dwelt m now current) m.minimum_dwell_ns
    then (held, "minimum_dwell")
    else (best, "utility_improvement_exceeds_hysteresis")

unfoldable pub choose :
    TacticalSelector
    → List OptionProposal
    → ℕ
    → CurrentOption
    → CandidateEvaluation
    → Option CandidateEvaluation
    → CandidateEvaluation × String
unfolding choose_by_utility
choose m ps now current best none = (best, "highest_priority_then_utility")
choose m ps now current best (some held) =
    if ltb (rank_of best) (rank_of held)
    then (best, "higher_priority_preemption")
    else if ltb (rank_of held) (rank_of best)
    then (held, "current_higher_priority")
    else if held.stable_key != best.stable_key
    then choose_by_utility m ps now current best held
    else (held, "current_remains_best")

-- The result that selects `p`.
abbrev pub selecting :
    TacticalSelector
    → CurrentOption
    → List CandidateEvaluation
    → OptionProposal
    → Option ℕ
    → Option UtilityResult
    → String
    → SelectionResult
selecting m current alternatives p rank utility reason = record {
  selected = p;
  priority = rank;
  utility = utility;
  reason = reason;
  changed =
      p.stable_key != current.stable_key || p.goal.option_instance_id != current.option_instance_id;
  alternatives = alternatives;
  utility_profile_id = m.utility_profile.profile_id;
}

abbrev pub select_choice :
    TacticalSelector
    → CurrentOption
    → List CandidateEvaluation
    → CandidateEvaluation
    → String
    → Option OptionProposal
    → Outcome SelectionResult
select_choice m current es chosen reason none = raised chosen.stable_key
select_choice m current es chosen reason (some p) =
    ok (selecting m current es p chosen.priority chosen.utility reason)

unfoldable pub select_best :
    TacticalSelector
    → TacticalSnapshot
    → CurrentOption
    → List CandidateEvaluation
    → OptionProposal
    → Option CandidateEvaluation
    → Outcome SelectionResult
unfolding choose current_candidate find_proposal
select_best m s current es safe none =
    ok (selecting m current es safe none none "no_feasible_option")
select_best m s current es safe (some best) =
    let choice =
      choose m s.proposals s.context.now_ns current best
        (current_candidate s.proposals es current) in
    select_choice m current es choice.0 choice.1 (find_proposal choice.0.stable_key s.proposals)

-- The result for the evaluations `es` and the fallback `safe`.
unfoldable pub select_among :
    TacticalSelector
    → TacticalSnapshot
    → CurrentOption
    → List CandidateEvaluation
    → OptionProposal
    → Outcome SelectionResult
unfolding select_best best_of eligible
select_among m s current es safe =
    if not (is_empty (hard_stop_reason s))
    then ok (
        selecting m current (map (blocked_by_global_gate (hard_stop_reason s)) es) safe none none
          (hard_stop_reason s))
    else select_best m s current es safe (best_of s.proposals (eligible es))

unfoldable pub evaluations : TacticalSelector → TacticalSnapshot → List CandidateEvaluation
unfolding sorted_evaluations evaluate
evaluations m s =
    sorted_evaluations
      (map (λ p. evaluate m.registry m.utility_profile p s.context s.context.role) s.proposals)

-- The result of `select` behind the checks of the caller's option and the clock.
unfoldable pub selection :
    TacticalSelector → TacticalSnapshot → CurrentOption → Outcome SelectionResult
unfolding fallback select_among evaluations validate_current
selection m s current = do
  validate_current s.context.now_ns current
  refuse (ltb s.context.now_ns m.last_now_ns) "tactical selector time must be monotonic"
  refuse (ltb m.max_proposals (length s.proposals)) "proposal count exceeds configured bound"
  refuse (s.context.role != m.utility_profile.role)
      "utility profile role does not match snapshot role"
  safe ← fallback m.registry s s.context.role
  select_among m s current (evaluations m s) safe

-- `select`, which leaves the clock as it is when it raises.
unfoldable pub select : TacticalSnapshot → CurrentOption → Stateful TacticalSelector SelectionResult
unfolding selection
select s current m = elim (selection m s current) [
  | raised e ↦ (raised e, m)
  | ok result ↦ (ok result, record m { last_now_ns = s.context.now_ns })
]
