-- ===== src/Options/Authority/Methods.antt =====
-- hsl_core/hsl_core/tactics/options.py: the methods of `OptionAuthority`.
use hsl.Prelude.{
  ℕ, ◌+◌, String, Bool, true, false, not, ◌||◌, Option, some, ◌∷◌, leb, length, nat_eqb,
  if◌then◌else◌, contains, is_empty, is_blank, ◌==◌, ◌!=◌, string_eq,
}
use hsl.Prelude.Int.{pos}
use hsl.Prelude.Outcome.{ok, raised}
use hsl.Prelude.Stateful.{continue, ◌>>=◌, ◌>>◌, modify, require}
use hsl.Prelude.Dict
use hsl.Lease.{activate, cancel, set_candidate_authorized, advance_generation}
use hsl.Options.{
  OptionOutcome, OptionGoal, OptionContext, PredicateDecision, check_initiation, check_invariant,
  check_termination,
}
use hsl.Options.Checks.{goal_beq}
use hsl.Options.Authority.{
  OptionPhase, option_phase_eq, ExecutionState, OptionResult, ActionAdmission, OptionInstance,
  ActionRecord, OptionAuthority, Method, on_lease, record_event, observe_time, require_active,
  revoke, replace_instance, is_still, publish, finish, finish_from_invariant,
}

abbrev pub refusal : String → OptionAuthority → ActionAdmission
refusal reason m = record { accepted = false; reason = reason; execution_state = m.state }

abbrev pub with_admission : ActionAdmission → OptionGoal → Option OptionInstance → ActionRecord
with_admission admission g current = record {
  goal = g;
  admission = admission;
  current = current;
  outcome = Option.none;
}

-- A refusal that is put in the journal, and the same that is remembered too.
unfoldable pub reject : String → OptionGoal → OptionContext → String → Method ActionAdmission
unfolding record_event
reject action_id g c reason m = (
  ok (refusal reason m),
  record_event "admission_rejected" action_id g c.now_ns reason Option.none m,
)

unfoldable pub reject_for_good :
    String → OptionGoal → OptionContext → String → Method ActionAdmission
unfolding record_event Dict.put
reject_for_good action_id g c reason m = (
  ok (refusal reason m),
  record (record_event "admission_rejected" action_id g c.now_ns reason Option.none m) {
    records = Dict.put action_id (with_admission (refusal reason m) g Option.none) m.records;
  },
)

abbrev pub planned : String → OptionGoal → OptionContext → ℕ → OptionInstance
planned action_id g c generation = record {
  action_id = action_id;
  goal = g;
  phase = OptionPhase.planning;
  started_at_ns = c.now_ns;
  lease_generation = generation;
  cancel_deadline_ns = 0;
}

unfoldable pub remember_accepted : String → OptionGoal → OptionContext → ℕ → Method ActionAdmission
unfolding Dict.put
remember_accepted action_id g c generation m =
    let admission : ActionAdmission = record {
      accepted = true;
      reason = "accepted";
      execution_state = m.state;
    } in
    (
      ok admission,
      record m {
        records =
            Dict.put action_id
              (with_admission admission g (some (planned action_id g c generation))) m.records;
      },
    )

-- The part of `submit` on a goal that is admissible.
unfoldable pub accept : String → OptionGoal → OptionContext → Method ActionAdmission
unfolding publish remember_accepted activate
accept action_id g c = do
  generation ← on_lease (
      activate g.option_instance_id false (some (pos g.map_version)) (some (pos g.topology_version))
        (some g.localization_epoch))
  modify (λ m. record m {
    used_instance_ids =
        if contains g.option_instance_id m.used_instance_ids
        then m.used_instance_ids
        else g.option_instance_id ∷ m.used_instance_ids;
    active_action_id = action_id;
  })
  publish (planned action_id g c generation) c "goal_accepted"
  remember_accepted action_id g c generation

-- The part of `submit` on an action that has no record, behind its clock.
unfoldable pub admit_new : String → OptionGoal → OptionContext → Method ActionAdmission
unfolding reject reject_for_good accept
admit_new action_id g c m =
    if leb m.max_action_records (length m.records)
    then reject action_id g c "action_record_capacity" m
    else if not (is_empty m.active_action_id)
    then reject_for_good action_id g c "another_option_is_active" m
    else if contains g.option_instance_id m.used_instance_ids
    then reject_for_good action_id g c "option_instance_id_reused" m
    else (let decision = check_initiation m.registry g c in
        if not decision.accepted
        then reject_for_good action_id g c decision.reason m
        else accept action_id g c m)

abbrev pub resubmit : OptionGoal → ActionRecord → Method ActionAdmission
resubmit g prior m =
    if goal_beq prior.goal g
    then (ok prior.admission, m)
    else (ok (refusal "action_id_reused_with_different_goal" m), m)

abbrev pub submit_to :
    String → OptionGoal → OptionContext → Option ActionRecord → Method ActionAdmission
submit_to action_id g c (some prior) m = resubmit g prior m
submit_to action_id g c Option.none m =
    continue (λ _. admit_new action_id g c) (observe_time c.now_ns m)

unfoldable pub submit : String → OptionGoal → OptionContext → Method ActionAdmission
unfolding observe_time admit_new Dict.get
submit action_id g c m =
    if is_blank action_id
    then (raised "action_id must be a non-empty string", m)
    else submit_to action_id g c (Dict.get action_id m.records) m

-- `return self._state`, also behind a call whose result is dropped.
abbrev pub state_now : Method ExecutionState
state_now m = (ok m.state, m)

abbrev pub and_state : {A : Type 0} → Method A → Method ExecutionState
and_state call m = continue (λ _. state_now) (call m)

abbrev pub in_phase : OptionPhase → OptionInstance → OptionInstance
in_phase phase i = record i { phase = phase }

-- The three statements that `mark_executing`, `begin_replan` and `request_cancel` end with.
abbrev pub move_to : OptionInstance → OptionContext → String → Method ExecutionState
move_to j c reason = do replace_instance j; publish j c reason; state_now

abbrev pub authorize : OptionInstance → Bool → Method (Unit {0})
authorize i authorized =
    on_lease (set_candidate_authorized i.goal.option_instance_id i.lease_generation authorized)

-- The part of `mark_executing` behind its checks.
unfoldable pub start_executing : OptionInstance → OptionContext → Method ExecutionState
unfolding replace_instance publish set_candidate_authorized
start_executing i c = do
  authorize i (not (is_still i.goal.kind))
  move_to (in_phase OptionPhase.executing i) c "plan_validated"

-- The part of `mark_executing` and of `tick` on a verdict of the registry: the option is finished,
-- or what follows goes on.
abbrev pub unless_over :
    Option OptionOutcome × String
    → PredicateDecision
    → OptionInstance
    → OptionContext
    → Method ExecutionState
    → Method ExecutionState
unless_over (some outcome, reason) decision i c go = and_state (finish i outcome reason c)
unless_over (Option.none, _) decision i c go =
    if decision.accepted then go else and_state (finish_from_invariant i decision.reason c)

unfoldable pub validate_plan : OptionInstance → OptionContext → Method ExecutionState
unfolding finish start_executing check_termination check_invariant
validate_plan i c m =
    unless_over (check_termination i.goal c false) (check_invariant m.registry i.goal c false) i c
      (if c.path_valid
        then start_executing i c
        else and_state (finish i OptionOutcome.feasibility_lost "path_invalid" c))
      m

abbrev pub validate_active : OptionContext → OptionInstance → Method ExecutionState
validate_active c i = do
  require (not (i.phase == OptionPhase.planning || i.phase == OptionPhase.replanning))
      "option is not awaiting a validated plan"
  validate_plan i c

unfoldable pub mark_executing : String → OptionContext → Method ExecutionState
unfolding observe_time require_active validate_plan
mark_executing action_id c = do
  observe_time c.now_ns
  i ← require_active action_id
  validate_active c i

abbrev pub replanned_instance : ℕ → OptionInstance → OptionInstance
replanned_instance generation i = record i {
  phase = OptionPhase.replanning;
  lease_generation = generation;
}

unfoldable pub replan : OptionInstance → OptionContext → Method ExecutionState
unfolding set_candidate_authorized advance_generation replace_instance publish
replan i c = do
  authorize i false
  generation ← on_lease (advance_generation i.goal.option_instance_id i.lease_generation)
  move_to (replanned_instance generation i) c "replanning"

abbrev pub replan_active : OptionContext → OptionInstance → Method ExecutionState
replan_active c i = do
  require (i.phase != OptionPhase.executing) "only an executing option can enter replanning"
  replan i c

unfoldable pub begin_replan : String → OptionContext → Method ExecutionState
unfolding observe_time require_active replan
begin_replan action_id c = do observe_time c.now_ns; i ← require_active action_id; replan_active c i

abbrev pub canceled_instance : ℕ → OptionInstance → OptionInstance
canceled_instance deadline i = record i {
  phase = OptionPhase.canceling;
  cancel_deadline_ns = deadline;
}

unfoldable pub start_cancel : OptionInstance → OptionContext → ℕ → String → Method ExecutionState
unfolding cancel replace_instance publish
start_cancel i c cancel_timeout_ns reason = do
  revoke i
  move_to (canceled_instance (c.now_ns + cancel_timeout_ns) i) c reason

abbrev pub cancel_active : OptionContext → ℕ → String → OptionInstance → Method ExecutionState
cancel_active c cancel_timeout_ns reason i =
    if i.phase == OptionPhase.canceling
    then state_now
    else start_cancel i c cancel_timeout_ns reason

unfoldable pub request_cancel : String → OptionContext → ℕ → String → Method ExecutionState
unfolding observe_time require_active start_cancel
request_cancel action_id c cancel_timeout_ns reason = do
  require (nat_eqb cancel_timeout_ns 0) "cancel_timeout_ns must be an integer >= 1"
  require (is_blank reason) "reason must be a non-empty string"
  observe_time c.now_ns
  i ← require_active action_id
  cancel_active c cancel_timeout_ns reason i

abbrev pub acknowledge_active : OptionContext → OptionInstance → Method OptionResult
acknowledge_active c i = do
  require (i.phase != OptionPhase.canceling) "option is not awaiting cancellation"
  finish i OptionOutcome.canceled "cancel_acknowledged" c

unfoldable pub acknowledge_cancel : String → OptionContext → Method OptionResult
unfolding observe_time require_active finish
acknowledge_cancel action_id c = do
  observe_time c.now_ns
  i ← require_active action_id
  acknowledge_active c i

unfoldable pub tick_instance : OptionContext → OptionInstance → Method ExecutionState
unfolding finish check_termination check_invariant
tick_instance c i m =
    let executing = i.phase == OptionPhase.executing in
    if i.phase == OptionPhase.canceling
    then (if leb i.cancel_deadline_ns c.now_ns
          then and_state
              (finish i OptionOutcome.internal_error "cancel_timeout_authority_revoked" c)
          else state_now)
        m
    else unless_over (check_termination i.goal c executing)
        (check_invariant m.registry i.goal c executing) i c state_now m

unfoldable pub tick_active : OptionContext → Method ExecutionState
unfolding require_active tick_instance
tick_active c m =
    if is_empty m.active_action_id
    then state_now m
    else continue (tick_instance c) (require_active m.active_action_id m)

unfoldable pub tick : OptionContext → Method ExecutionState
unfolding observe_time tick_active
tick c = do observe_time c.now_ns; tick_active c

abbrev pub is_explicit_failure : OptionOutcome → Bool
is_explicit_failure OptionOutcome.feasibility_lost = true
is_explicit_failure OptionOutcome.internal_error = true
is_explicit_failure _ = false

unfoldable pub fail : String → OptionContext → OptionOutcome → String → Method OptionResult
unfolding observe_time require_active finish
fail action_id c outcome reason = do
  require (not (is_explicit_failure outcome))
      "explicit failure must be FEASIBILITY_LOST or INTERNAL_ERROR"
  require (is_blank reason) "reason must be a non-empty string"
  observe_time c.now_ns
  i ← require_active action_id
  finish i outcome reason c
