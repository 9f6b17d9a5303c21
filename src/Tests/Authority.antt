-- ===== src/Tests/Authority.antt =====
-- The option authority at concrete inputs.
use hsl.Prelude.{true, false, some, List, [], ◌∷◌, ◌≡◌, ◌≤◌, refl, arith, is_blank}
use hsl.Prelude.Int.{pos}
use hsl.Prelude.Outcome.{ok}
use hsl.Prelude.Dict
use hsl.Match.Manager.{deque_append}
use hsl.Lease.{
  MotionCandidate, CandidateEnvelope, activate, activation_fault, set_candidate_authorized,
  owner_fault, cancel, admit, lease_fault, candidate_fault, version_fault,
}
use hsl.Lease as Lease
use hsl.Options.{
  OptionContext, OptionOutcome, default_definitions, check_initiation, check_motion, check_target,
  check_running, check_invariant, check_termination,
}
use hsl.Options.Checks.{check_goal}
use hsl.Options.Authority.{
  ActionRecord, OptionInstance, OptionAuthority, OptionResult, ActionAdmission, initial, result,
  result_of, observe_time, require_active, replace_instance, publish, announce, record_event,
  finish, close_record,
}
use hsl.Options.Authority.Methods.{
  submit, admit_new, accept, remember_accepted, planned, mark_executing, validate_plan,
  start_executing, fail, tick, request_cancel,
}
use hsl.Options.Authority.Invariant.{IsCoherent, IsRunning}
use hsl.Options.Authority.Acceptance.{accepted, record_of, accepted-IsRunning}
use hsl.Options.Authority.Calls.{Call, propose, execute, give_up, perform, perform_all}
use hsl.Options.Authority.Guarantees.{authority-IsCoherent, IsBacked, admitted_by_active}
use hsl.Options.Authority.Ticks.{tick-revokes}
use hsl.Options.Authority.Finality.{result_final}
use hsl.Options.Authority.Cancellation.{canceled-ends}
use hsl.Options.Authority.Answers.{submit-returns}
use hsl.Tests.Options.{goal, context}
use hsl.Tests.Safety.{envelope, path_candidate}

abbrev calls : List Call
calls = propose "action" goal context ∷ execute "action" context ∷ []

abbrev started : OptionAuthority
started = initial default_definitions Lease.new 16 64

authority-IsCoherent_example : IsCoherent (perform_all calls started)
authority-IsCoherent_example = authority-IsCoherent default_definitions 16 64 calls

offered : admit envelope (pos 100) 1 (perform_all calls started).lease ≡ ok path_candidate
unfolding perform_all perform submit observe_time admit_new accept publish remember_accepted
    activate activation_fault announce record_event deque_append check_initiation check_motion
    check_target default_definitions is_blank Dict.get Dict.put mark_executing require_active
    validate_plan check_termination check_invariant check_running start_executing
    set_candidate_authorized owner_fault replace_instance admit lease_fault candidate_fault
    version_fault
offered = refl

admitted_by_active_example :
    (i : OptionInstance) × (r : ActionRecord) × IsBacked envelope (perform_all calls started) i r
admitted_by_active_example =
    admitted_by_active default_definitions 16 64 calls envelope (pos 100) 1 path_candidate offered

abbrev stopped : OptionContext
stopped = record context { now_ns = 1051; safety_stop = true }

timely : (perform_all calls started).last_now_ns ≤ 1051
unfolding perform_all perform submit observe_time admit_new accept publish remember_accepted
    activate activation_fault announce record_event deque_append check_initiation check_motion
    check_target default_definitions is_blank Dict.get Dict.put mark_executing require_active
    validate_plan check_termination check_invariant check_running start_executing
    set_candidate_authorized owner_fault replace_instance
timely = omega arith

tick-revokes_example :
    (tick stopped (perform_all calls started)).1.lease.candidate_authorized ≡ false
tick-revokes_example =
    tick-revokes (perform_all calls started) stopped
      (authority-IsCoherent default_definitions 16 64 calls) timely refl

abbrev failed : List Call
failed =
    propose "action" goal context
    ∷ give_up "action" context OptionOutcome.feasibility_lost "no path"
    ∷ []

abbrev lost : OptionResult
lost = record {
  action_id = "action";
  option_instance_id = "go";
  outcome = OptionOutcome.feasibility_lost;
  reason = "no path";
  started_at_ns = 1050;
  finished_at_ns = 1050;
}

over : result "action" (perform_all failed started) ≡ some lost
unfolding perform_all perform submit observe_time admit_new accept publish remember_accepted
    activate activation_fault announce record_event deque_append check_initiation check_motion
    check_target default_definitions is_blank Dict.get Dict.put mark_executing require_active
    validate_plan check_termination check_invariant check_running start_executing
    set_candidate_authorized owner_fault replace_instance fail finish cancel close_record result
over = refl

result_final_example : result "action" (perform_all calls (perform_all failed started)) ≡ some lost
result_final_example = result_final "action" lost calls (perform_all failed started) over

abbrev ready : OptionAuthority
ready = record started { last_now_ns = 1050 }

abbrev chosen : OptionInstance
chosen = planned "action" goal context 1

abbrev late_context : OptionContext
late_context = record context { now_ns = 1080 }

planning :
    IsRunning chosen (record_of "action" goal context ready) (accepted "action" goal context ready)
unfolding activation_fault is_blank
planning = accepted-IsRunning "action" goal context ready refl refl refl

canceled-ends_example :
    result "action"
      (tick late_context
        (request_cancel "action" context 30 "stop" (accepted "action" goal context ready)).1).1
    ≡ some (result_of chosen OptionOutcome.internal_error "cancel_timeout_authority_revoked" 1080)
unfolding is_blank announce record_event
canceled-ends_example =
    canceled-ends chosen (record_of "action" goal context ready)
      (accepted "action" goal context ready) context late_context 30 "stop" planning refl refl refl
      (omega arith) (omega arith)

valid : check_goal goal ≡ ok tt
unfolding check_goal is_blank
valid = refl

submit-returns_example : (a : ActionAdmission) × ((submit "action" goal context started).0 ≡ ok a)
unfolding is_blank perform_all
submit-returns_example =
    submit-returns "action" goal context started (authority-IsCoherent default_definitions 16 64 [])
      valid refl (omega arith)
