-- ===== src/Options/Authority/Finality.antt =====
-- Every method of an option authority retains the results that are there.
use hsl.Prelude.{
  ◌||◌, ◌!=◌, is_blank, is_empty, nat_eqb, leb, String, false, not, ◌≡◌, refl, Option, some, List,
  [], ◌∷◌, arith, inl, inr, ltb, string_eq, ◌==◌, Bool-cases, if◌then◌else◌,
}
use hsl.Prelude.Outcome.{Outcome-cases}
use hsl.Prelude.Stateful.{◌>>=◌, ◌>>◌, require}
use hsl.Prelude.Dict
use hsl.Prelude.Dict.{Dict}
use hsl.Options.{
  OptionGoal, OptionContext, OptionOutcome, PredicateDecision, check_termination, check_invariant,
  check_initiation,
}
use hsl.Options.Authority.{
  OptionInstance, ActionRecord, OptionResult, OptionAuthority, Method, record_event, announce,
  finish, finish_from_invariant, outcome_of, result, observe_time, require_active, OptionPhase,
  option_phase_eq, ExecutionState,
}
use hsl.Options.Authority.Methods.{
  submit, mark_executing, begin_replan, request_cancel, acknowledge_cancel, tick, fail, reject,
  reject_for_good, accept, admit_new, submit_to, unless_over, validate_plan, start_executing,
  replan, start_cancel, tick_instance, tick_active, state_now, and_state, validate_active,
  replan_active, cancel_active, acknowledge_active, is_explicit_failure,
}
use hsl.Options.Authority.Calls.{
  Call, propose, execute, plan_again, stop, acknowledge, observe, give_up, perform, perform_all,
}
use hsl.Options.Authority.Acceptance.{fault_of, accept-raised, accept-ok}
use hsl.Options.Authority.Results.{
  Retains, put-result, retain-bind, retain-then, retain-branch, retain-all, retain-require,
  retain-observe, retain-finish, retain-state, retain-and_state, retain-start_executing,
  retain-start_cancel, retain-replan,
}

module _ (id : String) (x : OptionResult) where
  retain-active :
      {A : Type 0} (action_id : String) (next : OptionInstance → Method A)
      → ((i : OptionInstance) → Retains id x (next i))
      → Retains id x (require_active action_id >>= next)
  unfolding require_active
  retain-active action_id next n =
      retain-bind id x (require_active action_id) next
        (retain-all id x (require_active action_id) (λ m. ground arith)) n

  retain-timed :
      {A : Type 0} (c : OptionContext) (next : Method A)
      → Retains id x next
      → Retains id x (observe_time c.now_ns >> next)
  retain-timed c next n =
      retain-then id x (observe_time c.now_ns) next (retain-observe id x c.now_ns) n

  retain-unless_over :
      (verdict : OptionAuthority → Option OptionOutcome × String)
      (decision : OptionAuthority → PredicateDecision) (i : OptionInstance) (c : OptionContext)
      (go : Method ExecutionState)
      → Retains id x go
      → Retains id x (λ m. unless_over (verdict m) (decision m) i c go m)
  retain-unless_over verdict decision i c go g = record {
    kept = λ m. each (verdict m) (decision m) m;
  }
    where
      each :
          (v : Option OptionOutcome × String) (d : PredicateDecision) (m : OptionAuthority)
          → result id m ≡ some x
          → result id (unless_over v d i c go m).1 ≡ some x
      each (some o, reason) d m =
          (retain-and_state id x (finish i o reason c) (retain-finish id x i o reason c)).kept m
      each (Option.none, _) d m =
          (retain-branch id x d.accepted go (and_state (finish_from_invariant i d.reason c)) g (
              retain-and_state id x (finish_from_invariant i d.reason c)
                (retain-finish id x i (outcome_of d.reason) d.reason c))).kept
            m

  retain-validate_plan : (i : OptionInstance) (c : OptionContext) → Retains id x (validate_plan i c)
  unfolding validate_plan
  retain-validate_plan i c =
      let lost = and_state (finish i OptionOutcome.feasibility_lost "path_invalid" c) in
      retain-unless_over (λ _. check_termination i.goal c false)
        (λ m. check_invariant m.registry i.goal c false) i c
        (if c.path_valid then start_executing i c else lost)
        (retain-branch id x c.path_valid (start_executing i c) lost
          (retain-start_executing id x i c)
          (retain-and_state id x (finish i OptionOutcome.feasibility_lost "path_invalid" c)
            (retain-finish id x i OptionOutcome.feasibility_lost "path_invalid" c)))

  retain-tick_instance : (i : OptionInstance) (c : OptionContext) → Retains id x (tick_instance c i)
  unfolding tick_instance
  retain-tick_instance i c =
      let executing = i.phase == OptionPhase.executing in
      let timed_out = finish i OptionOutcome.internal_error "cancel_timeout_authority_revoked" c in
      let late : Method ExecutionState =
        if leb i.cancel_deadline_ns c.now_ns then and_state timed_out else state_now in
      let live : Method ExecutionState = λ m.
        unless_over (check_termination i.goal c executing)
          (check_invariant m.registry i.goal c executing) i c state_now m in
      record {
        kept = λ m h. elim (Bool-cases (i.phase == OptionPhase.canceling)) [
          | inl canceling ↦ rw (canceling) (
              (retain-branch id x (leb i.cancel_deadline_ns c.now_ns) (and_state timed_out)
                  state_now (retain-and_state id x timed_out (retain-finish id x i _ _ c))
                  (retain-state id x)).kept
                m h)
          | inr going ↦ rw (going) (
              (retain-unless_over (λ _. check_termination i.goal c executing)
                  (λ m. check_invariant m.registry i.goal c executing) i c state_now
                  (retain-state id x)).kept
                m h)
        ];
      }

  accept-result :
      (action_id : String) (g : OptionGoal) (c : OptionContext) (m : OptionAuthority)
      → Dict.get action_id m.records ≡ Option.none
      → result id m ≡ some x
      → result id (accept action_id g c m).1 ≡ some x
  unfolding result announce record_event
  accept-result action_id g c m new h = elim (Outcome-cases (fault_of g m)) [
    | inl (e, fault) ↦ rw (accept-raised action_id g c m e fault) h
    | inr (_, free) ↦
        rw (accept-ok action_id g c m free)
          (put-result id action_id _ x m.records h (λ old. ground (arith, old, new)))
  ]

  admit_new-result :
      (action_id : String) (g : OptionGoal) (c : OptionContext) (m : OptionAuthority)
      → Dict.get action_id m.records ≡ Option.none
      → result id m ≡ some x
      → result id (admit_new action_id g c m).1 ≡ some x
  unfolding admit_new reject reject_for_good record_event result
  admit_new-result action_id g c m new h =
      let refused : (reason : String)
          → result id (reject_for_good action_id g c reason m).1 ≡ some x =
        λ reason. put-result id action_id _ x m.records h (λ old. ground (arith, old, new)) in
      ground (
        arith,
        h,
        refused "another_option_is_active",
        refused "option_instance_id_reused",
        refused (check_initiation m.registry g c).reason,
        accept-result action_id g c m new h,
      )

  submit_to-result :
      (action_id : String) (g : OptionGoal) (c : OptionContext) (m : OptionAuthority)
      (prior : Option ActionRecord)
      → Dict.get action_id m.records ≡ prior
      → result id m ≡ some x
      → result id (submit_to action_id g c prior m).1 ≡ some x
  unfolding observe_time result
  submit_to-result action_id g c m (some prior) old h = ground (arith, h)
  submit_to-result action_id g c m Option.none new h =
      elim (Bool-cases (ltb c.now_ns m.last_now_ns)) [
        | inl early ↦ rw (early) h
        | inr later ↦
            rw (later) (admit_new-result action_id g c (record m { last_now_ns = c.now_ns }) new h)
      ]

  retain-submit :
      (action_id : String) (g : OptionGoal) (c : OptionContext)
      → Retains id x (submit action_id g c)
  unfolding submit
  retain-submit action_id g c = record {
    kept = λ m h. elim (Bool-cases (is_blank action_id)) [
      | inl blank ↦ rw (blank) h
      | inr named ↦
          rw (named) (submit_to-result action_id g c m (Dict.get action_id m.records) refl h)
    ];
  }

  perform-result :
      (call : Call) (m : OptionAuthority)
      → result id m ≡ some x
      → result id (perform call m) ≡ some x
  unfolding perform mark_executing begin_replan request_cancel acknowledge_cancel tick fail
      tick_active
  perform-result (propose action_id g c) = (retain-submit action_id g c).kept
  perform-result (execute action_id c) =
      (retain-timed c (require_active action_id >>= validate_active c) (
        retain-active action_id (validate_active c) (λ i.
          retain-then id x
            (require (not (i.phase == OptionPhase.planning || i.phase == OptionPhase.replanning))
              "option is not awaiting a validated plan")
            (validate_plan i c) (retain-require id x _ _) (retain-validate_plan i c)))).kept
  perform-result (plan_again action_id c) =
      (retain-timed c (require_active action_id >>= replan_active c) (
        retain-active action_id (replan_active c) (λ i.
          retain-then id x
            (require (i.phase != OptionPhase.executing)
              "only an executing option can enter replanning")
            (replan i c) (retain-require id x _ _) (retain-replan id x i c)))).kept
  perform-result (stop action_id c timeout reason) =
      let go =
        observe_time c.now_ns >> (require_active action_id >>= cancel_active c timeout reason) in
      (retain-then id x (require (nat_eqb timeout 0) "cancel_timeout_ns must be an integer >= 1")
        (require (is_blank reason) "reason must be a non-empty string" >> go)
        (retain-require id x _ _)
        (retain-then id x (require (is_blank reason) "reason must be a non-empty string") go
          (retain-require id x _ _)
          (retain-timed c (require_active action_id >>= cancel_active c timeout reason) (
            retain-active action_id (cancel_active c timeout reason) (λ i.
              retain-branch id x (i.phase == OptionPhase.canceling) state_now
                (start_cancel i c timeout reason) (retain-state id x)
                (retain-start_cancel id x i c timeout reason)))))).kept
  perform-result (acknowledge action_id c) =
      (retain-timed c (require_active action_id >>= acknowledge_active c) (
        retain-active action_id (acknowledge_active c) (λ i.
          retain-then id x
            (require (i.phase != OptionPhase.canceling) "option is not awaiting cancellation")
            (finish i OptionOutcome.canceled "cancel_acknowledged" c) (retain-require id x _ _)
            (retain-finish id x i OptionOutcome.canceled "cancel_acknowledged" c)))).kept
  perform-result (observe c) =
      (retain-timed c (tick_active c) (record {
        kept = λ m h. elim (Bool-cases (is_empty m.active_action_id)) [
          | inl idle ↦ rw (idle) h
          | inr named ↦ rw (named) (
              (retain-active m.active_action_id (tick_instance c)
                  (λ i. retain-tick_instance i c)).kept
                m h)
        ];
      })).kept
  perform-result (give_up action_id c o reason) =
      let go = observe_time c.now_ns >> (require_active action_id >>= λ i. finish i o reason c) in
      (retain-then id x
        (require (not (is_explicit_failure o))
          "explicit failure must be FEASIBILITY_LOST or INTERNAL_ERROR")
        (require (is_blank reason) "reason must be a non-empty string" >> go)
        (retain-require id x _ _)
        (retain-then id x (require (is_blank reason) "reason must be a non-empty string") go
          (retain-require id x _ _)
          (retain-timed c (require_active action_id >>= λ i. finish i o reason c) (
            retain-active action_id (λ i. finish i o reason c)
              (λ i. retain-finish id x i o reason c))))).kept

-- The result of an action is final: once it is there, no further calls change or forget it.
pub result_final :
    (id : String) (x : OptionResult) (calls : List Call) (m : OptionAuthority)
    → result id m ≡ some x
    → result id (perform_all calls m) ≡ some x
unfolding perform_all
result_final id x [] m h = h
result_final id x (call ∷ calls) m h =
    result_final id x calls (perform call m) (perform-result id x call m h)
