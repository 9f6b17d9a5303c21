-- ===== src/Options/Authority/Coherence.antt =====
-- The state of an option authority is coherent, whatever the calls.
use hsl.Prelude.{
  ℕ, ◌||◌, inl, inr, refl, List, [], ◌∷◌, arith, is_empty, is_blank, nat_eq, nat_eqb, string_eq,
  ◌==◌, Bool-cases,
}
use hsl.Prelude.Stateful.{◌>>=◌}
use hsl.Prelude.Dict
use hsl.Prelude.Dict.{Dict}
use hsl.Lease.{ExecutionLease, cancel}
use hsl.Lease as Lease
use hsl.Options.{OptionOutcome, OptionRegistry}
use hsl.Options.Authority.{
  OptionPhase, option_phase_eq, OptionAuthority, require_active, finish, initial,
}
use hsl.Options.Authority.Methods.{
  mark_executing, begin_replan, request_cancel, acknowledge_cancel, tick, fail, tick_instance,
  tick_active, is_explicit_failure, validate_active, replan_active, cancel_active,
  acknowledge_active,
}
use hsl.Options.Authority.Invariant.{IsCoherent}
use hsl.Options.Authority.Keeping.{branch-IsCoherent, observe-Keeps, active-Keeps}
use hsl.Options.Authority.Running.{
  finish-IsCoherent, validate_plan-IsCoherent, replan-IsCoherent, start_cancel-IsCoherent,
  tick_instance-IsCoherent,
}
use hsl.Options.Authority.Calls.{
  Call, propose, execute, plan_again, stop, acknowledge, observe, give_up, perform, perform_all,
}
use hsl.Options.Authority.Submission.{submit-IsCoherent}

perform-IsCoherent :
    (call : Call) (m : OptionAuthority) → IsCoherent m → IsCoherent (perform call m)
unfolding perform mark_executing begin_replan request_cancel acknowledge_cancel tick fail
    tick_active
perform-IsCoherent (propose action_id g c) m h = submit-IsCoherent action_id g c m h
perform-IsCoherent (execute action_id c) m h =
    observe-Keeps c (require_active action_id >>= validate_active c) m
      (active-Keeps c action_id (validate_active c) (λ i r m' running t at.
        elim (Bool-cases (i.phase == OptionPhase.planning || i.phase == OptionPhase.replanning)) [
          | inr other ↦ rw (other) (t, inr (i, r, running))
          | inl awaiting ↦
              rw (awaiting)
                (validate_plan-IsCoherent i r m' c running t at (ground (arith, awaiting)))
        ]))
      h
perform-IsCoherent (plan_again action_id c) m h =
    observe-Keeps c (require_active action_id >>= replan_active c) m
      (active-Keeps c action_id (replan_active c) (λ i r m' running t at.
        elim (Bool-cases (i.phase == OptionPhase.executing)) [
          | inr other ↦ rw (other) (t, inr (i, r, running))
          | inl executing ↦
              rw (executing) (replan-IsCoherent i r m' c running t (ground (arith, executing)))
        ]))
      h
perform-IsCoherent (stop action_id c timeout reason) m h = elim (Bool-cases (nat_eqb timeout 0)) [
  | inl zero ↦ rw (perform, zero) h
  | inr positive ↦ elim (Bool-cases (is_blank reason)) [
    | inl blank ↦ rw (perform, positive, blank) h
    | inr given ↦
        rw (perform, positive, given)
          (observe-Keeps c (require_active action_id >>= cancel_active c timeout reason) m
            (active-Keeps c action_id (cancel_active c timeout reason) (λ i r m' running t at.
              elim (Bool-cases (i.phase == OptionPhase.canceling)) [
                | inl canceling ↦ rw (canceling) (t, inr (i, r, running))
                | inr going ↦ rw (going) (start_cancel-IsCoherent i r m' c timeout reason running t)
              ]))
            h)
  ]
]
perform-IsCoherent (acknowledge action_id c) m h =
    observe-Keeps c (require_active action_id >>= acknowledge_active c) m
      (active-Keeps c action_id (acknowledge_active c) (λ i r m' running t at.
        elim (Bool-cases (i.phase == OptionPhase.canceling)) [
          | inr other ↦ rw (other) (t, inr (i, r, running))
          | inl canceling ↦
              rw (canceling) (
                finish-IsCoherent i r m' OptionOutcome.canceled "cancel_acknowledged" c running t
                  at)
        ]))
      h
perform-IsCoherent (observe c) m h =
    observe-Keeps c (tick_active c) m
      (λ m' h' at. branch-IsCoherent (is_empty m'.active_action_id) _ _ h' (
        active-Keeps c m'.active_action_id (tick_instance c)
          (λ i r m'' running t at'. tick_instance-IsCoherent i r m'' c running t at') m' h' at))
      h
perform-IsCoherent (give_up action_id c o reason) m h = elim (Bool-cases (is_explicit_failure o)) [
  | inr other ↦ rw (perform, other) h
  | inl explicit ↦ elim (Bool-cases (is_blank reason)) [
    | inl blank ↦ rw (perform, explicit, blank) h
    | inr given ↦
        rw (perform, explicit, given)
          (observe-Keeps c (require_active action_id >>= λ i. finish i o reason c) m
            (active-Keeps c action_id (λ i. finish i o reason c)
              (λ i r m' running t at. finish-IsCoherent i r m' o reason c running t at))
            h)
  ]
]

pub perform_all-IsCoherent :
    (calls : List Call) (m : OptionAuthority) → IsCoherent m → IsCoherent (perform_all calls m)
unfolding perform_all
perform_all-IsCoherent [] m h = h
perform_all-IsCoherent (call ∷ calls) m h =
    perform_all-IsCoherent calls (perform call m) (perform-IsCoherent call m h)

pub initial-IsCoherent :
    (registry : OptionRegistry) (max_records max_audit : ℕ)
    → IsCoherent (initial registry Lease.new max_records max_audit)
unfolding Dict.get
initial-IsCoherent registry max_records max_audit = (
  record { gone = λ id gone. ground (arith, gone); owned = ground arith; unrecorded = refl },
  inl (record { unnamed = refl; revoked = refl; unauthorized = refl; free = refl }),
)
