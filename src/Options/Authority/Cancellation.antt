-- ===== src/Options/Authority/Cancellation.antt =====
-- A cancellation of the active option ends: at its deadline, without an acknowledgement.
use hsl.Prelude.{
  ℕ, ◌+◌, ◌≤◌, String, true, false, ◌≡◌, refl, some, arith, eq_iff, nat_eq, nat_eqb, string_eq,
  ◌==◌, is_blank,
}
use hsl.Prelude.Dict
use hsl.Options.{OptionContext, OptionOutcome}
use hsl.Options.Authority.{
  OptionPhase, option_phase_eq, OptionInstance, ActionRecord, OptionAuthority, observe_time,
  require_active, finish, result, result_of, finished_instance, close_record, announce,
  record_event,
}
use hsl.Options.Authority.Methods.{
  request_cancel, start_cancel, canceled_instance, tick, tick_instance, and_state,
}
use hsl.Options.Authority.Invariant.{IsRunning, finish-running}
use hsl.Options.Authority.Advance.{start_cancel-running}
use hsl.Options.Authority.Running.{dropped-next, start_cancel-IsRunning}
use hsl.Options.Authority.Keeping.{observed-IsRunning}
use hsl.Options.Authority.Ticks.{tick-observed, tick_active-running}

close_record-result :
    (i : OptionInstance) (r : ActionRecord) (m : OptionAuthority) (o : OptionOutcome)
    (reason : String) (c : OptionContext)
    → result i.action_id (close_record i o reason c r m).1 ≡ some (result_of i o reason c.now_ns)
unfolding close_record announce record_event result
close_record-result i r m o reason c = ground (
  arith,
  eq_iff i.action_id i.action_id,
  Dict.get-put i.action_id i.action_id
      (record r {
        current = some (finished_instance i);
        outcome = some (result_of i o reason c.now_ns);
      })
      m.records,
)

tick_instance-late :
    (i : OptionInstance) (m : OptionAuthority) (c : OptionContext)
    → (i.phase == OptionPhase.canceling) ≡ true
    → i.cancel_deadline_ns ≤ c.now_ns
    → tick_instance c i m
      ≡ and_state (finish i OptionOutcome.internal_error "cancel_timeout_authority_revoked" c) m
unfolding tick_instance
tick_instance-late i m c canceling late = ground (arith, canceling, late)

-- A tick at the deadline of a cancellation.
tick_active-late :
    (i : OptionInstance) (r : ActionRecord) (m : OptionAuthority) (c : OptionContext)
    → IsRunning i r m
    → (i.phase == OptionPhase.canceling) ≡ true
    → i.cancel_deadline_ns ≤ c.now_ns
    → m.last_now_ns ≤ c.now_ns
    → result i.action_id (tick c m).1
      ≡ some (result_of i OptionOutcome.internal_error "cancel_timeout_authority_revoked" c.now_ns)
tick_active-late i r m c h canceling late later =
    let now = observed-IsRunning c.now_ns i r m h later in
    rw
      (
        tick-observed m c later,
        tick_active-running i r (record m { last_now_ns = c.now_ns }) c now,
        tick_instance-late i (record m { last_now_ns = c.now_ns }) c canceling late,
        dropped-next (
            finish i OptionOutcome.internal_error "cancel_timeout_authority_revoked" c
              (record m { last_now_ns = c.now_ns })),
        finish-running i r (record m { last_now_ns = c.now_ns }) OptionOutcome.internal_error
            "cancel_timeout_authority_revoked" c now (omega arith),
      )
      (close_record-result i r _ OptionOutcome.internal_error "cancel_timeout_authority_revoked" c)

request_cancel-started :
    (i : OptionInstance) (r : ActionRecord) (m : OptionAuthority) (c : OptionContext) (timeout : ℕ)
    (reason : String)
    → IsRunning i r m
    → (i.phase == OptionPhase.canceling) ≡ false
    → is_blank reason ≡ false
    → nat_eqb timeout 0 ≡ false
    → m.last_now_ns ≤ c.now_ns
    → request_cancel i.action_id c timeout reason m
      ≡ start_cancel i c timeout reason (record m { last_now_ns = c.now_ns })
unfolding request_cancel observe_time require_active
request_cancel-started i r m c timeout reason h going given positive later = ground (
  arith,
  going,
  given,
  positive,
  later,
  h.own_action,
  h.recorded,
  h.current,
  eq_iff i.action_id m.active_action_id,
)

start_cancel-clock :
    (i : OptionInstance) (r : ActionRecord) (m : OptionAuthority) (c : OptionContext) (timeout : ℕ)
    (reason : String)
    → IsRunning i r m
    → (start_cancel i c timeout reason m).1.last_now_ns ≡ m.last_now_ns
unfolding announce record_event
start_cancel-clock i r m c timeout reason h =
    rw (start_cancel-running i r m c timeout reason h) refl

-- When `request_cancel` is accepted for an active option that is not canceling yet, the first tick
-- at the end of the timeout or later gives the action its result, INTERNAL_ERROR, if no call of the
-- authority came between.
pub canceled-ends :
    (i : OptionInstance) (r : ActionRecord) (m : OptionAuthority) (c d : OptionContext)
    (timeout : ℕ) (reason : String)
    → IsRunning i r m
    → (i.phase == OptionPhase.canceling) ≡ false
    → is_blank reason ≡ false
    → nat_eqb timeout 0 ≡ false
    → m.last_now_ns ≤ c.now_ns
    → c.now_ns + timeout ≤ d.now_ns
    → result i.action_id (tick d (request_cancel i.action_id c timeout reason m).1).1
      ≡ some (result_of i OptionOutcome.internal_error "cancel_timeout_authority_revoked" d.now_ns)
canceled-ends i r m c d timeout reason h going given positive later late =
    let at = observed-IsRunning c.now_ns i r m h later in
    let began =
      start_cancel-IsRunning i r (record m { last_now_ns = c.now_ns }) c timeout reason at in
    let clock = start_cancel-clock i r (record m { last_now_ns = c.now_ns }) c timeout reason at in
    rw (request_cancel-started i r m c timeout reason h going given positive later) (
      tick_active-late (canceled_instance (c.now_ns + timeout) i) _ _ d began refl late
        (omega (arith, clock, late)))
