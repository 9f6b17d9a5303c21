-- ===== src/Options/Authority/Running.antt =====
-- What each method of an option authority does with a running option keeps the state coherent.
use hsl.Prelude.{
  ℕ, ◌+◌, String, true, false, ◌≡◌, inl, inr, refl, ◌∙◌, sym, Option, some, arith, contains,
  is_empty, eq_iff, nat_eq, string_eq, ◌==◌, leb, Bool-cases,
}
use hsl.Prelude.Outcome.{Outcome, ok, raised}
use hsl.Prelude.Stateful.{continue}
use hsl.Lease.{ExecutionLease, cancel}
use hsl.Options.{
  OptionContext, OptionOutcome, PredicateDecision, check_invariant, check_termination,
}
use hsl.Options.Authority.{
  OptionPhase, ExecutionState, option_phase_eq, OptionInstance, ActionRecord, OptionAuthority,
  Method, is_authorized, finish, finish_from_invariant, outcome_of,
}
use hsl.Options.Authority.Methods.{
  unless_over, validate_plan, start_executing, in_phase, replan, replanned_instance, start_cancel,
  canceled_instance, tick_instance, state_now, and_state,
}
use hsl.Options.Authority.Invariant.{
  IsRunning, IsTidy, IsCoherent, finish-running, close_record-IsIdle,
}
use hsl.Options.Authority.Advance.{
  start_executing-running, replan-running, start_cancel-running, advanced-IsRunning,
}
use hsl.Options.Authority.Tidy.{close_record-IsTidy, advanced-IsTidy, canceled-IsTidy}

pub finish-IsCoherent :
    (i : OptionInstance) (r : ActionRecord) (m : OptionAuthority) (o : OptionOutcome)
    (reason : String) (c : OptionContext)
    → IsRunning i r m
    → IsTidy m
    → m.last_now_ns ≡ c.now_ns
    → IsCoherent (finish i o reason c m).1
finish-IsCoherent i r m o reason c h t at =
    rw (finish-running i r m o reason c h (omega (arith, at)))
      (close_record-IsTidy i r m o reason c h t, inl (close_record-IsIdle i r m o reason c h))

pub dropped-next :
    {A : Type 0} (p : Outcome A × OptionAuthority) → (continue (λ _. state_now) p).1 ≡ p.1
dropped-next (ok a, m) = refl
dropped-next (raised e, m) = refl

pub and_state-IsCoherent :
    {A : Type 0} (call : Method A) (m : OptionAuthority)
    → IsCoherent (call m).1
    → IsCoherent (and_state call m).1
and_state-IsCoherent call m h = rw (dropped-next (call m)) h

unless_over-IsCoherent :
    (verdict : Option OptionOutcome × String) (decision : PredicateDecision) (i : OptionInstance)
    (r : ActionRecord) (m : OptionAuthority) (c : OptionContext) (go : Method ExecutionState)
    → IsRunning i r m
    → IsTidy m
    → m.last_now_ns ≡ c.now_ns
    → IsCoherent (go m).1
    → IsCoherent (unless_over verdict decision i c go m).1
unless_over-IsCoherent (some o, reason) decision i r m c go h t at kept =
    and_state-IsCoherent (finish i o reason c) m (finish-IsCoherent i r m o reason c h t at)
unless_over-IsCoherent (Option.none, _) decision i r m c go h t at kept =
    elim (Bool-cases decision.accepted) [
      | inl admitted ↦ rw (admitted) kept
      | inr refused ↦ rw (refused) (
          and_state-IsCoherent (finish_from_invariant i decision.reason c) m
            (finish-IsCoherent i r m (outcome_of decision.reason) decision.reason c h t at))
    ]

start_executing-IsCoherent :
    (i : OptionInstance) (r : ActionRecord) (m : OptionAuthority) (c : OptionContext)
    → IsRunning i r m
    → IsTidy m
    → (i.phase == OptionPhase.canceling) ≡ false
    → IsCoherent (start_executing i c m).1
start_executing-IsCoherent i r m c h t going =
    let j = in_phase OptionPhase.executing i in
    let a = is_authorized j c in
    let lease = record m.lease { candidate_authorized = a } in
    rw (start_executing-running i r m c h going) (
      advanced-IsTidy i j r m a c "plan_validated" lease h t refl refl refl,
      inr (
        j,
        record r { current = some j },
        advanced-IsRunning i j r m a c "plan_validated" lease h refl refl refl refl h.generation
            (ground (arith, h.live, going)) refl (λ _. refl) (λ on. ground (arith, on)),
      ),
    )

pub validate_plan-IsCoherent :
    (i : OptionInstance) (r : ActionRecord) (m : OptionAuthority) (c : OptionContext)
    → IsRunning i r m
    → IsTidy m
    → m.last_now_ns ≡ c.now_ns
    → (i.phase == OptionPhase.canceling) ≡ false
    → IsCoherent (validate_plan i c m).1
unfolding validate_plan
validate_plan-IsCoherent i r m c h t at going =
    unless_over-IsCoherent (check_termination i.goal c false)
      (check_invariant m.registry i.goal c false) i r m c _ h t at
      (elim (Bool-cases c.path_valid) [
        | inl valid ↦ rw (valid) (start_executing-IsCoherent i r m c h t going)
        | inr invalid ↦ rw (invalid) (
            and_state-IsCoherent (finish i OptionOutcome.feasibility_lost "path_invalid" c) m
              (finish-IsCoherent i r m OptionOutcome.feasibility_lost "path_invalid" c h t at))
      ])

pub replan-IsCoherent :
    (i : OptionInstance) (r : ActionRecord) (m : OptionAuthority) (c : OptionContext)
    → IsRunning i r m
    → IsTidy m
    → (i.phase == OptionPhase.canceling) ≡ false
    → IsCoherent (replan i c m).1
replan-IsCoherent i r m c h t going =
    let j = replanned_instance (m.lease.generation + 1) i in
    let lease = record m.lease {
      generation = m.lease.generation + 1;
      candidate_authorized = false;
    } in
    rw (replan-running i r m c h going) (
      advanced-IsTidy i j r m false c "replanning" lease h t refl refl refl,
      inr (
        j,
        record r { current = some j },
        advanced-IsRunning i j r m false c "replanning" lease h refl refl refl refl refl
            (ground (arith, h.live, going)) refl (λ on. ground (arith, on))
            (λ on. ground (arith, on)),
      ),
    )

canceled-lease :
    (id : String) (m : ExecutionLease)
    → m.active_option_instance_id ≡ id
    → is_empty id ≡ false
    → ((cancel id m).active_option_instance_id ≡ m.active_option_instance_id)
      × ((cancel id m).generation ≡ m.generation)
      × (contains id (cancel id m).cancelled ≡ true)
      × ((cancel id m).candidate_authorized ≡ false)
unfolding cancel
canceled-lease id m owner named =
    ground (arith, eq_iff id id, eq_iff id m.active_option_instance_id)

pub start_cancel-IsRunning :
    (i : OptionInstance) (r : ActionRecord) (m : OptionAuthority) (c : OptionContext) (timeout : ℕ)
    (reason : String)
    → IsRunning i r m
    → IsRunning
        (canceled_instance (c.now_ns + timeout) i)
        (record r { current = some (canceled_instance (c.now_ns + timeout) i) })
        (start_cancel i c timeout reason m).1
start_cancel-IsRunning i r m c timeout reason h =
    let j = canceled_instance (c.now_ns + timeout) i in
    let lease = cancel i.goal.option_instance_id m.lease in
    let f = canceled-lease i.goal.option_instance_id m.lease h.owner h.identified in
    rw (start_cancel-running i r m c timeout reason h) (
      advanced-IsRunning i j r m false c reason lease h refl refl refl f.0 (h.generation ∙ sym f.1)
        f.2 f.3 (λ on. ground (arith, on)) (λ on. ground (arith, on)))

pub start_cancel-IsCoherent :
    (i : OptionInstance) (r : ActionRecord) (m : OptionAuthority) (c : OptionContext) (timeout : ℕ)
    (reason : String)
    → IsRunning i r m
    → IsTidy m
    → IsCoherent (start_cancel i c timeout reason m).1
start_cancel-IsCoherent i r m c timeout reason h t =
    let j = canceled_instance (c.now_ns + timeout) i in
    (
      rw (start_cancel-running i r m c timeout reason h)
          (canceled-IsTidy i j r m false c reason h t refl),
      inr (_, _, start_cancel-IsRunning i r m c timeout reason h),
    )

pub tick_instance-IsCoherent :
    (i : OptionInstance) (r : ActionRecord) (m : OptionAuthority) (c : OptionContext)
    → IsRunning i r m
    → IsTidy m
    → m.last_now_ns ≡ c.now_ns
    → IsCoherent (tick_instance c i m).1
unfolding tick_instance
tick_instance-IsCoherent i r m c h t at = elim (Bool-cases (i.phase == OptionPhase.canceling)) [
  | inr going ↦ rw (going) (
      unless_over-IsCoherent (check_termination i.goal c (i.phase == OptionPhase.executing))
        (check_invariant m.registry i.goal c (i.phase == OptionPhase.executing)) i r m c state_now h
        t at (t, inr (i, r, h)))
  | inl canceling ↦ rw (canceling) (elim (Bool-cases (leb i.cancel_deadline_ns c.now_ns)) [
    | inr early ↦ rw (early) (t, inr (i, r, h))
    | inl late ↦ rw (late) (
        and_state-IsCoherent
          (finish i OptionOutcome.internal_error "cancel_timeout_authority_revoked" c) m
          (finish-IsCoherent i r m OptionOutcome.internal_error "cancel_timeout_authority_revoked" c
            h t at))
  ])
]
