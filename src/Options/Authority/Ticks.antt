-- ===== src/Options/Authority/Ticks.antt =====
-- What a tick of an option authority revokes and ends.
use hsl.Prelude.{
  ◌≤◌, String, Bool, true, false, not, ◌&&◌, ◌≡◌, ◌⊎◌, inl, inr, refl, sym, ap, ◌∙◌, Option, some,
  arith, is_empty, eq_iff, nat_eq, string_eq, ◌==◌, leb, Bool-cases, ltb,
}
use hsl.Prelude.Outcome.{ok}
use hsl.Match.Enums.{StagePhase, phase_eq}
use hsl.Options.{
  OptionGoal, OptionContext, OptionOutcome, OptionRegistry, PredicateDecision, check_invariant,
  check_running,
}
use hsl.Options.Authority.{
  OptionPhase, option_phase_eq, OptionInstance, ActionRecord, OptionAuthority, observe_time,
  require_active, is_still, finish, outcome_of,
}
use hsl.Options.Authority.Methods.{
  tick, tick_active, tick_instance, unless_over, and_state, state_now,
}
use hsl.Options.Authority.Invariant.{
  IsRunning, IsIdle, IsCoherent, finish-running, close_record-IsIdle,
}
use hsl.Options.Authority.Running.{dropped-next}
use hsl.Options.Authority.Keeping.{observed-IsCoherent}

-- What a context must grant for an option to keep moving.
abbrev pub grants_motion : OptionContext → Bool
grants_motion c =
    c.motion_authorized
    && c.lease_valid
    && not c.safety_stop
    && c.stage_phase == StagePhase.active
    && ltb c.now_ns c.stage_ends_at_ns

denied-invariant :
    (registry : OptionRegistry) (g : OptionGoal) (c : OptionContext) (executing : Bool)
    → is_still g.kind ≡ false
    → grants_motion c ≡ false
    → (check_invariant registry g c executing).accepted ≡ false
unfolding check_invariant check_running
denied-invariant registry g c executing moving denied = ground arith

finish-revoked :
    (i : OptionInstance) (r : ActionRecord) (m : OptionAuthority) (o : OptionOutcome)
    (reason : String) (c : OptionContext)
    → IsRunning i r m
    → m.last_now_ns ≡ c.now_ns
    → (and_state (finish i o reason c) m).1.lease.candidate_authorized ≡ false
finish-revoked i r m o reason c h at =
    rw (dropped-next (finish i o reason c m), finish-running i r m o reason c h (omega (arith, at)))
      (close_record-IsIdle i r m o reason c h).revoked

unless_over-revoked :
    (verdict : Option OptionOutcome × String) (decision : PredicateDecision) (i : OptionInstance)
    (r : ActionRecord) (m : OptionAuthority) (c : OptionContext)
    → IsRunning i r m
    → m.last_now_ns ≡ c.now_ns
    → (m.lease.candidate_authorized ≡ false) ⊎ (decision.accepted ≡ false)
    → (unless_over verdict decision i c state_now m).1.lease.candidate_authorized ≡ false
unless_over-revoked (some o, reason) decision i r m c h at off =
    finish-revoked i r m o reason c h at
unless_over-revoked (Option.none, _) decision i r m c h at off =
    elim (Bool-cases decision.accepted) [
      | inl accepted ↦ rw (accepted) (ground (arith, off, accepted))
      | inr refused ↦
          rw (refused) (finish-revoked i r m (outcome_of decision.reason) decision.reason c h at)
    ]

still-or-moving :
    (i : OptionInstance) (r : ActionRecord) (m : OptionAuthority) (c : OptionContext)
    (executing : Bool)
    → IsRunning i r m
    → grants_motion c ≡ false
    → (m.lease.candidate_authorized ≡ false)
      ⊎ ((check_invariant m.registry i.goal c executing).accepted ≡ false)
still-or-moving i r m c executing h denied = elim (Bool-cases m.lease.candidate_authorized) [
  | inr off ↦ inl off
  | inl on ↦
      inr (denied-invariant m.registry i.goal c executing (h.moving (sym h.authority ∙ on)) denied)
]

canceling-revoked :
    (i : OptionInstance) (r : ActionRecord) (m : OptionAuthority)
    → IsRunning i r m
    → (i.phase == OptionPhase.canceling) ≡ true
    → m.lease.candidate_authorized ≡ false
canceling-revoked i r m h canceling = ground (arith, h.authority, h.executing, canceling)

tick_instance-revoked :
    (i : OptionInstance) (r : ActionRecord) (m : OptionAuthority) (c : OptionContext)
    → IsRunning i r m
    → m.last_now_ns ≡ c.now_ns
    → grants_motion c ≡ false
    → (tick_instance c i m).1.lease.candidate_authorized ≡ false
unfolding tick_instance
tick_instance-revoked i r m c h at denied = elim (Bool-cases (i.phase == OptionPhase.canceling)) [
  | inr going ↦ rw (going) (
      unless_over-revoked _ _ i r m c h at
        (still-or-moving i r m c (i.phase == OptionPhase.executing) h denied))
  | inl canceling ↦ rw (canceling) (elim (Bool-cases (leb i.cancel_deadline_ns c.now_ns)) [
    | inr early ↦ rw (early) (canceling-revoked i r m h canceling)
    | inl late ↦ rw (late) (finish-revoked i r m _ _ c h at)
  ])
]

pub tick-observed :
    (m : OptionAuthority) (c : OptionContext)
    → m.last_now_ns ≤ c.now_ns
    → tick c m ≡ tick_active c (record m { last_now_ns = c.now_ns })
unfolding tick observe_time
tick-observed m c later = ground (arith, later)

pub tick_active-idle :
    (m : OptionAuthority) (c : OptionContext) → IsIdle m → tick_active c m ≡ (ok m.state, m)
unfolding tick_active
tick_active-idle m c h = let empty = ap is_empty h.unnamed in ground (arith, empty)

pub tick_active-running :
    (i : OptionInstance) (r : ActionRecord) (m : OptionAuthority) (c : OptionContext)
    → IsRunning i r m
    → tick_active c m ≡ tick_instance c i m
unfolding tick_active require_active
tick_active-running i r m c h =
    ground (arith, h.named, h.recorded, h.current, eq_iff m.active_action_id m.active_action_id)

tick_active-revoked :
    (m : OptionAuthority) (c : OptionContext)
    → IsCoherent m
    → m.last_now_ns ≡ c.now_ns
    → grants_motion c ≡ false
    → (tick_active c m).1.lease.candidate_authorized ≡ false
tick_active-revoked m c (t, inl h) at denied = rw (tick_active-idle m c h) h.revoked
tick_active-revoked m c (t, inr (i, r, h)) at denied =
    rw (tick_active-running i r m c h) (tick_instance-revoked i r m c h at denied)

-- A tick on a coherent authority, at a time that is not before the last one, in a context that does
-- not grant motion (no motion authority, an invalid lease, a safety stop, a stage that is not active
-- or is over), leaves the lease without authority, whatever the active option.
pub tick-revokes :
    (m : OptionAuthority) (c : OptionContext)
    → IsCoherent m
    → m.last_now_ns ≤ c.now_ns
    → grants_motion c ≡ false
    → (tick c m).1.lease.candidate_authorized ≡ false
tick-revokes m c h later denied = rw (tick-observed m c later) (
    tick_active-revoked (record m { last_now_ns = c.now_ns }) c
      (observed-IsCoherent c.now_ns m h later) refl denied)
