-- ===== src/Match/Snapshot/Authority.antt =====
-- When the published state authorizes motion, and what the deadline does to it.
use hsl.Prelude.{ℕ, ◌+◌, ◌≤◌, ◌<◌, ◌≡◌, ◌≢◌, sym, ◌∙◌, true, false, arith}
use mathlib.Core.Path.{subst}
use hsl.Prelude.Outcome.{ok}
use hsl.Match.Enums.{StagePhase, TerminalKind}
use hsl.Match.Types.{MatchState}
use hsl.Match.Manager.{StageManager, advance, record_audit}
use hsl.Match.Lifecycle.{max_stamp}
use hsl.Match.Invariant.{IsWellFormed}
use hsl.Match.Invariant.Steps.{advance_keeps}
use hsl.Match.Snapshot.{is_motion_authorized, state_of, snapshot}
use hsl.Match.Snapshot.Valid.{published, snapshot-succeeds}

-- What motion needs of the published state and of the manager at the same time.
pub record IsLive (now : ℕ) (m : StageManager) (s : MatchState) : Type 0 where
  pub is_active : s.phase ≡ StagePhase.active
  pub freeze_over : s.freeze_ends_at_ns ≤ now
  pub before_deadline : now < s.stage_ends_at_ns
  pub no_hold : s.event_hold ≡ false
  pub undecided : s.terminal_kind ≡ TerminalKind.none
  pub no_reset_barrier : m.reset_barrier_pending ≡ false
  pub no_epoch_barrier : m.epoch_barrier_pending ≡ false

ok-injective : {a b : MatchState} → ok a ≡ ok b → a ≡ b
ok-injective h = ground arith

barriers-advance :
    (now : ℕ) (m : StageManager)
    → ((advance now m).reset_barrier_pending ≡ m.reset_barrier_pending)
      × ((advance now m).epoch_barrier_pending ≡ m.epoch_barrier_pending)
      × ((advance now m).last_now_ns ≡ now)
unfolding advance record_audit
barriers-advance now m = ground arith

published-IsLive :
    (now v w : ℕ) (m : StageManager)
    → IsWellFormed m
    → m.last_now_ns ≡ now
    → (published now v w m).motion_authorized ≡ true
    → IsLive now m (published now v w m)
unfolding state_of is_motion_authorized
published-IsLive now v w m h now' a = ground arith

-- A published state of a well-formed manager authorizes motion only between the end of the freeze
-- and the deadline, in an active stage with no hold, no result and no barrier pending.
pub authority-IsLive :
    (now v w : ℕ) (m : StageManager) (s : MatchState)
    → IsWellFormed m
    → m.last_now_ns ≤ now
    → now + m.profile.lease_duration_ns ≤ max_stamp
    → (snapshot now v w m).0 ≡ ok s
    → s.motion_authorized ≡ true
    → IsLive now m s
authority-IsLive now v w m s h le fits e a =
    let same = ok-injective (sym (snapshot-succeeds now v w m h le fits) ∙ e) in
    let b = barriers-advance now m in
    let live =
      published-IsLive now v w (advance now m) (advance_keeps now m le h) b.2 (rw same a) in
    subst (IsLive now m) same (record {
      is_active = live.is_active;
      freeze_over = live.freeze_over;
      before_deadline = live.before_deadline;
      no_hold = live.no_hold;
      undecided = live.undecided;
      no_reset_barrier = sym b.0 ∙ live.no_reset_barrier;
      no_epoch_barrier = sym b.1 ∙ live.no_epoch_barrier;
    })

terminal_at_deadline :
    (now : ℕ) (m : StageManager)
    → IsWellFormed m
    → m.phase ≢ StagePhase.init
    → m.stage_ends_at_ns ≤ now
    → (advance now m).phase ≡ StagePhase.terminal
unfolding advance record_audit
terminal_at_deadline now m h p d = ground arith

-- From the deadline on, a started stage is published as over, with a result and without motion.
pub deadline_ends_stage :
    (now v w : ℕ) (m : StageManager)
    → IsWellFormed m
    → m.phase ≢ StagePhase.init
    → m.last_now_ns ≤ now
    → m.stage_ends_at_ns ≤ now
    → now + m.profile.lease_duration_ns ≤ max_stamp
    → (s : MatchState) × ((snapshot now v w m).0 ≡ ok s)
      × (s.phase ≡ StagePhase.terminal)
      × (s.terminal_kind ≢ TerminalKind.none)
      × (s.motion_authorized ≡ false)
unfolding state_of is_motion_authorized
deadline_ends_stage now v w m h p le d fits =
    let t = terminal_at_deadline now m h p d in
    let k = (advance_keeps now m le h).consistent.terminal_has_kind t in
    (
      published now v w (advance now m),
      snapshot-succeeds now v w m h le fits,
      t,
      k,
      ground (arith, t),
    )
