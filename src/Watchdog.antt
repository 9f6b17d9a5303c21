-- ===== src/Watchdog.antt =====
-- ros_ws/src/hsl_safety/hsl_safety/watchdog.py: `WatchdogMachine`, the independent stop watchdog.
use hsl.Prelude.{
  String, Bool, true, false, not, ◌&&◌, ◌||◌, Option, some, if◌then◌else◌, is_empty, ◌≡◌, arith,
  ◌↔◌, Eq, ◌==◌, ◌!=◌, string_eq, List, [], ◌∷◌,
}
use hsl.Prelude.Int.{ℤ, pos, ◌-ℤ◌, ltb_ℤ, leb_ℤ, is_negative}
use hsl.Prelude.Outcome.{Outcome, ok, raised}
pub mod Run

pub data WatchdogState : Type 0 where
  disarmed : WatchdogState
  ready : WatchdogState
  active : WatchdogState
  fault_latched : WatchdogState

abbrev pub state_beq : WatchdogState → WatchdogState → Bool
state_beq WatchdogState.disarmed WatchdogState.disarmed = true
state_beq WatchdogState.ready WatchdogState.ready = true
state_beq WatchdogState.active WatchdogState.active = true
state_beq WatchdogState.fault_latched WatchdogState.fault_latched = true
state_beq _ _ = false

pub state_beq_iff : (a b : WatchdogState) → (state_beq a b ≡ true) ↔ (a ≡ b)
state_beq_iff a b = ground arith

instance abbrev pub state_eq : Eq WatchdogState
state_eq = record { beq = state_beq; beq_iff = state_beq_iff }

pub record HeartbeatObservation : Type 0 where
  pub decision_seq : ℤ
  pub stage_id : String
  pub config_hash : String
  pub received_steady_ns : ℤ
  pub permit_motion : Bool

pub record WatchdogOutput : Type 0 where
  pub state : WatchdogState
  pub stop_asserted : Bool
  pub healthy : Bool
  pub last_decision_seq : ℤ
  pub fault_reason : String

pub record WatchdogMachine : Type 0 where
  pub config_hash : String
  pub heartbeat_lease_ns : ℤ
  pub state : WatchdogState
  pub last : Option HeartbeatObservation
  pub stage_id : String
  pub fault_reason : String

unfoldable pub new : String → ℤ → Outcome WatchdogMachine
new config_hash heartbeat_lease_ns =
    if is_empty config_hash || leb_ℤ heartbeat_lease_ns (pos 0)
    then raised "watchdog configuration is invalid"
    else ok (record {
      config_hash = config_hash;
      heartbeat_lease_ns = heartbeat_lease_ns;
      state = WatchdogState.disarmed;
      last = Option.none;
      stage_id = "";
      fault_reason = "STARTUP_DISARMED";
    })

-- `_latch`
abbrev pub latch : String → WatchdogMachine → WatchdogMachine
latch reason m = record m { state = WatchdogState.fault_latched; fault_reason = reason }

-- The last observation against the new one, as the reason to latch.
abbrev pub regression : HeartbeatObservation → Option HeartbeatObservation → Option String
regression h Option.none = Option.none
regression h (some last) =
    if leb_ℤ h.decision_seq last.decision_seq
    then some "HEARTBEAT_NOT_PROGRESSING"
    else if ltb_ℤ h.received_steady_ns last.received_steady_ns
    then some "STEADY_CLOCK_REGRESSION"
    else Option.none

unfoldable pub heartbeat_fault : HeartbeatObservation → WatchdogMachine → Option String
heartbeat_fault h m =
    if is_negative h.decision_seq
      || is_negative h.received_steady_ns
      || is_empty h.stage_id
      || h.config_hash != m.config_hash
    then some "INVALID_HEARTBEAT"
    else elim (regression h m.last) [
      | some reason ↦ some reason
      | Option.none ↦
          if not (is_empty m.stage_id) && h.stage_id != m.stage_id
          then some "STAGE_ID_MISMATCH"
          else Option.none
    ]

-- The state behind a heartbeat that is accepted.
unfoldable pub accept_heartbeat : HeartbeatObservation → WatchdogMachine → WatchdogMachine
accept_heartbeat h m =
    let m' = record m { stage_id = h.stage_id; last = some h } in
    if m.state == WatchdogState.disarmed
    then record m' { state = WatchdogState.ready; fault_reason = "" }
    else m'

unfoldable pub observe_heartbeat : HeartbeatObservation → WatchdogMachine → WatchdogMachine
unfolding heartbeat_fault accept_heartbeat
observe_heartbeat h m = elim (heartbeat_fault h m) [
  | some reason ↦ latch reason m
  | Option.none ↦ accept_heartbeat h m
]

-- `_output`
abbrev pub last_seq : Option HeartbeatObservation → ℤ
last_seq Option.none = pos 0
last_seq (some h) = h.decision_seq

abbrev pub output : Bool → Bool → WatchdogMachine → WatchdogOutput
output stop healthy m = record {
  state = m.state;
  stop_asserted = stop;
  healthy = healthy;
  last_decision_seq = last_seq m.last;
  fault_reason = m.fault_reason;
}

abbrev pub outputs : Bool → Bool → WatchdogMachine → Outcome WatchdogOutput × WatchdogMachine
outputs stop healthy m = (ok (output stop healthy m), m)

-- `tick` with the last heartbeat at hand.
unfoldable pub tick_on :
    HeartbeatObservation
    → ℤ
    → Bool
    → Bool
    → WatchdogMachine
    → Outcome WatchdogOutput × WatchdogMachine
unfolding ◌-ℤ◌
tick_on last now stage_authorized supervisor_healthy m =
    let age = now -ℤ last.received_steady_ns in
    if is_negative age || ltb_ℤ m.heartbeat_lease_ns age
    then outputs true false (latch "STALE_HEARTBEAT" m)
    else if not supervisor_healthy
    then outputs true false (latch "SUPERVISOR_UNHEALTHY" m)
    else if not stage_authorized || not last.permit_motion
    then outputs true true (record m { state = WatchdogState.ready })
    else outputs false true (record m { state = WatchdogState.active })

unfoldable pub tick : ℤ → Bool → Bool → WatchdogMachine → Outcome WatchdogOutput × WatchdogMachine
unfolding tick_on
tick now stage_authorized supervisor_healthy m =
    if is_negative now
    then (raised "now_steady_ns must be non-negative", m)
    else if m.state == WatchdogState.fault_latched
    then outputs true false m
    else elim m.last [
      | Option.none ↦ outputs true false m
      | some last ↦ tick_on last now stage_authorized supervisor_healthy m
    ]

unfoldable pub rearm :
    String → String → String → Bool → Bool → WatchdogMachine → Bool × WatchdogMachine
rearm stage_id config_hash authorization_ref near_zero dwell_satisfied m =
    if m.state != WatchdogState.fault_latched
    then (false, m)
    else if is_empty authorization_ref
        || config_hash != m.config_hash
        || stage_id != m.stage_id
        || not near_zero
        || not dwell_satisfied
    then (false, m)
    else (true, record m { state = WatchdogState.ready; fault_reason = ""; last = Option.none })
