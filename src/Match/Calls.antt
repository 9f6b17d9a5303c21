-- ===== src/Match/Calls.antt =====
-- A life of a stage manager: the calls of its methods, in the order in which its lock admits them.
-- An argument that its constructor refuses never reaches the manager.
pub mod Reachable
use hsl.Prelude.{ℕ, String, Bool, true, false, List, [], ◌∷◌, if◌then◌else◌}
use hsl.Prelude.Int.{ℤ}
use hsl.Prelude.Outcome.{Outcome, ok, raised}
use hsl.Match.Enums.{Role, TerminalKind, EventResolution}
use hsl.Match.Types.{GoalZone, RuleEvent}
use hsl.Match.Checks.{check_event, check_zone}
use hsl.Match.Manager.{StageManager}
use hsl.Match.Lifecycle.{start_stage, set_goal_zone}
use hsl.Match.Adjudication.{resolve_event}
use hsl.Match.Resolution.{resolve_estimate}
use hsl.Match.Reset.{
  reset_stage, acknowledge_reset, acknowledge_localization_epoch, change_localization_epoch,
  change_clock_epoch,
}
use hsl.Match.Snapshot.{snapshot}

pub data Call : Type 0 where
  start : (request_id expected : String) (official : ℤ) (ref : String) (now : ℕ) → Call
  zone : (request_id expected : String) (z : GoalZone) (ref : String) (now : ℕ) → Call
  event : (e : RuleEvent) (now : ℕ) → Call
  resolve :
      (request_id expected event_id : String) (resolution : EventResolution) (kind : TerminalKind)
      (ref : String) (now : ℕ)
      → Call
  reset :
      (generated request_id expected : String) (stage_number : ℕ) (role : Role)
      (memory_id ref : String) (now : ℕ)
      → Call
  ack_reset : (stage_id : String) (acks : List String) → Call
  ack_epoch : (stage_id : String) (acks : List String) → Call
  localization_epoch : (epoch : String) → Call
  clock_epoch : (generated epoch : String) (now : ℕ) → Call
  snap : (now map_version topology_version : ℕ) → Call

abbrev pub passes : Outcome (Unit {0}) → Bool
passes (ok _) = true
passes (raised _) = false

-- The state that a call leaves, whether it returns or raises.
unfoldable pub perform : Call → StageManager → StageManager
perform (start request_id expected official ref now) m =
    (start_stage request_id expected official ref now m).1
perform (zone request_id expected z ref now) m =
    if passes (check_zone z) then (set_goal_zone request_id expected z ref now m).1 else m
perform (event e now) m = if passes (check_event e) then (resolve_event e now m).1 else m
perform (resolve request_id expected event_id resolution kind ref now) m =
    (resolve_estimate request_id expected event_id resolution kind ref now m).1
perform (reset generated request_id expected stage_number role memory_id ref now) m =
    (reset_stage generated request_id expected stage_number role memory_id ref now m).1
perform (ack_reset stage_id acks) m = (acknowledge_reset stage_id acks m).1
perform (ack_epoch stage_id acks) m = (acknowledge_localization_epoch stage_id acks m).1
perform (localization_epoch epoch) m = (change_localization_epoch epoch m).1
perform (clock_epoch generated epoch now) m = (change_clock_epoch generated epoch now m).1
perform (snap now map_version topology_version) m = (snapshot now map_version topology_version m).1

unfoldable pub perform_all : List Call → StageManager → StageManager
perform_all [] m = m
perform_all (c ∷ cs) m = perform_all cs (perform c m)
