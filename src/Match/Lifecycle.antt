-- ===== src/Match/Lifecycle.antt =====
-- hsl_core/hsl_core/match.py: `start_stage`, `set_goal_zone` and the reads of the zones.
pub mod Start
use hsl.Prelude.{
  ℕ, ◌+◌, String, true, false, not, ◌&&◌, ◌||◌, Option, some, [], ltb, if◌then◌else◌, contains,
  ◌==◌, ◌!=◌, string_eq,
}
use hsl.Prelude.Int.{ℤ, pos, negsuc, pos_part}
use hsl.Prelude.Dict
use hsl.Match.Enums.{
  StagePhase, TerminalKind, EventEvidence, ZonePurpose, ZoneStatus, phase_eq, purpose_eq, status_eq,
}
use hsl.Match.Types.{GoalZone, RequestResult, result}
use hsl.Match.Manager.{
  start, zone, StageManager, Method, advance, timed, is_authorized, is_approved_reference,
}
use hsl.Match.Requests.{answer, return_at_once, succeed, refuse_or}

-- `(1 << 63) - 1`
abbrev pub max_stamp : ℕ
max_stamp = 9223372036854775807

-- The assignments of a start that is latched.
unfoldable pub latch_start : ℕ → ℕ → ℕ → StageManager → StageManager
latch_start official freeze_end end m = record m {
  stage_started_at_ns = official;
  freeze_ends_at_ns = freeze_end;
  stage_ends_at_ns = end;
  phase = StagePhase.freeze;
  terminal_kind = TerminalKind.none;
  terminal_evidence = EventEvidence.estimate;
  event_hold = false;
  held_event = Option.none;
  pending_estimates = [];
  official_events = [];
  event_ids = [];
}

-- The tests of the start stamp, at a stamp that is not negative.
abbrev pub stamp_refusal : ℤ → ℕ → StageManager → Option String
stamp_refusal (negsuc n) now m = some "official_start_stamp_invalid"
stamp_refusal (pos official) now m =
    if ltb now official
    then some "official_start_stamp_invalid"
    else if ltb max_stamp (official + m.profile.stage_duration_ns)
        || ltb max_stamp (official + m.profile.freeze_duration_ns)
    then some "stage_deadline_overflow"
    else Option.none

unfoldable pub start_refusal : String → ℤ → String → ℕ → StageManager → Option String
unfolding is_authorized
start_refusal expected official ref now m =
    if expected != m.stage_id
    then some "stale_expected_stage_id"
    else if m.phase != StagePhase.init
    then some "stage_not_in_INIT"
    else if m.reset_barrier_pending || m.epoch_barrier_pending
    then some "reset_effects_not_acknowledged"
    else if not (is_authorized m ref)
    then some "organizer_authorization_not_approved"
    else stamp_refusal official now m

unfoldable pub decide_start : String → ℤ → String → ℕ → StageManager → RequestResult × StageManager
unfolding start_refusal latch_start
decide_start expected official ref now m =
    refuse_or (start_refusal expected official ref now m)
      (
        result true "stage_start_latched" m.stage_id,
        latch_start (pos_part official) (pos_part official + m.profile.freeze_duration_ns)
            (pos_part official + m.profile.stage_duration_ns) m,
      )
      m

-- `start_stage` advances the time once more behind an accepted start.
abbrev pub advance_if_accepted : ℕ → RequestResult → StageManager → StageManager
advance_if_accepted now r m = if r.accepted then advance now m else m

unfoldable pub start_stage : String → String → ℤ → String → ℕ → Method RequestResult
unfolding timed answer decide_start
start_stage request_id expected official ref now = timed now (
    answer request_id (start expected official ref) (advance_if_accepted now)
      (λ m. succeed (decide_start expected official ref now m)))

unfoldable pub zone_refusal : String → GoalZone → String → ℕ → StageManager → Option String
unfolding is_authorized is_approved_reference
zone_refusal expected z ref now m =
    if expected != m.stage_id
    then some "stale_expected_stage_id"
    else if m.reset_barrier_pending || m.epoch_barrier_pending
    then some "reset_effects_not_acknowledged"
    else if not (m.phase == StagePhase.init || m.phase == StagePhase.freeze)
    then some "zone_updates_closed_after_FREEZE"
    else if m.phase == StagePhase.freeze
        && ltb (m.stage_started_at_ns + m.profile.zone_update_window_ns) now
    then some "zone_permission_window_closed"
    else if not (is_authorized m ref)
    then some "organizer_authorization_not_approved"
    else if z.status == ZoneStatus.accepted && not (is_approved_reference m z.approval_ref)
    then some "zone_approval_ref_not_approved"
    else if z.status == ZoneStatus.accepted && not (contains z.frame_id m.approved_zone_frames)
    then some "zone_frame_not_approved"
    else Option.none

unfoldable pub decide_zone :
    String → GoalZone → String → ℕ → StageManager → RequestResult × StageManager
unfolding zone_refusal Dict.put
decide_zone expected z ref now m =
    refuse_or (zone_refusal expected z ref now m)
      (result true "zone_recorded" m.stage_id, record m { zones = Dict.put z.purpose z m.zones }) m

unfoldable pub set_goal_zone : String → String → GoalZone → String → ℕ → Method RequestResult
unfolding timed answer decide_zone
set_goal_zone request_id expected z ref now = timed now (
    answer request_id (zone expected z ref) return_at_once
      (λ m. succeed (decide_zone expected z ref now m)))

-- `_zones_in_state`: the ID of an accepted zone, or the empty text.
abbrev pub accepted_zone_id : Option GoalZone → String
accepted_zone_id Option.none = ""
accepted_zone_id (some z) = if z.status == ZoneStatus.accepted then z.zone_id else ""

unfoldable pub zones_in_state : StageManager → String × String
unfolding Dict.get
zones_in_state m = (
  accepted_zone_id (Dict.get ZonePurpose.own_start m.zones),
  accepted_zone_id (Dict.get ZonePurpose.target m.zones),
)

abbrev pub unresolved_zone : ZonePurpose → GoalZone
unresolved_zone purpose = record {
  zone_id = "";
  purpose = purpose;
  status = ZoneStatus.unresolved;
  boundary = [];
  frame_id = "";
  position_error_bound_um = 0;
  provider = "";
  approval_ref = "";
  provenance_hash = "";
}

unfoldable pub goal_zone : ZonePurpose → StageManager → GoalZone
unfolding Dict.get
goal_zone purpose m = elim (Dict.get purpose m.zones) [
  | Option.none ↦ unresolved_zone purpose
  | some z ↦ z
]
