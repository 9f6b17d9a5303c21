-- ===== src/Match/Adjudication.antt =====
-- hsl_core/hsl_core/match.py: `resolve_event` and `_resolve_event_checked`.
use hsl.Prelude.{
  ℕ, String, Bool, true, false, not, ◌&&◌, Option, some, [], ◌∷◌, ◌++◌, leb, ltb, length,
  if◌then◌else◌, ◌==◌, ◌!=◌, string_eq,
}
use hsl.Prelude.Outcome.{ok, raised}
use hsl.Prelude.Dict
use hsl.Match.Enums.{
  StagePhase, TerminalKind, EventEvidence, EventPredicate, ZonePurpose, ZoneStatus, phase_eq,
  kind_eq, evidence_eq, predicate_eq, purpose_eq, status_eq,
}
use hsl.Match.Types.{GoalZone, RuleEvent, RequestResult, result, event_eq}
use hsl.Match.Manager.{
  StageManager, Method, AuditDetails, no_details, record_audit, advance, is_authorized,
}
use hsl.Match.Requests.{refuse_or}
use hsl.Match.Events.{only, terminalize}

-- The tests that come before any change of the state, as the reason of the refusal.
unfoldable pub event_refusal : RuleEvent → ℕ → StageManager → Option String
event_refusal e now m =
    if e.stage_id != m.stage_id
    then some "stale_event_stage_id"
    else if e.clock_epoch != m.profile.clock_epoch
    then some "stale_event_clock_epoch"
    else if e.localization_epoch != m.profile.localization_epoch
    then some "stale_event_localization_epoch"
    else if e.predicate != EventPredicate.true
    then some "event_predicate_not_proven_true"
    else if m.phase == StagePhase.init
    then some "event_outside_started_stage"
    else if ltb e.event_time_lower_ns m.freeze_ends_at_ns
    then some "event_precedes_active_phase"
    else if ltb now e.event_time_lower_ns
    then some "event_time_in_future"
    else if ltb now e.event_time_upper_ns
    then some "event_interval_extends_into_future"
    else Option.none

-- The freeze that has elapsed ends before the event is judged.
unfoldable pub end_freeze : ℕ → StageManager → StageManager
end_freeze now m =
    if m.phase == StagePhase.freeze && leb m.freeze_ends_at_ns now && ltb now m.stage_ends_at_ns
    then record_audit "phase_transition" ""
        (result true "freeze_elapsed_before_event_adjudication" m.stage_id) no_details
        (record m { phase = StagePhase.active })
    else m

abbrev pub zone_mismatch : RuleEvent → Option GoalZone → Option String
zone_mismatch e Option.none = some "arrival_target_zone_unresolved"
zone_mismatch e (some z) =
    if z.status != ZoneStatus.accepted
    then some "arrival_target_zone_unresolved"
    else if e.zone_id != z.zone_id
    then some "arrival_zone_id_mismatch"
    else Option.none

unfoldable pub arrival_refusal : RuleEvent → StageManager → Option String
unfolding Dict.get
arrival_refusal e m =
    if e.kind == TerminalKind.arrival
    then zone_mismatch e (Dict.get ZonePurpose.target m.zones)
    else Option.none

unfoldable pub estimate_refusal : RuleEvent → StageManager → Option String
estimate_refusal e m =
    if e.kind == TerminalKind.official_abort
    then some "estimated_abort_cannot_change_stage_result"
    else if m.phase == StagePhase.terminal && m.terminal_evidence == EventEvidence.official
    then some "estimate_after_terminal"
    else if leb m.stage_ends_at_ns e.event_time_upper_ns
    then some "estimate_interval_overlaps_stage_deadline"
    else Option.none

-- `local_hold`
abbrev pub is_local_hold : ℕ → StageManager → Bool
is_local_hold now m = m.phase == StagePhase.active && ltb now m.stage_ends_at_ns

-- An estimate is latched, and holds the motion in an active stage.
unfoldable pub latch_estimate : RuleEvent → ℕ → StageManager → StageManager
unfolding Dict.put Dict.values
latch_estimate e now m =
    let pending = Dict.put e.event_id e m.pending_estimates in
    if is_local_hold now m
    then record m {
      pending_estimates = pending;
      event_hold = true;
      held_event = only (Dict.values pending);
    }
    else record m { pending_estimates = pending; held_event = Option.none }

unfoldable pub judge_estimate : RuleEvent → ℕ → StageManager → RequestResult × StageManager
unfolding estimate_refusal
judge_estimate e now m =
    refuse_or (estimate_refusal e m)
      (
        result true
            (if is_local_hold now m
              then "estimate_latched_as_local_hold_only"
              else "estimate_retained_for_adjudication_only")
            m.stage_id,
        terminalize (latch_estimate e now m),
      )
      m

unfoldable pub official_refusal : RuleEvent → StageManager → Option String
unfolding is_authorized
official_refusal e m =
    if e.evidence == EventEvidence.sim_truth && not m.profile.allow_sim_truth_terminal
    then some "simulation_truth_terminal_not_enabled"
    else if not (is_authorized m e.authorization_ref)
    then some "event_authorization_not_approved"
    else if leb m.stage_ends_at_ns e.event_time_upper_ns
    then some "event_not_proven_strictly_before_deadline"
    else Option.none

unfoldable pub judge_official : RuleEvent → StageManager → RequestResult × StageManager
unfolding official_refusal
judge_official e m =
    refuse_or (official_refusal e m)
      (
        result true "event_recorded_without_inventing_order" m.stage_id,
        terminalize (record m { official_events = m.official_events ++ e ∷ [] }),
      )
      m

unfoldable pub judge : RuleEvent → ℕ → StageManager → RequestResult × StageManager
unfolding arrival_refusal
judge e now m =
    refuse_or (arrival_refusal e m)
      (if e.evidence == EventEvidence.estimate then judge_estimate e now m else judge_official e m)
      m

-- `_resolve_event_checked`
unfoldable pub resolve_event_checked : RuleEvent → ℕ → StageManager → RequestResult × StageManager
unfolding event_refusal
resolve_event_checked e now m = refuse_or (event_refusal e now m) (judge e now (end_freeze now m)) m

abbrev pub event_details : RuleEvent → AuditDetails
event_details e = record no_details {
  evidence = some e.evidence;
  event_kind = some e.kind;
  event_id = e.event_id;
  event_time_lower_ns = e.event_time_lower_ns;
  event_time_upper_ns = e.event_time_upper_ns;
  input_ids = e.input_ids;
  authorization_ref = e.authorization_ref;
}

-- An event under an ID that was accepted before.
unfoldable pub repeat_event : RuleEvent → RuleEvent → StageManager → RequestResult × StageManager
repeat_event prior e m =
    if prior == e
    then (result true "duplicate_event_idempotent" m.stage_id, m)
    else (let r = result false "event_id_reused_with_different_payload" m.stage_id in
        (r, record_audit "rule_event" e.event_id r (record no_details { event_id = e.event_id }) m))

-- The decision on a fresh event, then the clock, then the event's ID and the journal.
unfoldable pub conclude_event :
    RuleEvent → ℕ → RequestResult × StageManager → RequestResult × StageManager
unfolding Dict.put
conclude_event e now (r, m) =
    let m' = advance now m in
    let m'' =
      if r.accepted then record m' { event_ids = Dict.put e.event_id e m'.event_ids } else m' in
    (r, record_audit "rule_event" e.event_id r (event_details e) m'')

unfoldable pub fresh_event : RuleEvent → ℕ → StageManager → RequestResult × StageManager
unfolding conclude_event
fresh_event e now m =
    if leb m.profile.max_event_records (length m.event_ids)
    then (let r = result false "event_capacity_exhausted" m.stage_id in
        (r, record_audit "rule_event" e.event_id r (event_details e) m))
    else conclude_event e now (resolve_event_checked e now m)

abbrev pub known_event :
    RuleEvent → ℕ → Option RuleEvent → StageManager → RequestResult × StageManager
known_event e now Option.none m = fresh_event e now m
known_event e now (some prior) m = repeat_event prior e (advance now m)

unfoldable pub resolve_event : RuleEvent → ℕ → Method RequestResult
unfolding fresh_event repeat_event Dict.get
resolve_event e now m =
    if ltb now m.last_now_ns
    then (raised "stage manager time must be monotonic", m)
    else (let (r, m') = known_event e now (Dict.get e.event_id m.event_ids) m in (ok r, m'))
