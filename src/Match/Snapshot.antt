-- ===== src/Match/Snapshot.antt =====
pub mod Valid
pub mod Authority
-- hsl_core/hsl_core/match.py: `snapshot` and the validation of the `MatchState` that it builds.
use hsl.Prelude.{
  ℕ, ◌+◌, String, Bool, true, false, not, ◌&&◌, ◌||◌, Option, some, leb, ltb, if◌then◌else◌,
  is_blank, is_empty, is_sha256, ◌==◌, ◌!=◌, string_eq, nat_eq,
}
use hsl.Prelude.Outcome.{Outcome, ok, raised, refuse, ◌>>=◌, ◌>>◌}
use hsl.Contracts.{ContractHeader, check_header}
use hsl.Match.Enums.{StagePhase, TerminalKind, phase_eq, kind_eq}
use hsl.Match.Types.{MatchState}
use hsl.Match.Manager.{StageManager, Method, timed}
use hsl.Match.Lifecycle.{max_stamp, zones_in_state}

-- The three stage times of a `MatchState`, against its phase.
unfoldable pub check_times : MatchState → Outcome (Unit {0})
check_times s =
    if s.phase == StagePhase.init
    then refuse
        (not (s.stage_started_at_ns == 0 && s.freeze_ends_at_ns == 0 && s.stage_ends_at_ns == 0))
        "INIT MatchState must not carry active stage times"
    else refuse
        (not (
          ltb s.stage_started_at_ns s.freeze_ends_at_ns
          && ltb s.freeze_ends_at_ns s.stage_ends_at_ns))
        "stage, freeze and deadline times must be strictly ordered"

unfoldable pub check_terminal : MatchState → Outcome (Unit {0})
check_terminal s =
    if s.phase == StagePhase.terminal
    then (do
      refuse (s.terminal_kind == TerminalKind.none) "TERMINAL MatchState requires a terminal kind"
      refuse (s.event_hold && s.terminal_kind != TerminalKind.ambiguous)
          "terminal event_hold is reserved for AMBIGUOUS results"
      refuse (s.terminal_kind == TerminalKind.ambiguous && not s.event_hold)
          "AMBIGUOUS terminal result requires event_hold"
      ok tt)
    else refuse (s.terminal_kind != TerminalKind.none)
        "nonterminal MatchState must not carry a terminal result"

unfoldable pub check_hold : MatchState → Outcome (Unit {0})
check_hold s =
    refuse
      (s.event_hold
        && not (
            s.phase == StagePhase.active
            || (s.phase == StagePhase.terminal && s.terminal_kind == TerminalKind.ambiguous)))
      "event_hold is only valid in ACTIVE or ambiguous TERMINAL"

unfoldable pub check_authority : MatchState → Outcome (Unit {0})
check_authority s =
    refuse
      (s.motion_authorized
        && (s.phase != StagePhase.active || s.event_hold || s.meta.validity != 1))
      "motion authority requires a valid ACTIVE state without event hold"

-- `MatchState.__post_init__`
unfoldable pub check_match_state : MatchState → Outcome (Unit {0})
check_match_state s = do
  refuse (ltb 255 s.stage_number) "stage_number must be in [0, 255]"
  refuse (is_empty s.meta.stage_id) "MatchState requires a stage ID"
  check_times s
  check_terminal s
  check_hold s
  check_authority s
  refuse (is_blank s.score_profile_id) "score_profile_id must be a non-empty string"
  refuse (not (is_sha256 s.config_hash)) "config_hash must be a lowercase SHA-256 hex digest"
  ok tt

unfoldable pub header_of : ℕ → ℕ → ℕ → StageManager → ContractHeader
header_of now map_version topology_version m = record {
  schema_version = 2;
  source_id = m.profile.source_id;
  source_session = m.profile.source_session;
  seq = m.seq;
  stage_id = m.stage_id;
  clock_epoch = m.profile.clock_epoch;
  localization_epoch = m.profile.localization_epoch;
  frame_id = "match";
  observation_stamp_ns = now;
  state_stamp_ns = now;
  publication_stamp_ns = now;
  valid_until_ns = now + m.profile.lease_duration_ns;
  map_version = map_version;
  topology_version = topology_version;
  validity = 1;
}

-- Motion is authorized in an active stage with no hold and no barrier.
unfoldable pub is_motion_authorized : StageManager → Bool
is_motion_authorized m =
    m.phase == StagePhase.active
    && not m.event_hold
    && not m.reset_barrier_pending
    && not m.epoch_barrier_pending

unfoldable pub state_of : ContractHeader → StageManager → MatchState
unfolding is_motion_authorized zones_in_state
state_of header m = record {
  meta = header;
  stage_number = m.stage_number;
  role = m.role;
  phase = m.phase;
  stage_started_at_ns = m.stage_started_at_ns;
  freeze_ends_at_ns = m.freeze_ends_at_ns;
  stage_ends_at_ns = m.stage_ends_at_ns;
  motion_authorized = is_motion_authorized m;
  event_hold = m.event_hold;
  terminal_kind = m.terminal_kind;
  terminal_evidence = m.terminal_evidence;
  score_profile_id = m.profile.score_profile_id;
  own_start_zone_id = (zones_in_state m).0;
  target_zone_id = (zones_in_state m).1;
  config_hash = m.profile.config_hash;
}

-- The two constructors validate in turn: the header, then the state.
unfoldable pub publish : ContractHeader → StageManager → Outcome MatchState
publish header m = do check_header header; let s = state_of header m; check_match_state s; ok s

unfoldable pub snapshot_at : ℕ → ℕ → ℕ → Method MatchState
snapshot_at now map_version topology_version m =
    if ltb max_stamp (now + m.profile.lease_duration_ns)
    then (raised "MatchState lease overflows supported timestamp range", m)
    else (let m' = record m { seq = m.seq + 1 } in
        (publish (header_of now map_version topology_version m') m', m'))

unfoldable pub snapshot : ℕ → ℕ → ℕ → Method MatchState
unfolding timed snapshot_at
snapshot now map_version topology_version = timed now (snapshot_at now map_version topology_version)
