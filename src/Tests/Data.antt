-- ===== src/Tests/Data.antt =====
-- A stage manager with its profile, its events and its zone, as the tests of the source set them up.
use hsl.Prelude.{ℕ, String, false, [], ◌∷◌}
use hsl.Prelude.Int.{pos}
use hsl.Match.Enums.{Role, TerminalKind, EventEvidence, EventPredicate, ZonePurpose, ZoneStatus}
use hsl.Match.Types.{StageProfile, GoalZone, RuleEvent}
use hsl.Match.Manager.{StageManager, initial}

abbrev hash : String
hash = "0123456789abcdef0123456789abcdef0123456789abcdef0123456789abcdef"

abbrev pub profile : StageProfile
profile = record {
  profile_id = "profile";
  score_profile_id = "score";
  freeze_duration_ns = 10;
  stage_duration_ns = 100;
  lease_duration_ns = 5;
  zone_update_window_ns = 5;
  max_request_records = 8;
  max_event_records = 8;
  max_audit_records = 4;
  config_hash = hash;
  source_id = "match";
  source_session = "session";
  clock_epoch = "clock";
  localization_epoch = "map";
  organizer_authorization_ref = "organizer";
  approved_authorization_refs = "organizer" ∷ "survey" ∷ [];
  approved_zone_frames = "world" ∷ [];
  approved_memory_profile_ids = [];
  allow_sim_truth_terminal = false;
}

abbrev pub manager : StageManager
manager = initial profile "stage" 1 Role.explorer

abbrev pub goal : GoalZone
goal = record {
  zone_id = "goal";
  purpose = ZonePurpose.target;
  status = ZoneStatus.accepted;
  boundary = (pos 0, pos 0) ∷ (pos 9, pos 0) ∷ (pos 9, pos 9) ∷ [];
  frame_id = "world";
  position_error_bound_um = 1000;
  provider = "survey";
  approval_ref = "survey";
  provenance_hash = hash;
}

abbrev pub event : String → TerminalKind → EventEvidence → ℕ → ℕ → RuleEvent
event id kind evidence lower upper = record {
  event_id = id;
  stage_id = "stage";
  clock_epoch = "clock";
  localization_epoch = "map";
  kind = kind;
  evidence = evidence;
  predicate = EventPredicate.true;
  event_time_lower_ns = lower;
  event_time_upper_ns = upper;
  input_ids = "camera" ∷ [];
  authorization_ref = "organizer";
  zone_id = "";
  reason = "";
}

abbrev pub capture : RuleEvent
capture = event "capture" TerminalKind.capture EventEvidence.official 1020 1030

abbrev pub abort : RuleEvent
abort = event "abort" TerminalKind.official_abort EventEvidence.official 1025 1040

abbrev pub late_abort : RuleEvent
late_abort = event "abort" TerminalKind.official_abort EventEvidence.official 1035 1040
