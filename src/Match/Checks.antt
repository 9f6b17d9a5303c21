-- ===== src/Match/Checks.antt =====
-- hsl_core/hsl_core/match.py: the validations that the constructors of `StageProfile`, `GoalZone` and
-- `RuleEvent` run. The type and sign checks of the source are the types here.
use hsl.Prelude.{
  String, Bool, true, false, not, ◌&&◌, ◌||◌, List, [], ◌∷◌, leb, ltb, nat_eqb, any, contains,
  is_unique, is_blank, is_empty, is_sha256, ◌==◌, string_eq, nat_eq,
}
use hsl.Prelude.Outcome.{Outcome, ok, refuse, ◌>>=◌, ◌>>◌}
use hsl.Contracts.Polygon.{Point, validate_polygon}
use hsl.Match.Enums.{TerminalKind, ZoneStatus, kind_eq}
use hsl.Match.Types.{StageProfile, GoalZone, RuleEvent}

abbrev pub is_nonempty : List String → Bool
is_nonempty [] = false
is_nonempty (x ∷ xs) = true

abbrev pub refuse_blank : String → String → Outcome (Unit {0})
refuse_blank value message = refuse (is_blank value) message

unfoldable pub check_identity : StageProfile → Outcome (Unit {0})
check_identity p = do
  refuse_blank p.profile_id "profile_id must be a non-empty string"
  refuse_blank p.score_profile_id "score_profile_id must be a non-empty string"
  refuse_blank p.source_id "source_id must be a non-empty string"
  refuse_blank p.source_session "source_session must be a non-empty string"
  refuse_blank p.clock_epoch "clock_epoch must be a non-empty string"
  refuse_blank p.localization_epoch "localization_epoch must be a non-empty string"
  refuse_blank p.organizer_authorization_ref
      "organizer_authorization_ref must be a non-empty string"
  refuse (not (is_sha256 p.config_hash)) "config_hash must be a lowercase SHA-256 hex digest"

unfoldable pub check_durations : StageProfile → Outcome (Unit {0})
check_durations p = do
  refuse (p.freeze_duration_ns == 0) "freeze_duration_ns must be a positive integer"
  refuse (p.stage_duration_ns == 0) "stage_duration_ns must be a positive integer"
  refuse (p.lease_duration_ns == 0) "lease_duration_ns must be a positive integer"
  refuse (leb p.stage_duration_ns p.freeze_duration_ns)
      "freeze duration must be shorter than stage duration"
  refuse (ltb p.freeze_duration_ns p.zone_update_window_ns)
      "zone_update_window_ns must be within [0, freeze_duration_ns]"
  refuse (p.max_request_records == 0) "max_request_records must be a positive integer"
  refuse (p.max_event_records == 0) "max_event_records must be a positive integer"
  refuse (p.max_audit_records == 0) "max_audit_records must be a positive integer"

unfoldable pub check_approvals : StageProfile → Outcome (Unit {0})
check_approvals p = do
  refuse
      (not (is_nonempty p.approved_authorization_refs)
        || any is_blank p.approved_authorization_refs)
      "approved_authorization_refs must contain non-empty refs"
  refuse (not (is_unique p.approved_authorization_refs))
      "approved_authorization_refs must be unique"
  refuse (not (contains p.organizer_authorization_ref p.approved_authorization_refs))
      "organizer authorization must be in the approved refs"
  refuse (not (is_nonempty p.approved_zone_frames) || any is_blank p.approved_zone_frames)
      "approved_zone_frames must contain non-empty frame IDs"
  refuse (not (is_unique p.approved_zone_frames)) "approved_zone_frames must be unique"
  refuse (any is_blank p.approved_memory_profile_ids)
      "approved memory profile IDs must be non-empty"
  refuse (not (is_unique p.approved_memory_profile_ids))
      "approved memory profile IDs must be unique"

-- `StageProfile.__post_init__`
unfoldable pub check_profile : StageProfile → Outcome (Unit {0})
check_profile p = do check_identity p; check_durations p; check_approvals p

abbrev pub is_no_points : List Point → Bool
is_no_points [] = true
is_no_points (p ∷ ps) = false

-- An unresolved zone carries nothing.
unfoldable pub check_unresolved : GoalZone → Outcome (Unit {0})
check_unresolved z =
    refuse
      (not (
        is_empty z.zone_id
        && is_no_points z.boundary
        && is_empty z.frame_id
        && nat_eqb z.position_error_bound_um 0
        && is_empty z.provider
        && is_empty z.approval_ref
        && is_empty z.provenance_hash))
      "unresolved zone must not carry guessed geometry or provenance"

abbrev is_blank_text : String → Bool
is_blank_text s = not (is_empty s) && is_blank s

unfoldable pub check_provenance : GoalZone → Outcome (Unit {0})
check_provenance z = do
  refuse_blank z.provider "provider must be a non-empty string"
  refuse_blank z.approval_ref "approval_ref must be a non-empty string"
  refuse (not (is_sha256 z.provenance_hash))
      "provenance_hash must be a lowercase SHA-256 hex digest"

unfoldable pub check_candidate : GoalZone → Outcome (Unit {0})
check_candidate z = do
  refuse (is_blank_text z.provider) "provider must be non-empty when supplied"
  refuse (is_blank_text z.approval_ref) "approval_ref must be non-empty when supplied"
  refuse (not (is_empty z.provenance_hash) && not (is_sha256 z.provenance_hash))
      "provenance_hash must be a lowercase SHA-256 hex digest"

abbrev pub check_shape : GoalZone → Outcome (Unit {0})
check_shape z = do
  refuse_blank z.zone_id "zone_id must be a non-empty string"
  refuse_blank z.frame_id "frame_id must be a non-empty string"
  boundary ← validate_polygon z.boundary
  ok tt

-- `GoalZone.__post_init__`
abbrev pub check_status : ZoneStatus → GoalZone → Outcome (Unit {0})
check_status ZoneStatus.unresolved z = check_unresolved z
check_status ZoneStatus.invalid z =
    refuse (not (is_no_points z.boundary)) "invalid zone must not expose an accepted boundary"
check_status ZoneStatus.accepted z = do check_shape z; check_provenance z
check_status ZoneStatus.candidate z = do check_shape z; check_candidate z

unfoldable pub check_zone : GoalZone → Outcome (Unit {0})
unfolding check_unresolved check_provenance check_candidate
check_zone z = check_status z.status z

abbrev pub is_event_kind : TerminalKind → Bool
is_event_kind kind =
    not
      (kind == TerminalKind.none || kind == TerminalKind.timeout || kind == TerminalKind.ambiguous)

-- `RuleEvent.__post_init__`
unfoldable pub check_event : RuleEvent → Outcome (Unit {0})
check_event e = do
  refuse_blank e.event_id "event_id must be a non-empty string"
  refuse_blank e.stage_id "stage_id must be a non-empty string"
  refuse_blank e.clock_epoch "clock_epoch must be a non-empty string"
  refuse_blank e.localization_epoch "localization_epoch must be a non-empty string"
  refuse (ltb e.event_time_upper_ns e.event_time_lower_ns)
      "event interval lower bound must not exceed upper bound"
  refuse (not (is_event_kind e.kind)) "input event kind must be CAPTURE, ARRIVAL or OFFICIAL_ABORT"
  refuse (not (is_nonempty e.input_ids) || any is_blank e.input_ids)
      "event input_ids must contain non-empty provenance IDs"
  refuse (not (is_unique e.input_ids)) "event input_ids must be unique"
