-- ===== src/Match/Manager.antt =====
-- hsl_core/hsl_core/match.py: the state of `StageManager`, its audit journal and its clock.
-- Each method holds the manager's lock from its first to its last access, so a call is one step.
use hsl.Prelude.{
  ℕ, ◌+◌, String, Bool, true, false, ◌&&◌, Option, some, List, [], ◌∷◌, ◌++◌, leb, ltb, nat_eqb,
  length, drop, if◌then◌else◌, is_blank, contains, ◌==◌, string_eq,
}
use Prim.Native.String
use hsl.Prelude.Int.{ℤ}
use hsl.Prelude.Outcome.{Outcome, ok, raised}
use hsl.Prelude.Dict.{Dict}
use hsl.Match.Enums.{
  StagePhase, Role, TerminalKind, EventEvidence, EventResolution, ZonePurpose, phase_eq,
}
use hsl.Match.Types.{StageProfile, GoalZone, RuleEvent, RequestResult, result, StageAuditRecord}

-- The payload of a request, with a constructor for each operation that remembers its requests.
pub data Request : Type 0 where
  start : (expected_stage_id : String) (official_start_stamp_ns : ℤ) (ref : String) → Request
  zone : (expected_stage_id : String) (zone : GoalZone) (ref : String) → Request
  resolve :
      (expected_stage_id event_id : String) (resolution : EventResolution) (kind : TerminalKind)
      (ref : String)
      → Request
  reset :
      (expected_stage_id : String) (stage_number : ℕ) (role : Role) (memory_profile_id ref : String)
      → Request

pub record OperationRecord : Type 0 where
  pub request : Request
  pub result : RequestResult

pub record StageManager : Type 0 where
  pub profile : StageProfile
  pub stage_id : String
  pub stage_number : ℕ
  pub role : Role
  pub phase : StagePhase
  pub stage_started_at_ns : ℕ
  pub freeze_ends_at_ns : ℕ
  pub stage_ends_at_ns : ℕ
  pub event_hold : Bool
  pub held_event : Option RuleEvent
  pub pending_estimates : Dict String RuleEvent
  pub terminal_kind : TerminalKind
  pub terminal_evidence : EventEvidence
  pub official_events : List RuleEvent
  pub zones : Dict ZonePurpose GoalZone
  pub last_now_ns : ℕ
  pub seq : ℕ
  pub reset_barrier_pending : Bool
  pub reset_acks : List String
  pub epoch_barrier_pending : Bool
  pub epoch_acks : List String
  pub operations : Dict (String × String) OperationRecord
  pub event_ids : Dict String RuleEvent
  pub used_stage_ids : List String
  pub audit : List StageAuditRecord
  pub audit_maxlen : ℕ
  pub audit_seq : ℕ
  pub audit_dropped_count : ℕ
  pub authorization_refs : List String
  pub approved_zone_frames : List String

abbrev pub initial : StageProfile → String → ℕ → Role → StageManager
initial profile initial_stage_id stage_number role = record {
  profile = profile;
  stage_id = initial_stage_id;
  stage_number = stage_number;
  role = role;
  phase = StagePhase.init;
  stage_started_at_ns = 0;
  freeze_ends_at_ns = 0;
  stage_ends_at_ns = 0;
  event_hold = false;
  held_event = Option.none;
  pending_estimates = [];
  terminal_kind = TerminalKind.none;
  terminal_evidence = EventEvidence.estimate;
  official_events = [];
  zones = [];
  last_now_ns = 0;
  seq = 0;
  reset_barrier_pending = false;
  reset_acks = [];
  epoch_barrier_pending = false;
  epoch_acks = [];
  operations = [];
  event_ids = [];
  used_stage_ids = initial_stage_id ∷ [];
  audit = [];
  audit_maxlen = profile.max_audit_records;
  audit_seq = 0;
  audit_dropped_count = 0;
  authorization_refs = profile.approved_authorization_refs;
  approved_zone_frames = profile.approved_zone_frames;
}

unfoldable pub new : StageProfile → String → ℕ → Role → Outcome StageManager
new profile initial_stage_id stage_number role =
    if is_blank initial_stage_id
    then raised "initial_stage_id must be a non-empty string"
    else if ltb 255 stage_number
    then raised "stage_number must be an integer in [0, 255]"
    else ok (initial profile initial_stage_id stage_number role)

-- The keyword arguments of `_record`, at their defaults.
pub record AuditDetails : Type 0 where
  pub evidence : Option EventEvidence
  pub event_kind : Option TerminalKind
  pub event_id : String
  pub event_time_lower_ns : ℕ
  pub event_time_upper_ns : ℕ
  pub input_ids : List String
  pub authorization_ref : String
  pub provenance_hash : String
  pub prior_stage_id : String

abbrev pub no_details : AuditDetails
no_details = record {
  evidence = Option.none;
  event_kind = Option.none;
  event_id = "";
  event_time_lower_ns = 0;
  event_time_upper_ns = 0;
  input_ids = [];
  authorization_ref = "";
  provenance_hash = "";
  prior_stage_id = "";
}

unfoldable pub audit_record :
    String → String → RequestResult → AuditDetails → StageManager → StageAuditRecord
audit_record operation request_id result d m = record {
  sequence = m.audit_seq + 1;
  time_ns = m.last_now_ns;
  operation = operation;
  request_id = request_id;
  stage_id = result.stage_id;
  prior_stage_id = d.prior_stage_id;
  phase = m.phase;
  accepted = result.accepted;
  reason = result.reason;
  evidence = d.evidence;
  event_kind = d.event_kind;
  event_id = d.event_id;
  event_time_lower_ns = d.event_time_lower_ns;
  event_time_upper_ns = d.event_time_upper_ns;
  input_ids = d.input_ids;
  authorization_ref = d.authorization_ref;
  provenance_hash = d.provenance_hash;
  profile_id = m.profile.profile_id;
  config_hash = m.profile.config_hash;
  stage_number = m.stage_number;
  role = m.role;
  stage_started_at_ns = m.stage_started_at_ns;
  freeze_ends_at_ns = m.freeze_ends_at_ns;
  stage_ends_at_ns = m.stage_ends_at_ns;
  memory_profile_id = result.memory_profile_id;
}

-- `deque(maxlen=n).append`: a full deque loses its oldest item.
unfoldable pub deque_append : {A : Type 0} → ℕ → List A → A → List A
deque_append n xs x = (if nat_eqb (length xs) n then drop 1 xs else xs) ++ x ∷ []

-- `_record`
unfoldable pub record_audit :
    String → String → RequestResult → AuditDetails → StageManager → StageManager
unfolding deque_append audit_record
record_audit operation request_id result d m = record m {
  audit = deque_append m.audit_maxlen m.audit (audit_record operation request_id result d m);
  audit_seq = m.audit_seq + 1;
  audit_dropped_count =
      if nat_eqb (length m.audit) m.audit_maxlen
      then m.audit_dropped_count + 1
      else m.audit_dropped_count;
}

-- `_set_timeout`
unfoldable pub set_timeout : StageManager → StageManager
set_timeout m =
    if m.phase == StagePhase.terminal
    then m
    else record_audit "deadline_transition" "" (result true "timeout_deadline_reached" m.stage_id)
        (record no_details {
          evidence = some EventEvidence.estimate;
          event_kind = some TerminalKind.timeout;
          event_id = String.◌++◌ "timeout:" m.stage_id;
          event_time_lower_ns = m.stage_ends_at_ns;
          event_time_upper_ns = m.stage_ends_at_ns;
        })
        (record m {
          phase = StagePhase.terminal;
          event_hold = false;
          held_event = Option.none;
          terminal_kind = TerminalKind.timeout;
          terminal_evidence = EventEvidence.estimate;
        })

-- The part of `_advance_time` below its check, at the time `now`.
unfoldable pub advance : ℕ → StageManager → StageManager
unfolding set_timeout
advance now m =
    let m' = record m { last_now_ns = now } in
    if m.phase == StagePhase.freeze
    then (if leb m.stage_ends_at_ns now
        then set_timeout m'
        else if leb m.freeze_ends_at_ns now
        then record_audit "phase_transition" "" (result true "freeze_elapsed" m.stage_id) no_details
            (record m' { phase = StagePhase.active })
        else m')
    else if m.phase == StagePhase.active && leb m.stage_ends_at_ns now
    then set_timeout m'
    else m'

abbrev pub Method : Type 0 → Type 0
Method A = StageManager → Outcome A × StageManager

-- `_advance_time` before the rest of a method: a time that goes back raises, and changes nothing.
unfoldable pub timed : {A : Type 0} → ℕ → Method A → Method A
timed now body m =
    if ltb now m.last_now_ns
    then (raised "stage manager time must be monotonic", m)
    else body (advance now m)

-- `_authorized` and `_approved_reference`
unfoldable pub is_authorized : StageManager → String → Bool
is_authorized m ref = ref == m.profile.organizer_authorization_ref

unfoldable pub is_approved_reference : StageManager → String → Bool
is_approved_reference m ref = contains ref m.authorization_refs
