-- ===== src/Match/Types.antt =====
-- hsl_core/hsl_core/match.py: the records of the stage manager, with Python's `==` on those that it
-- compares. A non-negative `int` is ℕ; a coordinate is an integer of micrometres.
use hsl.Prelude.{
  ℕ, String, ◌≡◌, ◌↔◌, Bool, true, false, ◌&&◌, List, [], ◌∷◌, Option, arith, eq_iff, Eq, ◌==◌,
  nat_eq, string_eq,
}
use hsl.Contracts.{ContractHeader}
use hsl.Contracts.Polygon.{Point, point_eq}
use hsl.Match.Enums.{
  StagePhase, Role, TerminalKind, EventEvidence, EventPredicate, ZonePurpose, ZoneStatus, phase_eq,
  role_eq, kind_eq, evidence_eq, predicate_eq, purpose_eq, status_eq,
}

pub record StageProfile : Type 0 where
  pub profile_id : String
  pub score_profile_id : String
  pub freeze_duration_ns : ℕ
  pub stage_duration_ns : ℕ
  pub lease_duration_ns : ℕ
  pub zone_update_window_ns : ℕ
  pub max_request_records : ℕ
  pub max_event_records : ℕ
  pub max_audit_records : ℕ
  pub config_hash : String
  pub source_id : String
  pub source_session : String
  pub clock_epoch : String
  pub localization_epoch : String
  pub organizer_authorization_ref : String
  pub approved_authorization_refs : List String
  pub approved_zone_frames : List String
  pub approved_memory_profile_ids : List String
  pub allow_sim_truth_terminal : Bool

pub record GoalZone : Type 0 where
  pub zone_id : String
  pub purpose : ZonePurpose
  pub status : ZoneStatus
  pub boundary : List Point
  pub frame_id : String
  pub position_error_bound_um : ℕ
  pub provider : String
  pub approval_ref : String
  pub provenance_hash : String

pub record RuleEvent : Type 0 where
  pub event_id : String
  pub stage_id : String
  pub clock_epoch : String
  pub localization_epoch : String
  pub kind : TerminalKind
  pub evidence : EventEvidence
  pub predicate : EventPredicate
  pub event_time_lower_ns : ℕ
  pub event_time_upper_ns : ℕ
  pub input_ids : List String
  pub authorization_ref : String
  pub zone_id : String
  pub reason : String

pub record MatchState : Type 0 where
  pub meta : ContractHeader
  pub stage_number : ℕ
  pub role : Role
  pub phase : StagePhase
  pub stage_started_at_ns : ℕ
  pub freeze_ends_at_ns : ℕ
  pub stage_ends_at_ns : ℕ
  pub motion_authorized : Bool
  pub event_hold : Bool
  pub terminal_kind : TerminalKind
  pub terminal_evidence : EventEvidence
  pub score_profile_id : String
  pub own_start_zone_id : String
  pub target_zone_id : String
  pub config_hash : String

pub record RequestResult : Type 0 where
  pub accepted : Bool
  pub reason : String
  pub stage_id : String
  pub reset_effects_required : List String
  pub memory_profile_id : String

-- `RequestResult(accepted, reason, stage_id)`
abbrev pub result : Bool → String → String → RequestResult
result accepted reason stage_id = record {
  accepted = accepted;
  reason = reason;
  stage_id = stage_id;
  reset_effects_required = [];
  memory_profile_id = "";
}

pub record StageAuditRecord : Type 0 where
  pub sequence : ℕ
  pub time_ns : ℕ
  pub operation : String
  pub request_id : String
  pub stage_id : String
  pub prior_stage_id : String
  pub phase : StagePhase
  pub accepted : Bool
  pub reason : String
  pub evidence : Option EventEvidence
  pub event_kind : Option TerminalKind
  pub event_id : String
  pub event_time_lower_ns : ℕ
  pub event_time_upper_ns : ℕ
  pub input_ids : List String
  pub authorization_ref : String
  pub provenance_hash : String
  pub profile_id : String
  pub config_hash : String
  pub stage_number : ℕ
  pub role : Role
  pub stage_started_at_ns : ℕ
  pub freeze_ends_at_ns : ℕ
  pub stage_ends_at_ns : ℕ
  pub memory_profile_id : String

module _ {A : Type 0} ⦃e : Eq A⦄ where
  abbrev pub list_beq : List A → List A → Bool
  list_beq [] [] = true
  list_beq (x ∷ xs) (y ∷ ys) = x == y && list_beq xs ys
  list_beq _ _ = false

  pub list_beq_iff : (xs ys : List A) → (list_beq xs ys ≡ true) ↔ (xs ≡ ys)
  list_beq_iff [] [] = ground arith
  list_beq_iff [] (y ∷ ys) = ground arith
  list_beq_iff (x ∷ xs) [] = ground arith
  list_beq_iff (x ∷ xs) (y ∷ ys) = ground (arith, e.beq_iff x y, list_beq_iff xs ys)

abbrev pub zone_beq : GoalZone → GoalZone → Bool
zone_beq a b =
    a.zone_id == b.zone_id
    && a.purpose == b.purpose
    && a.status == b.status
    && list_beq a.boundary b.boundary
    && a.frame_id == b.frame_id
    && a.position_error_bound_um == b.position_error_bound_um
    && a.provider == b.provider
    && a.approval_ref == b.approval_ref
    && a.provenance_hash == b.provenance_hash

pub zone_beq_iff : (a b : GoalZone) → (zone_beq a b ≡ true) ↔ (a ≡ b)
zone_beq_iff a b = ground (
  arith,
  eq_iff a.zone_id b.zone_id,
  list_beq_iff a.boundary b.boundary,
  eq_iff a.frame_id b.frame_id,
  eq_iff a.provider b.provider,
  eq_iff a.approval_ref b.approval_ref,
  eq_iff a.provenance_hash b.provenance_hash,
)

instance abbrev pub zone_eq : Eq GoalZone
zone_eq = record { beq = zone_beq; beq_iff = zone_beq_iff }

abbrev pub event_beq : RuleEvent → RuleEvent → Bool
event_beq a b =
    a.event_id == b.event_id
    && a.stage_id == b.stage_id
    && a.clock_epoch == b.clock_epoch
    && a.localization_epoch == b.localization_epoch
    && a.kind == b.kind
    && a.evidence == b.evidence
    && a.predicate == b.predicate
    && a.event_time_lower_ns == b.event_time_lower_ns
    && a.event_time_upper_ns == b.event_time_upper_ns
    && list_beq a.input_ids b.input_ids
    && a.authorization_ref == b.authorization_ref
    && a.zone_id == b.zone_id
    && a.reason == b.reason

pub event_beq_iff : (a b : RuleEvent) → (event_beq a b ≡ true) ↔ (a ≡ b)
event_beq_iff a b = ground (
  arith,
  eq_iff a.event_id b.event_id,
  eq_iff a.stage_id b.stage_id,
  eq_iff a.clock_epoch b.clock_epoch,
  eq_iff a.localization_epoch b.localization_epoch,
  list_beq_iff a.input_ids b.input_ids,
  eq_iff a.authorization_ref b.authorization_ref,
  eq_iff a.zone_id b.zone_id,
  eq_iff a.reason b.reason,
)

instance abbrev pub event_eq : Eq RuleEvent
event_eq = record { beq = event_beq; beq_iff = event_beq_iff }
