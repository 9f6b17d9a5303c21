-- ===== src/Match/Reset.antt =====
-- hsl_core/hsl_core/match.py: `reset_stage`, the two epoch changes, and the barriers that they raise
-- until the downstream parts acknowledge. What the stage ID factory returns is an argument.
pub mod Barrier
use hsl.Prelude.{
  ℕ, String, Bool, true, false, not, ◌&&◌, ◌||◌, Option, some, List, [], ◌∷◌, ltb, if◌then◌else◌,
  is_blank, is_empty, contains, is_subset, same_set, ◌==◌, ◌!=◌, string_eq,
}
use Prim.Native.String
use hsl.Prelude.Outcome.{Outcome, ok, raised}
use hsl.Prelude.Dict.{Dict}
use hsl.Match.Enums.{StagePhase, Role, TerminalKind, EventEvidence, phase_eq, evidence_eq}
use hsl.Match.Types.{RuleEvent, RequestResult, result}
use hsl.Match.Manager.{reset, StageManager, Method, no_details, record_audit, timed, is_authorized}
use hsl.Match.Requests.{answer, return_at_once}

-- `_RESET_ACKS` and `_EPOCH_ACKS`
abbrev pub required_reset_acks : List String
required_reset_acks = "actions" ∷ "execution" ∷ "plans" ∷ "candidates" ∷ "tracks" ∷ "memory" ∷ []

abbrev pub required_epoch_acks : List String
required_epoch_acks = "actions" ∷ "plans" ∷ "candidates" ∷ "tracks" ∷ "map" ∷ "world" ∷ []

-- The assignments that `reset_stage` and `change_clock_epoch` have in common.
unfoldable pub disarm : String → StageManager → StageManager
disarm new_stage_id m = record m {
  stage_id = new_stage_id;
  used_stage_ids = new_stage_id ∷ m.used_stage_ids;
  phase = StagePhase.init;
  stage_started_at_ns = 0;
  freeze_ends_at_ns = 0;
  stage_ends_at_ns = 0;
  event_hold = false;
  held_event = Option.none;
  pending_estimates = [];
  terminal_kind = TerminalKind.none;
  terminal_evidence = EventEvidence.estimate;
  official_events = [];
  event_ids = [];
  zones = [];
  reset_barrier_pending = true;
  reset_acks = [];
  epoch_barrier_pending = false;
  epoch_acks = [];
}

abbrev pub barrier_result : String → String → List String → String → RequestResult
barrier_result reason stage_id required memory_profile_id = record {
  accepted = true;
  reason = reason;
  stage_id = stage_id;
  reset_effects_required = required;
  memory_profile_id = memory_profile_id;
}

unfoldable pub reset_with :
    String → ℕ → Role → String → StageManager → Outcome RequestResult × StageManager
unfolding disarm
reset_with generated stage_number role memory_id m =
    if is_blank generated
    then (raised "generated_stage_id must be a non-empty string", m)
    else if contains generated m.used_stage_ids
    then (ok (result false "stage_id_factory_reused_id" m.stage_id), m)
    else (
      ok (
          barrier_result "stage_reset_pending_downstream_revocation" generated required_reset_acks
            memory_id),
      disarm generated (record m { stage_number = stage_number; role = role }),
    )

unfoldable pub reset_refusal : String → String → String → StageManager → Option String
unfolding is_authorized
reset_refusal expected memory_id ref m =
    if expected != m.stage_id
    then some "stale_expected_stage_id"
    else if m.reset_barrier_pending
    then some "reset_effects_not_acknowledged"
    else if not (m.phase == StagePhase.init || m.phase == StagePhase.terminal)
    then some "reset_requires_INIT_or_TERMINAL_phase"
    else if not (is_authorized m ref)
    then some "organizer_authorization_not_approved"
    else if not (is_empty memory_id)
        && not (contains memory_id m.profile.approved_memory_profile_ids)
    then some "memory_retention_profile_not_approved"
    else Option.none

abbrev pub reset_or :
    Option String
    → Outcome RequestResult × StageManager
    → StageManager
    → Outcome RequestResult × StageManager
reset_or (some reason) accepted m = (ok (result false reason m.stage_id), m)
reset_or Option.none accepted m = accepted

unfoldable pub decide_reset :
    String
    → String
    → ℕ
    → Role
    → String
    → String
    → StageManager
    → Outcome RequestResult × StageManager
unfolding reset_refusal reset_with
decide_reset generated expected stage_number role memory_id ref m =
    reset_or (reset_refusal expected memory_id ref m)
      (reset_with generated stage_number role memory_id m) m

unfoldable pub reset_stage :
    String → String → String → ℕ → Role → String → String → ℕ → Method RequestResult
unfolding timed answer decide_reset
reset_stage generated request_id expected stage_number role memory_id ref now m =
    if ltb 255 stage_number
    then (raised "stage_number must be an integer in [0, 255]", m)
    else timed now
        (answer request_id (reset expected stage_number role memory_id ref) return_at_once
          (decide_reset generated expected stage_number role memory_id ref))
        m

-- `set.update`
unfoldable pub add_acks : List String → List String → List String
add_acks [] acks = acks
add_acks (a ∷ as') acks = add_acks as' (if contains a acks then acks else a ∷ acks)

unfoldable pub ack_reset_barrier : String → List String → StageManager → Bool × StageManager
unfolding record_audit
ack_reset_barrier stage_id acks m =
    let m' = record m { reset_acks = acks } in
    if same_set acks required_reset_acks
    then (
      true,
      record_audit "reset_ack" (String.◌++◌ "reset-ack:" stage_id)
          (result true "all_downstream_effects_acknowledged" m.stage_id) no_details
          (record m' { reset_barrier_pending = false }),
    )
    else (
      false,
      record_audit "reset_ack" (String.◌++◌ "reset-ack:" stage_id)
          (result false "downstream_effects_still_pending" m.stage_id) no_details m',
    )

abbrev pub returns : Bool × StageManager → Outcome Bool × StageManager
returns (b, m) = (ok b, m)

unfoldable pub acknowledge_reset : String → List String → Method Bool
unfolding ack_reset_barrier add_acks
acknowledge_reset stage_id acks m =
    if stage_id != m.stage_id
    then (ok false, m)
    else if not (is_subset acks required_reset_acks)
    then (raised "unknown reset acknowledgement", m)
    else if not m.reset_barrier_pending
    then (ok (same_set m.reset_acks required_reset_acks && is_subset acks m.reset_acks), m)
    else returns (ack_reset_barrier stage_id (add_acks acks m.reset_acks) m)

unfoldable pub ack_epoch_barrier : String → List String → StageManager → Bool × StageManager
unfolding record_audit
ack_epoch_barrier stage_id acks m =
    let m' = record m { epoch_acks = acks } in
    if same_set acks required_epoch_acks
    then (
      true,
      record_audit "localization_epoch_ack" (String.◌++◌ "epoch-ack:" stage_id)
          (result true "epoch_products_invalidated" m.stage_id) no_details
          (record m' { epoch_barrier_pending = false }),
    )
    else (
      false,
      record_audit "localization_epoch_ack" (String.◌++◌ "epoch-ack:" stage_id)
          (result false "epoch_effects_still_pending" m.stage_id) no_details m',
    )

unfoldable pub acknowledge_localization_epoch : String → List String → Method Bool
unfolding ack_epoch_barrier add_acks
acknowledge_localization_epoch stage_id acks m =
    if stage_id != m.stage_id
    then (ok false, m)
    else if not (is_subset acks required_epoch_acks)
    then (raised "unknown localization-epoch acknowledgement", m)
    else if not m.epoch_barrier_pending
    then (ok (same_set m.epoch_acks required_epoch_acks && is_subset acks m.epoch_acks), m)
    else returns (ack_epoch_barrier stage_id (add_acks acks m.epoch_acks) m)

-- The entries that are no estimates.
unfoldable pub without_estimates : Dict String RuleEvent → Dict String RuleEvent
without_estimates [] = []
without_estimates ((k, e) ∷ d) =
    let rest = without_estimates d in
    if e.evidence == EventEvidence.estimate then rest else (k, e) ∷ rest

abbrev pub is_held_estimate : Option RuleEvent → Bool
is_held_estimate Option.none = false
is_held_estimate (some e) = e.evidence == EventEvidence.estimate

-- The state behind a new localization epoch.
unfoldable pub enter_localization_epoch : String → StageManager → StageManager
unfolding without_estimates
enter_localization_epoch epoch m =
    let drops = is_held_estimate m.held_event in
    record m {
      profile = record m.profile { localization_epoch = epoch };
      event_ids = without_estimates m.event_ids;
      pending_estimates = [];
      held_event = if drops then Option.none else m.held_event;
      event_hold = if drops then false else m.event_hold;
      epoch_barrier_pending = true;
      epoch_acks = [];
    }

unfoldable pub change_localization_epoch : String → Method RequestResult
unfolding enter_localization_epoch record_audit
change_localization_epoch epoch m =
    if is_blank epoch
    then (raised "new_epoch must be a non-empty string", m)
    else if epoch == m.profile.localization_epoch
    then (raised "new localization epoch must differ", m)
    else (let r =
          barrier_result "localization_epoch_changed_authority_barrier_pending" m.stage_id
            required_epoch_acks "" in
        (
          ok r,
          record_audit "localization_epoch_change" "" r no_details
              (enter_localization_epoch epoch m),
        ))

-- The state behind a new clock epoch: disarmed, with no remembered request, on the new clock.
abbrev pub on_new_clock : String → ℕ → StageManager → StageManager
on_new_clock epoch now m = record m {
  profile = record m.profile { clock_epoch = epoch };
  operations = [];
  last_now_ns = now;
}

unfoldable pub enter_clock_epoch : String → String → ℕ → StageManager → StageManager
unfolding disarm
enter_clock_epoch generated epoch now m = disarm generated (on_new_clock epoch now m)

unfoldable pub change_clock_epoch : String → String → ℕ → Method RequestResult
unfolding enter_clock_epoch record_audit
change_clock_epoch generated epoch now m =
    if is_blank epoch
    then (raised "new_epoch must be a non-empty string", m)
    else if epoch == m.profile.clock_epoch
    then (raised "new clock epoch must differ", m)
    else if is_blank generated
    then (raised "generated_stage_id must be a non-empty string", m)
    else if contains generated m.used_stage_ids
    then (raised "stage ID factory reused an earlier ID", m)
    else (let r =
          barrier_result "clock_epoch_changed_stage_disarmed" generated required_reset_acks "" in
        (
          ok r,
          record_audit "clock_epoch_change" "" r (record no_details { prior_stage_id = m.stage_id })
              (enter_clock_epoch generated epoch now m),
        ))
