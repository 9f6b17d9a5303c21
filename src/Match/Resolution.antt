-- ===== src/Match/Resolution.antt =====
-- hsl_core/hsl_core/match.py: `resolve_estimate`, the organizer's decisions.
use hsl.Prelude.{
  ℕ, String, Bool, true, false, not, ◌&&◌, ◌||◌, Option, some, [], ◌∷◌, ◌++◌, leb, ltb, any,
  if◌then◌else◌, is_blank, ◌==◌, ◌!=◌, string_eq,
}
use hsl.Prelude.Outcome.{raised}
use hsl.Prelude.Dict
use hsl.Match.Enums.{
  StagePhase, TerminalKind, EventEvidence, EventPredicate, EventResolution, phase_eq, kind_eq,
  evidence_eq, predicate_eq,
}
use hsl.Match.Types.{RuleEvent, RequestResult, result}
use hsl.Match.Manager.{resolve, StageManager, Method, timed, is_authorized}
use hsl.Match.Requests.{answer, return_at_once, succeed, refuse_or}
use hsl.Match.Events.{terminalize}

-- The assignments of a terminal decision that is latched.
unfoldable pub latch_terminal : TerminalKind → StageManager → StageManager
latch_terminal kind m = record m {
  phase = StagePhase.terminal;
  event_hold = kind == TerminalKind.ambiguous;
  held_event = Option.none;
  terminal_kind = kind;
  terminal_evidence = EventEvidence.official;
}

abbrev pub is_official_terminal : StageManager → Bool
is_official_terminal m =
    m.phase == StagePhase.terminal && m.terminal_evidence == EventEvidence.official

-- An accepted official event that supports the decision.
abbrev pub supports : TerminalKind → StageManager → Option RuleEvent → Bool
supports kind m Option.none = false
supports kind m (some e) =
    e.kind == kind
    && e.evidence == EventEvidence.official
    && e.predicate == EventPredicate.true
    && ltb e.event_time_upper_ns m.stage_ends_at_ns

unfoldable pub set_refusal : String → TerminalKind → ℕ → StageManager → Option String
unfolding Dict.get
set_refusal event_id kind now m =
    if m.phase == StagePhase.init
    then some "official_terminal_outside_started_stage"
    else if is_official_terminal m && m.terminal_kind != TerminalKind.ambiguous
    then some "official_terminal_already_latched"
    else if kind == TerminalKind.capture || kind == TerminalKind.arrival
    then (if supports kind m (Dict.get event_id m.event_ids)
        then Option.none
        else some "matching_adjudication_evidence_required")
    else if kind == TerminalKind.none
    then some "terminal_kind_requires_matching_event_evidence"
    else if kind == TerminalKind.timeout && ltb now m.stage_ends_at_ns
    then some "official_timeout_before_deadline"
    else if kind == TerminalKind.official_abort && is_official_terminal m
    then some "official_terminal_already_latched"
    else Option.none

unfoldable pub set_terminal :
    String → TerminalKind → ℕ → StageManager → RequestResult × StageManager
unfolding set_refusal latch_terminal
set_terminal event_id kind now m =
    refuse_or (set_refusal event_id kind now m)
      (result true "official_terminal_decision_latched" m.stage_id, latch_terminal kind m) m

unfoldable pub dismiss : String → StageManager → RequestResult × StageManager
unfolding Dict.pop
dismiss event_id m = (
  result true "estimate_dismissed_no_score_assigned" m.stage_id,
  terminalize (record m { pending_estimates = Dict.pop event_id m.pending_estimates }),
)

-- A pending estimate of another kind whose interval meets that of the estimate to confirm.
abbrev pub rivals : String → RuleEvent → RuleEvent → Bool
rivals event_id held other =
    other.event_id != event_id
    && other.kind != held.kind
    && leb other.event_time_lower_ns held.event_time_upper_ns
    && leb held.event_time_lower_ns other.event_time_upper_ns

abbrev pub confirmed_event : String → TerminalKind → String → RuleEvent → StageManager → RuleEvent
confirmed_event event_id kind ref held m = record {
  event_id = event_id;
  stage_id = m.stage_id;
  clock_epoch = m.profile.clock_epoch;
  localization_epoch = m.profile.localization_epoch;
  kind = kind;
  evidence = EventEvidence.official;
  predicate = EventPredicate.true;
  event_time_lower_ns = held.event_time_lower_ns;
  event_time_upper_ns = held.event_time_upper_ns;
  input_ids = held.input_ids;
  authorization_ref = ref;
  zone_id = held.zone_id;
  reason = "organizer-confirmed estimate";
}

unfoldable pub confirm_refusal : String → TerminalKind → RuleEvent → StageManager → Option String
unfolding Dict.values
confirm_refusal event_id kind held m =
    if any (rivals event_id held) (Dict.values m.pending_estimates)
    then some "conflicting_estimate_requires_resolution"
    else if kind != held.kind
    then some "official_kind_does_not_match_estimate"
    else if leb m.stage_ends_at_ns held.event_time_upper_ns
    then some "estimate_not_proven_before_deadline"
    else Option.none

-- The estimate becomes an official event under its own ID.
unfoldable pub promote : String → RuleEvent → StageManager → StageManager
unfolding Dict.put Dict.pop
promote event_id confirmed m = record m {
  event_ids = Dict.put event_id confirmed m.event_ids;
  official_events = m.official_events ++ confirmed ∷ [];
  pending_estimates = Dict.pop event_id m.pending_estimates;
}

unfoldable pub confirm :
    String → TerminalKind → String → RuleEvent → StageManager → RequestResult × StageManager
unfolding confirm_refusal promote
confirm event_id kind ref held m =
    refuse_or (confirm_refusal event_id kind held m)
      (
        result true "estimate_confirmed_by_official_authority" m.stage_id,
        terminalize (promote event_id (confirmed_event event_id kind ref held m) m),
      )
      m

-- The branches that need the estimate: it is pending, or the request is refused.
unfoldable pub decide_pending :
    String
    → EventResolution
    → TerminalKind
    → String
    → Option RuleEvent
    → StageManager
    → RequestResult × StageManager
unfolding dismiss confirm
decide_pending event_id resolution kind ref Option.none m =
    (result false "matching_estimate_not_held" m.stage_id, m)
decide_pending event_id EventResolution.dismiss_estimate kind ref (some held) m = dismiss event_id m
decide_pending event_id EventResolution.confirm_official kind ref (some held) m =
    confirm event_id kind ref held m
decide_pending event_id EventResolution.set_official_terminal kind ref (some held) m =
    (result false "unsupported_event_resolution" m.stage_id, m)

abbrev pub is_set_terminal : EventResolution → Bool
is_set_terminal EventResolution.set_official_terminal = true
is_set_terminal _ = false

unfoldable pub resolution_refusal : String → String → StageManager → Option String
unfolding is_authorized
resolution_refusal expected ref m =
    if expected != m.stage_id
    then some "stale_expected_stage_id"
    else if not (is_authorized m ref)
    then some "organizer_authorization_not_approved"
    else Option.none

unfoldable pub decide_resolution :
    String
    → String
    → EventResolution
    → TerminalKind
    → String
    → ℕ
    → StageManager
    → RequestResult × StageManager
unfolding resolution_refusal set_terminal decide_pending Dict.get
decide_resolution expected event_id resolution kind ref now m =
    refuse_or (resolution_refusal expected ref m)
      (if is_set_terminal resolution
        then set_terminal event_id kind now m
        else decide_pending event_id resolution kind ref (Dict.get event_id m.pending_estimates) m)
      m

unfoldable pub resolve_estimate :
    String → String → String → EventResolution → TerminalKind → String → ℕ → Method RequestResult
unfolding timed answer decide_resolution
resolve_estimate request_id expected event_id resolution kind ref now m =
    if is_blank event_id
    then (raised "event_id must be a non-empty string", m)
    else timed now
        (answer request_id (resolve expected event_id resolution kind ref) return_at_once
          (λ m'. succeed (decide_resolution expected event_id resolution kind ref now m')))
        m
