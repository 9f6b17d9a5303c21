-- ===== src/Match/Requests.antt =====
pub mod Replay
pub mod Keeping
pub mod Repetition
-- hsl_core/hsl_core/match.py: the record of answered requests, `_cached` and `_remember`, and the
-- frame that `start_stage`, `set_goal_zone`, `resolve_estimate` and `reset_stage` share.
use hsl.Prelude.{
  String, ◌≡◌, ◌↔◌, Bool, true, false, ◌&&◌, Option, some, leb, length, if◌then◌else◌, is_blank,
  arith, eq_iff, Eq, ◌==◌, nat_eq, string_eq, pair_eq,
}
use hsl.Prelude.Int.{int_eq, int_beq_iff}
use hsl.Prelude.Outcome.{Outcome, ok, raised}
use hsl.Prelude.Dict
use hsl.Match.Enums.{EventEvidence, EventResolution, role_eq, kind_eq, resolution_eq}
use hsl.Match.Types.{RequestResult, result, zone_eq, zone_beq_iff}
use hsl.Match.Manager.{
  Request, start, zone, resolve, reset, StageManager, AuditDetails, no_details, record_audit,
  Method,
}

-- `record.request == request`: a tuple of another operation is under another key.
abbrev pub request_beq : Request → Request → Bool
request_beq (start e s r) (start e' s' r') = e == e' && s == s' && r == r'
request_beq (zone e z r) (zone e' z' r') = e == e' && z == z' && r == r'
request_beq (resolve e i d k r) (resolve e' i' d' k' r') =
    e == e' && i == i' && d == d' && k == k' && r == r'
request_beq (reset e n o p r) (reset e' n' o' p' r') =
    e == e' && n == n' && o == o' && p == p' && r == r'
request_beq _ _ = false

pub request_beq_iff : (a b : Request) → (request_beq a b ≡ true) ↔ (a ≡ b)
request_beq_iff (start e s r) (start e' s' r') =
    ground (arith, eq_iff e e', int_beq_iff s s', eq_iff r r')
request_beq_iff (zone e z r) (zone e' z' r') =
    ground (arith, eq_iff e e', zone_beq_iff z z', eq_iff r r')
request_beq_iff (resolve e i d k r) (resolve e' i' d' k' r') =
    ground (arith, eq_iff e e', eq_iff i i', eq_iff r r')
request_beq_iff (reset e n o p r) (reset e' n' o' p' r') =
    ground (arith, eq_iff e e', eq_iff p p', eq_iff r r')
request_beq_iff a b = ground arith

instance abbrev pub request_eq : Eq Request
request_eq = record { beq = request_beq; beq_iff = request_beq_iff }

-- The texts by which the source names the operations.
abbrev pub operation_of : Request → String
operation_of (start e s r) = "start"
operation_of (zone e z r) = "zone"
operation_of (resolve e i d k r) = "resolve"
operation_of (reset e n o p r) = "reset"

-- What `_remember` reads from the request for the journal.
abbrev pub details_of : Request → AuditDetails
details_of (start e s r) = record no_details { authorization_ref = r }
details_of (zone e z r) = record no_details {
  authorization_ref = r;
  provenance_hash = z.provenance_hash;
}
details_of (resolve e i d k r) = record no_details {
  evidence = elim d [
    | EventResolution.dismiss_estimate ↦ Option.none
    | EventResolution.confirm_official ↦ some EventEvidence.official
    | EventResolution.set_official_terminal ↦ some EventEvidence.official
  ];
  event_kind = some k;
  event_id = i;
  authorization_ref = r;
}
details_of (reset e n o p r) = record no_details { authorization_ref = r; prior_stage_id = e }

-- `_cached`, for a request ID that is not blank. An answer is `some`.
unfoldable pub cached : String → Request → StageManager → Option RequestResult × StageManager
unfolding record_audit Dict.get
cached request_id request m = elim (Dict.get (operation_of request, request_id) m.operations) [
  | Option.none ↦
      if leb m.profile.max_request_records (length m.operations)
      then (let r = result false "request_capacity_exhausted" m.stage_id in
          (some r, record_audit (operation_of request) request_id r no_details m))
      else (Option.none, m)
  | some prior ↦
      if prior.request == request
      then (some prior.result, m)
      else (let r = result false "request_id_reused_with_different_payload" m.stage_id in
          (some r, record_audit (operation_of request) request_id r no_details m))
]

-- `_remember`
unfoldable pub remember : String → Request → RequestResult → StageManager → StageManager
unfolding record_audit Dict.put
remember request_id request r m =
    record_audit (operation_of request) request_id r (details_of request) (record m {
      operations =
          Dict.put (operation_of request, request_id) (record { request = request; result = r })
            m.operations;
    })

-- A decided request is remembered; what raises in the middle of a method is not. `after` is what
-- the method does between remembering the result and returning it.
unfoldable pub finish_request :
    String
    → Request
    → (RequestResult → StageManager → StageManager)
    → Outcome RequestResult × StageManager
    → Outcome RequestResult × StageManager
finish_request request_id request after (ok r, m) =
    (ok r, after r (remember request_id request r m))
finish_request request_id request after (raised e, m) = (raised e, m)

abbrev pub answer_or :
    String
    → Request
    → (RequestResult → StageManager → StageManager)
    → Method RequestResult
    → Option RequestResult × StageManager
    → Outcome RequestResult × StageManager
answer_or request_id request after decide (some r, m) = (ok r, m)
answer_or request_id request after decide (Option.none, m) =
    finish_request request_id request after (decide m)

-- The body of a method that answers requests, after `_advance_time`.
unfoldable pub answer :
    String
    → Request
    → (RequestResult → StageManager → StageManager)
    → Method RequestResult
    → Method RequestResult
unfolding finish_request
answer request_id request after decide m =
    if is_blank request_id
    then (raised "request_id must be a non-empty string", m)
    else answer_or request_id request after decide (cached request_id request m)

-- `after` of the methods that return at once.
abbrev pub return_at_once : RequestResult → StageManager → StageManager
return_at_once r m = m

-- A decision that does not raise.
abbrev pub succeed : RequestResult × StageManager → Outcome RequestResult × StageManager
succeed (r, m) = (ok r, m)

-- A request is refused for a reason, and then nothing changes, or it is accepted.
abbrev pub refuse_or :
    Option String → RequestResult × StageManager → StageManager → RequestResult × StageManager
refuse_or (some reason) accepted m = (result false reason m.stage_id, m)
refuse_or Option.none accepted m = accepted
