-- ===== src/Options/Authority.antt =====
-- hsl_core/hsl_core/tactics/options.py: the state of `OptionAuthority`, its journal and what it
-- publishes. The authority holds its lock over each method, and a lease that it alone changes.
use hsl.Prelude.{
  ℕ, ◌+◌, String, Bool, true, false, not, ◌&&◌, ◌≡◌, ◌↔◌, Option, some, List, [], ◌∷◌, arith, ltb,
  length, nat_eqb, if◌then◌else◌, contains, Eq, ◌==◌, ◌!=◌, string_eq,
}
use hsl.Prelude.Int.{ℤ, pos}
use hsl.Prelude.Outcome.{Outcome, ok, raised}
use hsl.Prelude.Stateful.{Stateful, continue, ◌>>=◌, ◌>>◌, give, modify, require}
use hsl.Prelude.Dict
use hsl.Prelude.Dict.{Dict}
use hsl.Match.Manager.{deque_append}
use hsl.Lease.{ExecutionLease, cancel, set_candidate_authorized}
use hsl.Lease as Lease
use hsl.Options.{OptionKind, OptionOutcome, OptionGoal, OptionContext, OptionRegistry}
pub mod Methods
pub mod Invariant
pub mod Advance
pub mod Acceptance
pub mod Tidy
pub mod Keeping
pub mod Running
pub mod Calls
pub mod Submission
pub mod Coherence
pub mod Guarantees
pub mod Results
pub mod Finality
pub mod Answers
pub mod Ticks
pub mod Cancellation

pub data OptionPhase : Type 0 where
  idle planning executing replanning canceling finished : OptionPhase

abbrev pub option_phase_int : OptionPhase → ℕ
option_phase_int OptionPhase.idle = 0
option_phase_int OptionPhase.planning = 1
option_phase_int OptionPhase.executing = 2
option_phase_int OptionPhase.replanning = 3
option_phase_int OptionPhase.canceling = 4
option_phase_int OptionPhase.finished = 5

abbrev pub option_phase_beq : OptionPhase → OptionPhase → Bool
option_phase_beq a b = nat_eqb (option_phase_int a) (option_phase_int b)

pub option_phase_beq_iff : (a b : OptionPhase) → (option_phase_beq a b ≡ true) ↔ (a ≡ b)
option_phase_beq_iff a b = ground arith

instance abbrev pub option_phase_eq : Eq OptionPhase
option_phase_eq = record { beq = option_phase_beq; beq_iff = option_phase_beq_iff }

pub record ExecutionState : Type 0 where
  pub active_option_instance_id : String
  pub phase : OptionPhase
  pub candidate_authorized : Bool
  pub sequence : ℕ
  pub lease_generation : ℕ
  pub stage_id : String
  pub clock_epoch : String
  pub localization_epoch : String
  pub updated_at_ns : ℕ
  pub reason : String

pub record OptionResult : Type 0 where
  pub action_id : String
  pub option_instance_id : String
  pub outcome : OptionOutcome
  pub reason : String
  pub started_at_ns : ℕ
  pub finished_at_ns : ℕ

pub record OptionAuditRecord : Type 0 where
  pub sequence : ℕ
  pub time_ns : ℕ
  pub event : String
  pub action_id : String
  pub option_instance_id : String
  pub phase : OptionPhase
  pub candidate_authorized : Bool
  pub lease_generation : ℕ
  pub reason : String

pub record ActionAdmission : Type 0 where
  pub accepted : Bool
  pub reason : String
  pub execution_state : ExecutionState

-- `_OptionInstance` and `_ActionRecord`
pub record OptionInstance : Type 0 where
  pub action_id : String
  pub goal : OptionGoal
  pub phase : OptionPhase
  pub started_at_ns : ℕ
  pub lease_generation : ℕ
  pub cancel_deadline_ns : ℕ

pub record ActionRecord : Type 0 where
  pub goal : OptionGoal
  pub admission : ActionAdmission
  pub current : Option OptionInstance
  pub outcome : Option OptionResult

pub record OptionAuthority : Type 0 where
  pub registry : OptionRegistry
  pub lease : ExecutionLease
  pub max_action_records : ℕ
  pub audit : List OptionAuditRecord
  pub audit_maxlen : ℕ
  pub audit_sequence : ℕ
  pub audit_dropped_count : ℕ
  pub records : Dict String ActionRecord
  pub used_instance_ids : List String
  pub active_action_id : String
  pub last_now_ns : ℕ
  pub state : ExecutionState

abbrev startup : ExecutionState
startup = record {
  active_option_instance_id = "";
  phase = OptionPhase.idle;
  candidate_authorized = false;
  sequence = 0;
  lease_generation = 0;
  stage_id = "";
  clock_epoch = "";
  localization_epoch = "";
  updated_at_ns = 0;
  reason = "startup";
}

abbrev pub initial : OptionRegistry → ExecutionLease → ℕ → ℕ → OptionAuthority
initial registry lease max_action_records max_audit_records = record {
  registry = registry;
  lease = lease;
  max_action_records = max_action_records;
  audit = [];
  audit_maxlen = max_audit_records;
  audit_sequence = 0;
  audit_dropped_count = 0;
  records = [];
  used_instance_ids = [];
  active_action_id = "";
  last_now_ns = 0;
  state = startup;
}

unfoldable pub new : OptionRegistry → ExecutionLease → ℕ → ℕ → Outcome OptionAuthority
new registry lease max_action_records max_audit_records =
    if nat_eqb max_action_records 0
    then raised "max_action_records must be an integer >= 1"
    else if nat_eqb max_audit_records 0
    then raised "max_audit_records must be an integer >= 1"
    else ok (initial registry lease max_action_records max_audit_records)

abbrev pub Method : Type 0 → Type 0
Method A = Stateful OptionAuthority A

-- A call of a method of the lease.
abbrev pub on_lease : {A : Type 0} → Lease.Method A → Method A
on_lease call m = let (o, lease) = call m.lease in (o, record m { lease = lease })

-- The journal's entry, of which the fields about an instance are those of `_record_event`.
abbrev journal_phase : Option OptionInstance → OptionAuthority → OptionPhase
journal_phase Option.none m = m.state.phase
journal_phase (some i) m = i.phase

abbrev journal_authorized : Option OptionInstance → OptionGoal → OptionAuthority → Bool
journal_authorized Option.none g m = false
journal_authorized (some i) g m =
    m.state.candidate_authorized && m.state.active_option_instance_id == g.option_instance_id

abbrev journal_generation : Option OptionInstance → ℕ
journal_generation Option.none = 0
journal_generation (some i) = i.lease_generation

-- `_record_event`
unfoldable pub record_event :
    String
    → String
    → OptionGoal
    → ℕ
    → String
    → Option OptionInstance
    → OptionAuthority
    → OptionAuthority
unfolding deque_append
record_event event action_id g time_ns reason current m = record m {
  audit = deque_append m.audit_maxlen m.audit (record {
    sequence = m.audit_sequence + 1;
    time_ns = time_ns;
    event = event;
    action_id = action_id;
    option_instance_id = g.option_instance_id;
    phase = journal_phase current m;
    candidate_authorized = journal_authorized current g m;
    lease_generation = journal_generation current;
    reason = reason;
  });
  audit_sequence = m.audit_sequence + 1;
  audit_dropped_count =
      if nat_eqb (length m.audit) m.audit_maxlen
      then m.audit_dropped_count + 1
      else m.audit_dropped_count;
}

-- `_observe_time`
unfoldable pub observe_time : ℕ → Method (Unit {0})
observe_time now m =
    if ltb now m.last_now_ns
    then (raised "option authority time must be monotonic", m)
    else (ok tt, record m { last_now_ns = now })

abbrev pub current_of : Option ActionRecord → Outcome OptionInstance
current_of Option.none = raised "active option record is missing"
current_of (some r) = elim r.current [
  | Option.none ↦ raised "active option record is missing"
  | some i ↦ ok i
]

-- `_require_active`
unfoldable pub require_active : String → Method OptionInstance
unfolding Dict.get
require_active action_id m =
    if action_id != m.active_action_id
    then (raised "action is not the active option", m)
    else (current_of (Dict.get action_id m.records), m)

abbrev pub result_in : Option ActionRecord → Option OptionResult
result_in Option.none = Option.none
result_in (some r) = r.outcome

-- `result`
unfoldable pub result : String → OptionAuthority → Option OptionResult
unfolding Dict.get
result action_id m = result_in (Dict.get action_id m.records)

-- A record that is not there is a `KeyError`.
abbrev pub with_record :
    {A : Type 0} → String → (ActionRecord → Method A) → Option ActionRecord → Method A
with_record action_id use_it Option.none m = (raised action_id, m)
with_record action_id use_it (some r) m = use_it r m

-- `_replace_instance`
unfoldable pub replace_instance : OptionInstance → Method (Unit {0})
unfolding Dict.get Dict.put
replace_instance i m =
    with_record i.action_id
      (λ r m'. (
        ok tt,
        record m' { records = Dict.put i.action_id (record r { current = some i }) m'.records },
      ))
      (Dict.get i.action_id m.records) m

-- The options that never move.
abbrev pub is_still : OptionKind → Bool
is_still OptionKind.hold_safe = true
is_still OptionKind.observe_safe = true
is_still _ = false

abbrev pub is_authorized : OptionInstance → OptionContext → Bool
is_authorized i c =
    i.phase == OptionPhase.executing
    && not (is_still i.goal.kind)
    && c.motion_authorized
    && c.lease_valid
    && not c.safety_stop

abbrev pub next_state :
    OptionInstance → Bool → OptionContext → String → ExecutionState → ExecutionState
next_state i authorized c reason s = record {
  active_option_instance_id = i.goal.option_instance_id;
  phase = i.phase;
  candidate_authorized = authorized;
  sequence = s.sequence + 1;
  lease_generation = i.lease_generation;
  stage_id = c.stage_id;
  clock_epoch = c.clock_epoch;
  localization_epoch = c.localization_epoch;
  updated_at_ns = c.now_ns;
  reason = reason;
}

unfoldable pub announce :
    String → OptionInstance → Bool → OptionContext → String → OptionAuthority → OptionAuthority
unfolding record_event
announce event i authorized c reason m =
    record_event event i.action_id i.goal c.now_ns reason (some i)
      (record m { state = next_state i authorized c reason m.state })

-- `_publish`
unfoldable pub publish : OptionInstance → OptionContext → String → Method (Unit {0})
unfolding announce set_candidate_authorized
publish i c reason = do
  if not (is_authorized i c) && i.phase == OptionPhase.executing
      then on_lease (set_candidate_authorized i.goal.option_instance_id i.lease_generation false)
      else give tt
  modify (announce "state_transition" i (is_authorized i c) c reason)

abbrev pub result_of : OptionInstance → OptionOutcome → String → ℕ → OptionResult
result_of i outcome reason now = record {
  action_id = i.action_id;
  option_instance_id = i.goal.option_instance_id;
  outcome = outcome;
  reason = reason;
  started_at_ns = i.started_at_ns;
  finished_at_ns = now;
}

abbrev pub finished_instance : OptionInstance → OptionInstance
finished_instance i = record i { phase = OptionPhase.finished }

-- The assignments of `_finish` to a record that has no result.
unfoldable pub close_record :
    OptionInstance → OptionOutcome → String → OptionContext → ActionRecord → Method OptionResult
unfolding announce Dict.put
close_record i outcome reason c r m = (
  ok (result_of i outcome reason c.now_ns),
  announce "terminal_result" (finished_instance i) false c reason (record m {
    records =
        Dict.put i.action_id
          (record r {
            outcome = some (result_of i outcome reason c.now_ns);
            current = some (finished_instance i);
          })
          m.records;
    active_action_id = if m.active_action_id == i.action_id then "" else m.active_action_id;
  }),
)

abbrev pub close_or_repeat :
    OptionInstance
    → OptionOutcome
    → String
    → OptionContext
    → ActionRecord
    → Option OptionResult
    → Method OptionResult
close_or_repeat i outcome reason c r Option.none m = close_record i outcome reason c r m
close_or_repeat i outcome reason c r (some result) m = (ok result, m)

abbrev pub revoke : OptionInstance → Method (Unit {0})
revoke i = modify (λ m. record m { lease = cancel i.goal.option_instance_id m.lease })

abbrev pub settle : OptionInstance → OptionOutcome → String → OptionContext → Method OptionResult
settle i outcome reason c m =
    with_record i.action_id (λ r. close_or_repeat i outcome reason c r r.outcome)
      (Dict.get i.action_id m.records) m

abbrev pub check_order : OptionInstance → OptionContext → Method (Unit {0})
check_order i c = require (ltb c.now_ns i.started_at_ns) "finish time precedes option start"

-- `_finish`
unfoldable pub finish :
    OptionInstance → OptionOutcome → String → OptionContext → Method OptionResult
unfolding close_record cancel Dict.get
finish i outcome reason c = do revoke i; check_order i c; settle i outcome reason c

-- `_finish_from_invariant`
abbrev pub outcome_of : String → OptionOutcome
outcome_of reason =
    if reason == "safety_stop_active"
    then OptionOutcome.safety_stop
    else if contains reason ("stage_mismatch" ∷ "stage_not_active" ∷ [])
    then OptionOutcome.stage_ended
    else OptionOutcome.feasibility_lost

abbrev pub finish_from_invariant : OptionInstance → String → OptionContext → Method OptionResult
finish_from_invariant i reason c = finish i (outcome_of reason) reason c
