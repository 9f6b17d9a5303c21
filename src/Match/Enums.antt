-- ===== src/Match/Enums.antt =====
-- hsl_core/hsl_core/match.py: the enumerations, with their `IntEnum` values and their tests.
use hsl.Prelude.{ℕ, ◌≡◌, ◌↔◌, Bool, arith, Eq, nat_eqb}

pub data StagePhase : Type 0 where
  init freeze active terminal : StagePhase

pub data Role : Type 0 where
  explorer guardian : Role

pub data TerminalKind : Type 0 where
  none capture arrival timeout official_abort ambiguous : TerminalKind

pub data EventEvidence : Type 0 where
  estimate sim_truth official : EventEvidence

pub data EventPredicate : Type 0 where
  unknown false true : EventPredicate

pub data ZonePurpose : Type 0 where
  own_start target : ZonePurpose

pub data ZoneStatus : Type 0 where
  unresolved candidate accepted invalid : ZoneStatus

pub data EventResolution : Type 0 where
  dismiss_estimate confirm_official set_official_terminal : EventResolution

abbrev pub phase_int : StagePhase → ℕ
phase_int init = 0
phase_int freeze = 1
phase_int active = 2
phase_int terminal = 3

abbrev pub role_int : Role → ℕ
role_int explorer = 0
role_int guardian = 1

abbrev pub kind_int : TerminalKind → ℕ
kind_int none = 0
kind_int capture = 1
kind_int arrival = 2
kind_int timeout = 3
kind_int official_abort = 4
kind_int ambiguous = 5

abbrev pub evidence_int : EventEvidence → ℕ
evidence_int estimate = 0
evidence_int sim_truth = 1
evidence_int official = 2

abbrev pub predicate_int : EventPredicate → ℕ
predicate_int unknown = 0
predicate_int false = 1
predicate_int true = 2

abbrev pub purpose_int : ZonePurpose → ℕ
purpose_int own_start = 0
purpose_int target = 1

abbrev pub status_int : ZoneStatus → ℕ
status_int unresolved = 0
status_int candidate = 1
status_int accepted = 2
status_int invalid = 3

abbrev pub resolution_int : EventResolution → ℕ
resolution_int dismiss_estimate = 0
resolution_int confirm_official = 1
resolution_int set_official_terminal = 2

pub phase_beq_iff : (a b : StagePhase) → (nat_eqb (phase_int a) (phase_int b) ≡ Bool.true) ↔ (a ≡ b)
phase_beq_iff a b = ground arith

pub role_beq_iff : (a b : Role) → (nat_eqb (role_int a) (role_int b) ≡ Bool.true) ↔ (a ≡ b)
role_beq_iff a b = ground arith

pub kind_beq_iff : (a b : TerminalKind) → (nat_eqb (kind_int a) (kind_int b) ≡ Bool.true) ↔ (a ≡ b)
kind_beq_iff a b = ground arith

pub evidence_beq_iff :
    (a b : EventEvidence) → (nat_eqb (evidence_int a) (evidence_int b) ≡ Bool.true) ↔ (a ≡ b)
evidence_beq_iff a b = ground arith

pub predicate_beq_iff :
    (a b : EventPredicate) → (nat_eqb (predicate_int a) (predicate_int b) ≡ Bool.true) ↔ (a ≡ b)
predicate_beq_iff a b = ground arith

pub purpose_beq_iff :
    (a b : ZonePurpose) → (nat_eqb (purpose_int a) (purpose_int b) ≡ Bool.true) ↔ (a ≡ b)
purpose_beq_iff a b = ground arith

pub status_beq_iff :
    (a b : ZoneStatus) → (nat_eqb (status_int a) (status_int b) ≡ Bool.true) ↔ (a ≡ b)
status_beq_iff a b = ground arith

pub resolution_beq_iff :
    (a b : EventResolution) → (nat_eqb (resolution_int a) (resolution_int b) ≡ Bool.true) ↔ (a ≡ b)
resolution_beq_iff a b = ground arith

instance abbrev pub phase_eq : Eq StagePhase
phase_eq = record { beq = λ a b. nat_eqb (phase_int a) (phase_int b); beq_iff = phase_beq_iff }

instance abbrev pub role_eq : Eq Role
role_eq = record { beq = λ a b. nat_eqb (role_int a) (role_int b); beq_iff = role_beq_iff }

instance abbrev pub kind_eq : Eq TerminalKind
kind_eq = record { beq = λ a b. nat_eqb (kind_int a) (kind_int b); beq_iff = kind_beq_iff }

instance abbrev pub evidence_eq : Eq EventEvidence
evidence_eq = record {
  beq = λ a b. nat_eqb (evidence_int a) (evidence_int b);
  beq_iff = evidence_beq_iff;
}

instance abbrev pub predicate_eq : Eq EventPredicate
predicate_eq = record {
  beq = λ a b. nat_eqb (predicate_int a) (predicate_int b);
  beq_iff = predicate_beq_iff;
}

instance abbrev pub purpose_eq : Eq ZonePurpose
purpose_eq = record {
  beq = λ a b. nat_eqb (purpose_int a) (purpose_int b);
  beq_iff = purpose_beq_iff;
}

instance abbrev pub status_eq : Eq ZoneStatus
status_eq = record { beq = λ a b. nat_eqb (status_int a) (status_int b); beq_iff = status_beq_iff }

instance abbrev pub resolution_eq : Eq EventResolution
resolution_eq = record {
  beq = λ a b. nat_eqb (resolution_int a) (resolution_int b);
  beq_iff = resolution_beq_iff;
}
