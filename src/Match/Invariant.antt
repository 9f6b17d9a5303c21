-- ===== src/Match/Invariant.antt =====
pub mod Terminalize
pub mod Decisions
pub mod Judging
pub mod Steps
-- What holds of a stage manager between two calls of its methods, and within one.
use hsl.Prelude.{
  ℕ, ◌≤◌, ◌<◌, String, ◌≡◌, ◌≢◌, ◌⊎◌, refl, Bool, true, false, Option, some, List, [], ◌∷◌, ◌++◌,
  All, is_blank, arith,
}
use hsl.Prelude.Outcome.{Outcome, ok}
use hsl.Prelude.Dict
use hsl.Match.Enums.{StagePhase, TerminalKind}
use hsl.Match.Types.{RuleEvent, RequestResult}
use hsl.Match.Checks.{is_event_kind, check_profile}
use hsl.Match.Manager.{StageManager, Request, AuditDetails, record_audit, set_timeout, advance}
use hsl.Match.Requests.{remember}

abbrev pub IsEventKind : RuleEvent → Type 0
IsEventKind e = is_event_kind e.kind ≡ true

-- What holds at the time `now` before the clock is applied: a freeze whose stage is over may have
-- gathered estimates.
pub record IsConsistent (now : ℕ) (m : StageManager) : Type 0 where
  pub profile_checked : check_profile m.profile ≡ ok tt
  pub number_capped : m.stage_number ≤ 255
  pub stage_named : is_blank m.stage_id ≡ false
  pub init_times :
      m.phase ≡ StagePhase.init
      → (m.stage_started_at_ns ≡ 0) × (m.freeze_ends_at_ns ≡ 0) × (m.stage_ends_at_ns ≡ 0)
  pub ordered :
      m.phase ≢ StagePhase.init
      → (m.stage_started_at_ns < m.freeze_ends_at_ns) × (m.freeze_ends_at_ns < m.stage_ends_at_ns)
  pub past_freeze : m.phase ≡ StagePhase.active → m.freeze_ends_at_ns ≤ now
  pub terminal_has_kind : m.phase ≡ StagePhase.terminal → m.terminal_kind ≢ TerminalKind.none
  pub kind_is_terminal : m.phase ≢ StagePhase.terminal → m.terminal_kind ≡ TerminalKind.none
  pub ambiguous_holds :
      m.phase ≡ StagePhase.terminal → m.terminal_kind ≡ TerminalKind.ambiguous → m.event_hold ≡ true
  pub terminal_hold :
      m.phase ≡ StagePhase.terminal → m.event_hold ≡ true → m.terminal_kind ≡ TerminalKind.ambiguous
  pub terminal_unheld : m.phase ≡ StagePhase.terminal → m.held_event ≡ Option.none
  pub init_quiet :
      m.phase ≡ StagePhase.init
      → (m.event_hold ≡ false)
        × (m.held_event ≡ Option.none)
        × (m.pending_estimates ≡ [])
        × (m.official_events ≡ [])
  pub freeze_quiet :
      m.phase ≡ StagePhase.freeze
      → now < m.stage_ends_at_ns
      → (m.event_hold ≡ false)
        × (m.held_event ≡ Option.none)
        × (m.pending_estimates ≡ [])
        × (m.official_events ≡ [])
  pub official_kinds : All IsEventKind m.official_events
  pub pending_kinds : All IsEventKind (Dict.values m.pending_estimates)

pub record IsWellFormed (m : StageManager) : Type 0 where
  pub consistent : IsConsistent m.last_now_ns m
  pub fresh_freeze : m.phase ≡ StagePhase.freeze → m.last_now_ns < m.freeze_ends_at_ns
  pub fresh_active : m.phase ≡ StagePhase.active → m.last_now_ns < m.stage_ends_at_ns

module _ (operation request_id : String) (r : RequestResult) (d : AuditDetails) where
  pub record_audit-IsConsistent :
      {now : ℕ} {m : StageManager}
      → IsConsistent now m
      → IsConsistent now (record_audit operation request_id r d m)
  unfolding record_audit
  record_audit-IsConsistent h = ground arith

  pub record_audit-IsWellFormed :
      {m : StageManager} → IsWellFormed m → IsWellFormed (record_audit operation request_id r d m)
  unfolding record_audit
  record_audit-IsWellFormed h = ground arith

pub remember-IsConsistent :
    (request_id : String) (request : Request) (r : RequestResult) {now : ℕ} {m : StageManager}
    → IsConsistent now m
    → IsConsistent now (remember request_id request r m)
unfolding remember record_audit
remember-IsConsistent request_id request r h = ground arith

pub remember-IsWellFormed :
    (request_id : String) (request : Request) (r : RequestResult) {m : StageManager}
    → IsWellFormed m
    → IsWellFormed (remember request_id request r m)
unfolding remember record_audit
remember-IsWellFormed request_id request r h = ground arith

-- Time that passes keeps a consistent manager consistent.
pub IsConsistent-later :
    {now later : ℕ} {m : StageManager} → now ≤ later → IsConsistent now m → IsConsistent later m
IsConsistent-later le h = ground arith

-- The clock makes a consistent manager well-formed.
pub advance-IsWellFormed :
    {now : ℕ} {m : StageManager} → IsConsistent now m → IsWellFormed (advance now m)
unfolding advance record_audit
advance-IsWellFormed h = ground arith
