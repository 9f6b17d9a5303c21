-- ===== src/Match/Invariant/Decisions.antt =====
-- The decisions of the methods, each on a well-formed manager.
use hsl.Prelude.{
  ℕ, ◌<◌, String, ◌≡◌, ◌≢◌, refl, Option, some, [], ◌∷◌, All, arith, Bool-cases, inl, inr, ◌==◌,
  string_eq,
}
use hsl.Prelude.Int.{ℤ, pos_part}
use hsl.Prelude.Outcome.{ok}
use hsl.Prelude.Dict
use hsl.Prelude.Dict.{Dict}
use hsl.Match.Enums.{StagePhase, TerminalKind, evidence_eq, purpose_eq}
use hsl.Match.Types.{StageProfile, GoalZone, RuleEvent, RequestResult}
use hsl.Match.Checks.{check_profile, check_durations, check_event}
use hsl.Match.Manager.{StageManager}
use hsl.Match.Requests.{refuse_or}
use hsl.Match.Lifecycle.{start_refusal, latch_start, decide_start, zone_refusal, decide_zone}
use hsl.Match.Resolution.{
  set_refusal, latch_terminal, confirm_refusal, confirm, promote, dismiss, confirmed_event,
}
use hsl.Match.Invariant.{IsEventKind, IsConsistent, IsWellFormed}
use hsl.Match.Invariant.Terminalize.{All-append, IsUnderWay, terminalize-IsConsistent}

pub profile_durations :
    (p : StageProfile)
    → check_profile p ≡ ok tt
    → (0 < p.freeze_duration_ns) × (p.freeze_duration_ns < p.stage_duration_ns)
unfolding check_profile check_durations
profile_durations p h = ground arith

pub check_event-kind : (e : RuleEvent) → check_event e ≡ ok tt → IsEventKind e
unfolding check_event
check_event-kind e h = ground arith

-- A refusal leaves the manager as it is, so only the accepted case is left.
pub refuse_or-keeps :
    (P : StageManager → Type 0) (reason : Option String) (accepted : RequestResult × StageManager)
    (m : StageManager)
    → P m
    → (reason ≡ Option.none → P accepted.1)
    → P (refuse_or reason accepted m).1
refuse_or-keeps P (some r) accepted m h k = h
refuse_or-keeps P Option.none accepted m h k = k refl

latch_start-IsConsistent :
    (now official freeze_end end : ℕ) (m : StageManager)
    → official < freeze_end
    → freeze_end < end
    → IsConsistent now m
    → IsConsistent now (latch_start official freeze_end end m)
unfolding latch_start Dict.values
latch_start-IsConsistent now official freeze_end end m p q h = ground arith

pub decide_start-IsConsistent :
    (expected : String) (official : ℤ) (ref : String) (now : ℕ) (m : StageManager)
    → IsConsistent now m
    → IsConsistent now (decide_start expected official ref now m).1
unfolding decide_start
decide_start-IsConsistent expected official ref now m h =
    let durations = profile_durations m.profile h.profile_checked in
    refuse_or-keeps (IsConsistent now) (start_refusal expected official ref now m) _ m h
      (λ _. latch_start-IsConsistent now (pos_part official) _ _ m (omega arith) (omega arith) h)

record-zone :
    (z : GoalZone) (m : StageManager)
    → IsWellFormed m
    → IsWellFormed (record m { zones = Dict.put z.purpose z m.zones })
record-zone z m h = ground arith

pub decide_zone-IsWellFormed :
    (expected : String) (z : GoalZone) (ref : String) (now : ℕ) (m : StageManager)
    → IsWellFormed m
    → IsWellFormed (decide_zone expected z ref now m).1
unfolding decide_zone
decide_zone-IsWellFormed expected z ref now m h =
    refuse_or-keeps IsWellFormed (zone_refusal expected z ref now m) _ m h (λ _. record-zone z m h)

pub latch_terminal-IsConsistent :
    (now : ℕ) (kind : TerminalKind) (m : StageManager)
    → m.phase ≢ StagePhase.init
    → kind ≢ TerminalKind.none
    → IsConsistent now m
    → IsConsistent now (latch_terminal kind m)
unfolding latch_terminal
latch_terminal-IsConsistent now kind m p k h = ground arith

pub set_refusal-none :
    (event_id : String) (kind : TerminalKind) (now : ℕ) (m : StageManager)
    → set_refusal event_id kind now m ≡ Option.none
    → (m.phase ≢ StagePhase.init) × (kind ≢ TerminalKind.none)
unfolding set_refusal
set_refusal-none event_id kind now m h = ground arith

module _ (event_id : String) where
  pop-kinds :
      (d : Dict String RuleEvent)
      → All IsEventKind (Dict.values d)
      → All IsEventKind (Dict.values (Dict.pop event_id d))
  unfolding Dict.values Dict.pop
  pop-kinds [] h = tt
  pop-kinds ((k, e) ∷ d) h = elim (Bool-cases (k == event_id)) [
    | inl same ↦ rw same (pop-kinds d h.1)
    | inr other ↦ rw other (h.0, pop-kinds d h.1)
  ]

  pub put-kinds :
      (e : RuleEvent) (d : Dict String RuleEvent)
      → IsEventKind e
      → All IsEventKind (Dict.values d)
      → All IsEventKind (Dict.values (Dict.put event_id e d))
  unfolding Dict.values Dict.put
  put-kinds e [] p h = (p, tt)
  put-kinds e ((k, f) ∷ d) p h = elim (Bool-cases (k == event_id)) [
    | inl same ↦ rw same (p, h.1)
    | inr other ↦ rw other (h.0, put-kinds e d p h.1)
  ]

  get-kind :
      (d : Dict String RuleEvent) {e : RuleEvent}
      → Dict.get event_id d ≡ some e
      → All IsEventKind (Dict.values d)
      → IsEventKind e
  unfolding Dict.values Dict.get
  get-kind [] p h = cc
  get-kind ((k, f) ∷ d) {e} p h = ground (arith, get-kind d {e = e})

-- A pending estimate is there only in a stage that is under way.
pending-IsUnderWay :
    {now : ℕ} {m : StageManager} (event_id : String) {e : RuleEvent}
    → IsConsistent now m
    → Dict.get event_id m.pending_estimates ≡ some e
    → IsUnderWay now m
unfolding Dict.get
pending-IsUnderWay event_id h p = ground arith

confirm_refusal-kind :
    (event_id : String) (kind : TerminalKind) (held : RuleEvent) (m : StageManager)
    → confirm_refusal event_id kind held m ≡ Option.none
    → kind ≡ held.kind
unfolding confirm_refusal
confirm_refusal-kind event_id kind held m h = ground arith

module _ {now : ℕ} {m : StageManager} (event_id : String) {held : RuleEvent}
    (h : IsConsistent now m) (p : Dict.get event_id m.pending_estimates ≡ some held) where
  popped-IsConsistent :
      IsConsistent now (record m { pending_estimates = Dict.pop event_id m.pending_estimates })
  popped-IsConsistent =
      ground (arith, pending-IsUnderWay event_id h p, pop-kinds event_id m.pending_estimates)

  pub dismiss-IsConsistent : IsConsistent now (dismiss event_id m).1
  unfolding dismiss
  dismiss-IsConsistent =
      terminalize-IsConsistent (pending-IsUnderWay event_id h p) popped-IsConsistent

  promote-IsConsistent :
      (confirmed : RuleEvent)
      → IsEventKind confirmed
      → IsConsistent now (promote event_id confirmed m)
  unfolding promote
  promote-IsConsistent confirmed k = ground (
    arith,
    pending-IsUnderWay event_id h p,
    pop-kinds event_id m.pending_estimates,
    All-append IsEventKind m.official_events (confirmed ∷ []) h.official_kinds (k, tt),
  )

  pub confirm-IsConsistent :
      (kind : TerminalKind) (ref : String) → IsConsistent now (confirm event_id kind ref held m).1
  unfolding confirm
  confirm-IsConsistent kind ref =
      refuse_or-keeps (IsConsistent now) (confirm_refusal event_id kind held m) _ m h λ r.
        let k = confirm_refusal-kind event_id kind held m r in
        let confirmed = confirmed_event event_id kind ref held m in
        terminalize-IsConsistent (pending-IsUnderWay event_id h p) (
          promote-IsConsistent confirmed
            (rw k (get-kind event_id m.pending_estimates p h.pending_kinds)))
