-- ===== src/Match/Invariant/Judging.antt =====
-- The decisions of `resolve_estimate`, `resolve_event`, `reset_stage` and the epoch changes.
use hsl.Prelude.{
  ℕ, ◌≤◌, String, ◌≡◌, ◌≢◌, ◌⊎◌, refl, false, Option, some, List, [], ◌∷◌, ◌++◌, arith, Bool-cases,
  inl, inr, is_blank, ◌==◌, string_eq,
}
use hsl.Prelude.Outcome.{Outcome, ok}
use hsl.Prelude.Dict
use hsl.Prelude.Dict.{Dict}
use hsl.Match.Enums.{
  StagePhase, Role, TerminalKind, EventResolution, EventEvidence, evidence_eq, phase_eq,
}
use hsl.Match.Types.{StageProfile, RuleEvent, RequestResult}
use hsl.Match.Checks.{check_profile, check_identity, check_durations, check_approvals}
use hsl.Match.Manager.{StageManager, record_audit}
use hsl.Match.Events.{
  terminalize, on_conflict, on_agreement, first_conflict, comparisons, sorted_events,
}
use hsl.Match.Adjudication.{
  event_refusal, arrival_refusal, estimate_refusal, official_refusal, end_freeze, latch_estimate,
  judge, judge_estimate, judge_official, resolve_event_checked,
}
use hsl.Match.Resolution.{
  is_set_terminal, set_refusal, set_terminal, latch_terminal, decide_pending, decide_resolution,
  resolution_refusal, dismiss, confirm, promote, confirm_refusal, confirmed_event,
}
use hsl.Match.Reset.{
  reset_refusal, reset_or, reset_with, decide_reset, on_new_clock, disarm, enter_localization_epoch,
  enter_clock_epoch,
}
use hsl.Match.Invariant.{IsEventKind, IsConsistent, IsWellFormed, IsConsistent-later}
use hsl.Match.Invariant.Terminalize.{All-append, IsUnderWay, terminalize-IsConsistent}
use hsl.Match.Invariant.Decisions.{
  refuse_or-keeps, set_refusal-none, latch_terminal-IsConsistent, dismiss-IsConsistent,
  confirm-IsConsistent, put-kinds,
}

set_terminal-IsConsistent :
    (event_id : String) (kind : TerminalKind) (now : ℕ) (m : StageManager)
    → IsConsistent now m
    → IsConsistent now (set_terminal event_id kind now m).1
unfolding set_terminal
set_terminal-IsConsistent event_id kind now m h =
    refuse_or-keeps (IsConsistent now) (set_refusal event_id kind now m) _ m h λ r.
      let (p, k) = set_refusal-none event_id kind now m r in
      latch_terminal-IsConsistent now kind m p k h

decide_pending-IsConsistent :
    (event_id : String) (resolution : EventResolution) (kind : TerminalKind) (ref : String)
    (o : Option RuleEvent) {now : ℕ} {m : StageManager}
    → Dict.get event_id m.pending_estimates ≡ o
    → IsConsistent now m
    → IsConsistent now (decide_pending event_id resolution kind ref o m).1
unfolding decide_pending
decide_pending-IsConsistent event_id resolution kind ref Option.none p h = h
decide_pending-IsConsistent event_id EventResolution.dismiss_estimate kind ref (some e) p h =
    dismiss-IsConsistent event_id h p
decide_pending-IsConsistent event_id EventResolution.confirm_official kind ref (some e) p h =
    confirm-IsConsistent event_id h p kind ref
decide_pending-IsConsistent event_id EventResolution.set_official_terminal kind ref (some e) p h = h

decide_resolution-IsConsistent :
    (expected event_id : String) (resolution : EventResolution) (kind : TerminalKind) (ref : String)
    (now : ℕ) (m : StageManager)
    → IsConsistent now m
    → IsConsistent now (decide_resolution expected event_id resolution kind ref now m).1
unfolding decide_resolution
decide_resolution-IsConsistent expected event_id resolution kind ref now m h =
    refuse_or-keeps (IsConsistent now) (resolution_refusal expected ref m) _ m h λ _.
      elim (Bool-cases (is_set_terminal resolution)) [
        | inl set ↦ rw set (set_terminal-IsConsistent event_id kind now m h)
        | inr other ↦ rw other (
            decide_pending-IsConsistent event_id resolution kind ref
              (Dict.get event_id m.pending_estimates) refl h)
      ]

-- What a decision leaves alone: the clock and the stage times, and the phase if it is not over.
abbrev pub Frames : StageManager → StageManager → Type 0
Frames m d =
    (d.last_now_ns ≡ m.last_now_ns)
    × (d.freeze_ends_at_ns ≡ m.freeze_ends_at_ns)
    × (d.stage_ends_at_ns ≡ m.stage_ends_at_ns)
    × ((d.phase ≡ m.phase) ⊎ (d.phase ≡ StagePhase.terminal))

Frames-IsWellFormed :
    (m d : StageManager)
    → Frames m d
    → IsWellFormed m
    → IsConsistent d.last_now_ns d
    → IsWellFormed d
Frames-IsWellFormed m d f h c = ground arith

on_conflict-Frames :
    (es : List RuleEvent) (a b : RuleEvent) (m : StageManager) → Frames m (on_conflict es a b m)
unfolding on_conflict
on_conflict-Frames [] a b m = ground arith
on_conflict-Frames (e ∷ es) a b m = ground arith

on_agreement-Frames : (es : List RuleEvent) (m : StageManager) → Frames m (on_agreement es m)
unfolding on_agreement
on_agreement-Frames [] m = ground arith
on_agreement-Frames (e ∷ es) m = ground arith

terminalize-Frames : (m : StageManager) → Frames m (terminalize m)
unfolding terminalize
terminalize-Frames m = split (first_conflict (comparisons m))
  where
    split :
        (c : Option (RuleEvent × RuleEvent))
        → Frames m (elim c [
          | Option.none ↦ on_agreement (sorted_events m.official_events) m
          | some (first, second) ↦ on_conflict (sorted_events m.official_events) first second m
        ])
    split Option.none = on_agreement-Frames (sorted_events m.official_events) m
    split (some (a, b)) = on_conflict-Frames (sorted_events m.official_events) a b m

decide_pending-Frames :
    (event_id : String) (resolution : EventResolution) (kind : TerminalKind) (ref : String)
    (o : Option RuleEvent) (m : StageManager)
    → Frames m (decide_pending event_id resolution kind ref o m).1
unfolding decide_pending dismiss confirm promote
decide_pending-Frames event_id resolution kind ref Option.none m = ground arith
decide_pending-Frames event_id EventResolution.dismiss_estimate kind ref (some e) m =
    terminalize-Frames (record m { pending_estimates = Dict.pop event_id m.pending_estimates })
decide_pending-Frames event_id EventResolution.confirm_official kind ref (some e) m =
    refuse_or-keeps (Frames m) (confirm_refusal event_id kind e m) _ m (ground arith)
      (λ _. terminalize-Frames (promote event_id (confirmed_event event_id kind ref e m) m))
decide_pending-Frames event_id EventResolution.set_official_terminal kind ref (some e) m =
    ground arith

decide_resolution-Frames :
    (expected event_id : String) (resolution : EventResolution) (kind : TerminalKind) (ref : String)
    (now : ℕ) (m : StageManager)
    → Frames m (decide_resolution expected event_id resolution kind ref now m).1
unfolding decide_resolution set_terminal latch_terminal
decide_resolution-Frames expected event_id resolution kind ref now m = ground (
  arith,
  decide_pending-Frames event_id resolution kind ref (Dict.get event_id m.pending_estimates) m,
)

pub decide_resolution-IsWellFormed :
    (expected event_id : String) (resolution : EventResolution) (kind : TerminalKind) (ref : String)
    (now : ℕ) (m : StageManager)
    → m.last_now_ns ≡ now
    → IsWellFormed m
    → IsWellFormed (decide_resolution expected event_id resolution kind ref now m).1
decide_resolution-IsWellFormed expected event_id resolution kind ref now m now' h =
    let d = decide_resolution expected event_id resolution kind ref now m in
    let f = decide_resolution-Frames expected event_id resolution kind ref now m in
    let c =
      decide_resolution-IsConsistent expected event_id resolution kind ref now m
        (IsConsistent-later (omega arith) h.consistent) in
    Frames-IsWellFormed m d.1 f h (IsConsistent-later (omega arith) c)

-- What the tests of an event leave.
event_refusal-none :
    (e : RuleEvent) (now : ℕ) (m : StageManager)
    → event_refusal e now m ≡ Option.none
    → (m.phase ≢ StagePhase.init) × (m.freeze_ends_at_ns ≤ now)
unfolding event_refusal
event_refusal-none e now m h = ground arith

end_freeze-IsConsistent :
    {now : ℕ} {m : StageManager}
    → m.phase ≢ StagePhase.init
    → m.freeze_ends_at_ns ≤ now
    → IsConsistent now m
    → IsUnderWay now (end_freeze now m) × IsConsistent now (end_freeze now m)
unfolding end_freeze record_audit
end_freeze-IsConsistent p f h = (ground arith, ground arith)

module _ (e : RuleEvent) (k : IsEventKind e) {now : ℕ} {m : StageManager} (u : IsUnderWay now m)
    (h : IsConsistent now m) where
  latch_estimate-IsConsistent : IsConsistent now (latch_estimate e now m)
  unfolding latch_estimate
  latch_estimate-IsConsistent =
      ground (arith, put-kinds e.event_id e m.pending_estimates k h.pending_kinds)

  latch_estimate-IsUnderWay : IsUnderWay now (latch_estimate e now m)
  unfolding latch_estimate
  latch_estimate-IsUnderWay = ground arith

  official-IsConsistent :
      IsConsistent now (record m { official_events = m.official_events ++ e ∷ [] })
  official-IsConsistent =
      ground (arith, All-append IsEventKind m.official_events (e ∷ []) h.official_kinds (k, tt))

  judge-IsConsistent : IsConsistent now (judge e now m).1
  unfolding judge judge_estimate judge_official
  judge-IsConsistent = refuse_or-keeps (IsConsistent now) (arrival_refusal e m) _ m h λ _.
      elim (Bool-cases (e.evidence == EventEvidence.estimate)) [
        | inl guess ↦ rw guess (
            refuse_or-keeps (IsConsistent now) (estimate_refusal e m) _ m h
              (λ _. terminalize-IsConsistent latch_estimate-IsUnderWay latch_estimate-IsConsistent))
        | inr truth ↦ rw truth (
            refuse_or-keeps (IsConsistent now) (official_refusal e m) _ m h
              (λ _. terminalize-IsConsistent u official-IsConsistent))
      ]

pub resolve_event_checked-IsConsistent :
    (e : RuleEvent) (now : ℕ) (m : StageManager)
    → IsEventKind e
    → IsConsistent now m
    → IsConsistent now (resolve_event_checked e now m).1
unfolding resolve_event_checked
resolve_event_checked-IsConsistent e now m k h =
    refuse_or-keeps (IsConsistent now) (event_refusal e now m) _ m h λ r.
      let (p, f) = event_refusal-none e now m r in
      let (u, c) = end_freeze-IsConsistent p f h in judge-IsConsistent e k u c

disarm-IsWellFormed :
    (generated : String) (m : StageManager)
    → check_profile m.profile ≡ ok tt
    → m.stage_number ≤ 255
    → is_blank generated ≡ false
    → IsWellFormed (disarm generated m)
unfolding disarm Dict.values
disarm-IsWellFormed generated m p n b = ground arith

reset_with-IsWellFormed :
    (generated : String) (stage_number : ℕ) (role : Role) (memory_id : String) (m : StageManager)
    → stage_number ≤ 255
    → IsWellFormed m
    → IsWellFormed (reset_with generated stage_number role memory_id m).1
unfolding reset_with
reset_with-IsWellFormed generated stage_number role memory_id m n h = ground (
  arith,
  disarm-IsWellFormed generated (record m { stage_number = stage_number; role = role })
      h.consistent.profile_checked n,
)

reset_or-keeps :
    (reason : Option String) (accepted : Outcome RequestResult × StageManager) (m : StageManager)
    → IsWellFormed m
    → IsWellFormed accepted.1
    → IsWellFormed (reset_or reason accepted m).1
reset_or-keeps (some r) accepted m h k = h
reset_or-keeps Option.none accepted m h k = k

pub decide_reset-IsWellFormed :
    (generated expected : String) (stage_number : ℕ) (role : Role) (memory_id ref : String)
    (m : StageManager)
    → stage_number ≤ 255
    → IsWellFormed m
    → IsWellFormed (decide_reset generated expected stage_number role memory_id ref m).1
unfolding decide_reset
decide_reset-IsWellFormed generated expected stage_number role memory_id ref m n h =
    reset_or-keeps (reset_refusal expected memory_id ref m) _ m h
      (reset_with-IsWellFormed generated stage_number role memory_id m n h)

check_profile-localization_epoch :
    (p : StageProfile) (epoch : String)
    → is_blank epoch ≡ false
    → check_profile p ≡ ok tt
    → check_profile (record p { localization_epoch = epoch }) ≡ ok tt
unfolding check_profile check_identity check_durations check_approvals
check_profile-localization_epoch p epoch b h = ground arith

check_profile-clock_epoch :
    (p : StageProfile) (epoch : String)
    → is_blank epoch ≡ false
    → check_profile p ≡ ok tt
    → check_profile (record p { clock_epoch = epoch }) ≡ ok tt
unfolding check_profile check_identity check_durations check_approvals
check_profile-clock_epoch p epoch b h = ground arith

pub enter_localization_epoch-IsWellFormed :
    (epoch : String) (m : StageManager)
    → is_blank epoch ≡ false
    → IsWellFormed m
    → IsWellFormed (enter_localization_epoch epoch m)
unfolding enter_localization_epoch Dict.values
enter_localization_epoch-IsWellFormed epoch m b h =
    ground (arith, check_profile-localization_epoch m.profile epoch b h.consistent.profile_checked)

pub enter_clock_epoch-IsWellFormed :
    (generated epoch : String) (now : ℕ) (m : StageManager)
    → is_blank epoch ≡ false
    → is_blank generated ≡ false
    → IsWellFormed m
    → IsWellFormed (enter_clock_epoch generated epoch now m)
unfolding enter_clock_epoch
enter_clock_epoch-IsWellFormed generated epoch now m b g h =
    disarm-IsWellFormed generated (on_new_clock epoch now m)
      (check_profile-clock_epoch m.profile epoch b h.consistent.profile_checked)
      h.consistent.number_capped g
