-- ===== src/Match/Requests/Keeping.antt =====
-- The methods that leave the remembered answers alone, and the decisions that do.
use hsl.Prelude.{
  ℕ, String, Bool, true, false, ◌≡◌, ◌∙◌, inl, inr, Option, some, List, [], ◌∷◌, arith, length, leb,
  Option-cases, if◌then◌else◌, pair_eq, string_eq,
}
use hsl.Prelude.Int.{ℤ}
use hsl.Prelude.Dict
use hsl.Match.Enums.{
  Role, TerminalKind, EventResolution, purpose_eq, phase_eq, evidence_eq, kind_eq,
}
use hsl.Match.Types.{GoalZone, RuleEvent, RequestResult}
use hsl.Match.Manager.{StageManager, Request, timed, record_audit}
use hsl.Match.Requests.{operation_of, cached, refuse_or, request_eq}
use hsl.Match.Requests.Replay.{advance-operations}
use hsl.Match.Events.{
  terminalize, on_conflict, on_agreement, first_conflict, comparisons, sorted_events,
}
use hsl.Match.Lifecycle.{
  decide_start, latch_start, start_refusal, decide_zone, zone_refusal, advance_if_accepted,
}
use hsl.Match.Adjudication.{
  resolve_event, fresh_event, repeat_event, conclude_event, resolve_event_checked, end_freeze,
  judge, judge_estimate, judge_official, latch_estimate, event_refusal, arrival_refusal,
  estimate_refusal, official_refusal, known_event,
}
use hsl.Match.Resolution.{
  decide_resolution, decide_pending, set_terminal, latch_terminal, dismiss, confirm, promote,
  resolution_refusal, set_refusal, confirm_refusal, confirmed_event, is_set_terminal,
}
use hsl.Match.Reset.{
  decide_reset, reset_with, reset_refusal, disarm, acknowledge_reset, ack_reset_barrier,
  acknowledge_localization_epoch, ack_epoch_barrier, change_localization_epoch,
  enter_localization_epoch,
}
use hsl.Match.Snapshot.{snapshot, snapshot_at}

-- A step keeps the operations.
abbrev pub Keeps : StageManager → StageManager → Type 0
Keeps m m' = m'.operations ≡ m.operations

refuse_or-Keeps :
    (reason : Option String) (accepted : RequestResult × StageManager) (m : StageManager)
    → Keeps m accepted.1
    → Keeps m (refuse_or reason accepted m).1
refuse_or-Keeps (some reason) accepted m h = ground arith
refuse_or-Keeps Option.none accepted m h = h

on_conflict-Keeps :
    (es : List RuleEvent) (a b : RuleEvent) (m : StageManager) → Keeps m (on_conflict es a b m)
unfolding on_conflict
on_conflict-Keeps [] a b m = ground arith
on_conflict-Keeps (e ∷ es) a b m = ground arith

on_agreement-Keeps : (es : List RuleEvent) (m : StageManager) → Keeps m (on_agreement es m)
unfolding on_agreement
on_agreement-Keeps [] m = ground arith
on_agreement-Keeps (e ∷ es) m = ground arith

terminalize-Keeps : (m : StageManager) → Keeps m (terminalize m)
unfolding terminalize
terminalize-Keeps m = elim (Option-cases (first_conflict (comparisons m))) [
  | inl free ↦ ground (arith, free, on_agreement-Keeps (sorted_events m.official_events) m)
  | inr (pair, found) ↦
      ground (arith, found, on_conflict-Keeps (sorted_events m.official_events) pair.0 pair.1 m)
]

pub decide_start-Keeps :
    (expected : String) (official : ℤ) (ref : String) (now : ℕ) (m : StageManager)
    → Keeps m (decide_start expected official ref now m).1
unfolding decide_start
decide_start-Keeps expected official ref now m =
    refuse_or-Keeps (start_refusal expected official ref now m) _ m
      (unfold latch_start in ground arith)

pub decide_zone-Keeps :
    (expected : String) (z : GoalZone) (ref : String) (now : ℕ) (m : StageManager)
    → Keeps m (decide_zone expected z ref now m).1
unfolding decide_zone
decide_zone-Keeps expected z ref now m =
    refuse_or-Keeps (zone_refusal expected z ref now m) _ m (ground arith)

decide_pending-Keeps :
    (event_id : String) (resolution : EventResolution) (kind : TerminalKind) (ref : String)
    (o : Option RuleEvent) (m : StageManager)
    → Keeps m (decide_pending event_id resolution kind ref o m).1
unfolding decide_pending dismiss confirm promote
decide_pending-Keeps i d k ref Option.none m = ground arith
decide_pending-Keeps i EventResolution.dismiss_estimate k ref (some held) m =
    terminalize-Keeps (record m { pending_estimates = Dict.pop i m.pending_estimates })
decide_pending-Keeps i EventResolution.confirm_official k ref (some held) m =
    refuse_or-Keeps (confirm_refusal i k held m) _ m
      (terminalize-Keeps (promote i (confirmed_event i k ref held m) m))
decide_pending-Keeps i EventResolution.set_official_terminal k ref (some held) m = ground arith

set_terminal-Keeps :
    (event_id : String) (kind : TerminalKind) (now : ℕ) (m : StageManager)
    → Keeps m (set_terminal event_id kind now m).1
unfolding set_terminal
set_terminal-Keeps i k now m =
    refuse_or-Keeps (set_refusal i k now m) _ m (unfold latch_terminal in ground arith)

branch-Keeps :
    (b : Bool) (x y : RequestResult × StageManager) (m : StageManager)
    → Keeps m x.1
    → Keeps m y.1
    → Keeps m (if b then x else y).1
branch-Keeps true x y m first second = first
branch-Keeps false x y m first second = second

pub decide_resolution-Keeps :
    (expected event_id : String) (resolution : EventResolution) (kind : TerminalKind) (ref : String)
    (now : ℕ) (m : StageManager)
    → Keeps m (decide_resolution expected event_id resolution kind ref now m).1
unfolding decide_resolution
decide_resolution-Keeps x i d k ref now m = refuse_or-Keeps (resolution_refusal x ref m) _ m (
    branch-Keeps (is_set_terminal d) _ _ m (set_terminal-Keeps i k now m)
      (decide_pending-Keeps i d k ref (Dict.get i m.pending_estimates) m))

pub decide_reset-Keeps :
    (generated expected : String) (stage_number : ℕ) (role : Role) (memory_id ref : String)
    (m : StageManager)
    → Keeps m (decide_reset generated expected stage_number role memory_id ref m).1
unfolding decide_reset reset_with disarm
decide_reset-Keeps g x n role memory ref m = elim (Option-cases (reset_refusal x memory ref m)) [
  | inl free ↦ rw (free) (ground arith)
  | inr (reason, refused) ↦ rw (refused) (ground arith)
]

end_freeze-Keeps : (now : ℕ) (m : StageManager) → Keeps m (end_freeze now m)
unfolding end_freeze record_audit
end_freeze-Keeps now m = ground arith

latch_estimate-Keeps :
    (e : RuleEvent) (now : ℕ) (m : StageManager) → Keeps m (latch_estimate e now m)
unfolding latch_estimate
latch_estimate-Keeps e now m = ground arith

judge-Keeps : (e : RuleEvent) (now : ℕ) (m : StageManager) → Keeps m (judge e now m).1
unfolding judge judge_estimate judge_official
judge-Keeps e now m = refuse_or-Keeps (arrival_refusal e m) _ m (
    branch-Keeps _ _ _ m
      (refuse_or-Keeps (estimate_refusal e m) _ m
        (terminalize-Keeps (latch_estimate e now m) ∙ latch_estimate-Keeps e now m))
      (refuse_or-Keeps (official_refusal e m) _ m (terminalize-Keeps _)))

resolve_event_checked-Keeps :
    (e : RuleEvent) (now : ℕ) (m : StageManager) → Keeps m (resolve_event_checked e now m).1
unfolding resolve_event_checked
resolve_event_checked-Keeps e now m =
    refuse_or-Keeps (event_refusal e now m) _ m
      (judge-Keeps e now (end_freeze now m) ∙ end_freeze-Keeps now m)

conclude_event-Keeps :
    (e : RuleEvent) (now : ℕ) (d : RequestResult × StageManager)
    → Keeps d.1 (conclude_event e now d).1
unfolding conclude_event record_audit
conclude_event-Keeps e now (r, m) = ground (arith, advance-operations now m)

known_event-Keeps :
    (e : RuleEvent) (now : ℕ) (o : Option RuleEvent) (m : StageManager)
    → Keeps m (known_event e now o m).1
known_event-Keeps e now Option.none m =
    unfold fresh_event record_audit in
    branch-Keeps (leb m.profile.max_event_records (length m.event_ids)) _ _ m (ground arith) (
      conclude_event-Keeps e now (resolve_event_checked e now m)
      ∙ resolve_event_checked-Keeps e now m)
known_event-Keeps e now (some prior) m =
    unfold repeat_event record_audit in ground (arith, advance-operations now m)

pub resolve_event-Keeps :
    (e : RuleEvent) (now : ℕ) (m : StageManager) → Keeps m (resolve_event e now m).1
unfolding resolve_event
resolve_event-Keeps e now m =
    ground (arith, known_event-Keeps e now (Dict.get e.event_id m.event_ids) m)

pub acknowledge_reset-Keeps :
    (stage_id : String) (acks : List String) (m : StageManager)
    → Keeps m (acknowledge_reset stage_id acks m).1
unfolding acknowledge_reset ack_reset_barrier record_audit
acknowledge_reset-Keeps s a m = ground arith

pub acknowledge_localization_epoch-Keeps :
    (stage_id : String) (acks : List String) (m : StageManager)
    → Keeps m (acknowledge_localization_epoch stage_id acks m).1
unfolding acknowledge_localization_epoch ack_epoch_barrier record_audit
acknowledge_localization_epoch-Keeps s a m = ground arith

pub change_localization_epoch-Keeps :
    (epoch : String) (m : StageManager) → Keeps m (change_localization_epoch epoch m).1
unfolding change_localization_epoch enter_localization_epoch record_audit
change_localization_epoch-Keeps e m = ground arith

pub snapshot-Keeps : (now v w : ℕ) (m : StageManager) → Keeps m (snapshot now v w m).1
unfolding snapshot timed snapshot_at
snapshot-Keeps now v w m = ground (arith, advance-operations now m)

pub advance_if_accepted-Keeps :
    (now : ℕ) (r : RequestResult) (m : StageManager) → Keeps m (advance_if_accepted now r m)
advance_if_accepted-Keeps now r m = ground (arith, advance-operations now m)

pub cached-Keeps :
    (request_id : String) (request : Request) (m : StageManager)
    → Keeps m (cached request_id request m).1
unfolding cached record_audit
cached-Keeps i q m = ground arith

pub cached-unknown :
    (request_id : String) (request : Request) (m : StageManager)
    → (cached request_id request m).0 ≡ Option.none
    → Dict.get (operation_of request, request_id) m.operations ≡ Option.none
unfolding cached
cached-unknown i q m h = ground (arith, h)
