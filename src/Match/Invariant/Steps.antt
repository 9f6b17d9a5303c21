-- ===== src/Match/Invariant/Steps.antt =====
-- Every method of the stage manager keeps it well-formed, whether it answers or raises.
use hsl.Prelude.{
  ℕ, ◌≤◌, String, ◌≡◌, refl, false, Option, some, List, arith, Bool-cases, inl, inr, is_blank, ltb,
  string_eq,
}
use hsl.Prelude.Int.{ℤ}
use hsl.Prelude.Outcome.{Outcome, ok, raised}
use hsl.Prelude.Dict
use hsl.Match.Enums.{Role, TerminalKind, EventResolution}
use hsl.Match.Types.{GoalZone, RuleEvent, RequestResult}
use hsl.Match.Manager.{
  StageManager, Request, start, zone, resolve, reset, Method, timed, advance, record_audit,
}
use hsl.Match.Requests.{
  cached, finish_request, answer_or, answer, remember, return_at_once, succeed,
}
use hsl.Match.Lifecycle.{decide_start, decide_zone, start_stage, set_goal_zone, advance_if_accepted}
use hsl.Match.Adjudication.{
  resolve_event_checked, conclude_event, fresh_event, repeat_event, known_event, resolve_event,
}
use hsl.Match.Resolution.{decide_resolution, resolve_estimate}
use hsl.Match.Reset.{
  decide_reset, reset_stage, acknowledge_reset, acknowledge_localization_epoch,
  change_localization_epoch, change_clock_epoch,
}
use hsl.Match.Snapshot.{snapshot, snapshot_at}
use hsl.Match.Invariant.{
  IsEventKind, IsConsistent, IsWellFormed, remember-IsConsistent, remember-IsWellFormed,
  advance-IsWellFormed, IsConsistent-later,
}
use hsl.Match.Invariant.Decisions.{decide_start-IsConsistent, decide_zone-IsWellFormed}
use hsl.Match.Invariant.Judging.{
  decide_resolution-IsWellFormed, resolve_event_checked-IsConsistent, decide_reset-IsWellFormed,
  enter_localization_epoch-IsWellFormed, enter_clock_epoch-IsWellFormed,
}

-- The result of a method leaves a well-formed manager.
abbrev pub Leaves : {A : Type 0} → Outcome A × StageManager → Type 0
Leaves r = IsWellFormed r.1

pub advance_keeps :
    (now : ℕ) (m : StageManager)
    → m.last_now_ns ≤ now
    → IsWellFormed m
    → IsWellFormed (advance now m)
advance_keeps now m le h = advance-IsWellFormed (IsConsistent-later le h.consistent)

last_now-advance : (now : ℕ) (m : StageManager) → (advance now m).last_now_ns ≡ now
unfolding advance record_audit
last_now-advance now m = ground arith

-- The body of a method runs on a manager whose clock has been applied.
timed_keeps :
    {A : Type 0} (now : ℕ) (body : Method A) (m : StageManager)
    → ((m' : StageManager) → m'.last_now_ns ≡ now → IsWellFormed m' → Leaves (body m'))
    → IsWellFormed m
    → Leaves (timed now body m)
unfolding timed
timed_keeps now body m keep h = elim (Bool-cases (ltb now m.last_now_ns)) [
  | inl back ↦ rw back h
  | inr on ↦ rw on (keep _ (last_now-advance now m) (advance_keeps now m (ground arith) h))
]

cached_keeps :
    (request_id : String) (request : Request) (m : StageManager)
    → IsWellFormed m
    → IsWellFormed (cached request_id request m).1
unfolding cached
cached_keeps request_id request m h = ground arith

finish_request_keeps :
    (request_id : String) (request : Request) (after : RequestResult → StageManager → StageManager)
    (d : Outcome RequestResult × StageManager)
    → ((r : RequestResult)
        → d.0 ≡ ok r
        → IsWellFormed (after r (remember request_id request r d.1)))
    → IsWellFormed d.1
    → Leaves (finish_request request_id request after d)
unfolding finish_request
finish_request_keeps request_id request after (ok r, m) k h = k r refl
finish_request_keeps request_id request after (raised e, m) k h = h

cached-none :
    (request_id : String) (request : Request) (m : StageManager)
    → (cached request_id request m).0 ≡ Option.none
    → (cached request_id request m).1 ≡ m
unfolding cached
cached-none request_id request m h = ground arith

module _ (request_id : String) (request : Request)
    (after : RequestResult → StageManager → StageManager) (decide : Method RequestResult) where
  answer_or_keeps :
      (c : Option RequestResult × StageManager)
      → IsWellFormed c.1
      → (c.0 ≡ Option.none → Leaves (finish_request request_id request after (decide c.1)))
      → Leaves (answer_or request_id request after decide c)
  answer_or_keeps (some r, m) h k = h
  answer_or_keeps (Option.none, m) h k = k refl

  answer_keeps :
      (m : StageManager)
      → IsWellFormed m
      → Leaves (finish_request request_id request after (decide m))
      → Leaves (answer request_id request after decide m)
  unfolding answer
  answer_keeps m h k = elim (Bool-cases (is_blank request_id)) [
    | inl blank ↦ rw blank h
    | inr named ↦ rw named (
        answer_or_keeps (cached request_id request m) (cached_keeps request_id request m h)
          (λ fresh. rw (cached-none request_id request m fresh) k))
  ]

  -- A method that answers requests: only the decision on a fresh request is left.
  requested_keeps :
      (now : ℕ) (m : StageManager)
      → ((m' : StageManager)
          → m'.last_now_ns ≡ now
          → IsWellFormed m'
          → Leaves (finish_request request_id request after (decide m')))
      → IsWellFormed m
      → Leaves (timed now (answer request_id request after decide) m)
  requested_keeps now m keep h =
      timed_keeps now (answer request_id request after decide) m
        (λ m' now' h'. answer_keeps m' h' (keep m' now' h')) h

decide_start-refused :
    (expected : String) (official : ℤ) (ref : String) (now : ℕ) (m : StageManager)
    → (decide_start expected official ref now m).0.accepted ≡ false
    → (decide_start expected official ref now m).1 ≡ m
unfolding decide_start
decide_start-refused expected official ref now m h = ground arith

-- A start that is latched late is advanced at once.
start_keeps :
    (request_id expected : String) (official : ℤ) (ref : String) (now : ℕ) (m : StageManager)
    → m.last_now_ns ≡ now
    → IsWellFormed m
    → Leaves (
        finish_request request_id
          (start expected official ref)
          (advance_if_accepted now)
          (succeed (decide_start expected official ref now m)))
unfolding finish_request
start_keeps request_id expected official ref now m now' h =
    let d = decide_start expected official ref now m in
    let c = IsConsistent-later (omega arith) h.consistent in
    elim (Bool-cases d.0.accepted) [
      | inl yes' ↦ rw yes' (
          advance-IsWellFormed (
            remember-IsConsistent request_id (start expected official ref) d.0
              (decide_start-IsConsistent expected official ref now m c)))
      | inr no' ↦ rw no' (
          remember-IsWellFormed request_id (start expected official ref) d.0
            (rw (decide_start-refused expected official ref now m no') h))
    ]

pub start_stage-IsWellFormed :
    (request_id expected : String) (official : ℤ) (ref : String) (now : ℕ) (m : StageManager)
    → IsWellFormed m
    → Leaves (start_stage request_id expected official ref now m)
unfolding start_stage
start_stage-IsWellFormed request_id expected official ref now m h =
    requested_keeps request_id (start expected official ref) (advance_if_accepted now)
      (λ m'. succeed (decide_start expected official ref now m')) now m
      (start_keeps request_id expected official ref now) h

pub set_goal_zone-IsWellFormed :
    (request_id expected : String) (z : GoalZone) (ref : String) (now : ℕ) (m : StageManager)
    → IsWellFormed m
    → Leaves (set_goal_zone request_id expected z ref now m)
unfolding set_goal_zone finish_request
set_goal_zone-IsWellFormed request_id expected z ref now m h =
    requested_keeps request_id (zone expected z ref) return_at_once
      (λ m'. succeed (decide_zone expected z ref now m')) now m
      (λ m' now' h'.
        remember-IsWellFormed request_id (zone expected z ref) (decide_zone expected z ref now m').0
          (decide_zone-IsWellFormed expected z ref now m' h'))
      h

pub resolve_estimate-IsWellFormed :
    (request_id expected event_id : String) (resolution : EventResolution) (kind : TerminalKind)
    (ref : String) (now : ℕ) (m : StageManager)
    → IsWellFormed m
    → Leaves (resolve_estimate request_id expected event_id resolution kind ref now m)
unfolding resolve_estimate finish_request
resolve_estimate-IsWellFormed request_id expected event_id resolution kind ref now m h =
    elim (Bool-cases (is_blank event_id)) [
      | inl blank ↦ rw blank h
      | inr named ↦ rw named (
          requested_keeps request_id (resolve expected event_id resolution kind ref) return_at_once
            (λ m'. succeed (decide_resolution expected event_id resolution kind ref now m')) now m
            (λ m' now' h'.
              remember-IsWellFormed request_id (resolve expected event_id resolution kind ref)
                (decide_resolution expected event_id resolution kind ref now m').0
                (decide_resolution-IsWellFormed expected event_id resolution kind ref now m' now'
                  h'))
            h)
    ]

pub reset_stage-IsWellFormed :
    (generated request_id expected : String) (stage_number : ℕ) (role : Role)
    (memory_id ref : String) (now : ℕ) (m : StageManager)
    → IsWellFormed m
    → Leaves (reset_stage generated request_id expected stage_number role memory_id ref now m)
unfolding reset_stage
reset_stage-IsWellFormed generated request_id expected stage_number role memory_id ref now m h =
    elim (Bool-cases (ltb 255 stage_number)) [
      | inl over ↦ rw over h
      | inr fits ↦ rw fits (
          requested_keeps request_id (reset expected stage_number role memory_id ref) return_at_once
            (decide_reset generated expected stage_number role memory_id ref) now m
            (λ m' now' h'.
              let kept =
                decide_reset-IsWellFormed generated expected stage_number role memory_id ref m'
                  (ground arith) h' in
              finish_request_keeps request_id (reset expected stage_number role memory_id ref)
                return_at_once (decide_reset generated expected stage_number role memory_id ref m')
                (λ r _.
                  remember-IsWellFormed request_id (reset expected stage_number role memory_id ref)
                    r kept)
                kept)
            h)
    ]

-- The decision on an event is applied to the clock, and then only the IDs and the journal change.
conclude_event-IsWellFormed :
    (e : RuleEvent) (now : ℕ) (d : RequestResult × StageManager)
    → IsConsistent now d.1
    → IsWellFormed (conclude_event e now d).1
unfolding conclude_event record_audit
conclude_event-IsWellFormed e now (r, m) c =
    let w = advance-IsWellFormed c in
    elim (Bool-cases r.accepted) [
      | inl yes' ↦ rw yes' (ground (arith, w))
      | inr no' ↦ rw no' (ground (arith, w))
    ]

fresh_event-IsWellFormed :
    (e : RuleEvent) (now : ℕ) (m : StageManager)
    → IsEventKind e
    → m.last_now_ns ≤ now
    → IsWellFormed m
    → IsWellFormed (fresh_event e now m).1
unfolding fresh_event record_audit
fresh_event-IsWellFormed e now m k le h = ground (
  arith,
  conclude_event-IsWellFormed e now (resolve_event_checked e now m)
      (resolve_event_checked-IsConsistent e now m k (IsConsistent-later le h.consistent)),
)

known_event-IsWellFormed :
    (e : RuleEvent) (now : ℕ) (o : Option RuleEvent) (m : StageManager)
    → IsEventKind e
    → m.last_now_ns ≤ now
    → IsWellFormed m
    → IsWellFormed (known_event e now o m).1
unfolding repeat_event record_audit
known_event-IsWellFormed e now Option.none m k le h = fresh_event-IsWellFormed e now m k le h
known_event-IsWellFormed e now (some prior) m k le h = ground (arith, advance_keeps now m le h)

pub resolve_event-IsWellFormed :
    (e : RuleEvent) (now : ℕ) (m : StageManager)
    → IsEventKind e
    → IsWellFormed m
    → Leaves (resolve_event e now m)
unfolding resolve_event
resolve_event-IsWellFormed e now m k h = elim (Bool-cases (ltb now m.last_now_ns)) [
  | inl back ↦ rw back h
  | inr on ↦
      rw on (known_event-IsWellFormed e now (Dict.get e.event_id m.event_ids) m k (ground arith) h)
]

pub acknowledge_reset-IsWellFormed :
    (stage_id : String) (acks : List String) (m : StageManager)
    → IsWellFormed m
    → Leaves (acknowledge_reset stage_id acks m)
unfolding acknowledge_reset record_audit
acknowledge_reset-IsWellFormed stage_id acks m h = ground arith

pub acknowledge_localization_epoch-IsWellFormed :
    (stage_id : String) (acks : List String) (m : StageManager)
    → IsWellFormed m
    → Leaves (acknowledge_localization_epoch stage_id acks m)
unfolding acknowledge_localization_epoch record_audit
acknowledge_localization_epoch-IsWellFormed stage_id acks m h = ground arith

pub change_localization_epoch-IsWellFormed :
    (epoch : String) (m : StageManager)
    → IsWellFormed m
    → Leaves (change_localization_epoch epoch m)
unfolding change_localization_epoch record_audit
change_localization_epoch-IsWellFormed epoch m h =
    ground (arith, enter_localization_epoch-IsWellFormed epoch m)

pub change_clock_epoch-IsWellFormed :
    (generated epoch : String) (now : ℕ) (m : StageManager)
    → IsWellFormed m
    → Leaves (change_clock_epoch generated epoch now m)
unfolding change_clock_epoch record_audit
change_clock_epoch-IsWellFormed generated epoch now m h =
    ground (arith, enter_clock_epoch-IsWellFormed generated epoch now m)

pub snapshot-IsWellFormed :
    (now map_version topology_version : ℕ) (m : StageManager)
    → IsWellFormed m
    → Leaves (snapshot now map_version topology_version m)
unfolding snapshot snapshot_at
snapshot-IsWellFormed now map_version topology_version m h =
    timed_keeps now (snapshot_at now map_version topology_version) m (λ m' now' h'. ground arith) h
