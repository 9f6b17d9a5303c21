-- ===== src/Match/Requests/Repetition.antt =====
-- A repeated request is answered as before: its answer stays remembered under all calls but a change of
-- the clock epoch.
use hsl.Prelude.{
  ℕ, ◌≤◌, ◌<◌, String, Bool, true, false, ◌≡◌, refl, ◌∙◌, inl, inr, Option, some, List, [], ◌∷◌,
  arith, any, length, is_blank, ltb, Bool-cases, pair_eq, pair_beq_iff, string_eq,
}
use hsl.Prelude.Int.{ℤ}
use hsl.Prelude.Outcome.{Outcome, ok, raised}
use hsl.Prelude.Dict
use hsl.Match.Enums.{
  Role, TerminalKind, EventResolution, purpose_eq, phase_eq, evidence_eq, kind_eq,
}
use hsl.Match.Types.{GoalZone, RequestResult}
use hsl.Match.Checks.{check_event, check_zone}
use hsl.Match.Manager.{
  StageManager, OperationRecord, Request, Method, timed, advance, record_audit, no_details,
}
use hsl.Match.Manager as Manager
use hsl.Match.Requests.{
  answer_or, operation_of, cached, remember, finish_request, answer, return_at_once, succeed,
  request_eq,
}
use hsl.Match.Requests.Replay.{advance-operations, answer-remembered, answered-Remembers}
use hsl.Match.Lifecycle.{decide_start, decide_zone, advance_if_accepted, start_stage, set_goal_zone}
use hsl.Match.Adjudication.{resolve_event}
use hsl.Match.Resolution.{decide_resolution, resolve_estimate}
use hsl.Match.Reset.{
  decide_reset, reset_stage, acknowledge_reset, acknowledge_localization_epoch,
  change_localization_epoch,
}
use hsl.Match.Snapshot.{snapshot}
use hsl.Match.Calls.{
  Call, start, zone, event, resolve, reset, ack_reset, ack_epoch, localization_epoch, clock_epoch,
  snap, passes, perform, perform_all,
}
use hsl.Match.Requests.Keeping.{
  Keeps, decide_start-Keeps, decide_zone-Keeps, decide_resolution-Keeps, decide_reset-Keeps,
  resolve_event-Keeps, acknowledge_reset-Keeps, acknowledge_localization_epoch-Keeps,
  change_localization_epoch-Keeps, snapshot-Keeps, advance_if_accepted-Keeps, cached-Keeps,
  cached-unknown,
}

-- A change of the clock epoch, which forgets the answers.
abbrev pub is_clock_epoch : Call → Bool
is_clock_epoch (clock_epoch g e now) = true
is_clock_epoch _ = false

-- The answer to a request is there.
abbrev Holds : String × String → OperationRecord → StageManager → Type 0
Holds key answered m = Dict.get key m.operations ≡ some answered

module _ (key : String × String) (answered : OperationRecord) where
  kept : (m m' : StageManager) → Keeps m m' → Holds key answered m → Holds key answered m'
  kept m m' same h = rw (same) h

  remember-Holds :
      (request_id : String) (request : Request) (r : RequestResult) (m : StageManager)
      → Dict.get (operation_of request, request_id) m.operations ≡ Option.none
      → Holds key answered m
      → Holds key answered (remember request_id request r m)
  unfolding remember record_audit
  remember-Holds request_id request r m free h = ground (
    arith,
    free,
    h,
    Dict.get-put (operation_of request, request_id) key (record { request = request; result = r })
        m.operations,
    pair_beq_iff (operation_of request, request_id) key,
  )

  finish_request-Holds :
      (request_id : String) (request : Request)
      (after : RequestResult → StageManager → StageManager)
      (d : Outcome RequestResult × StageManager)
      → ((r : RequestResult) (m : StageManager) → Keeps m (after r m))
      → Dict.get (operation_of request, request_id) d.1.operations ≡ Option.none
      → Holds key answered d.1
      → Holds key answered (finish_request request_id request after d).1
  unfolding finish_request
  finish_request-Holds i q after (ok r, m) keep free h =
      kept (remember i q r m) (after r (remember i q r m)) (keep r (remember i q r m))
        (remember-Holds i q r m free h)
  finish_request-Holds i q after (raised e, m) keep free h = h

  answer_or-Holds :
      (request_id : String) (request : Request)
      (after : RequestResult → StageManager → StageManager) (decide : Method RequestResult)
      (c : Option RequestResult × StageManager) (m : StageManager)
      → ((r : RequestResult) (m' : StageManager) → Keeps m' (after r m'))
      → ((m' : StageManager) → Keeps m' (decide m').1)
      → Keeps m c.1
      → (c.0 ≡ Option.none → Dict.get (operation_of request, request_id) m.operations ≡ Option.none)
      → Holds key answered m
      → Holds key answered (answer_or request_id request after decide c).1
  answer_or-Holds i q after decide (some r, m') m keep decides same free h = kept m m' same h
  answer_or-Holds i q after decide (Option.none, m') m keep decides same free h =
      let both = decides m' ∙ same in
      finish_request-Holds i q after (decide m') keep (rw (both) (free refl))
        (kept m (decide m').1 both h)

  answer-Holds :
      (request_id : String) (request : Request)
      (after : RequestResult → StageManager → StageManager) (decide : Method RequestResult)
      (m : StageManager)
      → ((r : RequestResult) (m' : StageManager) → Keeps m' (after r m'))
      → ((m' : StageManager) → Keeps m' (decide m').1)
      → Holds key answered m
      → Holds key answered (answer request_id request after decide m).1
  unfolding answer
  answer-Holds i q after decide m keep decides h =
      let decided =
        answer_or-Holds i q after decide (cached i q m) m keep decides (cached-Keeps i q m)
          (cached-unknown i q m) h in
      elim (Bool-cases (is_blank i)) [ inl blank ↦ rw (blank) h | inr named ↦ rw (named) decided ]

  timed-Holds :
      (now : ℕ) (m : StageManager) (body : Method RequestResult)
      → ((m' : StageManager) → Holds key answered m' → Holds key answered (body m').1)
      → Holds key answered m
      → Holds key answered (timed now body m).1
  unfolding timed
  timed-Holds now m body keep h =
      let done = keep (advance now m) (kept m (advance now m) (advance-operations now m).0 h) in
      elim (Bool-cases (ltb now m.last_now_ns)) [
        | inl early ↦ rw (early) h
        | inr late ↦ rw (late) done
      ]

  answered-Holds :
      (request_id : String) (request : Request)
      (after : RequestResult → StageManager → StageManager) (decide : Method RequestResult)
      (now : ℕ) (m : StageManager)
      → ((r : RequestResult) (m' : StageManager) → Keeps m' (after r m'))
      → ((m' : StageManager) → Keeps m' (decide m').1)
      → Holds key answered m
      → Holds key answered (timed now (answer request_id request after decide) m).1
  answered-Holds i q after decide now m keep decides h =
      timed-Holds now m (answer i q after decide)
        (λ m'. answer-Holds i q after decide m' keep decides) h

  start_stage-Holds :
      (i x : String) (o : ℤ) (r : String) (now : ℕ) (m : StageManager)
      → Holds key answered m
      → Holds key answered (start_stage i x o r now m).1
  unfolding start_stage
  start_stage-Holds i x o r now m h =
      answered-Holds i (Manager.start x o r) (advance_if_accepted now)
        (λ m'. succeed (decide_start x o r now m')) now m (advance_if_accepted-Keeps now)
        (decide_start-Keeps x o r now) h

  set_goal_zone-Holds :
      (i x : String) (z : GoalZone) (r : String) (now : ℕ) (m : StageManager)
      → Holds key answered m
      → Holds key answered (set_goal_zone i x z r now m).1
  unfolding set_goal_zone
  set_goal_zone-Holds i x z r now m h =
      answered-Holds i (Manager.zone x z r) return_at_once
        (λ m'. succeed (decide_zone x z r now m')) now m (λ r' m'. refl)
        (decide_zone-Keeps x z r now) h

  resolve_estimate-Holds :
      (i x e : String) (d : EventResolution) (k : TerminalKind) (r : String) (now : ℕ)
      (m : StageManager)
      → Holds key answered m
      → Holds key answered (resolve_estimate i x e d k r now m).1
  unfolding resolve_estimate
  resolve_estimate-Holds i x e d k r now m h =
      let done =
        answered-Holds i (Manager.resolve x e d k r) return_at_once
          (λ m'. succeed (decide_resolution x e d k r now m')) now m (λ r' m'. refl)
          (decide_resolution-Keeps x e d k r now) h in
      elim (Bool-cases (is_blank e)) [ inl blank ↦ rw (blank) h | inr named ↦ rw (named) done ]

  reset_stage-Holds :
      (g i x : String) (number : ℕ) (o : Role) (p r : String) (now : ℕ) (m : StageManager)
      → Holds key answered m
      → Holds key answered (reset_stage g i x number o p r now m).1
  unfolding reset_stage
  reset_stage-Holds g i x number o p r now m h =
      let done =
        answered-Holds i (Manager.reset x number o p r) return_at_once
          (decide_reset g x number o p r) now m (λ r' m'. refl)
          (decide_reset-Keeps g x number o p r) h in
      elim (Bool-cases (ltb 255 number)) [ inl large ↦ rw (large) h | inr fits ↦ rw (fits) done ]

  perform-Holds :
      (c : Call) (m : StageManager)
      → is_clock_epoch c ≡ false
      → Holds key answered m
      → Holds key answered (perform c m)
  unfolding perform
  perform-Holds (start i x o r now) m n h = start_stage-Holds i x o r now m h
  perform-Holds (zone i x z r now) m n h = elim (Bool-cases (passes (check_zone z))) [
    | inl valid ↦ rw (valid) (set_goal_zone-Holds i x z r now m h)
    | inr bad ↦ rw (bad) h
  ]
  perform-Holds (event e now) m n h = elim (Bool-cases (passes (check_event e))) [
    | inl valid ↦ rw (valid) (kept m (resolve_event e now m).1 (resolve_event-Keeps e now m) h)
    | inr bad ↦ rw (bad) h
  ]
  perform-Holds (resolve i x e d k r now) m n h = resolve_estimate-Holds i x e d k r now m h
  perform-Holds (reset g i x number o p r now) m n h = reset_stage-Holds g i x number o p r now m h
  perform-Holds (ack_reset s a) m n h =
      kept m (acknowledge_reset s a m).1 (acknowledge_reset-Keeps s a m) h
  perform-Holds (ack_epoch s a) m n h =
      kept m (acknowledge_localization_epoch s a m).1 (acknowledge_localization_epoch-Keeps s a m) h
  perform-Holds (localization_epoch e) m n h =
      kept m (change_localization_epoch e m).1 (change_localization_epoch-Keeps e m) h
  perform-Holds (clock_epoch g e now) m n h = absurd (ground (arith, n))
  perform-Holds (snap now v w) m n h = kept m (snapshot now v w m).1 (snapshot-Keeps now v w m) h

  perform_all-Holds :
      (cs : List Call) (m : StageManager)
      → any is_clock_epoch cs ≡ false
      → Holds key answered m
      → Holds key answered (perform_all cs m)
  unfolding perform_all
  perform_all-Holds [] m n h = h
  perform_all-Holds (c ∷ cs) m n h =
      perform_all-Holds cs (perform c m) (ground (arith, n))
        (perform-Holds c m (ground (arith, n)) h)

-- A request that is answered with `r` under an ID that was free and within the capacity is answered
-- with `r` again whenever it is repeated, whatever calls other than a change of the clock epoch come
-- between, and whatever the method would then decide and do: the repetition applies the clock, and
-- changes nothing else. (`after` is what the method does between remembering and returning; it leaves
-- the remembered answers alone.)
pub answer-repeated :
    (request_id : String) (request : Request)
    (after after' : RequestResult → StageManager → StageManager)
    (decide decide' : Method RequestResult) (now later : ℕ) (m : StageManager) (r : RequestResult)
    (cs : List Call)
    → ((r : RequestResult) (m : StageManager) → (after r m).operations ≡ m.operations)
    → Dict.get (operation_of request, request_id) m.operations ≡ Option.none
    → length m.operations < m.profile.max_request_records
    → (timed now (answer request_id request after decide) m).0 ≡ ok r
    → any is_clock_epoch cs ≡ false
    → (perform_all cs (timed now (answer request_id request after decide) m).1).last_now_ns ≤ later
    → timed later
        (answer request_id request after' decide')
        (perform_all cs (timed now (answer request_id request after decide) m).1)
      ≡ (
        ok r,
        advance later (perform_all cs (timed now (answer request_id request after decide) m).1),
      )
answer-repeated i q after after' decide decide' now later m r cs keep free room first n le =
    let key : String × String = (operation_of q, i) in
    let entry : OperationRecord = record { request = q; result = r } in
    let done = (timed now (answer i q after decide) m).1 in
    let (there, named, on_time) =
      answered-Remembers i q after decide keep now m {r = r} free room first in
    let last = perform_all cs done in
    let still = perform_all-Holds key entry cs done n there in
    answer-remembered i q after' decide' r later last named le
      (kept key entry last (advance later last) (advance-operations later last).0 still)
