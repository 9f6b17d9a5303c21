-- ===== src/Tests/Requests.antt =====
-- The starts, the zones and the replay of requests, at concrete inputs.
use hsl.Prelude.{
  List, [], ◌∷◌, ℕ, ◌+◌, ◌≤◌, true, false, ◌≡◌, ◌≢◌, ◌⊎◌, refl, arith, contains, is_blank,
  string_eq,
}
use hsl.Prelude.Int.{pos}
use hsl.Prelude.Outcome.{ok}
use hsl.Prelude.Dict
use hsl.Match.Enums.{StagePhase, ZoneStatus, ZonePurpose}
use hsl.Match.Types.{RequestResult, result}
use hsl.Match.Manager.{StageManager, Request, Method, advance, timed, record_audit, no_details}
use hsl.Match.Manager as Manager
use hsl.Match.Requests.{answer, cached, succeed, finish_request, remember}
use hsl.Match.Requests.Replay.{Remembers, answered-Remembers, advance-operations}
use hsl.Match.Requests.Repetition.{answer-repeated}
use hsl.Match.Calls.{Call, perform, perform_all}
use hsl.Match.Snapshot.{snapshot, snapshot_at}
use hsl.Match.Reset.{
  acknowledge_reset, without_estimates, change_localization_epoch, enter_localization_epoch,
}
use hsl.Match.Lifecycle.{max_stamp, decide_start, decide_zone, goal_zone, advance_if_accepted}
use hsl.Match.Lifecycle.Start.{decide_start-accepted, decide_zone-accepted}
use hsl.Tests.Data.{manager, goal}

accepted : (decide_start "stage" (pos 1000) "organizer" 1000 manager).0.accepted ≡ true
unfolding decide_start
accepted = refl

zone_accepted : (decide_zone "stage" goal "organizer" 1000 manager).0.accepted ≡ true
unfolding decide_zone
zone_accepted = refl

decide_start-accepted_example :
    ("stage" ≡ manager.stage_id)
    × (manager.phase ≡ StagePhase.init)
    × (manager.reset_barrier_pending ≡ false)
    × (manager.epoch_barrier_pending ≡ false)
    × ("organizer" ≡ manager.profile.organizer_authorization_ref)
    × (official : ℕ) × ((pos 1000) ≡ pos official)
    × (official ≤ 1000)
    × (let m' = (decide_start "stage" (pos 1000) "organizer" 1000 manager).1 in
        (m'.phase ≡ StagePhase.freeze)
        × (m'.stage_started_at_ns ≡ official)
        × (m'.freeze_ends_at_ns ≡ official + manager.profile.freeze_duration_ns)
        × (m'.stage_ends_at_ns ≡ official + manager.profile.stage_duration_ns)
        × (m'.stage_ends_at_ns ≤ max_stamp)
        × (m'.freeze_ends_at_ns ≤ max_stamp))
decide_start-accepted_example =
    decide_start-accepted "stage" (pos 1000) "organizer" 1000 manager accepted

decide_zone-accepted_example :
    ("stage" ≡ manager.stage_id)
    × (manager.reset_barrier_pending ≡ false)
    × (manager.epoch_barrier_pending ≡ false)
    × ("organizer" ≡ manager.profile.organizer_authorization_ref)
    × ((manager.phase ≡ StagePhase.init)
        ⊎ ((manager.phase ≡ StagePhase.freeze)
            × (1000 ≤ manager.stage_started_at_ns + manager.profile.zone_update_window_ns)))
    × ((goal.status ≢ ZoneStatus.accepted)
        ⊎ ((contains goal.approval_ref manager.authorization_refs ≡ true)
            × (contains goal.frame_id manager.approved_zone_frames ≡ true)))
    × (goal_zone goal.purpose (decide_zone "stage" goal "organizer" 1000 manager).1 ≡ goal)
    × ((purpose : ZonePurpose)
        → purpose ≢ goal.purpose
        → goal_zone purpose (decide_zone "stage" goal "organizer" 1000 manager).1
          ≡ goal_zone purpose manager)
decide_zone-accepted_example =
    decide_zone-accepted "stage" goal "organizer" 1000 manager zone_accepted

abbrev request : Request
request = Manager.start "stage" (pos 1000) "organizer"

abbrev decide : Method RequestResult
decide m = succeed (decide_start "stage" (pos 1000) "organizer" 1000 m)

abbrev after : RequestResult → StageManager → StageManager
after = advance_if_accepted 1000

abbrev latched : RequestResult
latched = result true "stage_start_latched" "stage"

answers : (timed 1000 (answer "r" request after decide) manager).0 ≡ ok latched
unfolding timed answer is_blank cached advance decide_start
answers = refl

after-operations : (r : RequestResult) (m : StageManager) → (after r m).operations ≡ m.operations
after-operations r m = ground (arith, advance-operations 1000 m)

-- What happens between a request and its repetition: calls of other methods.
abbrev between : List Call
between = Call.ack_reset "stage" [] ∷ Call.localization_epoch "map2" ∷ Call.snap 1020 1 1 ∷ []

ended :
    (perform_all between (timed 1000 (answer "r" request after decide) manager).1).last_now_ns
    ≡ 1020
unfolding perform_all perform timed answer is_blank cached advance decide_start finish_request
    remember record_audit acknowledge_reset change_localization_epoch enter_localization_epoch
    snapshot snapshot_at Dict.get Dict.put without_estimates
ended = refl

answer-repeated_example :
    timed 1050
      (answer "r" request after decide)
      (perform_all between (timed 1000 (answer "r" request after decide) manager).1)
    ≡ (
      ok latched,
      advance 1050 (perform_all between (timed 1000 (answer "r" request after decide) manager).1),
    )
unfolding Dict.get
answer-repeated_example =
    answer-repeated "r" request after after decide decide 1000 1050 manager latched between
      after-operations refl (omega arith) answers refl (omega (arith, ended))

answered-Remembers_example :
    Remembers "r" request latched (timed 1000 (answer "r" request after decide) manager).1
    × (is_blank "r" ≡ false)
    × (manager.last_now_ns ≤ 1000)
unfolding Dict.get
answered-Remembers_example =
    answered-Remembers "r" request after decide after-operations 1000 manager {r = latched} refl
      (omega arith) answers
