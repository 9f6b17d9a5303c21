-- ===== src/Tests/Adjudication.antt =====
-- The adjudication and the barriers, at concrete inputs.
use hsl.Prelude.{
  ◌<◌, String, true, false, List, [], ◌∷◌, ◌≡◌, ◌≢◌, ◌⊎◌, ◌↔◌, inl, inr, refl, arith, All, IsIn,
  contains, is_subset, is_empty, ◌||◌, is_blank, string_eq, eq_iff,
}
use hsl.Prelude.Outcome.{ok}
use hsl.Prelude.Dict
use hsl.Match.Types.{RequestResult}
use hsl.Match.Enums.{StagePhase, TerminalKind, EventEvidence, EventResolution, Role}
use hsl.Match.Types.{RuleEvent, result}
use hsl.Match.Manager.{StageManager}
use hsl.Match.Events.{terminalize}
use hsl.Match.Events.Loops.{Clashes}
use hsl.Match.Events.Verdict.{considered, terminalize-ambiguous, terminalize-verdict}
use hsl.Match.Resolution.{decide_resolution}
use hsl.Match.Reset.{
  required_reset_acks, acknowledge_reset, acknowledge_localization_epoch, decide_reset,
  barrier_result, change_localization_epoch,
}
use hsl.Match.Reset.Barrier.{
  reset_parts, epoch_parts, IsDisarmed, acknowledge_reset-releases,
  acknowledge_localization_epoch-releases, decide_reset-accepted, change_localization_epoch-stuck,
}
use hsl.Tests.Data.{manager, event, capture, abort, late_abort}

abbrev running : StageManager
running = record manager {
  phase = StagePhase.active;
  stage_started_at_ns = 1000;
  freeze_ends_at_ns = 1010;
  stage_ends_at_ns = 1100;
  last_now_ns = 1050;
}

-- The abort may have come before the capture has ended.
abbrev contested : StageManager
contested = record running { official_events = capture ∷ abort ∷ [] }

meets : Clashes capture abort
meets = record { kinds = ground arith; starts = omega arith; ends = omega arith }

abbrev uncontested : StageManager
uncontested = record running { official_events = late_abort ∷ capture ∷ [] }

two_events : uncontested.official_events ≢ []
two_events h = ground arith

peaceful :
    (a b : RuleEvent)
    → IsIn a (considered uncontested)
    → IsIn b (considered uncontested)
    → Clashes a b
    → ⊥
unfolding Dict.values
peaceful a b (inl h) (inl k) c = ground (arith, c.kinds)
peaceful a b (inl h) (inr (inl k)) c = ground (arith, c.ends)
peaceful a b (inl h) (inr (inr l)) c = absurd l
peaceful a b (inr (inl h)) (inr (inr l)) c = absurd l
peaceful a b (inr (inr l)) k c = absurd l
peaceful a b (inr (inl h)) (inl k) c = ground (arith, c.starts)
peaceful a b (inr (inl h)) (inr (inl k)) c = ground (arith, c.kinds)

terminalize-ambiguous_example :
    ((terminalize contested).phase ≡ StagePhase.terminal)
    × ((terminalize contested).terminal_kind ≡ TerminalKind.ambiguous)
    × ((terminalize contested).event_hold ≡ true)
terminalize-ambiguous_example =
    terminalize-ambiguous contested capture abort (λ h. ground arith) (inl refl) (inr (inl refl))
      meets

terminalize-verdict_example :
    ((terminalize uncontested).phase ≡ StagePhase.terminal)
    × ((terminalize uncontested).event_hold ≡ false)
    × (e : RuleEvent) × IsIn e uncontested.official_events
    × ((terminalize uncontested).terminal_kind ≡ e.kind)
    × All
        (λ x. (e.kind ≡ x.kind) ⊎ (e.event_time_upper_ns < x.event_time_lower_ns))
        uncontested.official_events
unfolding Dict.values
terminalize-verdict_example =
    terminalize-verdict uncontested two_events (omega arith, (omega arith, tt)) tt peaceful

-- Both barriers are pending, and all parts but two have acknowledged.
abbrev barred : StageManager
barred = record manager {
  reset_barrier_pending = true;
  reset_acks = "actions" ∷ "execution" ∷ "candidates" ∷ "memory" ∷ [];
  epoch_barrier_pending = true;
  epoch_acks = "actions" ∷ "candidates" ∷ "map" ∷ "world" ∷ [];
}

abbrev last_acks : List String
last_acks = "plans" ∷ "tracks" ∷ []

acknowledge_reset-releases_example :
    ((acknowledge_reset "stage" last_acks barred).0 ≡ ok true
      ↔ ("stage" ≡ barred.stage_id)
        × (is_subset last_acks reset_parts ≡ true)
        × All
            (λ part. contains part last_acks || contains part barred.reset_acks ≡ true)
            reset_parts)
    × ((acknowledge_reset "stage" last_acks barred).0 ≡ ok true
        ↔ (acknowledge_reset "stage" last_acks barred).1.reset_barrier_pending ≡ false)
    × ("stage" ≡ barred.stage_id
        → is_subset last_acks reset_parts ≡ true
        → (part : String)
        → contains part (acknowledge_reset "stage" last_acks barred).1.reset_acks
          ≡ contains part last_acks || contains part barred.reset_acks)
    × (is_subset (acknowledge_reset "stage" last_acks barred).1.reset_acks reset_parts ≡ true)
acknowledge_reset-releases_example = acknowledge_reset-releases "stage" last_acks barred refl refl

acknowledge_localization_epoch-releases_example :
    ((acknowledge_localization_epoch "stage" last_acks barred).0 ≡ ok true
      ↔ ("stage" ≡ barred.stage_id)
        × (is_subset last_acks epoch_parts ≡ true)
        × All
            (λ part. contains part last_acks || contains part barred.epoch_acks ≡ true)
            epoch_parts)
    × ((acknowledge_localization_epoch "stage" last_acks barred).0 ≡ ok true
        ↔ (acknowledge_localization_epoch "stage" last_acks barred).1.epoch_barrier_pending ≡ false)
    × ("stage" ≡ barred.stage_id
        → is_subset last_acks epoch_parts ≡ true
        → (part : String)
        → contains part (acknowledge_localization_epoch "stage" last_acks barred).1.epoch_acks
          ≡ contains part last_acks || contains part barred.epoch_acks)
    × (is_subset (acknowledge_localization_epoch "stage" last_acks barred).1.epoch_acks epoch_parts
        ≡ true)
acknowledge_localization_epoch-releases_example =
    acknowledge_localization_epoch-releases "stage" last_acks barred refl refl

granted :
    (decide_reset "second" "stage" 2 Role.guardian "" "organizer" manager).0
    ≡ ok
        (barrier_result "stage_reset_pending_downstream_revocation" "second" required_reset_acks "")
unfolding decide_reset is_blank
granted = refl

abbrev reset_result : RequestResult
reset_result = barrier_result "stage_reset_pending_downstream_revocation" "second" reset_parts ""

decide_reset-accepted_example :
    ("stage" ≡ manager.stage_id)
    × (manager.reset_barrier_pending ≡ false)
    × ((manager.phase ≡ StagePhase.init) ⊎ (manager.phase ≡ StagePhase.terminal))
    × ("organizer" ≡ manager.profile.organizer_authorization_ref)
    × ((is_empty "" ≡ true) ⊎ (contains "" manager.profile.approved_memory_profile_ids ≡ true))
    × (is_blank "second" ≡ false)
    × (contains "second" manager.used_stage_ids ≡ false)
    × ((reset_result.stage_id ≡ "second")
        × (reset_result.memory_profile_id ≡ "")
        × (reset_result.reset_effects_required ≡ reset_parts))
    × IsDisarmed "second" 2 Role.guardian manager
        (decide_reset "second" "stage" 2 Role.guardian "" "organizer" manager).1
decide_reset-accepted_example =
    decide_reset-accepted "second" "stage" 2 Role.guardian "" "organizer" manager reset_result
      granted refl

-- Two estimates are pending, so that none is the held one.
abbrev holding : StageManager
holding = record running {
  event_hold = true;
  pending_estimates =
      ("a", event "a" TerminalKind.capture EventEvidence.estimate 1020 1030)
      ∷ ("b", event "b" TerminalKind.capture EventEvidence.estimate 1025 1030)
      ∷ [];
}

named : is_blank "map2" ≡ false
unfolding is_blank
named = refl

abbrev old_epoch : String
old_epoch = "map"

abbrev new_epoch : String
new_epoch = "map2"

other_epoch : new_epoch ≢ old_epoch
other_epoch h = let e = (eq_iff new_epoch old_epoch).1 h in ground (arith, e)

no_decision : EventResolution.dismiss_estimate ≢ EventResolution.set_official_terminal
no_decision h = ground arith

change_localization_epoch-stuck_example :
    let m' = (change_localization_epoch "map2" holding).1 in
    (m'.event_hold ≡ true)
    × (m'.pending_estimates ≡ [])
    × (decide_resolution "stage" "a" EventResolution.dismiss_estimate TerminalKind.none "organizer"
          1060 m'
        ≡ (result false "matching_estimate_not_held" holding.stage_id, m'))
change_localization_epoch-stuck_example =
    change_localization_epoch-stuck "map2" "a" "stage" "organizer" EventResolution.dismiss_estimate
      TerminalKind.none 1060 holding named other_epoch refl refl no_decision refl refl
