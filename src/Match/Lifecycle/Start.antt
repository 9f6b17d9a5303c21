-- ===== src/Match/Lifecycle/Start.antt =====
-- What a stage asks for to start, and what a zone asks for to be recorded.
use hsl.Prelude.{
  ℕ, ◌+◌, ◌≤◌, refl, String, true, false, ◌≡◌, ◌≢◌, ◌⊎◌, arith, eq_iff, contains, string_eq,
}
use hsl.Prelude.Int.{ℤ, pos, negsuc}
use hsl.Prelude.Dict
use hsl.Prelude.Dict.{Dict}
use hsl.Match.Enums.{StagePhase, ZoneStatus, ZonePurpose, purpose_eq, purpose_beq_iff}
use hsl.Match.Types.{GoalZone}
use hsl.Match.Manager.{StageManager, is_authorized, is_approved_reference}
use hsl.Match.Lifecycle.{
  max_stamp, start_refusal, latch_start, decide_start, zone_refusal, decide_zone, goal_zone,
}

-- A start is accepted only for the current stage, in INIT, with no barrier pending, under the
-- organizer's authorization, with a stamp that is neither negative nor in the future. It latches the
-- stamp, the freeze and the deadline of the profile, within the range of stamps.
pub decide_start-accepted :
    (expected : String) (stamp : ℤ) (ref : String) (now : ℕ) (m : StageManager)
    → (decide_start expected stamp ref now m).0.accepted ≡ true
    → (expected ≡ m.stage_id)
      × (m.phase ≡ StagePhase.init)
      × (m.reset_barrier_pending ≡ false)
      × (m.epoch_barrier_pending ≡ false)
      × (ref ≡ m.profile.organizer_authorization_ref)
      × (official : ℕ) × (stamp ≡ pos official)
      × (official ≤ now)
      × (let m' = (decide_start expected stamp ref now m).1 in
          (m'.phase ≡ StagePhase.freeze)
          × (m'.stage_started_at_ns ≡ official)
          × (m'.freeze_ends_at_ns ≡ official + m.profile.freeze_duration_ns)
          × (m'.stage_ends_at_ns ≡ official + m.profile.stage_duration_ns)
          × (m'.stage_ends_at_ns ≤ max_stamp)
          × (m'.freeze_ends_at_ns ≤ max_stamp))
unfolding decide_start start_refusal latch_start is_authorized
decide_start-accepted expected (pos official) ref now m a =
    let facts = eq_iff expected m.stage_id in
    let approved = eq_iff ref m.profile.organizer_authorization_ref in
    (
      ground (arith, facts),
      ground arith,
      ground arith,
      ground arith,
      ground (arith, approved),
      official,
      refl,
      ground arith,
      ground arith,
    )
decide_start-accepted expected (negsuc n) ref now m a = ground arith

zone_put-other :
    (purpose : ZonePurpose) (z : GoalZone) (zones : Dict ZonePurpose GoalZone)
    → purpose ≢ z.purpose
    → Dict.get purpose (Dict.put z.purpose z zones) ≡ Dict.get purpose zones
zone_put-other purpose z zones other =
    ground (arith, Dict.get-put z.purpose purpose z zones, purpose_beq_iff z.purpose purpose)

-- A zone is recorded only for the current stage, with no barrier pending, under the organizer's
-- authorization, in INIT or within the update window of FREEZE, and, if its status is accepted, with
-- an approved frame and approval. It is then the zone that its purpose is read as, and the other
-- purposes are read as before.
pub decide_zone-accepted :
    (expected : String) (z : GoalZone) (ref : String) (now : ℕ) (m : StageManager)
    → (decide_zone expected z ref now m).0.accepted ≡ true
    → (expected ≡ m.stage_id)
      × (m.reset_barrier_pending ≡ false)
      × (m.epoch_barrier_pending ≡ false)
      × (ref ≡ m.profile.organizer_authorization_ref)
      × ((m.phase ≡ StagePhase.init)
          ⊎ ((m.phase ≡ StagePhase.freeze)
              × (now ≤ m.stage_started_at_ns + m.profile.zone_update_window_ns)))
      × ((z.status ≢ ZoneStatus.accepted)
          ⊎ ((contains z.approval_ref m.authorization_refs ≡ true)
              × (contains z.frame_id m.approved_zone_frames ≡ true)))
      × (goal_zone z.purpose (decide_zone expected z ref now m).1 ≡ z)
      × ((purpose : ZonePurpose)
          → purpose ≢ z.purpose
          → goal_zone purpose (decide_zone expected z ref now m).1 ≡ goal_zone purpose m)
unfolding decide_zone zone_refusal goal_zone is_authorized is_approved_reference
decide_zone-accepted expected z ref now m a =
    let facts = eq_iff expected m.stage_id in
    let approved = eq_iff ref m.profile.organizer_authorization_ref in
    (
      ground (arith, facts),
      ground arith,
      ground arith,
      ground (arith, approved),
      ground arith,
      ground arith,
      ground (arith, Dict.get-put z.purpose z.purpose z m.zones),
      λ purpose other. ground (arith, zone_put-other purpose z m.zones other),
    )
