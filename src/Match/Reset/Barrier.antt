-- ===== src/Match/Reset/Barrier.antt =====
-- The barriers: what raises them, what releases them, and what they block.
use hsl.Prelude.{
  ℕ, String, true, false, ◌↔◌, ◌||◌, refl, inl, inr, Bool-cases, All, if◌then◌else◌, ◌==◌, ◌⊎◌,
  Option, List, [], ◌∷◌, ◌≡◌, ◌≢◌, arith, contains, is_subset, is_blank, is_empty, string_eq,
  eq_iff,
}
use hsl.Prelude.Outcome.{ok}
use hsl.Prelude.Dict
use hsl.Match.Enums.{StagePhase, Role, TerminalKind, EventEvidence, EventResolution}
use hsl.Match.Types.{RequestResult, result}
use hsl.Match.Manager.{StageManager, record_audit, is_authorized}
use hsl.Match.Resolution.{decide_resolution, resolution_refusal, decide_pending}
use hsl.Match.Reset.{
  add_acks, ack_reset_barrier, acknowledge_reset, ack_epoch_barrier, acknowledge_localization_epoch,
  reset_with, decide_reset, reset_refusal, disarm, change_localization_epoch,
  enter_localization_epoch,
}

contains-add_acks :
    (acks received : List String) (a : String)
    → contains a (add_acks acks received) ≡ contains a acks || contains a received
unfolding add_acks
contains-add_acks [] received a = refl
contains-add_acks (x ∷ xs) received a =
    let rest = contains-add_acks xs (if contains x received then received else x ∷ received) a in
    elim (Bool-cases (x == a)) [
      | inl same ↦ ground (arith, rest, same, eq_iff x a)
      | inr other ↦ ground (arith, rest, other)
    ]

is_subset-add_acks :
    (parts acks received : List String)
    → is_subset parts (add_acks acks received) ≡ true
      ↔ All (λ part. contains part acks || contains part received ≡ true) parts
is_subset-add_acks [] acks received = ground arith
is_subset-add_acks (part ∷ parts) acks received =
    ground (arith, is_subset-add_acks parts acks received, contains-add_acks acks received part)

add_acks-is_subset :
    (acks received parts : List String)
    → is_subset received parts ≡ true
    → is_subset acks parts ≡ true
    → is_subset (add_acks acks received) parts ≡ true
unfolding add_acks
add_acks-is_subset [] received parts known h = known
add_acks-is_subset (x ∷ xs) received parts known h =
    add_acks-is_subset xs (if contains x received then received else x ∷ received) parts
      (ground (arith, known, h)) (ground (arith, h))

-- The parts of the system that a reset and a new localization epoch wait for.
abbrev pub reset_parts : List String
reset_parts = "actions" ∷ "execution" ∷ "plans" ∷ "candidates" ∷ "tracks" ∷ "memory" ∷ []

abbrev pub epoch_parts : List String
epoch_parts = "actions" ∷ "plans" ∷ "candidates" ∷ "tracks" ∷ "map" ∷ "world" ∷ []

-- With the reset barrier pending, and only known parts acknowledged before, an acknowledgement returns
-- true, and releases the barrier, exactly if it is for the current stage, names known parts only, and
-- each of the six parts is among them or was received before. What is acknowledged for the current
-- stage adds to what was received before.
pub acknowledge_reset-releases :
    (stage_id : String) (acks : List String) (m : StageManager)
    → m.reset_barrier_pending ≡ true
    → is_subset m.reset_acks reset_parts ≡ true
    → ((acknowledge_reset stage_id acks m).0 ≡ ok true
        ↔ (stage_id ≡ m.stage_id)
          × (is_subset acks reset_parts ≡ true)
          × All (λ part. contains part acks || contains part m.reset_acks ≡ true) reset_parts)
      × ((acknowledge_reset stage_id acks m).0 ≡ ok true
          ↔ (acknowledge_reset stage_id acks m).1.reset_barrier_pending ≡ false)
      × (stage_id ≡ m.stage_id
          → is_subset acks reset_parts ≡ true
          → (part : String)
          → contains part (acknowledge_reset stage_id acks m).1.reset_acks
            ≡ contains part acks || contains part m.reset_acks)
      × (is_subset (acknowledge_reset stage_id acks m).1.reset_acks reset_parts ≡ true)
unfolding acknowledge_reset ack_reset_barrier record_audit
acknowledge_reset-releases stage_id acks m p known =
    let subset = add_acks-is_subset acks m.reset_acks reset_parts known in
    let complete = is_subset-add_acks reset_parts acks m.reset_acks in
    let facts = eq_iff stage_id m.stage_id in
    (
      ground (arith, facts, subset, complete),
      ground (arith, facts),
      λ same fits part. ground (arith, facts, contains-add_acks acks m.reset_acks part),
      ground (arith, known, subset),
    )

-- With the localization-epoch barrier pending, and only known parts acknowledged before, an
-- acknowledgement returns true, and releases the barrier, exactly if it is for the current stage, names
-- known parts only, and each of the six parts is among them or was received before. What is acknowledged
-- for the current stage adds to what was received before.
pub acknowledge_localization_epoch-releases :
    (stage_id : String) (acks : List String) (m : StageManager)
    → m.epoch_barrier_pending ≡ true
    → is_subset m.epoch_acks epoch_parts ≡ true
    → ((acknowledge_localization_epoch stage_id acks m).0 ≡ ok true
        ↔ (stage_id ≡ m.stage_id)
          × (is_subset acks epoch_parts ≡ true)
          × All (λ part. contains part acks || contains part m.epoch_acks ≡ true) epoch_parts)
      × ((acknowledge_localization_epoch stage_id acks m).0 ≡ ok true
          ↔ (acknowledge_localization_epoch stage_id acks m).1.epoch_barrier_pending ≡ false)
      × (stage_id ≡ m.stage_id
          → is_subset acks epoch_parts ≡ true
          → (part : String)
          → contains part (acknowledge_localization_epoch stage_id acks m).1.epoch_acks
            ≡ contains part acks || contains part m.epoch_acks)
      × (is_subset (acknowledge_localization_epoch stage_id acks m).1.epoch_acks epoch_parts ≡ true)
unfolding acknowledge_localization_epoch ack_epoch_barrier record_audit
acknowledge_localization_epoch-releases stage_id acks m p known =
    let subset = add_acks-is_subset acks m.epoch_acks epoch_parts known in
    let complete = is_subset-add_acks epoch_parts acks m.epoch_acks in
    let facts = eq_iff stage_id m.stage_id in
    (
      ground (arith, facts, subset, complete),
      ground (arith, facts),
      λ same fits part. ground (arith, facts, contains-add_acks acks m.epoch_acks part),
      ground (arith, known, subset),
    )

-- The state behind a reset.
pub record IsDisarmed (generated : String) (stage_number : ℕ) (role : Role) (m m' : StageManager)
    : Type 0 where
  pub fresh : (m'.stage_id ≡ generated) × (m'.used_stage_ids ≡ generated ∷ m.used_stage_ids)
  pub assigned : (m'.stage_number ≡ stage_number) × (m'.role ≡ role)
  pub unstarted :
      (m'.phase ≡ StagePhase.init)
      × (m'.stage_started_at_ns ≡ 0)
      × (m'.freeze_ends_at_ns ≡ 0)
      × (m'.stage_ends_at_ns ≡ 0)
  pub undecided :
      (m'.terminal_kind ≡ TerminalKind.none) × (m'.terminal_evidence ≡ EventEvidence.estimate)
  pub unheld : (m'.event_hold ≡ false) × (m'.held_event ≡ Option.none) × (m'.pending_estimates ≡ [])
  pub cleared : (m'.official_events ≡ []) × (m'.event_ids ≡ []) × (m'.zones ≡ [])
  pub barred : (m'.reset_barrier_pending ≡ true) × (m'.reset_acks ≡ [])
  pub unbarred : (m'.epoch_barrier_pending ≡ false) × (m'.epoch_acks ≡ [])
  pub kept :
      (m'.profile ≡ m.profile)
      × (m'.operations ≡ m.operations)
      × (m'.last_now_ns ≡ m.last_now_ns)
      × (m'.authorization_refs ≡ m.authorization_refs)
      × (m'.approved_zone_frames ≡ m.approved_zone_frames)
  pub published : (m'.seq ≡ m.seq) × (m'.audit ≡ m.audit) × (m'.audit_seq ≡ m.audit_seq)

disarm-IsDisarmed :
    (generated : String) (stage_number : ℕ) (role : Role) (m : StageManager)
    → IsDisarmed generated stage_number role m
        (disarm generated (record m { stage_number = stage_number; role = role }))
unfolding disarm
disarm-IsDisarmed generated stage_number role m = record {
  fresh = (refl, refl);
  assigned = (refl, refl);
  unstarted = (refl, refl, refl, refl);
  undecided = (refl, refl);
  unheld = (refl, refl, refl);
  cleared = (refl, refl, refl);
  barred = (refl, refl);
  unbarred = (refl, refl);
  kept = (refl, refl, refl, refl, refl);
  published = (refl, refl, refl);
}

-- What a reset asks of the manager whose clock has been applied, and what it leaves: a stage under
-- an ID that no earlier stage had, disarmed in INIT with the reset barrier raised, nothing of the
-- stage before kept; the profile, the approvals, the remembered answers, the clock, the sequence and
-- the journal stay. The answer names what has to be acknowledged.
pub decide_reset-accepted :
    (generated expected : String) (stage_number : ℕ) (role : Role) (memory_id ref : String)
    (m : StageManager) (r : RequestResult)
    → (decide_reset generated expected stage_number role memory_id ref m).0 ≡ ok r
    → r.accepted ≡ true
    → (expected ≡ m.stage_id)
      × (m.reset_barrier_pending ≡ false)
      × ((m.phase ≡ StagePhase.init) ⊎ (m.phase ≡ StagePhase.terminal))
      × (ref ≡ m.profile.organizer_authorization_ref)
      × ((is_empty memory_id ≡ true)
          ⊎ (contains memory_id m.profile.approved_memory_profile_ids ≡ true))
      × (is_blank generated ≡ false)
      × (contains generated m.used_stage_ids ≡ false)
      × ((r.stage_id ≡ generated)
          × (r.memory_profile_id ≡ memory_id)
          × (r.reset_effects_required ≡ reset_parts))
      × IsDisarmed generated stage_number role m
          (decide_reset generated expected stage_number role memory_id ref m).1
unfolding decide_reset reset_with reset_refusal disarm is_authorized
decide_reset-accepted generated expected stage_number role memory_id ref m r e a =
    let facts = eq_iff expected m.stage_id in
    let approved = eq_iff ref m.profile.organizer_authorization_ref in
    let m' = (decide_reset generated expected stage_number role memory_id ref m).1 in
    let left : m' ≡ disarm generated (record m { stage_number = stage_number; role = role }) =
      ground arith in
    (
      ground (arith, facts),
      ground arith,
      ground arith,
      ground (arith, approved),
      ground arith,
      ground arith,
      ground arith,
      ground arith,
      rw (left) (disarm-IsDisarmed generated stage_number role m),
    )

-- In a stage that runs, without a held event but with the hold that several estimates raise, a new
-- localization epoch clears the estimates and keeps the hold. Then no estimate can be dismissed or
-- confirmed: each such request of the organizer is refused as not held, and the hold stays.
pub change_localization_epoch-stuck :
    (epoch event_id expected ref : String) (resolution : EventResolution) (kind : TerminalKind)
    (now : ℕ) (m : StageManager)
    → is_blank epoch ≡ false
    → epoch ≢ m.profile.localization_epoch
    → m.event_hold ≡ true
    → m.held_event ≡ Option.none
    → resolution ≢ EventResolution.set_official_terminal
    → expected ≡ m.stage_id
    → ref ≡ m.profile.organizer_authorization_ref
    → let m' = (change_localization_epoch epoch m).1 in
      (m'.event_hold ≡ true)
      × (m'.pending_estimates ≡ [])
      × (decide_resolution expected event_id resolution kind ref now m'
          ≡ (result false "matching_estimate_not_held" m.stage_id, m'))
unfolding change_localization_epoch enter_localization_epoch record_audit
change_localization_epoch-stuck epoch event_id expected ref resolution kind now m b d h n s x a =
    unfold decide_resolution resolution_refusal decide_pending is_authorized Dict.get in
    ground (
      arith,
      eq_iff epoch m.profile.localization_epoch,
      eq_iff expected m.stage_id,
      eq_iff ref m.profile.organizer_authorization_ref,
    )
