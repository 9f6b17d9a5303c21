-- ===== src/Match/Snapshot/Valid.antt =====
-- What a well-formed manager publishes.
use hsl.Prelude.{
  ℕ, ◌+◌, ◌≤◌, ◌<◌, String, ◌≡◌, refl, true, false, arith, Bool-cases, inl, inr, some, eq_iff, sym,
  ap, ◌∙◌, is_blank, is_empty, is_sha256, ltb,
}
use mathlib.Core.Path.{subst}
use hsl.Prelude.Outcome.{ok}
use hsl.Contracts.{ContractHeader, check_header, Expected, validate_header}
use hsl.Match.Types.{StageProfile, MatchState}
use hsl.Match.Checks.{check_profile, check_identity, check_durations}
use hsl.Match.Manager.{StageManager, advance, timed, record_audit}
use hsl.Match.Lifecycle.{max_stamp}
use hsl.Match.Invariant.{IsWellFormed}
use hsl.Match.Invariant.Steps.{advance_keeps}
use hsl.Match.Snapshot.{
  check_times, check_terminal, check_hold, check_authority, check_match_state, header_of,
  is_motion_authorized, state_of, publish, snapshot_at, snapshot,
}

nonempty_of_nonblank : (s : String) → is_blank s ≡ false → is_empty s ≡ false
unfolding is_blank
nonempty_of_nonblank String.[] h = h
nonempty_of_nonblank (String.◌∷◌ c s) h = refl

-- What the published records need of the profile.
profile_published :
    (p : StageProfile)
    → check_profile p ≡ ok tt
    → (is_empty p.source_id ≡ false)
      × (is_empty p.source_session ≡ false)
      × (is_empty p.clock_epoch ≡ false)
      × (is_empty p.localization_epoch ≡ false)
      × (0 < p.lease_duration_ns)
      × (is_blank p.score_profile_id ≡ false)
      × (is_sha256 p.config_hash ≡ true)
unfolding check_profile check_identity check_durations
profile_published p h = ground (
  arith,
  nonempty_of_nonblank p.source_id,
  nonempty_of_nonblank p.source_session,
  nonempty_of_nonblank p.clock_epoch,
  nonempty_of_nonblank p.localization_epoch,
)

check_header-header_of :
    (now v w : ℕ) (m : StageManager)
    → check_profile m.profile ≡ ok tt
    → check_header (header_of now v w m) ≡ ok tt
unfolding check_header header_of
check_header-header_of now v w m h = ground (arith, profile_published m.profile h)

module _ (header : ContractHeader) (m : StageManager) (h : IsWellFormed m) where
  times_pass : check_times (state_of header m) ≡ ok tt
  unfolding check_times state_of
  times_pass = ground arith

  terminal_passes : check_terminal (state_of header m) ≡ ok tt
  unfolding check_terminal state_of
  terminal_passes = ground arith

  hold_passes : check_hold (state_of header m) ≡ ok tt
  unfolding check_hold state_of
  hold_passes = ground arith

  authority_passes : header.validity ≡ 1 → check_authority (state_of header m) ≡ ok tt
  unfolding check_authority state_of is_motion_authorized
  authority_passes v = ground arith

-- The state that a well-formed manager publishes passes every check of `MatchState`.
pub check_match_state-state_of :
    (header : ContractHeader) (m : StageManager)
    → IsWellFormed m
    → header.stage_id ≡ m.stage_id
    → header.validity ≡ 1
    → check_match_state (state_of header m) ≡ ok tt
unfolding check_match_state state_of
check_match_state-state_of header m h s v = ground (
  arith,
  times_pass header m h,
  terminal_passes header m h,
  hold_passes header m h,
  authority_passes header m h v,
  profile_published m.profile h.consistent.profile_checked,
  nonempty_of_nonblank m.stage_id h.consistent.stage_named,
)

publish-header_of :
    (now v w : ℕ) (m : StageManager)
    → IsWellFormed m
    → publish (header_of now v w m) m ≡ ok (state_of (header_of now v w m) m)
unfolding publish
publish-header_of now v w m h = rw (check_header-header_of now v w m h.consistent.profile_checked) (
    rw (
      check_match_state-state_of (header_of now v w m) m h (unfold header_of in refl)
        (unfold header_of in refl)))

-- The next sequence number is taken.
abbrev pub count_publication : StageManager → StageManager
count_publication m = record m { seq = m.seq + 1 }

count_publication-IsWellFormed :
    (m : StageManager) → IsWellFormed m → IsWellFormed (count_publication m)
count_publication-IsWellFormed m h = ground arith

-- What `snapshot` publishes of the manager `m` whose clock has been applied.
abbrev pub published : ℕ → ℕ → ℕ → StageManager → MatchState
published now v w m = let m' = count_publication m in state_of (header_of now v w m') m'

snapshot_at-succeeds :
    (now v w : ℕ) (m : StageManager)
    → IsWellFormed m
    → now + m.profile.lease_duration_ns ≤ max_stamp
    → (snapshot_at now v w m).0 ≡ ok (published now v w m)
unfolding snapshot_at
snapshot_at-succeeds now v w m h fits =
    elim (Bool-cases (ltb max_stamp (now + m.profile.lease_duration_ns))) [
      | inl over ↦ absurd (ground (arith, over))
      | inr fit ↦
          rw fit
            (publish-header_of now v w (count_publication m) (count_publication-IsWellFormed m h))
    ]

profile-advance : (now : ℕ) (m : StageManager) → (advance now m).profile ≡ m.profile
unfolding advance record_audit
profile-advance now m = ground arith

-- From a well-formed manager, at a time that has not gone back and whose lease fits the stamp
-- range, `snapshot` does not raise: the state of the manager at that time passes all the checks of
-- `ContractHeader` and `MatchState`, and is returned with the next sequence number.
pub snapshot-succeeds :
    (now v w : ℕ) (m : StageManager)
    → IsWellFormed m
    → m.last_now_ns ≤ now
    → now + m.profile.lease_duration_ns ≤ max_stamp
    → (snapshot now v w m).0 ≡ ok (published now v w (advance now m))
unfolding snapshot timed
snapshot-succeeds now v w m h le fits = elim (Bool-cases (ltb now m.last_now_ns)) [
  | inl back ↦ absurd (ground (arith, back))
  | inr on ↦ rw on (
      snapshot_at-succeeds now v w (advance now m) (advance_keeps now m le h)
        (rw (profile-advance now m) fits))
]

state-injective : {a b : MatchState} → ok a ≡ ok b → a ≡ b
state-injective h = ground arith

published-validates :
    (now v w : ℕ) (m : StageManager) (x : Expected)
    → is_empty m.stage_id ≡ false
    → x.clock_epoch ≡ m.profile.clock_epoch
    → x.localization_epoch ≡ m.profile.localization_epoch
    → x.stage_id ≡ some m.stage_id
    → now ≤ x.now_ns + x.allowed_future_ns
    → x.now_ns < now + m.profile.lease_duration_ns
    → validate_header (published now v w m).meta x ≡ ok tt
unfolding validate_header state_of header_of
published-validates now v w m x named c l i since until = ground (
  arith,
  eq_iff m.profile.clock_epoch x.clock_epoch,
  eq_iff m.profile.localization_epoch x.localization_epoch,
  eq_iff m.stage_id m.stage_id,
)

-- The state that `snapshot` returns is valid to a reader of the same epochs and stage, from its
-- publication until the lease runs out.
pub snapshot-validates :
    (now v w : ℕ) (m : StageManager) (s : MatchState) (x : Expected)
    → IsWellFormed m
    → m.last_now_ns ≤ now
    → now + m.profile.lease_duration_ns ≤ max_stamp
    → (snapshot now v w m).0 ≡ ok s
    → x.clock_epoch ≡ m.profile.clock_epoch
    → x.localization_epoch ≡ m.profile.localization_epoch
    → x.stage_id ≡ some s.meta.stage_id
    → now ≤ x.now_ns + x.allowed_future_ns
    → x.now_ns < now + m.profile.lease_duration_ns
    → validate_header s.meta x ≡ ok tt
unfolding state_of header_of
snapshot-validates now v w m s x h le fits e c l i since until =
    let same = state-injective (sym (snapshot-succeeds now v w m h le fits) ∙ e) in
    let t = advance now m in
    let p = profile-advance now m in
    let named = nonempty_of_nonblank t.stage_id (advance_keeps now m le h).consistent.stage_named in
    subst (λ s'. validate_header s'.meta x ≡ ok tt) same
      (published-validates now v w t x named (rw p c) (rw p l)
        (i ∙ ap (λ s'. some s'.meta.stage_id) (sym same)) since (rw p until))
