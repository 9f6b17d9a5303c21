-- ===== src/Options/Authority/Guarantees.antt =====
-- What the coherence of an option authority gives: which candidates its
-- lease lets through.
use hsl.Prelude.{
  ℕ, true, false, ◌≡◌, inl, inr, sym, ◌∙◌, Option, some, List, arith, nat_eq, string_eq,
}
use hsl.Prelude.Int.{ℤ}
use hsl.Prelude.Dict
use hsl.Prelude.Outcome.{ok}
use hsl.Match.Enums.{phase_eq}
use hsl.Lease.{MotionCandidate, CandidateEnvelope, ExecutionLease, admit}
use hsl.Lease as Lease
use hsl.Lease.Authority.{admit-IsAdmissible}
use hsl.Options.{OptionRegistry}
use hsl.Options.Authority.{
  OptionPhase, option_phase_eq, OptionInstance, ActionRecord, OptionAuthority, is_still, initial,
  result,
}
use hsl.Options.Authority.Invariant.{IsCoherent}
use hsl.Options.Authority.Calls.{Call, perform_all}
use hsl.Options.Authority.Coherence.{perform_all-IsCoherent, initial-IsCoherent}

-- Whatever the calls on a new authority with a new lease, those that raise included, its records, its
-- lease and its published state agree: an option is active, has no result yet, owns the lease under
-- its own generation and shares its authority, or no option is active and nothing has authority.
pub authority-IsCoherent :
    (registry : OptionRegistry) (max_records max_audit : ℕ) (calls : List Call)
    → IsCoherent (perform_all calls (initial registry Lease.new max_records max_audit))
authority-IsCoherent registry max_records max_audit calls =
    perform_all-IsCoherent calls (initial registry Lease.new max_records max_audit)
      (initial-IsCoherent registry max_records max_audit)

-- What stands behind a candidate that the lease of an authority lets through.
pub record IsBacked (e : CandidateEnvelope) (m : OptionAuthority) (i : OptionInstance)
    (r : ActionRecord) : Type 0 where
  pub active : i.action_id ≡ m.active_action_id
  pub recorded : Dict.get m.active_action_id m.records ≡ some r
  pub current : r.current ≡ some i
  pub own_candidate : e.option_instance_id ≡ i.goal.option_instance_id
  pub executing : i.phase ≡ OptionPhase.executing
  pub moving : is_still i.goal.kind ≡ false
  pub generation : i.lease_generation ≡ m.lease.generation
  pub unfinished : result i.action_id m ≡ Option.none
  pub published : m.state.active_option_instance_id ≡ e.option_instance_id
  pub authorized : m.state.candidate_authorized ≡ true

admitted-IsBacked :
    (m : OptionAuthority) (e : CandidateEnvelope) (now : ℤ) (generation : ℕ) (c : MotionCandidate)
    → IsCoherent m
    → admit e now generation m.lease ≡ ok c
    → (i : OptionInstance) × (r : ActionRecord) × IsBacked e m i r
unfolding result
admitted-IsBacked m e now generation c (t, inl h) admitted =
    let a = (admit-IsAdmissible e now generation m.lease c admitted).2 in
    absurd (ground (arith, a.authorized, h.revoked))
admitted-IsBacked m e now generation c (t, inr (i, r, h)) admitted =
    let a = (admit-IsAdmissible e now generation m.lease c admitted).2 in
    let on : m.state.candidate_authorized ≡ true = sym h.authority ∙ a.authorized in
    (
      i,
      r,
      record {
        active = h.own_action;
        recorded = h.recorded;
        current = h.current;
        own_candidate = a.owner ∙ h.owner;
        executing = h.executing on;
        moving = h.moving on;
        generation = h.generation;
        unfinished = ground (arith, h.own_action, h.recorded, h.unfinished);
        published = h.own_state ∙ sym (a.owner ∙ h.owner);
        authorized = on;
      },
    )

-- A candidate that the lease lets through after any calls belongs to the current instance in the
-- record of the active action: that instance is executing, is of a kind that moves, has the lease's
-- generation, its action has no result, and the published execution state names and authorizes it.
pub admitted_by_active :
    (registry : OptionRegistry) (max_records max_audit : ℕ) (calls : List Call)
    (e : CandidateEnvelope) (now : ℤ) (generation : ℕ) (c : MotionCandidate)
    → admit e now generation
        (perform_all calls (initial registry Lease.new max_records max_audit)).lease
      ≡ ok c
    → (i : OptionInstance) × (r : ActionRecord) × IsBacked e
        (perform_all calls (initial registry Lease.new max_records max_audit))
        i
        r
admitted_by_active registry max_records max_audit calls e now generation c admitted =
    let m = perform_all calls (initial registry Lease.new max_records max_audit) in
    admitted-IsBacked m e now generation c
      (authority-IsCoherent registry max_records max_audit calls) admitted
