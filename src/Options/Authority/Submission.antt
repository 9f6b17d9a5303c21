-- ===== src/Options/Authority/Submission.antt =====
-- `submit` keeps the state of an option authority coherent.
use hsl.Prelude.{
  is_blank-is_empty, ℕ, String, false, not, ◌≡◌, inl, inr, refl, ◌∙◌, Option, some, List, arith,
  contains, is_empty, is_blank, eq_iff, nat_eq, string_eq, leb, length, ap, Bool-cases,
}
use hsl.Prelude.Outcome.{Outcome-cases}
use hsl.Prelude.Dict
use hsl.Prelude.Dict.{Dict}
use hsl.Options.{OptionGoal, OptionContext, check_initiation}
use hsl.Options.Authority.{
  option_phase_eq, ActionRecord, OptionAuthority, OptionAuditRecord, record_event,
}
use hsl.Options.Authority.Methods.{submit, reject, reject_for_good, accept, admit_new, submit_to}
use hsl.Options.Authority.Invariant.{IsCoherent}
use hsl.Options.Authority.Acceptance.{fault_of, accept-raised, accept-ok, accepted-IsRunning}
use hsl.Options.Authority.Tidy.{accepted-IsTidy, put-unrecorded}
use hsl.Options.Checks.{goal_beq}
use hsl.Options.Authority.Keeping.{branch-IsCoherent, observe_time-cases, observed-IsCoherent}

-- Coherence reads neither the journal nor, of the records, more than those of the active action and
-- of the empty one.
settled :
    (m : OptionAuthority) (audit : List OptionAuditRecord) (n k : ℕ)
    (records : Dict String ActionRecord)
    → IsCoherent m
    → Dict.get "" records ≡ Option.none
    → (is_empty m.active_action_id ≡ false
        → Dict.get m.active_action_id records ≡ Dict.get m.active_action_id m.records)
    → IsCoherent
        (record m { audit = audit; audit_sequence = n; audit_dropped_count = k; records = records })
settled m audit n k records (t, inl h) empty same = (
  record { gone = t.gone; owned = t.owned; unrecorded = empty },
  inl (record {
    unnamed = h.unnamed;
    revoked = h.revoked;
    unauthorized = h.unauthorized;
    free = h.free;
  }),
)
settled m audit n k records (t, inr (i, r, h)) empty same = (
  record { gone = t.gone; owned = t.owned; unrecorded = empty },
  inr (
    i,
    r,
    record {
      named = h.named;
      own_action = h.own_action;
      recorded = same h.named ∙ h.recorded;
      current = h.current;
      unfinished = h.unfinished;
      owner = h.owner;
      identified = h.identified;
      generation = h.generation;
      begun = h.begun;
      live = h.live;
      authority = h.authority;
      own_state = h.own_state;
      own_phase = h.own_phase;
      executing = h.executing;
      moving = h.moving;
    },
  ),
)

reject-IsCoherent :
    (action_id : String) (g : OptionGoal) (c : OptionContext) (reason : String)
    (m : OptionAuthority)
    → IsCoherent m
    → IsCoherent (reject action_id g c reason m).1
unfolding reject record_event
reject-IsCoherent action_id g c reason m h = settled m _ _ _ m.records h h.0.unrecorded (λ _. refl)

put-other :
    (action_id : String) (r : ActionRecord) (m : OptionAuthority)
    → IsCoherent m
    → Dict.get action_id m.records ≡ Option.none
    → is_empty m.active_action_id ≡ false
    → Dict.get m.active_action_id (Dict.put action_id r m.records)
      ≡ Dict.get m.active_action_id m.records
put-other action_id r m (t, inl h) new named = ground (arith, ap is_empty h.unnamed, named)
put-other action_id r m (t, inr (i, q, h)) new named = ground (
  arith,
  h.recorded,
  new,
  eq_iff action_id m.active_action_id,
  Dict.get-put action_id m.active_action_id r m.records,
)

reject_for_good-IsCoherent :
    (action_id : String) (g : OptionGoal) (c : OptionContext) (reason : String)
    (m : OptionAuthority)
    → IsCoherent m
    → is_empty action_id ≡ false
    → Dict.get action_id m.records ≡ Option.none
    → IsCoherent (reject_for_good action_id g c reason m).1
unfolding reject_for_good record_event
reject_for_good-IsCoherent action_id g c reason m h named new =
    settled m _ _ _ _ h (put-unrecorded action_id _ m h.0 named) (put-other action_id _ m h new)

accept-IsCoherent :
    (action_id : String) (g : OptionGoal) (c : OptionContext) (m : OptionAuthority)
    → IsCoherent m
    → m.last_now_ns ≡ c.now_ns
    → is_empty action_id ≡ false
    → IsCoherent (accept action_id g c m).1
accept-IsCoherent action_id g c m h at named = elim (Outcome-cases (fault_of g m)) [
  | inl (e, fault) ↦ rw (accept-raised action_id g c m e fault) h
  | inr (_, free) ↦ rw (accept-ok action_id g c m free) (
    accepted-IsTidy action_id g c m h.0 named,
    inr (_, _, accepted-IsRunning action_id g c m named free at),
  )
]

admit_new-IsCoherent :
    (action_id : String) (g : OptionGoal) (c : OptionContext) (m : OptionAuthority)
    → IsCoherent m
    → m.last_now_ns ≡ c.now_ns
    → is_empty action_id ≡ false
    → Dict.get action_id m.records ≡ Option.none
    → IsCoherent (admit_new action_id g c m).1
unfolding admit_new
admit_new-IsCoherent action_id g c m h at named new =
    let refused =
      λ (reason : String). reject_for_good-IsCoherent action_id g c reason m h named new in
    branch-IsCoherent (leb m.max_action_records (length m.records)) _ _
      (reject-IsCoherent action_id g c "action_record_capacity" m h)
      (branch-IsCoherent (not (is_empty m.active_action_id)) _ _
        (refused "another_option_is_active")
        (branch-IsCoherent (contains g.option_instance_id m.used_instance_ids) _ _
          (refused "option_instance_id_reused")
          (branch-IsCoherent (not (check_initiation m.registry g c).accepted) _ _
            (refused (check_initiation m.registry g c).reason)
            (accept-IsCoherent action_id g c m h at named))))

submit_to-IsCoherent :
    (action_id : String) (g : OptionGoal) (c : OptionContext) (m : OptionAuthority)
    (prior : Option ActionRecord)
    → IsCoherent m
    → is_empty action_id ≡ false
    → Dict.get action_id m.records ≡ prior
    → IsCoherent (submit_to action_id g c prior m).1
submit_to-IsCoherent action_id g c m (some prior) h named old =
    elim (Bool-cases (goal_beq prior.goal g)) [
      | inl same ↦ rw (same) h
      | inr different ↦ rw (different) h
    ]
submit_to-IsCoherent action_id g c m Option.none h named new =
    elim (observe_time-cases c.now_ns m) [
      | inl (e, early) ↦ rw (early) h
      | inr (later, on_time) ↦ rw (on_time) (
          admit_new-IsCoherent action_id g c (record m { last_now_ns = c.now_ns })
            (observed-IsCoherent c.now_ns m h later) refl named new)
    ]

pub submit-IsCoherent :
    (action_id : String) (g : OptionGoal) (c : OptionContext) (m : OptionAuthority)
    → IsCoherent m
    → IsCoherent (submit action_id g c m).1
unfolding submit
submit-IsCoherent action_id g c m h = elim (Bool-cases (is_blank action_id)) [
  | inl blank ↦ rw (blank) h
  | inr named ↦ rw (named) (
      submit_to-IsCoherent action_id g c m (Dict.get action_id m.records) h
        (is_blank-is_empty action_id named) refl)
]
