-- ===== src/Options/Authority/Results.antt =====
-- The result of an action is final: no call on an option authority changes or forgets it.
use hsl.Prelude.{
  ◌+◌, ℕ, String, Bool, true, false, not, ◌≡◌, refl, ◌∙◌, Option, some, arith, ap, inl, inr, ◌&&◌,
  eq_iff, string_eq, ◌==◌, Bool-cases, Option-cases, if◌then◌else◌,
}
use hsl.Prelude.Outcome.{Outcome, ok, raised}
use hsl.Prelude.Stateful.{continue, ◌>>=◌, ◌>>◌, require}
use hsl.Prelude.Dict
use hsl.Prelude.Dict.{Dict}
use hsl.Lease.{cancel, set_candidate_authorized, advance_generation}
use hsl.Lease as Lease
use hsl.Options.{OptionContext, OptionOutcome}
use hsl.Options.Authority.{
  OptionInstance, ActionRecord, OptionResult, OptionAuthority, Method, on_lease, record_event,
  replace_instance, announce, publish, close_record, finish, result, result_in, observe_time,
  revoke, settle, check_order, is_authorized, with_record, close_or_repeat, OptionPhase,
  option_phase_eq, ExecutionState, is_still,
}
use hsl.Options.Authority.Methods.{
  start_executing, in_phase, replanned_instance, canceled_instance, move_to, authorize, replan,
  start_cancel, state_now, and_state,
}

-- An assignment to a record keeps the results when it keeps that of the record.
pub put-result :
    (id key : String) (r : ActionRecord) (x : OptionResult) (records : Dict String ActionRecord)
    → result_in (Dict.get id records) ≡ some x
    → (result_in (Dict.get key records) ≡ some x → r.outcome ≡ some x)
    → result_in (Dict.get id (Dict.put key r records)) ≡ some x
put-result id key r x records h keeps =
    rw (Dict.get-put key id r records) (elim (Bool-cases (key == id)) [
      | inr other ↦ rw (other) h
      | inl same ↦
          let old = ap (λ k. result_in (Dict.get k records)) ((eq_iff key id).0 same) ∙ h in
          rw (same) (keeps old)
    ])

-- A method that keeps the result `x` of the action `id`, whatever it starts from.
pub record Retains {A : Type 0} (id : String) (x : OptionResult) (method : Method A) : Type 0 where
  pub kept : (m : OptionAuthority) → result id m ≡ some x → result id (method m).1 ≡ some x

module _ (id : String) (x : OptionResult) where
  continue-result :
      {A B : Type 0} (next : A → Method B) (p : Outcome A × OptionAuthority)
      → ((a : A) → Retains id x (next a))
      → result id p.1 ≡ some x
      → result id (continue next p).1 ≡ some x
  continue-result next (ok a, m) n h = (n a).kept m h
  continue-result next (raised e, m) n h = h

  pub retain-bind :
      {A B : Type 0} (first : Method A) (next : A → Method B)
      → Retains id x first
      → ((a : A) → Retains id x (next a))
      → Retains id x (first >>= next)
  retain-bind first next f n = record {
    kept = λ m h. continue-result next (first m) n (f.kept m h);
  }

  pub retain-then :
      {B : Type 0} (first : Method (Unit {0})) (next : Method B)
      → Retains id x first
      → Retains id x next
      → Retains id x (first >> next)
  retain-then first next f n = record {
    kept = λ m h. continue-result (λ _. next) (first m) (λ _. n) (f.kept m h);
  }

  pub retain-branch :
      {A : Type 0} (b : Bool) (first next : Method A)
      → Retains id x first
      → Retains id x next
      → Retains id x (if b then first else next)
  retain-branch true first next f n = f
  retain-branch false first next f n = n

  -- A method that leaves the records as they are.
  pub retain-all :
      {A : Type 0} (method : Method A)
      → ((m : OptionAuthority) → (method m).1.records ≡ m.records)
      → Retains id x method
  unfolding result
  retain-all method same = record { kept = λ m h. ap (λ d. result_in (Dict.get id d)) (same m) ∙ h }

  pub retain-require : (b : Bool) (e : String) → Retains id x (require b e)
  retain-require true e = record { kept = λ m h. h }
  retain-require false e = record { kept = λ m h. h }

  pub retain-observe : (now : ℕ) → Retains id x (observe_time now)
  unfolding observe_time
  retain-observe now = retain-all (observe_time now) (λ m. ground arith)

  retain-replace : (i : OptionInstance) → Retains id x (replace_instance i)
  unfolding replace_instance result
  retain-replace i = record {
    kept = λ m h. elim (Option-cases (Dict.get i.action_id m.records)) [
      | inl missing ↦ rw (missing) h
      | inr (r, found) ↦ rw (found) (
          put-result id i.action_id (record r { current = some i }) x m.records h
            (λ old. ground (arith, old, found)))
    ];
  }

  retain-publish :
      (i : OptionInstance) (c : OptionContext) (reason : String) → Retains id x (publish i c reason)
  unfolding publish announce record_event
  retain-publish i c reason =
      retain-then _ _
        (retain-branch (not (is_authorized i c) && i.phase == OptionPhase.executing) _ _
          (retain-all _ (λ m. refl)) (retain-all _ (λ m. refl)))
        (retain-all _ (λ m. refl))

  close-result :
      (i : OptionInstance) (o : OptionOutcome) (reason : String) (c : OptionContext)
      (m : OptionAuthority) (found : Option ActionRecord)
      → Dict.get i.action_id m.records ≡ found
      → result id m ≡ some x
      → result id
          (with_record i.action_id (λ r. close_or_repeat i o reason c r r.outcome) found m).1
        ≡ some x
  unfolding result close_record announce record_event
  close-result i o reason c m Option.none found h = h
  close-result i o reason c m (some r) found h = elim (Option-cases r.outcome) [
    | inr (y, over) ↦ rw (over) h
    | inl unfinished ↦
        rw (unfinished) (
          put-result id i.action_id _ x m.records h (λ old. ground (arith, old, found, unfinished)))
  ]

  pub retain-finish :
      (i : OptionInstance) (o : OptionOutcome) (reason : String) (c : OptionContext)
      → Retains id x (finish i o reason c)
  unfolding finish
  retain-finish i o reason c =
      retain-then (revoke i) (check_order i c >> settle i o reason c)
        (retain-all (revoke i) (λ m. refl))
        (retain-then (check_order i c) (settle i o reason c) (retain-require _ _) (record {
          kept = λ m h. close-result i o reason c m (Dict.get i.action_id m.records) refl h;
        }))

  pub retain-state : Retains id x state_now
  retain-state = record { kept = λ m h. h }

  pub retain-and_state :
      {A : Type 0} (call : Method A) → Retains id x call → Retains id x (and_state call)
  retain-and_state call f = record {
    kept = λ m h. continue-result (λ _. state_now) (call m) (λ _. retain-state) (f.kept m h);
  }

  retain-lease : {A : Type 0} (call : Lease.Method A) → Retains id x (on_lease call)
  retain-lease call = retain-all (on_lease call) (λ m. refl)

  retain-move_to :
      (j : OptionInstance) (c : OptionContext) (reason : String) → Retains id x (move_to j c reason)
  retain-move_to j c reason =
      retain-then (replace_instance j) (publish j c reason >> state_now) (retain-replace j)
        (retain-then (publish j c reason) state_now (retain-publish j c reason) retain-state)

  retain-authorize : (i : OptionInstance) (a : Bool) → Retains id x (authorize i a)
  retain-authorize i a =
      retain-lease (set_candidate_authorized i.goal.option_instance_id i.lease_generation a)

  pub retain-start_executing :
      (i : OptionInstance) (c : OptionContext) → Retains id x (start_executing i c)
  unfolding start_executing
  retain-start_executing i c =
      let j = in_phase OptionPhase.executing i in
      retain-then (authorize i (not (is_still i.goal.kind))) (move_to j c "plan_validated")
        (retain-authorize i _) (retain-move_to j c "plan_validated")

  pub retain-start_cancel :
      (i : OptionInstance) (c : OptionContext) (timeout : ℕ) (reason : String)
      → Retains id x (start_cancel i c timeout reason)
  unfolding start_cancel
  retain-start_cancel i c timeout reason =
      let j = canceled_instance (c.now_ns + timeout) i in
      retain-then (revoke i) (move_to j c reason) (retain-all (revoke i) (λ m. refl))
        (retain-move_to j c reason)

  pub retain-replan : (i : OptionInstance) (c : OptionContext) → Retains id x (replan i c)
  unfolding replan
  retain-replan i c =
      let advance = advance_generation i.goal.option_instance_id i.lease_generation in
      let go : ℕ → Method ExecutionState =
        λ generation. move_to (replanned_instance generation i) c "replanning" in
      retain-then (authorize i false) (on_lease advance >>= go) (retain-authorize i false) (
        retain-bind (on_lease advance) go (retain-lease advance)
          (λ generation. retain-move_to (replanned_instance generation i) c "replanning"))
