-- ===== src/Options/Authority/Answers.antt =====
-- `submit` answers: it raises for no valid goal.
use hsl.Prelude.{
  is_blank-is_empty, ltb, if◌then◌else◌, ◌≤◌, String, Bool, true, false, not, ◌≡◌, inl, inr, refl,
  Option, some, arith, contains, is_empty, is_blank, eq_iff, nat_eq, string_eq, leb, length,
}
use hsl.Prelude.Outcome.{Outcome, ok}
use hsl.Prelude.Dict
use hsl.Lease.{activation_fault}
use hsl.Options.{OptionGoal, OptionContext, check_initiation}
use hsl.Options.Checks.{check_goal, goal_beq}
use hsl.Options.Authority.{ActionRecord, ActionAdmission, OptionAuthority, observe_time}
use hsl.Options.Authority.Methods.{submit, submit_to, admit_new, accept, reject, reject_for_good}
use hsl.Options.Authority.Invariant.{IsIdle, IsTidy, IsCoherent}
use hsl.Options.Authority.Acceptance.{fault_of, accept-ok}
use hsl.Options.Authority.Keeping.{observed-IsCoherent}

-- A method returned.
abbrev Returns : {A : Type 0} → Outcome A × OptionAuthority → Type 0
Returns {A} p = (a : A) × (p.0 ≡ ok a)

branch-Returns :
    {A : Type 0} (b : Bool) (x y : Outcome A × OptionAuthority)
    → (b ≡ true → Returns x)
    → (b ≡ false → Returns y)
    → Returns (if b then x else y)
branch-Returns true x y first second = first refl
branch-Returns false x y first second = second refl

idle-free :
    (g : OptionGoal) (m : OptionAuthority)
    → IsTidy m
    → IsIdle m
    → is_empty g.option_instance_id ≡ false
    → is_blank g.localization_epoch ≡ false
    → contains g.option_instance_id m.used_instance_ids ≡ false
    → fault_of g m ≡ ok tt
unfolding activation_fault
idle-free g m t h named epoch unused = ground (
  arith,
  t.gone g.option_instance_id,
  t.owned,
  h.free,
  eq_iff m.lease.active_option_instance_id g.option_instance_id,
)

-- No option is active when the authority names none.
unnamed-IsIdle :
    (m : OptionAuthority) → IsCoherent m → is_empty m.active_action_id ≡ true → IsIdle m
unnamed-IsIdle m (t, inl h) empty = h
unnamed-IsIdle m (t, inr (i, r, h)) empty = absurd (ground (arith, h.named, empty))

accept-Returns :
    (action_id : String) (g : OptionGoal) (c : OptionContext) (m : OptionAuthority)
    → fault_of g m ≡ ok tt
    → Returns (accept action_id g c m)
accept-Returns action_id g c m free = rw (accept-ok action_id g c m free) (_, refl)

admit_new-Returns :
    (action_id : String) (g : OptionGoal) (c : OptionContext) (m : OptionAuthority)
    → IsCoherent m
    → is_empty g.option_instance_id ≡ false
    → is_blank g.localization_epoch ≡ false
    → Returns (admit_new action_id g c m)
unfolding admit_new reject reject_for_good
admit_new-Returns action_id g c m h named epoch =
    branch-Returns (leb m.max_action_records (length m.records)) _ _ (λ _. (_, refl))
      (λ _.
        branch-Returns (not (is_empty m.active_action_id)) _ _ (λ _. (_, refl))
          (λ idle.
            branch-Returns (contains g.option_instance_id m.used_instance_ids) _ _ (λ _. (_, refl))
              (λ unused.
                branch-Returns (not (check_initiation m.registry g c).accepted) _ _ (λ _. (_, refl))
                  (λ _. accept-Returns action_id g c m (
                    idle-free g m h.0 (unnamed-IsIdle m h (ground (arith, idle))) named epoch
                      unused)))))

submit_to-Returns :
    (action_id : String) (g : OptionGoal) (c : OptionContext) (m : OptionAuthority)
    (prior : Option ActionRecord)
    → IsCoherent m
    → is_empty g.option_instance_id ≡ false
    → is_blank g.localization_epoch ≡ false
    → m.last_now_ns ≤ c.now_ns
    → Returns (submit_to action_id g c prior m)
unfolding observe_time
submit_to-Returns action_id g c m (some prior) h named epoch later =
    branch-Returns (goal_beq prior.goal g) _ _ (λ _. (_, refl)) (λ _. (_, refl))
submit_to-Returns action_id g c m Option.none h named epoch later =
    let on_time : ltb c.now_ns m.last_now_ns ≡ false = ground (arith, later) in
    rw (on_time) (
      admit_new-Returns action_id g c (record m { last_now_ns = c.now_ns })
        (observed-IsCoherent c.now_ns m h later) named epoch)

goal-named :
    (g : OptionGoal)
    → check_goal g ≡ ok tt
    → (is_blank g.option_instance_id ≡ false) × (is_blank g.localization_epoch ≡ false)
unfolding check_goal
goal-named g valid = ground (arith, valid)

-- On a coherent authority, `submit` of a goal that its constructor accepts, under an action that is
-- named, at a time that is not before the last one, returns an admission: it never raises.
pub submit-returns :
    (action_id : String) (g : OptionGoal) (c : OptionContext) (m : OptionAuthority)
    → IsCoherent m
    → check_goal g ≡ ok tt
    → is_blank action_id ≡ false
    → m.last_now_ns ≤ c.now_ns
    → (a : ActionAdmission) × ((submit action_id g c m).0 ≡ ok a)
unfolding submit
submit-returns action_id g c m h valid named later =
    let v = goal-named g valid in
    rw (named) (
      submit_to-Returns action_id g c m (Dict.get action_id m.records) h
        (is_blank-is_empty g.option_instance_id v.0) v.1 later)
