-- ===== src/Options/Authority/Advance.antt =====
-- The steps of an option authority that keep its option active: what each one makes of a running
-- option, and of a lease that the authority's state agrees with.
use hsl.Prelude.{
  ℕ, ◌+◌, String, Bool, true, false, not, ◌&&◌, ◌≡◌, refl, some, arith, contains, eq_iff, nat_eq,
  string_eq, ◌==◌, ◌∙◌,
}
use hsl.Prelude.Outcome.{ok}
use hsl.Prelude.Dict
use hsl.Lease.{ExecutionLease, cancel, set_candidate_authorized, advance_generation, owner_fault}
use hsl.Options.{OptionContext}
use hsl.Options.Authority.{
  OptionPhase, option_phase_eq, OptionInstance, ActionRecord, OptionAuthority, record_event,
  replace_instance, is_still, is_authorized, announce, publish,
}
use hsl.Options.Authority.Methods.{
  in_phase, start_executing, replanned_instance, replan, canceled_instance, start_cancel,
}
use hsl.Options.Authority.Invariant.{IsRunning}

-- The authority behind a step that makes `j` the instance of the record `r`.
abbrev pub advanced :
    OptionInstance
    → ActionRecord
    → Bool
    → OptionContext
    → String
    → ExecutionLease
    → OptionAuthority
    → OptionAuthority
advanced j r authorized c reason lease m =
    announce "state_transition" j authorized c reason (record m {
      lease = lease;
      records = Dict.put j.action_id (record r { current = some j }) m.records;
    })

authorize-running :
    (i : OptionInstance) (r : ActionRecord) (m : OptionAuthority) (a : Bool)
    → IsRunning i r m
    → ((i.phase == OptionPhase.canceling) && a) ≡ false
    → set_candidate_authorized i.goal.option_instance_id i.lease_generation a m.lease
      ≡ (ok tt, record m.lease { candidate_authorized = a })
unfolding set_candidate_authorized owner_fault
authorize-running i r m a h free = ground (
  arith,
  h.owner,
  h.identified,
  h.generation,
  h.live,
  free,
  eq_iff i.goal.option_instance_id m.lease.active_option_instance_id,
)

replace-running :
    (i j : OptionInstance) (r : ActionRecord) (m : OptionAuthority) (lease : ExecutionLease)
    → IsRunning i r m
    → j.action_id ≡ i.action_id
    → replace_instance j (record m { lease = lease }) ≡ (
      ok tt,
      record m {
        lease = lease;
        records = Dict.put j.action_id (record r { current = some j }) m.records;
      },
    )
unfolding replace_instance
replace-running i j r m lease h same = ground (arith, h.own_action, h.recorded, same)

pub publish-other :
    (j : OptionInstance) (c : OptionContext) (reason : String) (m : OptionAuthority)
    → (j.phase == OptionPhase.executing) ≡ false
    → publish j c reason m ≡ (ok tt, announce "state_transition" j false c reason m)
unfolding publish
publish-other j c reason m other = ground (arith, other)

publish-executing :
    (i : OptionInstance) (r : ActionRecord) (m : OptionAuthority) (c : OptionContext)
    (reason : String)
    → IsRunning i r m
    → publish (in_phase OptionPhase.executing i) c reason (record m {
      lease = record m.lease { candidate_authorized = not (is_still i.goal.kind) };
      records =
          Dict.put i.action_id
            (record r { current = some (in_phase OptionPhase.executing i) })
            m.records;
    })
      ≡ (
        ok tt,
        advanced
            (in_phase OptionPhase.executing i)
            r
            (is_authorized (in_phase OptionPhase.executing i) c)
            c
            reason
            (record m.lease {
              candidate_authorized = is_authorized (in_phase OptionPhase.executing i) c;
            })
            m,
      )
unfolding publish set_candidate_authorized owner_fault
publish-executing i r m c reason h = ground (
  arith,
  h.owner,
  h.identified,
  h.generation,
  eq_iff i.goal.option_instance_id m.lease.active_option_instance_id,
)

pub start_executing-running :
    (i : OptionInstance) (r : ActionRecord) (m : OptionAuthority) (c : OptionContext)
    → IsRunning i r m
    → (i.phase == OptionPhase.canceling) ≡ false
    → (start_executing i c m).1
      ≡ advanced
          (in_phase OptionPhase.executing i)
          r
          (is_authorized (in_phase OptionPhase.executing i) c)
          c
          "plan_validated"
          (record m.lease {
            candidate_authorized = is_authorized (in_phase OptionPhase.executing i) c;
          })
          m
unfolding start_executing
start_executing-running i r m c h going = ground (
  arith,
  authorize-running i r m (not (is_still i.goal.kind)) h (ground (arith, going)),
  replace-running i (in_phase OptionPhase.executing i) r m
      (record m.lease { candidate_authorized = not (is_still i.goal.kind) }) h refl,
  publish-executing i r m c "plan_validated" h,
)

advance-running :
    (i : OptionInstance) (r : ActionRecord) (m : OptionAuthority)
    → IsRunning i r m
    → (i.phase == OptionPhase.canceling) ≡ false
    → advance_generation i.goal.option_instance_id i.lease_generation
        (record m.lease { candidate_authorized = false })
      ≡ (
        ok (m.lease.generation + 1),
        record m.lease { generation = m.lease.generation + 1; candidate_authorized = false },
      )
unfolding advance_generation owner_fault
advance-running i r m h going = ground (
  arith,
  h.owner,
  h.generation,
  h.live,
  going,
  eq_iff i.goal.option_instance_id m.lease.active_option_instance_id,
)

pub replan-running :
    (i : OptionInstance) (r : ActionRecord) (m : OptionAuthority) (c : OptionContext)
    → IsRunning i r m
    → (i.phase == OptionPhase.canceling) ≡ false
    → (replan i c m).1
      ≡ advanced
          (replanned_instance (m.lease.generation + 1) i)
          r
          false
          c
          "replanning"
          (record m.lease { generation = m.lease.generation + 1; candidate_authorized = false })
          m
unfolding replan
replan-running i r m c h going = ground (
  arith,
  authorize-running i r m false h (ground arith),
  advance-running i r m h going,
  replace-running i (replanned_instance (m.lease.generation + 1) i) r m
      (record m.lease { generation = m.lease.generation + 1; candidate_authorized = false }) h refl,
  publish-other (replanned_instance (m.lease.generation + 1) i) c "replanning"
      (record m {
        lease = record m.lease {
          generation = m.lease.generation + 1;
          candidate_authorized = false;
        };
        records =
            Dict.put i.action_id
              (record r { current = some (replanned_instance (m.lease.generation + 1) i) })
              m.records;
      })
      refl,
)

pub start_cancel-running :
    (i : OptionInstance) (r : ActionRecord) (m : OptionAuthority) (c : OptionContext) (timeout : ℕ)
    (reason : String)
    → IsRunning i r m
    → (start_cancel i c timeout reason m).1
      ≡ advanced
          (canceled_instance (c.now_ns + timeout) i)
          r
          false
          c
          reason
          (cancel i.goal.option_instance_id m.lease)
          m
unfolding start_cancel
start_cancel-running i r m c timeout reason h = ground (
  arith,
  replace-running i (canceled_instance (c.now_ns + timeout) i) r m
      (cancel i.goal.option_instance_id m.lease) h refl,
  publish-other (canceled_instance (c.now_ns + timeout) i) c reason
      (record m {
        lease = cancel i.goal.option_instance_id m.lease;
        records =
            Dict.put i.action_id
              (record r { current = some (canceled_instance (c.now_ns + timeout) i) }) m.records;
      })
      refl,
)

-- A step to `j` keeps the authority running when the lease that the step leaves fits `j`.
pub advanced-IsRunning :
    (i j : OptionInstance) (r : ActionRecord) (m : OptionAuthority) (a : Bool) (c : OptionContext)
    (reason : String) (lease : ExecutionLease)
    → IsRunning i r m
    → j.action_id ≡ i.action_id
    → j.goal ≡ i.goal
    → j.started_at_ns ≡ i.started_at_ns
    → lease.active_option_instance_id ≡ m.lease.active_option_instance_id
    → j.lease_generation ≡ lease.generation
    → contains i.goal.option_instance_id lease.cancelled ≡ (j.phase == OptionPhase.canceling)
    → lease.candidate_authorized ≡ a
    → (a ≡ true → j.phase ≡ OptionPhase.executing)
    → (a ≡ true → is_still i.goal.kind ≡ false)
    → IsRunning j (record r { current = some j }) (advanced j r a c reason lease m)
unfolding announce record_event
advanced-IsRunning i j r m a c reason lease h same goal begun owner generation live authority ex
      mv =
    record {
      named = h.named;
      own_action = same ∙ h.own_action;
      recorded = ground (
        arith,
        same,
        h.own_action,
        eq_iff j.action_id m.active_action_id,
        Dict.get-put j.action_id m.active_action_id (record r { current = some j }) m.records,
      );
      current = refl;
      unfinished = h.unfinished;
      owner = cc;
      identified = ground (arith, h.identified, goal);
      generation = generation;
      begun = omega (arith, h.begun, begun);
      live = ground (arith, live, goal);
      authority = authority;
      own_state = refl;
      own_phase = refl;
      executing = ex;
      moving = ground (arith, mv, goal);
    }
