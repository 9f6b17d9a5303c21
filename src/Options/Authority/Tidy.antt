-- ===== src/Options/Authority/Tidy.antt =====
-- The steps of an option authority keep its books: the lease names only instances that the authority
-- has used, and no record stands under an empty action.
use hsl.Prelude.{
  String, Bool, true, false, ◌≡◌, inl, inr, Option, arith, contains, is_empty, eq_iff, nat_eq,
  string_eq, ◌==◌, ap, Bool-cases,
}
use hsl.Prelude.Dict
use hsl.Lease.{ExecutionLease, cancel}
use hsl.Options.{OptionGoal, OptionContext, OptionOutcome}
use hsl.Options.Authority.{
  OptionInstance, ActionRecord, OptionAuthority, record_event, announce, close_record,
}
use hsl.Options.Authority.Methods.{reject_for_good}
use hsl.Options.Authority.Invariant.{IsRunning, IsTidy}
use hsl.Options.Authority.Advance.{advanced}
use hsl.Options.Authority.Acceptance.{accepted}

differs_empty : (id : String) → is_empty id ≡ false → (id == "") ≡ false
differs_empty id named = elim (Bool-cases (id == "")) [
  | inr different ↦ different
  | inl same ↦ let empty = ap is_empty ((eq_iff id "").0 same) in ground (arith, named, empty)
]

pub put-unrecorded :
    (id : String) (r : ActionRecord) (m : OptionAuthority)
    → IsTidy m
    → is_empty id ≡ false
    → Dict.get "" (Dict.put id r m.records) ≡ Option.none
put-unrecorded id r m h named =
    ground (arith, h.unrecorded, differs_empty id named, Dict.get-put id "" r m.records)

cancel-gone :
    (id other : String) (m : OptionAuthority)
    → IsTidy m
    → m.lease.active_option_instance_id ≡ id
    → is_empty id ≡ false
    → contains other (cancel id m.lease).cancelled ≡ true
    → contains other m.used_instance_ids ≡ true
unfolding cancel
cancel-gone id other m h owner named gone =
    ground (arith, h.gone other, h.owned, owner, eq_iff id other, eq_iff other id)

cancel-owner :
    (id : String) (m : ExecutionLease)
    → (cancel id m).active_option_instance_id ≡ m.active_option_instance_id
unfolding cancel
cancel-owner id m = ground arith

running-id :
    (i : OptionInstance) (r : ActionRecord) (m : OptionAuthority)
    → IsRunning i r m
    → is_empty i.action_id ≡ false
running-id i r m h = ground (arith, h.named, h.own_action)

pub close_record-IsTidy :
    (i : OptionInstance) (r : ActionRecord) (m : OptionAuthority) (outcome : OptionOutcome)
    (reason : String) (c : OptionContext)
    → IsRunning i r m
    → IsTidy m
    → IsTidy
        (close_record i outcome reason c r
          (record m { lease = cancel i.goal.option_instance_id m.lease })).1
unfolding close_record announce record_event
close_record-IsTidy i r m outcome reason c h t = record {
  gone = λ id. cancel-gone i.goal.option_instance_id id m t h.owner h.identified;
  owned = ground (arith, t.owned, cancel-owner i.goal.option_instance_id m.lease);
  unrecorded = put-unrecorded i.action_id _ m t (running-id i r m h);
}

-- A step that keeps the lease's names.
pub advanced-IsTidy :
    (i j : OptionInstance) (r : ActionRecord) (m : OptionAuthority) (a : Bool) (c : OptionContext)
    (reason : String) (lease : ExecutionLease)
    → IsRunning i r m
    → IsTidy m
    → j.action_id ≡ i.action_id
    → lease.active_option_instance_id ≡ m.lease.active_option_instance_id
    → lease.cancelled ≡ m.lease.cancelled
    → IsTidy (advanced j r a c reason lease m)
unfolding announce record_event
advanced-IsTidy i j r m a c reason lease h t same owner cancelled = record {
  gone = λ id gone. t.gone id (ground (arith, gone, cancelled));
  owned = ground (arith, t.owned, owner);
  unrecorded = put-unrecorded j.action_id _ m t (ground (arith, same, running-id i r m h));
}

pub canceled-IsTidy :
    (i j : OptionInstance) (r : ActionRecord) (m : OptionAuthority) (a : Bool) (c : OptionContext)
    (reason : String)
    → IsRunning i r m
    → IsTidy m
    → j.action_id ≡ i.action_id
    → IsTidy (advanced j r a c reason (cancel i.goal.option_instance_id m.lease) m)
unfolding announce record_event
canceled-IsTidy i j r m a c reason h t same = record {
  gone = λ id. cancel-gone i.goal.option_instance_id id m t h.owner h.identified;
  owned = ground (arith, t.owned, cancel-owner i.goal.option_instance_id m.lease);
  unrecorded = put-unrecorded j.action_id _ m t (ground (arith, same, running-id i r m h));
}

pub accepted-IsTidy :
    (action_id : String) (g : OptionGoal) (c : OptionContext) (m : OptionAuthority)
    → IsTidy m
    → is_empty action_id ≡ false
    → IsTidy (accepted action_id g c m)
unfolding announce record_event
accepted-IsTidy action_id g c m t named = record {
  gone = λ id gone. ground (arith, t.gone id gone);
  owned = ground (arith, eq_iff g.option_instance_id g.option_instance_id);
  unrecorded = put-unrecorded action_id _ m t named;
}

pub reject_for_good-IsTidy :
    (action_id : String) (g : OptionGoal) (c : OptionContext) (m : OptionAuthority)
    (reason : String)
    → IsTidy m
    → is_empty action_id ≡ false
    → IsTidy (reject_for_good action_id g c reason m).1
unfolding reject_for_good record_event
reject_for_good-IsTidy action_id g c m reason t named = record {
  gone = t.gone;
  owned = t.owned;
  unrecorded = put-unrecorded action_id _ m t named;
}
