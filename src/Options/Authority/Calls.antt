-- ===== src/Options/Authority/Calls.antt =====
-- The calls on an option authority.
use hsl.Prelude.{ℕ, String, List, [], ◌∷◌, nat_eq, string_eq}
use hsl.Options.{OptionGoal, OptionContext, OptionOutcome}
use hsl.Options.Authority.{option_phase_eq, OptionAuthority}
use hsl.Options.Authority.Methods.{
  submit, mark_executing, begin_replan, request_cancel, acknowledge_cancel, tick, fail,
}

pub data Call : Type 0 where
  propose : (action_id : String) (g : OptionGoal) (c : OptionContext) → Call
  execute : (action_id : String) (c : OptionContext) → Call
  plan_again : (action_id : String) (c : OptionContext) → Call
  stop : (action_id : String) (c : OptionContext) (timeout : ℕ) (reason : String) → Call
  acknowledge : (action_id : String) (c : OptionContext) → Call
  observe : (c : OptionContext) → Call
  give_up : (action_id : String) (c : OptionContext) (o : OptionOutcome) (reason : String) → Call

-- The authority that a call leaves, whether it returns or raises.
unfoldable pub perform : Call → OptionAuthority → OptionAuthority
unfolding submit mark_executing begin_replan request_cancel acknowledge_cancel tick fail
perform (propose action_id g c) m = (submit action_id g c m).1
perform (execute action_id c) m = (mark_executing action_id c m).1
perform (plan_again action_id c) m = (begin_replan action_id c m).1
perform (stop action_id c timeout reason) m = (request_cancel action_id c timeout reason m).1
perform (acknowledge action_id c) m = (acknowledge_cancel action_id c m).1
perform (observe c) m = (tick c m).1
perform (give_up action_id c o reason) m = (fail action_id c o reason m).1

unfoldable pub perform_all : List Call → OptionAuthority → OptionAuthority
perform_all [] m = m
perform_all (call ∷ calls) m = perform_all calls (perform call m)
