-- ===== src/Worker/Calls.antt =====
-- The calls of a bounded worker, in the order in which its lock admits them.
use hsl.Prelude.{Option, List, [], ◌∷◌}
use hsl.Prelude.Int.{ℤ}
use hsl.Prelude.Outcome.{Outcome}
use hsl.Worker.{Versions, BoundedWorker, submit, invalidate, poll, close}

-- One call of the worker.
pub data Call (R : Type 0) : Type 0 where
  submitting : (v : Versions) (now : ℤ) (future : Option (Outcome R)) → Call R
  invalidating : Call R
  polling : (v : Versions) (now : ℤ) (future : Option (Outcome R)) → Call R
  closing : Call R

unfoldable pub perform : {R : Type 0} → Call R → BoundedWorker → BoundedWorker
perform (submitting v now future) m = (submit v now future m).1
perform invalidating m = invalidate m
perform (polling v now future) m = (poll v now future m).1
perform closing m = close m

unfoldable pub perform_all : {R : Type 0} → List (Call R) → BoundedWorker → BoundedWorker
perform_all [] m = m
perform_all (c ∷ cs) m = perform_all cs (perform c m)
