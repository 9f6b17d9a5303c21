-- ===== src/Tests/Worker.antt =====
-- The bounded worker at concrete inputs.
use hsl.Prelude.{ℕ, false, true, any, none, some, List, [], ◌∷◌, ◌≡◌, refl}
use hsl.Prelude.Int.{pos, ltb_ℤ, ◌+ℤ◌}
use hsl.Prelude.Outcome.{ok}
use hsl.Worker.{
  Versions, Status, WorkerResult, BoundedWorker, new, submit, poll, poll_item, close, differ,
}
use hsl.Worker.Freshness.{is_invalidating, poll-IsFresh}
use hsl.Worker.Calls.{Call, perform, perform_all}
use hsl.Worker.Delivery.{deliveries, IsAscending, worker-IsAscending}

abbrev versions : Versions
versions = record { map_version = pos 1; topology_version = pos 2; localization_epoch = "map" }

abbrev idle : BoundedWorker
idle = record { timeout_s = pos 50; item = none; next_id = 1; generation = 0; closed = false }

abbrev finished : WorkerResult ℕ
finished = record {
  request_id = 1;
  status = Status.completed;
  value = some 7;
  reason = "OK";
  started_at = pos 100;
  completed_at = pos 120;
  expected_versions = versions;
}

-- The calls between the submission and the result.
abbrev between : List (Call ℕ)
between =
    Call.polling versions (pos 110) none
    ∷ Call.submitting versions (pos 115) none
    ∷ Call.closing
    ∷ []

took : (submit {R = ℕ} versions (pos 100) none idle).0 ≡ ok 1
unfolding submit
took = refl

collected :
    (poll {R = ℕ} versions
      (pos 120)
      (some (ok 7))
      (perform_all between (submit {R = ℕ} versions (pos 100) none idle).1)).0
    ≡ ok (some finished)
unfolding poll poll_item submit close perform_all perform ◌+ℤ◌
collected = refl

poll-IsFresh_example :
    (differ versions versions ≡ false)
    × (any is_invalidating between ≡ false)
    × (ltb_ℤ (pos 120) (pos 100 +ℤ idle.timeout_s) ≡ true)
    × ((value : ℕ) × (some (ok 7) ≡ some (ok value)) × (finished.value ≡ some value))
    × ((finished.started_at ≡ pos 100)
        × (finished.completed_at ≡ pos 120)
        × (finished.expected_versions ≡ versions))
    × ((poll {R = ℕ} versions
          (pos 120)
          (some (ok 7))
          (perform_all between (submit {R = ℕ} versions (pos 100) none idle).1)).1.item
        ≡ none)
poll-IsFresh_example =
    poll-IsFresh versions versions (pos 100) (pos 120) none (some (ok 7)) 1 idle between finished
      took collected refl refl

abbrev calls : List (Call ℕ)
calls =
    Call.submitting versions (pos 100) none
    ∷ Call.polling versions (pos 120) (some (ok 7))
    ∷ Call.submitting versions (pos 130) none
    ∷ Call.invalidating
    ∷ Call.polling versions (pos 140) (some (ok 8))
    ∷ []

made : new (pos 50) ≡ ok idle
unfolding new
made = refl

worker-IsAscending_example : IsAscending 1 (deliveries calls idle)
worker-IsAscending_example = worker-IsAscending (pos 50) idle calls made
