-- ===== src/Match/Requests/Replay.antt =====
-- Requests are idempotent: an answered request is answered the same again, and its ID is not free.
use hsl.Prelude.{
  ℕ, ◌≤◌, ◌<◌, String, ◌≡◌, ◌≢◌, false, arith, Option, some, length, is_blank, pair_eq,
  pair_beq_iff,
}
use hsl.Prelude.Outcome.{Outcome, ok, raised}
use hsl.Prelude.Dict
use hsl.Match.Types.{RequestResult, result}
use hsl.Match.Manager.{StageManager, Request, Method, timed, advance, record_audit, no_details}
use hsl.Match.Requests.{
  request_beq_iff, request_eq, operation_of, cached, remember, finish_request, answer,
}

-- The operations that `m` remembers hold the answer `r` to `request` under `request_id`.
abbrev pub Remembers : String → Request → RequestResult → StageManager → Type 0
Remembers request_id request r m =
    Dict.get (operation_of request, request_id) m.operations
    ≡ some (record { request = request; result = r })

remember-Remembers :
    (request_id : String) (request : Request) (r : RequestResult) (m : StageManager)
    → Remembers request_id request r (remember request_id request r m)
unfolding remember record_audit
remember-Remembers request_id request r m = ground (
  arith,
  Dict.get-put (operation_of request, request_id) (operation_of request, request_id)
      (record { request = request; result = r }) m.operations,
  pair_beq_iff (operation_of request, request_id) (operation_of request, request_id),
)

cached-Remembers :
    (request_id : String) (request : Request) (r : RequestResult) (m : StageManager)
    → Remembers request_id request r m
    → cached request_id request m ≡ (some r, m)
unfolding cached
cached-Remembers request_id request r m h = ground (arith, request_beq_iff request request)

ok-injective : {a b : RequestResult} → ok a ≡ ok b → a ≡ b
ok-injective h = ground arith

abbrev pub reused : StageManager → RequestResult
reused m = result false "request_id_reused_with_different_payload" m.stage_id

cached-reused :
    (request_id : String) (request prior : Request) (r : RequestResult) (m : StageManager)
    → operation_of prior ≡ operation_of request
    → prior ≢ request
    → Remembers request_id prior r m
    → cached request_id request m
      ≡ (some (reused m), record_audit (operation_of request) request_id (reused m) no_details m)
unfolding cached
cached-reused request_id request prior r m same other h =
    ground (arith, request_beq_iff prior request, same)

cached-free :
    (request_id : String) (request : Request) (m : StageManager)
    → Dict.get (operation_of request, request_id) m.operations ≡ Option.none
    → length m.operations < m.profile.max_request_records
    → cached request_id request m ≡ (Option.none, m)
unfolding cached
cached-free request_id request m free room = ground arith

pub advance-operations :
    (now : ℕ) (m : StageManager)
    → ((advance now m).operations ≡ m.operations) × ((advance now m).profile ≡ m.profile)
unfolding advance record_audit
advance-operations now m = ground arith

module _ (request_id : String) (request : Request)
    (after : RequestResult → StageManager → StageManager) (decide : Method RequestResult) where
  -- A remembered request is answered as before, whatever the manager's state has become: the clock
  -- is applied, and nothing else changes.
  pub answer-remembered :
      (r : RequestResult) (now : ℕ) (m : StageManager)
      → is_blank request_id ≡ false
      → m.last_now_ns ≤ now
      → Remembers request_id request r (advance now m)
      → timed now (answer request_id request after decide) m ≡ (ok r, advance now m)
  unfolding answer timed
  answer-remembered r now m named le h =
      ground (arith, cached-Remembers request_id request r (advance now m) h)

  -- A request ID that is remembered for another payload of the same operation is refused: the clock
  -- is applied, the refusal is put in the journal, and nothing else changes.
  pub answer-reused :
      (prior : Request) (r : RequestResult) (now : ℕ) (m : StageManager)
      → is_blank request_id ≡ false
      → m.last_now_ns ≤ now
      → operation_of prior ≡ operation_of request
      → prior ≢ request
      → Remembers request_id prior r (advance now m)
      → timed now (answer request_id request after decide) m ≡ (
        ok (reused (advance now m)),
        record_audit
            (operation_of request)
            request_id
            (reused (advance now m))
            no_details
            (advance now m),
      )
  unfolding answer timed
  answer-reused prior r now m named le same other h =
      ground (arith, cached-reused request_id request prior r (advance now m) same other h)

  finish_request-Remembers :
      ((r : RequestResult) (m : StageManager) → (after r m).operations ≡ m.operations)
      → (d : Outcome RequestResult × StageManager) {r : RequestResult}
      → (finish_request request_id request after d).0 ≡ ok r
      → Remembers request_id request r (finish_request request_id request after d).1
  unfolding finish_request
  finish_request-Remembers keep (ok r', m) {r} h =
      let same = ok-injective h in
      rw (keep r' (remember request_id request r' m))
        (rw same (remember-Remembers request_id request r m))
  finish_request-Remembers keep (raised e, m) h = cc

  -- A request that is answered, with an ID that was free and within the capacity, is remembered.
  pub answered-Remembers :
      ((r : RequestResult) (m : StageManager) → (after r m).operations ≡ m.operations)
      → (now : ℕ) (m : StageManager) {r : RequestResult}
      → Dict.get (operation_of request, request_id) m.operations ≡ Option.none
      → length m.operations < m.profile.max_request_records
      → (timed now (answer request_id request after decide) m).0 ≡ ok r
      → Remembers request_id request r (timed now (answer request_id request after decide) m).1
        × (is_blank request_id ≡ false)
        × (m.last_now_ns ≤ now)
  unfolding answer timed
  answered-Remembers keep now m {r} free room h =
      let u = advance-operations now m in
      let c = cached-free request_id request (advance now m) (rw u.0 free) (rw (u.0, u.1) room) in
      ground (arith, c, finish_request-Remembers keep (decide (advance now m)) {r = r})
