-- ===== src/Redis/Broker/Runs.antt =====
-- `_run_script` of spinach/brokers/redis.py: one request for most scripts, and for a script that is
-- protected by an idempotency token as many as `call_with_retry` makes.
use spinach.Prelude.{ℕ, zero, suc, String, Option, none, some}
use spinach.Outcome.{Result, ok, raise, connection_error, response_error}
use spinach.Utils.{Call, returns, listed, unlisted, call_with_retry}
use spinach.Redis.Commands.{Redis}
use spinach.Redis.Scripts.{Script, Reply, guarded}
use spinach.Redis.Broker.{Fate, arrives, lost, unanswered, RedisBroker, Method, next_request}

module _ (redis : Redis) where
  module _ {A : Type 0} where
    abbrev pub request_as : Fate → Script redis A → Method redis A
    request_as arrives script b =
        let (result, s) = script b.store in (result, next_request redis s b)
    request_as lost script b = (raise connection_error, next_request redis b.store b)
    request_as unanswered script b =
        let (result, s) = script b.store in (raise connection_error, next_request redis s b)

    -- One request, and its answer.
    unfoldable pub request : Script redis A → Method redis A
    request script b = request_as (b.fates 0) script b

  -- `ConnectionError` and `TimeoutError` are the exceptions that are retried.
  abbrev pub call_of : Result Reply → Call Reply
  call_of (ok reply) = returns reply
  call_of (raise connection_error) = listed
  call_of (raise e) = unlisted

  abbrev pub result_of : Call Reply → Result Reply
  result_of (returns reply) = ok reply
  result_of listed = raise connection_error
  result_of unlisted = raise response_error

  -- The broker and the server after `n` requests for the same script.
  unfoldable pub after : Script redis Reply → ℕ → RedisBroker redis → RedisBroker redis
  unfolding request
  after script zero b = b
  after script (suc n) b = (request script (after script n b)).1

  unfoldable pub nth_call : Script redis Reply → RedisBroker redis → ℕ → Call Reply
  unfolding request after
  nth_call script b n = call_of (request script (after script n b)).0

  -- A protected script, with the token of `generate_idempotency_token`. `none` means that the fuel of
  -- `call_with_retry` ran out.
  unfoldable pub run_protected :
      (ℕ → ℕ)
      → String
      → Script redis Reply
      → RedisBroker redis
      → Option (Result Reply × RedisBroker redis)
  unfolding call_with_retry nth_call after guarded
  run_protected randint token script b =
      let protected = guarded redis token script in
      elim (call_with_retry randint (nth_call protected b) b.enqueue_job_max_retries) [
        | none ↦ none
        | some retried ↦ some (result_of retried.outcome, after protected retried.calls b)
      ]
