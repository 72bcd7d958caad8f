-- ===== src/Redis/Scripts/Fetching.antt =====
-- get_jobs_from_queue.lua and enqueue_jobs_from_dead_broker.lua of spinach/brokers/redis_scripts.
use spinach.Prelude.{
  ℕ, zero, suc, ◌+◌, ℤ, pos, negsuc, ◌+ℤ◌, leb_ℤ, Bool, true, false, false, not, ◌&&◌, String, List,
  [], ◌∷◌, ◌++◌, Option, none, some, leb, ltb, length, if◌then◌else◌,
}
use spinach.Outcome.{Result, ok, raise, response_error}
use spinach.Action.{modify, pure, lift, asks, ◌>>=◌, ◌>>◌}
use spinach.Json.{Value, num, neg, Fields, Json}
use spinach.Redis.Commands.{Redis}
use spinach.Redis.Scripts.{
  Reply, jobs, re_enqueued, text, number, set_field, is_limited, in_namespace, Script, decrement,
}

-- Whether the limit of a task is reached; a limited task without a count makes the comparison fail.
abbrev pub is_full : Option ℤ → Option ℤ → Result Bool
is_full none current = ok false
is_full (some m) none = if is_limited (some m) then raise response_error else ok false
is_full (some m) (some c) = ok (is_limited (some m) && leb_ℤ m c)

abbrev pub of_ℤ : ℤ → Value
of_ℤ (pos n) = num n
of_ℤ (negsuc n) = neg n

-- The keys that the fetching script is given, and the two numbers.
pub record FetchArgs : Type 0 where
  pub queue : String
  pub running_jobs_key : String
  pub job_status_running : ℕ
  pub max_jobs : ℕ
  pub max_concurrency_key : String
  pub current_concurrency_key : String

module _ (redis : Redis) where
  open redis use {
    Store, rpush, lpush, lpop, llen, hget_number, hset, hincrby, hdel, hvals, zrem_name, publish,
    decode, encode,
  }

  -- A job that may run is tracked as running, and counted if its task has a limit.
  unfoldable pub track : FetchArgs → Json → String → String → Script redis Json
  track a job_json task_name id s =
      let tracked = hset a.running_jobs_key id job_json s in
      (
        ok job_json,
        if is_limited (hget_number a.max_concurrency_key task_name tracked)
            then hincrby a.current_concurrency_key task_name (pos 1) tracked
            else tracked,
      )

  unfoldable pub run_one : FetchArgs → Fields → String → Script redis Json
  unfolding track
  run_one a job task_name =
      lift (text "id" job)
      >>= track a (encode (set_field "status" (num a.job_status_running) job)) task_name

  abbrev pub Loop : Type 0
  Loop = List Json → List Json → Script redis (List Json × List Json)

  -- The rest of a round, for the job that was popped: `next` is the rounds after it.
  abbrev pub place :
      Loop
      → FetchArgs
      → List Json
      → List Json
      → Json
      → String
      → Bool
      → Script redis (List Json × List Json)
  place next a taken re_add job_json task_name true =
      if leb a.max_jobs (length taken)
      then pure (taken, re_add ++ job_json ∷ [])
      else next taken (re_add ++ job_json ∷ [])
  place next a taken re_add job_json task_name false =
      run_one a (decode job_json) task_name >>= λ running.
      if leb a.max_jobs (length taken + 1)
      then pure (taken ++ running ∷ [], re_add)
      else next (taken ++ running ∷ []) re_add

  abbrev pub fullness : FetchArgs → String → Script redis Bool
  fullness a task_name = asks (λ s.
      is_full (hget_number a.max_concurrency_key task_name s)
        (hget_number a.current_concurrency_key task_name s))

  abbrev pub round :
      Loop → FetchArgs → List Json → List Json → Option Json → Script redis (List Json × List Json)
  round next a taken re_add none = pure (taken, re_add)
  round next a taken re_add (some job_json) =
      lift (text "task_name" (decode job_json)) >>= λ task_name.
      fullness a task_name >>= place next a taken re_add job_json task_name

  -- `repeat … until i > max_jobs`, on fuel; the jobs taken and the ones to add again, in order.
  unfoldable pub fetch_loop : ℕ → FetchArgs → Loop
  unfolding run_one
  fetch_loop zero a taken re_add s = (ok (taken, re_add), s)
  fetch_loop (suc fuel) a taken re_add s =
      let (popped, after) = lpop a.queue s in round (fetch_loop fuel a) a taken re_add popped after

  -- The refused jobs go back to the front, in their order.
  unfoldable pub lpush_all : String → List Json → Store → Store
  lpush_all queue [] s = s
  lpush_all queue (job_json ∷ rest) s = lpush queue job_json (lpush_all queue rest s)

  -- Every round takes one job off the queue, and one more finds it empty.
  unfoldable pub get_jobs_from_queue : FetchArgs → Script redis Reply
  unfolding fetch_loop lpush_all
  get_jobs_from_queue a = do
    length_now ← asks (λ s. ok (llen a.queue s))
    (taken, re_add) ← fetch_loop (length_now + 1) a [] []
    modify (lpush_all a.queue re_add)
    pure (jobs taken)

  -- The body of the loop over the jobs of a dead broker.
  unfoldable pub re_enqueue_one :
      String → String → String → String → ℕ → List Json → Json → Script redis (ℕ × List Json)
  unfolding decrement
  re_enqueue_one running_jobs_key namespace max_key cur_key num_enqueued failed job_json = do
    let job = decode job_json
    max_retries ← lift (number "max_retries" job)
    retries ← lift (number "retries" job)
    counts ←
        if not (leb_ℤ max_retries (pos 0)) && not (leb_ℤ max_retries retries)
        then (let again =
              encode
                (set_field "status" (num 2) (set_field "retries" (of_ℤ (retries +ℤ pos 1)) job)) in
            lift (text "task_name" job) >>= λ task_name.
            decrement redis max_key cur_key task_name >>= λ u. lift (text "queue" job) >>= λ queue.
            modify (rpush (in_namespace namespace queue) again) >>= λ v.
            pure (num_enqueued + 1, failed))
        else pure (num_enqueued, failed ++ job_json ∷ [])
    id ← lift (text "id" job)
    modify (hdel running_jobs_key id)
    pure counts

  unfoldable pub re_enqueue_all :
      String → String → String → String → ℕ → List Json → List Json → Script redis (ℕ × List Json)
  unfolding re_enqueue_one
  re_enqueue_all running_jobs_key namespace max_key cur_key n failed [] = pure (n, failed)
  re_enqueue_all running_jobs_key namespace max_key cur_key n failed (job_json ∷ rest) =
      re_enqueue_one running_jobs_key namespace max_key cur_key n failed job_json >>= λ counts.
      re_enqueue_all running_jobs_key namespace max_key cur_key counts.0 counts.1 rest

  unfoldable pub enqueue_jobs_from_dead_broker :
      String → String → String → String → String → String → String → String → Script redis Reply
  unfolding re_enqueue_all
  enqueue_jobs_from_dead_broker dead_broker_id running_jobs_key all_brokers_hash_key
        all_brokers_zset_key namespace notifications max_key cur_key =
      do
        jobs_json ← asks (λ s. ok (hvals running_jobs_key s))
        (num_enqueued_jobs, failed_jobs) ←
            re_enqueue_all running_jobs_key namespace max_key cur_key 0 [] jobs_json
        modify (hdel all_brokers_hash_key dead_broker_id)
        modify (zrem_name all_brokers_zset_key dead_broker_id)
        if ltb 0 num_enqueued_jobs then modify (publish notifications) else pure tt
        pure (re_enqueued num_enqueued_jobs failed_jobs)
