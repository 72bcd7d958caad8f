-- ===== src/Redis/Scripts/Tokens.antt =====
-- enqueue_job.lua of spinach/brokers/redis_scripts leaves idempotency tokens alone.
use spinach.Prelude.{pos, negsuc, ◌+ℤ◌, true, String, List, [], ◌∷◌, ◌≡◌, ◌≢◌, Bool-cases, inl, inr}
use spinach.Outcome.{Result, ok, raise}
use spinach.Action.{modify, lift, Always, >>=-Always, ◌>>=◌}
use spinach.Json.{Fields, Json}
use spinach.Redis.Commands.{Redis, KeepsTokens}
use spinach.Redis.Scripts.{
  Script, Reply, release_failed, store_one, forget_running, text, number, has_status, is_limited,
  in_namespace, decrement, EnqueueArgs, enqueue_one, enqueue_all, enqueue_job,
}

module _ (redis : Redis) (laws : KeepsTokens redis) (token : String) where
  open redis use {Store, has_key, hget_number, hincrby, rpush, zadd, hdel, publish, decode}

  -- The token is still there.
  abbrev pub Kept : Store → Store → Type 0
  Kept s t = has_key token s ≡ true → has_key token t ≡ true

  Kept-trans : (s t u : Store) → Kept s t → Kept t u → Kept s u
  Kept-trans s t u h k e = k (h e)

  then-Always :
      {A B : Type 0} (m : Script redis A) (f : A → Script redis B)
      → Always Kept m
      → ((a : A) → Always Kept (f a))
      → Always Kept (m >>= f)
  then-Always m f = >>=-Always Kept Kept-trans m f

  decrement-Kept : (max cur name : String) → Always Kept (decrement redis max cur name)
  unfolding decrement
  decrement-Kept max cur name s e = elim (Bool-cases (is_limited (hget_number max name s))) [
    | inl t ↦ rw (t, decrement) (laws.hincrby_keeps token cur name (negsuc 0) s e)
    | inr t ↦ rw (t, decrement) e
  ]

  -- What follows a reading of the arguments, which may raise.
  lift-Kept :
      {A B : Type 0} (r : Result A) (f : A → Script redis B)
      → ((a : A) → Always Kept (f a))
      → Always Kept (lift r >>= f)
  lift-Kept (ok a) f h = h a
  lift-Kept (raise x) f h = λ s e. e

  module _ (a : EnqueueArgs) (other : token ≢ a.running_jobs_key) where
    release_failed-Kept : (job : Fields) → Always Kept (release_failed redis a job)
    unfolding release_failed
    release_failed-Kept job s e = elim (Bool-cases a.from_failure) [
      | inl t ↦
          rw (t, release_failed)
            (lift-Kept (text "task_name" job)
              (decrement redis a.max_concurrency_key a.current_concurrency_key)
              (decrement-Kept a.max_concurrency_key a.current_concurrency_key) s e)
      | inr t ↦ rw (t, release_failed) e
    ]

    store_one-Kept : (job : Fields) (doc : Json) → Always Kept (store_one redis a job doc)
    unfolding store_one
    store_one-Kept job doc s e = elim (Bool-cases (has_status (pos 2) job)) [
      | inl t ↦
          rw (t, store_one)
            (lift-Kept (text "queue" job)
              (λ queue. modify (rpush (in_namespace a.namespace queue) doc))
              (λ queue. laws.rpush_keeps token (in_namespace a.namespace queue) doc) s e)
      | inr t ↦
          rw (t, store_one)
            (lift-Kept (number "at" job) (λ at. modify (zadd a.future_jobs (at +ℤ pos 1) doc))
              (λ at. laws.zadd_keeps token a.future_jobs (at +ℤ pos 1) doc) s e)
    ]

    forget_running-Kept : (job : Fields) → Always Kept (forget_running redis a job)
    unfolding forget_running
    forget_running-Kept job =
        lift-Kept (text "id" job) (λ id. modify (hdel a.running_jobs_key id))
          (λ id s. laws.hdel_keeps token a.running_jobs_key id s other)

    enqueue_one-Kept : (doc : Json) → Always Kept (enqueue_one redis a doc)
    unfolding enqueue_one
    enqueue_one-Kept doc =
        let job = decode doc in
        then-Always (release_failed redis a job) _ (release_failed-Kept job) (λ u.
          then-Always (store_one redis a job doc) _ (store_one-Kept job doc)
            (λ v. forget_running-Kept job))

    enqueue_all-Kept : (docs : List Json) → Always Kept (enqueue_all redis a docs)
    unfolding enqueue_all
    enqueue_all-Kept [] = λ s e. e
    enqueue_all-Kept (doc ∷ docs) =
        then-Always (enqueue_one redis a doc) _ (enqueue_one-Kept doc) (λ u. enqueue_all-Kept docs)

    publish-Kept : Always Kept (λ s. (Result.ok Reply.nothing, publish a.notifications s))
    publish-Kept s = laws.publish_keeps token a.notifications s

    pub enqueue_job-Kept : (docs : List Json) → Always Kept (enqueue_job redis a docs)
    unfolding enqueue_job
    enqueue_job-Kept docs =
        then-Always (enqueue_all redis a docs) _ (enqueue_all-Kept docs) (λ u. publish-Kept)
