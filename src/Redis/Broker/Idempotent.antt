-- ===== src/Redis/Broker/Idempotent.antt =====
-- A protected script of spinach/brokers/redis.py runs at most once, however often it is requested.
use Prim.Native.Char.{code}
use text.Mathlib.TextLemmas.{append_cancel_left, cons-append, head-eq_of_cons-eq}
use Prim.Native.String.{◌++◌ as str_append}
use spinach.Prelude.{
  ℕ, zero, suc, ◌+◌, ◌≤◌, ◌≡◌, refl, sym, ap, ◌∙◌, ◌≢◌, ◌⊎◌, inl, inr, Bool, true, false, String,
  List, ◌∷◌, map, none, some, length, arith,
}
use spinach.Outcome.{Result, ok, raise, connection_error}
use spinach.Action.{Always}
use spinach.Utils.{Call, Retried, call_with_retry}
use spinach.Utils.Retry.{call_with_retry-Ends}
use spinach.Job.{Job, serialize}
use spinach.Broker.{mark_all}
use spinach.Redis.Commands.{Redis, KeepsTokens}
use spinach.Redis.Scripts.{Script, Reply, guarded, enqueue_job}
use spinach.Redis.Scripts.Tokens.{Kept, enqueue_job-Kept}
use spinach.Redis.Broker.{Fate, arrives, lost, unanswered, RedisBroker}
use spinach.Redis.Broker.Runs.{
  request, request_as, call_of, result_of, after, nth_call, run_protected,
}
use spinach.Redis.Broker.Enqueueing.{
  returned, run_marked, running_jobs_key, enqueue_args, idempotency_key, enqueue_jobs,
}

module _ (redis : Redis) (laws : KeepsTokens redis) (token : String) (script : Script redis Reply)
    (keeps : Always (Kept redis laws token) script) (before : redis.Store)
    (fresh : redis.has_key token before ≡ false) where
  open redis use {Store, has_key, set_nx}

  abbrev protected : Script redis Reply
  protected = guarded redis token script

  -- The server after one run of the script.
  abbrev once : Store
  once = (script (set_nx token before).1).1

  abbrev Stored : Store → Type 0
  Stored s = (s ≡ before) ⊎ (s ≡ once)

  has_once : has_key token once ≡ true
  has_once = keeps (set_nx token before).1 (laws.set_nx_has token before)

  guarded_first : (protected before).1 ≡ once
  unfolding guarded
  guarded_first = rw (laws.set_nx_fresh token before fresh) refl

  guarded_again : (protected once).1 ≡ once
  unfolding guarded
  guarded_again = rw (laws.set_nx_again token once has_once) refl

  protected-store : (s : Store) → Stored s → (protected s).1 ≡ once
  protected-store s (inl e) = ap (λ t. (protected t).1) e ∙ guarded_first
  protected-store s (inr e) = ap (λ t. (protected t).1) e ∙ guarded_again

  -- After a request the script ran once, or it did not run and the request counts as failed.
  abbrev Requested : Result Reply → Store → Type 0
  Requested r s = ((r ≡ raise connection_error) × (s ≡ before)) ⊎ (s ≡ once)

  request_as-Requested :
      (fate : Fate) (b : RedisBroker redis)
      → Stored b.store
      → Requested (request_as redis fate protected b).0 (request_as redis fate protected b).1.store
  request_as-Requested arrives b h = inr (protected-store b.store h)
  request_as-Requested lost b (inl e) = inl (refl, e)
  request_as-Requested lost b (inr e) = inr e
  request_as-Requested unanswered b h = inr (protected-store b.store h)

  Requested-Stored : (r : Result Reply) (s : Store) → Requested r s → Stored s
  Requested-Stored r s (inl h) = inl h.1
  Requested-Stored r s (inr h) = inr h

  after-Requested :
      (b : RedisBroker redis) (n : ℕ)
      → b.store ≡ before
      → let c = after redis protected n b in
        Stored c.store
        × Requested (request redis protected c).0 (after redis protected (suc n) b).store
  unfolding after request
  after-Requested b zero e = (inl e, request_as-Requested (b.fates 0) b (inl e))
  after-Requested b (suc n) e =
      let c = after redis protected n b in
      let d = after redis protected (suc n) b in
      let s = Requested-Stored (request redis protected c).0 d.store (after-Requested b n e).1 in
      (s, request_as-Requested (d.fates 0) d s)

  nth_call-listed :
      (r : Result Reply)
      → r ≡ raise connection_error
      → result_of redis (call_of redis r) ≡ raise connection_error
  nth_call-listed r e = rw e refl

  abbrev Settled : Result Reply → RedisBroker redis → Type 0
  Settled out c = ((out ≡ raise connection_error) × (c.store ≡ before)) ⊎ (c.store ≡ once)

  settled :
      (b : RedisBroker redis) (n calls : ℕ) (outcome : Call Reply)
      → b.store ≡ before
      → calls ≡ suc n
      → nth_call redis protected b n ≡ outcome
      → Settled (result_of redis outcome) (after redis protected calls b)
  unfolding nth_call
  settled b n calls outcome e counted last =
      rw (← last, counted)
        elim (after-Requested b n e).1 [
          | inl h ↦
              inl (nth_call-listed (request redis protected (after redis protected n b)).0 h.0, h.1)
          | inr h ↦ inr h
        ]

  run_as :
      (randint : ℕ → ℕ) (b : RedisBroker redis) (r : Retried Reply)
      → call_with_retry randint (nth_call redis protected b) b.enqueue_job_max_retries ≡ some r
      → run_protected redis randint token script b
        ≡ some (result_of redis r.outcome, after redis protected r.calls b)
  unfolding run_protected
  run_as randint b r ran =
      ap
        (λ o. elim o [
          | none ↦ none
          | some retried ↦
              some (result_of redis retried.outcome, after redis protected retried.calls b)
        ])
        ran

  -- A protected script that returns or raises ran once; or it did not run, and raises what a failed
  -- request raises.
  pub run_protected-once :
      (randint : ℕ → ℕ) (b : RedisBroker redis)
      → ((n : ℕ) → randint n ≤ n)
      → b.store ≡ before
      → (out : Result Reply) × (c : RedisBroker redis) × (run_protected redis randint token script b
          ≡ some (out, c))
        × Settled out c
  run_protected-once randint b small e =
      let (r, ran, ends) =
        call_with_retry-Ends randint (nth_call redis protected b) b.enqueue_job_max_retries small in
      let n = 0 + length r.slept in
      (
        result_of redis r.outcome,
        after redis protected r.calls b,
        run_as randint b r ran,
        settled b n r.calls r.outcome e (omega (arith, ends.counted)) ends.last,
      )

differ : (s t : String) → str_append "idempotency_" s ≢ str_append "_running-jobs-on-broker-" t
differ s t e =
    let heads =
      head-eq_of_cons-eq
        (sym (cons-append "i" "dempotency_" s) ∙ e ∙ cons-append "_" "running-jobs-on-broker-" t) in
    let codes = ap code heads in omega arith

-- The token's key is not the key of the running jobs.
idempotency_key-other :
    (redis : Redis) (b : RedisBroker redis) (token : String)
    → idempotency_key redis b token ≢ running_jobs_key b b.id
idempotency_key-other redis b token e = differ token b.id (
    append_cancel_left "/" (str_append "idempotency_" token)
      (str_append "_running-jobs-on-broker-" b.id) (append_cancel_left b.namespace _ _ e))

-- What `run_protected` gives, with the jobs in place of the reply.
returned-Settled :
    (redis : Redis) (js : List Job) (before ran : redis.Store) (out : Result Reply)
    (c : RedisBroker redis)
    → ((out ≡ raise connection_error) × (c.store ≡ before)) ⊎ (c.store ≡ ran)
    → (given : Result (List Job)) × (returned redis js (some (out, c)) ≡ some (given, c))
      × (((given ≡ raise connection_error) × (c.store ≡ before)) ⊎ (c.store ≡ ran))
returned-Settled redis js before ran (ok reply) c (inl h) = absurd (grind (arith, h.0))
returned-Settled redis js before ran (ok reply) c (inr h) = (ok js, refl, inr h)
returned-Settled redis js before ran (raise e) c (inl h) =
    let same = h.0 in (raise e, refl, inl (cc, h.1))
returned-Settled redis js before ran (raise e) c (inr h) = (raise e, refl, inr h)

enqueue_jobs-marked :
    (redis : Redis) (randint : ℕ → ℕ) (token : String) (now : ℕ) (from_failure : Bool)
    (js : List Job) (b : RedisBroker redis) (marked : List Job)
    → mark_all now js ≡ ok marked
    → enqueue_jobs redis randint token now from_failure js b
      ≡ run_marked redis randint token from_failure marked b
unfolding enqueue_jobs
enqueue_jobs-marked redis randint token now from_failure js b marked e = rw (e, enqueue_jobs) refl

-- A batch that is not empty and whose jobs can be marked, sent with a token that the server does not
-- know, over a connection where any request and any answer may get lost: `enqueue_jobs` ends, and
-- either the script ran once, however often it was sent, or it did not run, and the error of the
-- connection is raised.
pub enqueue_jobs-once :
    (redis : Redis) (laws : KeepsTokens redis) (randint : ℕ → ℕ) (token : String) (now : ℕ)
    (from_failure : Bool) (js : List Job) (b : RedisBroker redis) (j : Job) (marked : List Job)
    → ((n : ℕ) → randint n ≤ n)
    → redis.has_key (idempotency_key redis b token) b.store ≡ false
    → mark_all now js ≡ ok (j ∷ marked)
    → let fresh = (redis.set_nx (idempotency_key redis b token) b.store).1 in
      let script =
        enqueue_job redis (enqueue_args redis b from_failure) (map serialize (j ∷ marked)) in
      (out : Result (List Job)) × (c : RedisBroker redis) × (enqueue_jobs redis randint token now
          from_failure js b
        ≡ some (out, c))
      × (((out ≡ raise connection_error) × (c.store ≡ b.store)) ⊎ (c.store ≡ (script fresh).1))
enqueue_jobs-once redis laws randint token now from_failure js b j marked small fresh marks =
    let script =
      enqueue_job redis (enqueue_args redis b from_failure) (map serialize (j ∷ marked)) in
    let (out, c, ran, settled) =
      run_protected-once redis laws (idempotency_key redis b token) script
        (enqueue_job-Kept redis laws (idempotency_key redis b token)
          (enqueue_args redis b from_failure) (idempotency_key-other redis b token)
          (map serialize (j ∷ marked)))
        b.store fresh randint b small refl in
    let (given, e, q) =
      returned-Settled redis (j ∷ marked) b.store
        (script (redis.set_nx (idempotency_key redis b token) b.store).1).1 out c settled in
    (
      given,
      c,
      enqueue_jobs-marked redis randint token now from_failure js b (j ∷ marked) marks
          ∙ ap (returned redis (j ∷ marked)) ran
          ∙ e,
      q,
    )
