-- ===== src/Redis/Broker/Bounded.antt =====
-- `get_jobs_from_queue` of spinach/brokers/redis.py hands out no more jobs than it was asked for.
use spinach.Prelude.{
  ℕ, zero, suc, ◌+◌, ◌≤◌, ◌<◌, ◌≡◌, refl, sym, ap, ◌∙◌, Bool, true, false, String, List, [], ◌∷◌,
  ◌++◌, Option, none, some, leb, length, length-append, arith, if◌then◌else◌,
}
use spinach.Outcome.{ok, >>=-eq-ok, ok-injective}
use spinach.Action.{pure, and_then-eq-ok}
use spinach.Json.{Json}
use spinach.Job.{Job, deserialize}
use spinach.Redis.Commands.{Redis}
use spinach.Redis.Scripts.{Script, Reply, jobs, text}
use spinach.Redis.Scripts.Fetching.{FetchArgs, run_one, Loop, place, round, is_full, fetch_loop}
use spinach.Redis.Scripts.Fetching
use spinach.Redis.Broker.{RedisBroker, Fate, arrives, lost, unanswered}
use spinach.Redis.Broker.Runs.{request, request_as}
use spinach.Redis.Broker.Methods.{fetch_args, jobs_of, deserialize_all, get_jobs_from_queue}

module _ (redis : Redis) (a : FetchArgs) where
  open redis use {Store, lpop, decode, hget_number}

  -- Rounds that return at most `max_jobs` jobs, if there is room for one when they begin.
  abbrev Bounded : Loop redis → Type 0
  Bounded next =
      (taken re_add : List Json) (s t : Store) (out : List Json × List Json)
      → length taken < a.max_jobs
      → next taken re_add s ≡ (ok out, t)
      → length out.0 ≤ a.max_jobs

  module _ (next : Loop redis) (bounded : Bounded next) where
    taken-bounded :
        (taken re_add : List Json) (running : Json) (enough : Bool) (s t : Store)
        (out : List Json × List Json)
        → length taken < a.max_jobs
        → leb a.max_jobs (length taken + 1) ≡ enough
        → (if enough
              then pure (taken ++ running ∷ [], re_add)
              else next (taken ++ running ∷ []) re_add)
            s
          ≡ (ok out, t)
        → length out.0 ≤ a.max_jobs
    taken-bounded taken re_add running true s t out room e h =
        let same = ap (λ r. r.0) h in
        omega (arith, ap (λ p. length p.0) (ok-injective same), length-append taken (running ∷ []))
    taken-bounded taken re_add running false s t out room e h =
        let more : length taken + 1 < a.max_jobs = ground arith in
        bounded (taken ++ running ∷ []) re_add s t out
          (omega (arith, length-append taken (running ∷ []))) h

    place-bounded :
        (taken re_add : List Json) (doc : Json) (task_name : String) (full : Bool) (s t : Store)
        (out : List Json × List Json)
        → length taken < a.max_jobs
        → place redis next a taken re_add doc task_name full s ≡ (ok out, t)
        → length out.0 ≤ a.max_jobs
    place-bounded taken re_add doc task_name true s t out room h =
        let more : leb a.max_jobs (length taken) ≡ false = ground (arith, room) in
        let goes_on : place redis next a taken re_add doc task_name true s
            ≡ next taken (re_add ++ doc ∷ []) s =
          rw (more) refl in
        bounded taken (re_add ++ doc ∷ []) s t out room (sym goes_on ∙ h)
    place-bounded taken re_add doc task_name false s t out room h =
        let m = run_one redis a (decode doc) task_name s in
        let (running, ran, rest) = and_then-eq-ok m.0 _ m.1 t out h in
        taken-bounded taken re_add running (leb a.max_jobs (length taken + 1)) m.1 t out room refl
          rest

    round-bounded :
        (taken re_add : List Json) (popped : Option Json) (s t : Store)
        (out : List Json × List Json)
        → length taken < a.max_jobs
        → round redis next a taken re_add popped s ≡ (ok out, t)
        → length out.0 ≤ a.max_jobs
    round-bounded taken re_add none s t out room h =
        let same = ap (λ r. r.0) h in omega (arith, ap (λ p. length p.0) (ok-injective same))
    round-bounded taken re_add (some doc) s t out room h =
        let (task_name, named, later) =
          and_then-eq-ok (text "task_name" (decode doc)) _ s t out h in
        let (full, known, placed) =
          and_then-eq-ok
            (is_full (hget_number a.max_concurrency_key task_name s)
              (hget_number a.current_concurrency_key task_name s))
            _ s t out later in
        place-bounded taken re_add doc task_name full s t out room placed

  fetch_loop-Bounded : (fuel : ℕ) → Bounded (fetch_loop redis fuel a)
  unfolding fetch_loop
  fetch_loop-Bounded zero taken re_add s t out room h =
      let same = ap (λ r. r.0) h in omega (arith, ap (λ p. length p.0) (ok-injective same))
  fetch_loop-Bounded (suc fuel) taken re_add s t out room h =
      let (popped, after) = lpop a.queue s in
      round-bounded (fetch_loop redis fuel a) (fetch_loop-Bounded fuel) taken re_add popped after t
        out room h

  abbrev IsBounded : Reply → Type 0
  IsBounded r = (docs : List Json) → r ≡ jobs docs → length docs ≤ a.max_jobs

  script-IsBounded :
      (s t : Store) (reply : Reply)
      → 1 ≤ a.max_jobs
      → Fetching.get_jobs_from_queue redis a s ≡ (ok reply, t)
      → IsBounded reply
  unfolding Fetching.get_jobs_from_queue
  script-IsBounded s t reply some_room h docs e =
      let m = fetch_loop redis (redis.llen a.queue s + 1) a [] [] s in
      let (out, looped, rest) = and_then-eq-ok m.0 _ m.1 t reply h in
      let same : jobs out.0 ≡ jobs docs = ok-injective (ap (λ r. r.0) rest) ∙ e in
      let same_docs : out.0 ≡ docs = cc in
      omega (
        arith,
        ap length same_docs,
        fetch_loop-Bounded (redis.llen a.queue s + 1) [] [] s m.1 out (omega arith)
            (ap (λ r. (r, m.1)) looped),
      )

deserialize_all-length :
    (docs : List Json) (js : List Job) → deserialize_all docs ≡ ok js → length js ≡ length docs
unfolding deserialize_all
deserialize_all-length [] js h = ap length (sym (ok-injective h))
deserialize_all-length (doc ∷ docs) js h =
    let (j, read, later) = >>=-eq-ok (deserialize doc) _ h in
    let (rest, others, same) = >>=-eq-ok (deserialize_all docs) _ later in
    omega (arith, deserialize_all-length docs rest others, ap length (ok-injective same))

module _ (redis : Redis) where
  -- What a request returns, the script returned.
  request_as-ok :
      {A : Type 0} (fate : Fate) (script : Script redis A) (b : RedisBroker redis) (a : A)
      → (request_as redis fate script b).0 ≡ ok a
      → (script b.store).0 ≡ ok a
  request_as-ok arrives script b a h = h
  request_as-ok lost script b a h = absurd (grind (arith, h))
  request_as-ok unanswered script b a h = absurd (grind (arith, h))

  reply-bounded :
      (a : FetchArgs) (reply : Reply) (js : List Job)
      → jobs_of redis reply ≡ ok js
      → IsBounded redis a reply
      → length js ≤ a.max_jobs
  reply-bounded a (jobs docs) js h bounded =
      omega (arith, deserialize_all-length docs js h, bounded docs refl)
  reply-bounded a _ js h bounded = absurd (grind (arith, h))

  pub get_jobs_from_queue-bounded :
      (queue : String) (max_jobs : ℕ) (js : List Job) (b c : RedisBroker redis)
      → 1 ≤ max_jobs
      → get_jobs_from_queue redis queue max_jobs b ≡ (ok js, c)
      → length js ≤ max_jobs
  unfolding get_jobs_from_queue request
  get_jobs_from_queue-bounded queue max_jobs js b c some_room h =
      let a = fetch_args redis b queue max_jobs in
      let script = Fetching.get_jobs_from_queue redis a in
      let m = request redis script b in
      let (reply, replied, read) = and_then-eq-ok m.0 _ m.1 c js h in
      reply-bounded a reply js (ap (λ r. r.0) read) (
        script-IsBounded redis a b.store (script b.store).1 reply some_room
          (ap (λ r. (r, (script b.store).1)) (request_as-ok (b.fates 0) script b reply replied)))
