-- ===== src/Redis/Scripts/Rounds.antt =====
-- The loop of get_jobs_from_queue.lua of spinach/brokers/redis_scripts comes to its end.
use spinach.Prelude.{
  ℕ, zero, suc, ◌+◌, ◌≤◌, ◌<◌, pos, ◌≡◌, refl, ap, ◌∙◌, ◌≢◌, Bool, true, false, String, List, [],
  ◌∷◌, ◌++◌, Option, none, some, leb, length, Bool-cases, inl, inr, ◌⊎◌, arith, if◌then◌else◌,
}
use spinach.Outcome.{Result, ok, raise}
use spinach.Action.{Action, pure, and_then}
use spinach.Json.{Fields, Json}
use spinach.Redis.Commands.{Redis, KeepsLists}
use spinach.Redis.Scripts.{text, is_limited}
use spinach.Redis.Scripts.Fetching.{
  FetchArgs, track, run_one, Loop, place, fullness, round, fetch_loop,
}

-- Two ways to go on that agree where the first part ended.
and_then-same :
    {S A B : Type 0} (r : Result A) (f g : A → Action S B) (s : S)
    → ((a : A) → f a s ≡ g a s)
    → and_then r f s ≡ and_then r g s
and_then-same (ok a) f g s h = h a
and_then-same (raise e) f g s h = refl

module _ (redis : Redis) (laws : KeepsLists redis) (a : FetchArgs)
    (other : a.queue ≢ a.running_jobs_key) (counted : a.queue ≢ a.current_concurrency_key) where
  open redis use {Store, llen, lpop, decode, hget_number, hset, hincrby, encode}

  track-llen :
      (doc : Json) (task_name id : String) (s : Store)
      → llen a.queue (track redis a doc task_name id s).1 ≡ llen a.queue s
  unfolding track
  track-llen doc task_name id s =
      let tracked = hset a.running_jobs_key id doc s in
      let same = laws.hset_llen a.queue a.running_jobs_key id doc s other in
      elim (Bool-cases (is_limited (hget_number a.max_concurrency_key task_name tracked))) [
        | inl t ↦
            rw (t, track)
              (laws.hincrby_llen a.queue a.current_concurrency_key task_name (pos 1) tracked counted
                ∙ same)
        | inr t ↦ rw (t, track) same
      ]

  id_of-llen :
      (r : Result String) (doc : Json) (task_name : String) (s : Store)
      → llen a.queue (and_then r (track redis a doc task_name) s).1 ≡ llen a.queue s
  id_of-llen (ok id) doc task_name s = track-llen doc task_name id s
  id_of-llen (raise e) doc task_name s = refl

  run_one-llen :
      (job : Fields) (task_name : String) (s : Store)
      → llen a.queue (run_one redis a job task_name s).1 ≡ llen a.queue s
  unfolding run_one
  run_one-llen job task_name s = id_of-llen (text "id" job) _ task_name s

  -- Two ways to go on that agree on queues of this length give the same round.
  module _ (next other_next : Loop redis) (n : ℕ)
      (agree : (taken re_add : List Json) (s : Store)
        → llen a.queue s ≡ n
        → next taken re_add s ≡ other_next taken re_add s) where
    after_run :
        (taken re_add : List Json) (r : Result Json) (s : Store)
        → llen a.queue s ≡ n
        → and_then r
            (λ running.
              if leb a.max_jobs (length taken + 1)
              then pure (taken ++ running ∷ [], re_add)
              else next (taken ++ running ∷ []) re_add)
            s
          ≡ and_then r
              (λ running.
                if leb a.max_jobs (length taken + 1)
                then pure (taken ++ running ∷ [], re_add)
                else other_next (taken ++ running ∷ []) re_add)
              s
    after_run taken re_add (raise e) s h = refl
    after_run taken re_add (ok running) s h =
        elim (Bool-cases (leb a.max_jobs (length taken + 1))) [
          | inl t ↦ rw (t) refl
          | inr t ↦ rw (t) (agree (taken ++ running ∷ []) re_add s h)
        ]

    place-same :
        (taken re_add : List Json) (doc : Json) (task_name : String) (full : Bool) (s : Store)
        → llen a.queue s ≡ n
        → place redis next a taken re_add doc task_name full s
          ≡ place redis other_next a taken re_add doc task_name full s
    place-same taken re_add doc task_name true s h =
        elim (Bool-cases (leb a.max_jobs (length taken))) [
          | inl t ↦ rw (t) refl
          | inr t ↦ rw (t) (agree taken (re_add ++ doc ∷ []) s h)
        ]
    place-same taken re_add doc task_name false s h =
        after_run taken re_add (run_one redis a (decode doc) task_name s).0
          (run_one redis a (decode doc) task_name s).1 (run_one-llen (decode doc) task_name s ∙ h)

    round-same :
        (taken re_add : List Json) (doc : Json) (s : Store)
        → llen a.queue s ≡ n
        → round redis next a taken re_add (some doc) s
          ≡ round redis other_next a taken re_add (some doc) s
    round-same taken re_add doc s h =
        and_then-same (text "task_name" (decode doc)) _ _ s (λ task_name.
          and_then-same (fullness redis a task_name s).0 _ _ s
            (λ full. place-same taken re_add doc task_name full s h))

  popped-same :
      (fuel : ℕ) (taken re_add : List Json) (s : Store) (popped : Option Json)
      → ((taken re_add : List Json) (u : Store)
          → llen a.queue u < fuel
          → fetch_loop redis (suc fuel) a taken re_add u ≡ fetch_loop redis fuel a taken re_add u)
      → (lpop a.queue s).0 ≡ popped
      → llen a.queue s < suc fuel
      → round redis (fetch_loop redis (suc fuel) a) a taken re_add popped (lpop a.queue s).1
        ≡ round redis (fetch_loop redis fuel a) a taken re_add popped (lpop a.queue s).1
  popped-same fuel taken re_add s none agree e h = refl
  popped-same fuel taken re_add s (some doc) agree e h =
      let t = (lpop a.queue s).1 in
      let shorter = laws.lpop_shorter a.queue doc s e in
      round-same (fetch_loop redis (suc fuel) a) (fetch_loop redis fuel a) (llen a.queue t)
        (λ more again u k. agree more again u (omega (arith, k, shorter, h))) taken re_add doc t
        refl

  -- One more round than needed changes nothing.
  one_more :
      (fuel : ℕ) (taken re_add : List Json) (s : Store)
      → llen a.queue s < fuel
      → fetch_loop redis (suc fuel) a taken re_add s ≡ fetch_loop redis fuel a taken re_add s
  unfolding fetch_loop
  one_more zero taken re_add s h = absurd (omega arith)
  one_more (suc fuel) taken re_add s h =
      popped-same fuel taken re_add s (lpop a.queue s).0 (one_more fuel) refl h

  -- For a queue under a key of its own, the loop of get_jobs_from_queue.lua comes to its own end
  -- within as many rounds as the queue has jobs and one more: with any larger number of rounds it
  -- takes and refuses the same jobs and leaves the server the same.
  pub fetch_loop_ends :
      (rounds : ℕ) (taken re_add : List Json) (s : Store)
      → llen a.queue s + 1 ≤ rounds
      → fetch_loop redis rounds a taken re_add s
        ≡ fetch_loop redis (llen a.queue s + 1) a taken re_add s
  fetch_loop_ends zero taken re_add s h = absurd (omega arith)
  fetch_loop_ends (suc rounds) taken re_add s h =
      let now : (suc rounds ≡ llen a.queue s + 1) ⊎ (llen a.queue s + 1 ≤ rounds) =
        omega (arith, h) in
      elim now [
        | inl e ↦ ap (λ n. fetch_loop redis n a taken re_add s) e
        | inr le ↦
            one_more rounds taken re_add s (omega (arith, le))
            ∙ fetch_loop_ends rounds taken re_add s le
      ]
