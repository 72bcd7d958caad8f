-- ===== src/Redis/Scripts/Limit.antt =====
-- get_jobs_from_queue.lua of spinach/brokers/redis_scripts and the limit of a task.
use spinach.Prelude.{
  ℕ, zero, suc, ◌+◌, ◌≤◌, ◌<◌, pos, ◌≡◌, refl, sym, ap, ◌∙◌, ◌≢◌, Bool, true, false, String, List,
  [], ◌∷◌, ◌++◌, Option, none, some, leb, length, Bool-cases, inl, inr, arith, str_eq, eq_iff,
  subst, ap₂, ◌&&◌, leb_ℤ, ◌⊎◌, pos_succ,
}
use spinach.Outcome.{Result, ok, raise, ok-injective}
use spinach.Action.{and_then}
use spinach.Json.{Fields, Json}
use spinach.Redis.Commands.{Redis, CountsTasks}
use spinach.Redis.Scripts.{Script, text, is_limited}
use spinach.Redis.Scripts.Fetching.{
  FetchArgs, is_full, track, run_one, Loop, place, round, fetch_loop, lpush_all,
  get_jobs_from_queue,
}

-- The counts and limits have keys of their own.
pub record Apart (a : FetchArgs) : Type 0 where
  pub limits_counts : a.max_concurrency_key ≢ a.current_concurrency_key
  pub limits_running : a.max_concurrency_key ≢ a.running_jobs_key
  pub counts_running : a.current_concurrency_key ≢ a.running_jobs_key
  pub limits_queue : a.max_concurrency_key ≢ a.queue
  pub counts_queue : a.current_concurrency_key ≢ a.queue

module _ (redis : Redis) (laws : CountsTasks redis) (a : FetchArgs) (apart : Apart a)
    (name : String) (limit : ℕ) where
  open redis use {Store, lpop, lpush, decode, hget_number, hset, hincrby, encode}

  -- The task has this limit, and no more jobs than that are counted as running.
  abbrev pub Within : Store → Type 0
  Within s =
      (hget_number a.max_concurrency_key name s ≡ some (pos limit))
      × (count : ℕ) × (hget_number a.current_concurrency_key name s ≡ some (pos count))
      × (count ≤ limit)

  Within-same :
      (s t : Store)
      → hget_number a.max_concurrency_key name t ≡ hget_number a.max_concurrency_key name s
      → hget_number a.current_concurrency_key name t ≡ hget_number a.current_concurrency_key name s
      → Within s
      → Within t
  Within-same s t m c (h, count, e, le) = (m ∙ h, count, c ∙ e, le)

  and_then-Within :
      {A B : Type 0} (r : Result A) (f : A → Script redis B) (s : Store)
      → Within s
      → ((x : A) → r ≡ ok x → Within (f x s).1)
      → Within (and_then r f s).1
  and_then-Within (ok x) f s w h = h x refl
  and_then-Within (raise e) f s w h = w

  hset-Within :
      (id : String) (doc : Json) (s : Store) → Within s → Within (hset a.running_jobs_key id doc s)
  hset-Within id doc s =
      Within-same s (hset a.running_jobs_key id doc s)
        (laws.hset_other a.max_concurrency_key name a.running_jobs_key id doc s
          apart.limits_running)
        (laws.hset_other a.current_concurrency_key name a.running_jobs_key id doc s
          apart.counts_running)

  -- A job of another task is counted.
  other-Within :
      (task_name : String) (s : Store)
      → name ≢ task_name
      → Within s
      → Within (hincrby a.current_concurrency_key task_name (pos 1) s)
  other-Within task_name s ne =
      Within-same s (hincrby a.current_concurrency_key task_name (pos 1) s)
        (laws.hincrby_other_key a.max_concurrency_key name a.current_concurrency_key task_name
          (pos 1) s apart.limits_counts)
        (laws.hincrby_other_field a.current_concurrency_key name task_name (pos 1) s ne)

  room_left : (count : ℕ) → is_full (some (pos limit)) (some (pos count)) ≡ ok false → count < limit
  room_left count e =
      let same : (is_limited (some (pos limit)) && leb_ℤ (pos limit) (pos count)) ≡ false =
        ok-injective e in
      ground (arith, same)

  abbrev full_at : String → Store → Result Bool
  full_at task_name s =
      is_full (hget_number a.max_concurrency_key task_name s)
        (hget_number a.current_concurrency_key task_name s)

  own-Within :
      (s : Store)
      → full_at name s ≡ ok false
      → Within s
      → Within (hincrby a.current_concurrency_key name (pos 1) s)
  own-Within s free (m, count, c, le) = (
    laws.hincrby_other_key a.max_concurrency_key name a.current_concurrency_key name (pos 1) s
          apart.limits_counts
        ∙ m,
    count + 1,
    laws.hincrby_same a.current_concurrency_key name (pos 1) (pos count) s c
        ∙ ap some (pos_succ count),
    omega (arith, room_left count (sym (ap₂ is_full m c) ∙ free)),
  )

  own_or_other : (task_name : String) → (task_name ≡ name) ⊎ (name ≢ task_name)
  own_or_other task_name = elim (Bool-cases (str_eq task_name name)) [
    | inl t ↦ inl ((eq_iff task_name name).0 t)
    | inr t ↦
        inr
          (λ same. let yes = (eq_iff task_name name).1 (sym same) in absurd (grind (arith, yes, t)))
  ]

  counted-Within :
      (task_name : String) (s : Store)
      → full_at task_name s ≡ ok false
      → Within s
      → Within (hincrby a.current_concurrency_key task_name (pos 1) s)
  counted-Within task_name s free w = elim (own_or_other task_name) [
    | inl same ↦
        subst (λ n. Within (hincrby a.current_concurrency_key n (pos 1) s)) (sym same)
          (own-Within s (subst (λ n. full_at n s ≡ ok false) same free) w)
    | inr ne ↦ other-Within task_name s ne w
  ]

  -- Tracking a job changes neither the limits nor the counts.
  full_at-hset :
      (task_name id : String) (doc : Json) (s : Store)
      → full_at task_name (hset a.running_jobs_key id doc s) ≡ full_at task_name s
  full_at-hset task_name id doc s =
      ap₂ is_full
        (laws.hset_other a.max_concurrency_key task_name a.running_jobs_key id doc s
          apart.limits_running)
        (laws.hset_other a.current_concurrency_key task_name a.running_jobs_key id doc s
          apart.counts_running)

  track-Within :
      (doc : Json) (task_name id : String) (s : Store)
      → full_at task_name s ≡ ok false
      → Within s
      → Within (track redis a doc task_name id s).1
  unfolding track
  track-Within doc task_name id s free w =
      let tracked = hset a.running_jobs_key id doc s in
      let w_tracked = hset-Within id doc s w in
      elim (Bool-cases (is_limited (hget_number a.max_concurrency_key task_name tracked))) [
        | inl t ↦
            rw (t, track)
              (counted-Within task_name tracked (full_at-hset task_name id doc s ∙ free) w_tracked)
        | inr t ↦ rw (t, track) w_tracked
      ]

  run_one-Within :
      (job : Fields) (task_name : String) (s : Store)
      → full_at task_name s ≡ ok false
      → Within s
      → Within (run_one redis a job task_name s).1
  unfolding run_one
  run_one-Within job task_name s free w =
      and_then-Within (text "id" job) _ s w (λ id e. track-Within _ task_name id s free w)

  -- A round, if the rounds after it keep within the limit.
  module _ (next : Loop redis)
      (keeps : (taken re_add : List Json) (s : Store)
        → Within s
        → Within (next taken re_add s).1) where
    place-Within :
        (taken re_add : List Json) (doc : Json) (task_name : String) (full : Bool) (s : Store)
        → full_at task_name s ≡ ok full
        → Within s
        → Within (place redis next a taken re_add doc task_name full s).1
    place-Within taken re_add doc task_name true s e w =
        elim (Bool-cases (leb a.max_jobs (length taken))) [
          | inl enough ↦ rw (enough) w
          | inr more ↦ rw (more) (keeps taken (re_add ++ doc ∷ []) s w)
        ]
    place-Within taken re_add doc task_name false s e w =
        let (r, t) = run_one redis a (decode doc) task_name s in
        let w_run = run_one-Within (decode doc) task_name s e w in
        and_then-Within r _ t w_run (λ running same.
          elim (Bool-cases (leb a.max_jobs (length taken + 1))) [
            | inl enough ↦ rw (enough) w_run
            | inr more ↦ rw (more) (keeps (taken ++ running ∷ []) re_add t w_run)
          ])

    round-Within :
        (taken re_add : List Json) (popped : Option Json) (s : Store)
        → Within s
        → Within (round redis next a taken re_add popped s).1
    round-Within taken re_add none s w = w
    round-Within taken re_add (some doc) s w =
        and_then-Within (text "task_name" (decode doc)) _ s w (λ task_name e.
          and_then-Within (full_at task_name s) _ s w
            (λ full e. place-Within taken re_add doc task_name full s e w))

  fetch_loop-Within :
      (fuel : ℕ) (taken re_add : List Json) (s : Store)
      → Within s
      → Within (fetch_loop redis fuel a taken re_add s).1
  unfolding fetch_loop
  fetch_loop-Within zero taken re_add s w = w
  fetch_loop-Within (suc fuel) taken re_add s w =
      let (popped, after) = lpop a.queue s in
      round-Within (fetch_loop redis fuel a) (fetch_loop-Within fuel) taken re_add popped after (
        Within-same s after
          (laws.lpop_other a.max_concurrency_key name a.queue s apart.limits_queue)
          (laws.lpop_other a.current_concurrency_key name a.queue s apart.counts_queue) w)

  lpush_all-Within :
      (docs : List Json) (s : Store) → Within s → Within (lpush_all redis a.queue docs s)
  unfolding lpush_all
  lpush_all-Within [] s w = w
  lpush_all-Within (doc ∷ docs) s w =
      let t = lpush_all redis a.queue docs s in
      Within-same t (lpush a.queue doc t)
        (laws.lpush_other a.max_concurrency_key name a.queue doc t apart.limits_queue)
        (laws.lpush_other a.current_concurrency_key name a.queue doc t apart.counts_queue)
        (lpush_all-Within docs s w)

  -- get_jobs_from_queue.lua, whatever is in its queue and whether or not it raises: a task with a limit
  -- that has no more jobs counted as running than its limit has no more after the script either.
  pub get_jobs_from_queue-Within : (s : Store) → Within s → Within (get_jobs_from_queue redis a s).1
  unfolding get_jobs_from_queue
  get_jobs_from_queue-Within s w =
      let fuel = redis.llen a.queue s + 1 in
      let (r, t) = fetch_loop redis fuel a [] [] s in
      let w_loop = fetch_loop-Within fuel [] [] s w in
      and_then-Within r _ t w_loop (λ found e. lpush_all-Within found.1 t w_loop)
