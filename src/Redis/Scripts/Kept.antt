-- ===== src/Redis/Scripts/Kept.antt =====
-- get_jobs_from_queue.lua of spinach/brokers/redis_scripts loses no job of its queue and keeps their order.
pub mod Queue
use mathlib.Core.List.{append_assoc, append-nil}
use spinach.Prelude.{
  ℕ, zero, suc, ◌+◌, ◌≤◌, ◌<◌, ℤ, pos, ◌+ℤ◌, ◌≡◌, refl, sym, ap, ap₂, ◌∙◌, ◌≢◌, ◌⊎◌, inl, inr, Bool,
  true, false, String, List, [], ◌∷◌, ◌++◌, map, Option, none, some, leb, leb_ℤ, ◌&&◌, length,
  length-append, Bool-cases, Option-cases, arith, str_eq, eq_iff, All, subst, if◌then◌else◌,
}
use spinach.Outcome.{Result, ok, raise, IsOk, is_ok}
use spinach.Action.{pure}
use spinach.Json.{num, Fields, Json}
use spinach.Redis.Commands.{Redis, CountsTasks, KeepsOrder}
use spinach.Redis.Scripts.{Script, Reply, jobs, text, set_field, is_limited}
use spinach.Redis.Scripts.Fetching.{
  FetchArgs, is_full, track, run_one, Loop, place, round, fetch_loop, lpush_all,
  get_jobs_from_queue,
}
use spinach.Redis.Scripts.Limit.{Apart}

-- From the front of a queue, jobs are taken or refused, and the rest stays.
pub data Drawn : List Json → List Json → List Json → List Json → Type 0 where
  ended : {rest : List Json} → Drawn rest [] [] rest
  taken :
      {docs new refused rest : List Json} (doc : Json)
      → Drawn docs new refused rest
      → Drawn (doc ∷ docs) (doc ∷ new) refused rest
  refused :
      {docs new refused rest : List Json} (doc : Json)
      → Drawn docs new refused rest
      → Drawn (doc ∷ docs) new (doc ∷ refused) rest

module _ (redis : Redis) (a : FetchArgs) where
  open redis use {Store, decode, encode, hget_number}

  -- A job whose id and task can be read.
  pub record Reads (doc : Json) : Type 0 where
    pub id : String
    pub task_name : String
    pub id_read : text "id" (decode doc) ≡ ok id
    pub task_name_read : text "task_name" (decode doc) ≡ ok task_name

  -- The task has a limit.
  abbrev pub Limited : Store → String → Type 0
  Limited s name =
      (m : ℤ) × (hget_number a.max_concurrency_key name s ≡ some m) × (is_limited (some m) ≡ true)

  -- Every task with a limit has a count.
  abbrev pub Counted : Store → Type 0
  Counted s =
      (name : String)
      → Limited s name
      → (c : ℤ) × (hget_number a.current_concurrency_key name s ≡ some c)

  -- And it is among those of `P`.
  abbrev pub Known : (String → Type 0) → Store → Type 0
  Known P s =
      (name : String)
      → Limited s name
      → P name × (c : ℤ) × (hget_number a.current_concurrency_key name s ≡ some c)

  -- The task of the job is among those of `P`.
  abbrev pub IsOf : (String → Type 0) → Json → Type 0
  IsOf P doc = (name : String) × (text "task_name" (decode doc) ≡ ok name) × P name

  -- A job with the status of a running one.
  abbrev pub running_of : Json → Json
  running_of doc = encode (set_field "status" (num a.job_status_running) (decode doc))

module _ (redis : Redis) (laws : CountsTasks redis) (order : KeepsOrder redis) (a : FetchArgs)
    (apart : Apart a) (queue_running : a.queue ≢ a.running_jobs_key) (P : String → Type 0) where
  open redis use {Store, lpop, lpush, decode, hget_number, hset, hincrby, encode}

  Known-same :
      (s t : Store)
      → ((name : String)
          → hget_number a.max_concurrency_key name t ≡ hget_number a.max_concurrency_key name s)
      → ((name : String)
          → hget_number a.current_concurrency_key name t
            ≡ hget_number a.current_concurrency_key name s)
      → Known redis a P s
      → Known redis a P t
  Known-same s t m c h name (limit, e, l) =
      let (p, n, k) = h name (limit, sym (m name) ∙ e, l) in (p, n, c name ∙ k)

  hset-Known :
      (id : String) (doc : Json) (s : Store)
      → Known redis a P s
      → Known redis a P (hset a.running_jobs_key id doc s)
  hset-Known id doc s =
      Known-same s (hset a.running_jobs_key id doc s)
        (λ name.
          laws.hset_other a.max_concurrency_key name a.running_jobs_key id doc s
            apart.limits_running)
        (λ name.
          laws.hset_other a.current_concurrency_key name a.running_jobs_key id doc s
            apart.counts_running)

  counted_after :
      (task_name name : String) (n : ℤ) (s : Store)
      → hget_number a.current_concurrency_key name s ≡ some n
      → (c : ℤ) × (hget_number a.current_concurrency_key name
            (hincrby a.current_concurrency_key task_name (pos 1) s)
          ≡ some c)
  counted_after task_name name n s k = elim (Bool-cases (str_eq name task_name)) [
    | inl same ↦
        let eq = (eq_iff name task_name).0 same in
        (
          n +ℤ pos 1,
          ap
                (λ x.
                  hget_number a.current_concurrency_key name
                    (hincrby a.current_concurrency_key x (pos 1) s))
                (sym eq)
              ∙ laws.hincrby_same a.current_concurrency_key name (pos 1) n s k,
        )
    | inr other ↦ (
      n,
      laws.hincrby_other_field a.current_concurrency_key name task_name (pos 1) s
            (λ eq. let yes = (eq_iff name task_name).1 eq in absurd (grind (arith, yes, other)))
          ∙ k,
    )
  ]

  hincrby-Known :
      (task_name : String) (s : Store)
      → Known redis a P s
      → Known redis a P (hincrby a.current_concurrency_key task_name (pos 1) s)
  hincrby-Known task_name s h name (limit, e, l) =
      let same =
        laws.hincrby_other_key a.max_concurrency_key name a.current_concurrency_key task_name
          (pos 1) s apart.limits_counts in
      let (p, n, k) = h name (limit, sym same ∙ e, l) in
      let (c, counted) = counted_after task_name name n s k in (p, c, counted)

  pub track-Known :
      (doc : Json) (task_name id : String) (s : Store)
      → Known redis a P s
      → Known redis a P (track redis a doc task_name id s).1
  unfolding track
  track-Known doc task_name id s h =
      let tracked = hset a.running_jobs_key id doc s in
      elim (Bool-cases (is_limited (hget_number a.max_concurrency_key task_name tracked))) [
        | inl t ↦ rw (t, track) (hincrby-Known task_name tracked (hset-Known id doc s h))
        | inr t ↦ rw (t, track) (hset-Known id doc s h)
      ]

  pub track-list :
      (doc : Json) (task_name id : String) (s : Store)
      → redis.lrange a.queue (track redis a doc task_name id s).1 ≡ redis.lrange a.queue s
  unfolding track
  track-list doc task_name id s =
      let tracked = hset a.running_jobs_key id doc s in
      let same = order.hset_list a.queue a.running_jobs_key id doc s queue_running in
      elim (Bool-cases (is_limited (hget_number a.max_concurrency_key task_name tracked))) [
        | inl t ↦
            rw (t, track)
              (order.hincrby_list a.queue a.current_concurrency_key task_name (pos 1) tracked
                  (λ e. apart.counts_queue (sym e))
                ∙ same)
        | inr t ↦ rw (t, track) same
      ]

  pub lpush_all-list :
      (docs : List Json) (s : Store)
      → redis.lrange a.queue (lpush_all redis a.queue docs s) ≡ docs ++ redis.lrange a.queue s
  unfolding lpush_all
  lpush_all-list [] s = refl
  lpush_all-list (doc ∷ docs) s =
      order.lpush_front a.queue doc (lpush_all redis a.queue docs s)
      ∙ ap (λ l. doc ∷ l) (lpush_all-list docs s)

  -- Whether the limit is reached can always be told.
  pub full_at-IsOk :
      (task_name : String) (s : Store)
      → Known redis a P s
      → IsOk (
          is_full
            (hget_number a.max_concurrency_key task_name s)
            (hget_number a.current_concurrency_key task_name s))
  full_at-IsOk task_name s h = elim (Option-cases (hget_number a.max_concurrency_key task_name s)) [
    | inl e ↦ rw (e) (is_ok false refl)
    | inr (m, e) ↦ elim (Bool-cases (is_limited (some m))) [
      | inl l ↦
          let (p, c, k) = h task_name (m, e, l) in
          rw (e, k) (is_ok (is_limited (some m) && leb_ℤ m c) refl)
      | inr l ↦ elim (Option-cases (hget_number a.current_concurrency_key task_name s)) [
        | inl k ↦ rw (e, k, l) (is_ok false refl)
        | inr (c, k) ↦ rw (e, k) (is_ok (is_limited (some m) && leb_ℤ m c) refl)
      ]
    ]
  ]

  unlimited : (m : ℤ) (c : Option ℤ) → is_limited (some m) ≡ false → is_full (some m) c ≢ ok true
  unlimited m none l full = ground (arith, l, full)
  unlimited m (some c) l full = ground (arith, l, full)

  -- A limit that is reached is there.
  pub full_limited :
      (task_name : String) (s : Store)
      → Known redis a P s
      → is_full
          (hget_number a.max_concurrency_key task_name s)
          (hget_number a.current_concurrency_key task_name s)
        ≡ ok true
      → P task_name
  full_limited task_name s h full =
      elim (Option-cases (hget_number a.max_concurrency_key task_name s)) [
        | inl e ↦ absurd (ground (arith, e, full))
        | inr (m, e) ↦ elim (Bool-cases (is_limited (some m))) [
          | inl l ↦ (h task_name (m, e, l)).0
          | inr l ↦ absurd (
              unlimited m (hget_number a.current_concurrency_key task_name s) l (
                sym (ap (λ x. is_full x (hget_number a.current_concurrency_key task_name s)) e)
                ∙ full))
        ]
      ]

  pub lpop-Known : (s : Store) → Known redis a P s → Known redis a P (lpop a.queue s).1
  lpop-Known s =
      Known-same s (lpop a.queue s).1
        (λ name. laws.lpop_other a.max_concurrency_key name a.queue s apart.limits_queue)
        (λ name. laws.lpop_other a.current_concurrency_key name a.queue s apart.counts_queue)
