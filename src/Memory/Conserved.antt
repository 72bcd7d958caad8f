-- ===== src/Memory/Conserved.antt =====
-- Enqueueing in spinach/brokers/memory.py stores each job once, and what is not stored is not lost on
-- the way: the copies of one job in the broker, before and after each operation.
use spinach.Prelude.{
  ℕ, ◌+◌, ◌≡◌, refl, ap, ◌∙◌, ◌⊎◌, inl, inr, true, false, String, List, [], ◌∷◌, ◌++◌, some, none,
  lookup, arith, Option-cases,
}
use spinach.Outcome.{Exception, Result, ok, raise, Result-cases, IsOk, is_ok}
use spinach.Action.{Always, >>=-Always, and_then-eq-ok, modify}
use spinach.Job.{Job, queued, waiting, serialize, should_start}
use spinach.Memory.{
  MemoryBroker, sort_by_at, enqueue_now, enqueue_later, enqueue_job, enqueue_each, enqueue_jobs,
  release_concurrency, set_event,
}
use spinach.Memory.Fetch.{remove_job_from_running}
use spinach.Memory.Valid.{enqueue_start}
use spinach.Memory.Copies.{
  has_id, among, stored, stored_among, stored_among-append, doc_id-serialize, stored-put,
  sort_by_at-among,
}

module _ (id : String) where
  -- The same number of copies.
  abbrev pub Same : MemoryBroker → MemoryBroker → Type 0
  Same b c = stored id c ≡ stored id b

  pub Same-trans : (b c d : MemoryBroker) → Same b c → Same c d → Same b d
  Same-trans b c d h k = k ∙ h

  -- A job is stored, or the call raises and stores nothing.
  abbrev Stores : Job → MemoryBroker → Result Job × MemoryBroker → Type 0
  Stores j b (r, c) =
      (stored id c ≡ stored id b + has_id id j)
      ⊎ ((stored id c ≡ stored id b) × (e : Exception) × (r ≡ raise e))

  enqueue_now-Stores : (j : Job) (b : MemoryBroker) → Stores j b (enqueue_now j b)
  unfolding enqueue_now
  enqueue_now-Stores j b =
      let job = record j { status = queued } in
      inl (
        stored-put id b j.queue (serialize job)
        ∙ ap (λ n. stored id b + n) (doc_id-serialize id job))

  future_appended :
      (b : MemoryBroker) (j : Job)
      → stored_among id (b.future_jobs ++ serialize j ∷ [])
        ≡ stored_among id b.future_jobs + has_id id j
  unfolding stored_among
  future_appended b j =
      omega (arith, stored_among-append id b.future_jobs (serialize j ∷ []), doc_id-serialize id j)

  enqueue_later-Stores : (j : Job) (b : MemoryBroker) → Stores j b (enqueue_later j b)
  unfolding enqueue_later stored
  enqueue_later-Stores j b =
      let job = record j { status = waiting } in
      let docs = b.future_jobs ++ serialize job ∷ [] in
      elim (Result-cases (sort_by_at docs)) [
        | inl (out, e) ↦
            rw (e, enqueue_later, stored)
              (inl (omega (arith, sort_by_at-among id docs out e, future_appended b job)))
        | inr (x, e) ↦ rw (e, enqueue_later, stored) (inl (omega (arith, future_appended b job)))
      ]

  enqueue_start-Stores : (now : ℕ) (j : Job) (b : MemoryBroker) → Stores j b (enqueue_start now j b)
  unfolding enqueue_start
  enqueue_start-Stores now j b = elim (Result-cases (should_start now j)) [
    | inl (true, e) ↦ rw (e, enqueue_start) (enqueue_now-Stores j b)
    | inl (false, e) ↦ rw (e, enqueue_start) (enqueue_later-Stores j b)
    | inr (x, e) ↦ rw (e, enqueue_start) (inr (refl, x, refl))
  ]

  -- If it returns, the job is stored.
  Stores-ok :
      (j : Job) (b : MemoryBroker) (r : Result Job) (c : MemoryBroker) (q : Job)
      → Stores j b (r, c)
      → r ≡ ok q
      → stored id c ≡ stored id b + has_id id j
  Stores-ok j b r c q (inl h) e = h
  Stores-ok j b r c q (inr (h, x, k)) e = absurd (cc)

  Stores-Same :
      (j : Job) (b : MemoryBroker) (m : Result Job × MemoryBroker)
      → has_id id j ≡ 0
      → Stores j b m
      → Same b m.1
  Stores-Same j b m z (inl h) = omega (arith, h, z)
  Stores-Same j b m z (inr (h, x, k)) = h

  -- New jobs that are all enqueued are all stored.
  enqueue_each-stored :
      (now : ℕ) (js : List Job) (b c : MemoryBroker) (out : List Job)
      → enqueue_each now false js b ≡ (ok out, c)
      → stored id c ≡ stored id b + among id js
  unfolding enqueue_each enqueue_start among
  enqueue_each-stored now [] b c out h =
      let same : b ≡ c = ap (λ p. p.1) h in rw (same) (omega arith)
  enqueue_each-stored now (j ∷ js) b c out h =
      let m = enqueue_start now j b in
      let (q, first, later) = and_then-eq-ok m.0 _ m.1 c out h in
      let n = enqueue_each now false js m.1 in
      let (qs, rest, same) = and_then-eq-ok n.0 _ n.1 c out later in
      omega (
        arith,
        Stores-ok j b m.0 m.1 q (enqueue_start-Stores now j b) first,
        enqueue_each-stored now js m.1 n.1 qs (ap (λ r. (r, n.1)) rest),
        ap (λ p. stored id p.1) same,
      )

  pub set_event-Same : (b : MemoryBroker) → Same b (set_event b)
  unfolding stored
  set_event-Same b = refl

  pub enqueue_jobs-stored :
      (now : ℕ) (js : List Job) (b : MemoryBroker)
      → IsOk (enqueue_jobs now false js b).0
      → stored id (enqueue_jobs now false js b).1 ≡ stored id b + among id js
  unfolding enqueue_jobs
  enqueue_jobs-stored now js b (is_ok out e) =
      let m = enqueue_each now false js b in
      let c = (enqueue_jobs now false js b).1 in
      let (jobs, first, later) = and_then-eq-ok m.0 _ m.1 c out (ap (λ r. (r, c)) e) in
      omega (
        arith,
        enqueue_each-stored now js b m.1 jobs (ap (λ r. (r, m.1)) first),
        ap (λ p. stored id p.1) later,
        set_event-Same m.1,
      )

  -- Giving a place up touches no stored job.
  pub release-Same : (name : String) → Always Same (release_concurrency name)
  unfolding release_concurrency stored
  release-Same name b = elim (Option-cases (lookup name b.max_concurrency_keys)) [
    | inl e ↦ rw (e, release_concurrency) refl
    | inr (none, e) ↦ rw (e, release_concurrency) refl
    | inr (some m, e) ↦ elim (Option-cases (lookup name b.cur_concurrency_keys)) [
      | inl f ↦ rw (e, f, release_concurrency) refl
      | inr (n, f) ↦ rw (e, f, release_concurrency, stored) refl
    ]
  ]

  pub remove-Same : (j : Job) → Always Same (remove_job_from_running j)
  unfolding remove_job_from_running
  remove-Same j =
      >>=-Always Same Same-trans (release_concurrency j.task_name) (λ u. modify set_event)
        (release-Same j.task_name) (λ u. set_event-Same)

  -- A job that is enqueued again after a failure is stored.
  pub enqueue_failed-stored :
      (now : ℕ) (j : Job) (b : MemoryBroker)
      → IsOk (enqueue_jobs now true (j ∷ []) b).0
      → stored id (enqueue_jobs now true (j ∷ []) b).1 ≡ stored id b + has_id id j
  unfolding enqueue_jobs enqueue_start
  enqueue_failed-stored now j b (is_ok out e) =
      let c = (enqueue_jobs now true (j ∷ []) b).1 in
      let m = enqueue_each now true (j ∷ []) b in
      let (jobs, all, ended) = and_then-eq-ok m.0 _ m.1 c out (ap (λ r. (r, c)) e) in
      let n = enqueue_job now true j b in
      let (q, one, rest) = and_then-eq-ok n.0 _ n.1 m.1 jobs (ap (λ r. (r, m.1)) all) in
      let p = release_concurrency j.task_name b in
      let (u, released, starts) = and_then-eq-ok p.0 _ p.1 n.1 q (ap (λ r. (r, n.1)) one) in
      omega (
        arith,
        release-Same j.task_name b,
        Stores-ok j p.1 _ _ q (enqueue_start-Stores now j p.1) (ap (λ r. r.0) starts),
        ap (λ r. stored id r.1) starts,
        ap (λ r. stored id r.1) rest,
        ap (λ r. stored id r.1) ended,
        set_event-Same m.1,
      )

  -- Other jobs leave the number of copies alone, whether the call returns or raises.
  enqueue_each-Same :
      (now : ℕ) (j : Job) → has_id id j ≡ 0 → Always Same (enqueue_each now false (j ∷ []))
  unfolding enqueue_each enqueue_start
  enqueue_each-Same now j z =
      >>=-Always Same Same-trans (enqueue_start now j) _
        (λ b. Stores-Same j b _ z (enqueue_start-Stores now j b)) (λ q b. refl)

  pub enqueue_other-Same :
      (now : ℕ) (j : Job) → has_id id j ≡ 0 → Always Same (enqueue_jobs now false (j ∷ []))
  unfolding enqueue_jobs
  enqueue_other-Same now j z =
      >>=-Always Same Same-trans (enqueue_each now false (j ∷ [])) _ (enqueue_each-Same now j z)
        (λ jobs. set_event-Same)
