-- ===== src/Memory/AsBroker.antt =====
-- `MemoryBroker` of spinach/brokers/memory.py as a `Broker` of spinach/brokers/base.py.
use spinach.Prelude.{
  ◌++◌, ℕ, zero, suc, ◌≤◌, ◌≡◌, ap, ◌∙◌, Bool, true, false, String, List, [], ◌∷◌, Option, length,
  arith, Dict, ℤ, insert, inl, inr, if◌then◌else◌,
}
use spinach.Outcome.{ok, Result-cases}
use spinach.Action.{modify, pure, asks, and_then-eq-ok}
use spinach.Json.{Json}
use spinach.Job.{Job, waiting, deserialize, serialize, should_start}
use spinach.Broker.{ends-injective, Broker, Contract, ends, mark, mark_all}
use spinach.Memory.{
  MemoryBroker, Method, set_event, sort_by_at, enqueue_now, enqueue_later, enqueue_job,
  enqueue_each, enqueue_jobs, release_concurrency, get_queue,
}
use spinach.Memory.Fetch.{
  decide, fetch, get_jobs_from_queue, remove_job_from_running, set_concurrency_keys, is_queue_empty,
  flush,
}
use spinach.Memory.Future.{register_periodic_tasks, move_future_jobs}
use spinach.Memory.Waiting.{
  get_next_future_job, next_future_periodic_delta, inspect_periodic_tasks, wait_for_event,
}
use spinach.Memory.Transfers.{Decision-cases, finish_fetch-ok}

-- A memory broker knows of no other broker, and cannot be dead.
unfoldable pub get_all_brokers : Json → Method (List Json)
get_all_brokers info = pure (info ∷ [])

unfoldable pub enqueue_jobs_from_dead_broker : String → Method (ℕ × List Json)
enqueue_jobs_from_dead_broker dead_broker_id = pure (0, [])

-- With the fuel of the scheduler.
abbrev pub memory_broker : ℕ → Broker
memory_broker fuel = record {
  State = MemoryBroker;
  stop = set_event;
  register_periodic_tasks = λ m tasks. ends (modify (register_periodic_tasks m.mono tasks));
  set_concurrency_keys = λ tasks. ends (modify (set_concurrency_keys tasks));
  is_queue_empty = λ queue. ends (asks (λ b. ok (is_queue_empty queue b)));
  inspect_periodic_tasks = ends (asks (λ b. ok (inspect_periodic_tasks b)));
  enqueue_jobs = λ m from_failure jobs. ends (enqueue_jobs m.now from_failure jobs);
  remove_job_from_running = λ job. ends (remove_job_from_running job);
  get_jobs_from_queue = λ queue max_jobs. ends (get_jobs_from_queue queue max_jobs);
  move_future_jobs = λ m. move_future_jobs fuel m.now m.mono m.uuid;
  get_next_future_job = ends (asks get_next_future_job);
  next_future_periodic_delta = λ m. ends (asks (λ b. ok (next_future_periodic_delta m.mono b)));
  flush = ends (modify flush);
  get_all_brokers = λ m. ends (get_all_brokers m.info);
  enqueue_jobs_from_dead_broker = λ id. ends (enqueue_jobs_from_dead_broker id);
  wait_for_event = λ m. ends (wait_for_event m.now m.mono m.happens);
}

enqueue_now-marked :
    (now : ℕ) (j q : Job) (b c : MemoryBroker)
    → should_start now j ≡ ok true
    → enqueue_now j b ≡ (ok q, c)
    → mark now j ≡ ok q
unfolding mark enqueue_now
enqueue_now-marked now j q b c e h = rw (e) (ap (λ p. p.0) h)

enqueue_later-marked :
    (now : ℕ) (j q : Job) (b c : MemoryBroker)
    → should_start now j ≡ ok false
    → enqueue_later j b ≡ (ok q, c)
    → mark now j ≡ ok q
unfolding mark enqueue_later
enqueue_later-marked now j q b c e h =
    let docs = b.future_jobs ++ serialize (record j { status = waiting }) ∷ [] in
    let (out, sorted, rest) = and_then-eq-ok (sort_by_at docs) _ _ c q h in
    rw (e) (ap (λ p. p.0) rest)

stored-marked :
    (now : ℕ) (j q : Job) (b c : MemoryBroker) (starts : Bool)
    → should_start now j ≡ ok starts
    → (if starts then enqueue_now j else enqueue_later j) b ≡ (ok q, c)
    → mark now j ≡ ok q
stored-marked now j q b c true = enqueue_now-marked now j q b c
stored-marked now j q b c false = enqueue_later-marked now j q b c

-- Whatever was done before the job is stored.
enqueue_job-marked :
    (now : ℕ) (from_failure : Bool) (j q : Job) (b c : MemoryBroker)
    → enqueue_job now from_failure j b ≡ (ok q, c)
    → mark now j ≡ ok q
unfolding enqueue_job
enqueue_job-marked now from_failure j q b c h =
    let m = (if from_failure then release_concurrency j.task_name else pure tt) b in
    let (u, released, starts) = and_then-eq-ok m.0 _ m.1 c q h in
    let (start, started, stored) = and_then-eq-ok (should_start now j) _ m.1 c q starts in
    stored-marked now j q m.1 c start started stored

enqueue_each-marked :
    (now : ℕ) (from_failure : Bool) (js out : List Job) (b c : MemoryBroker)
    → enqueue_each now from_failure js b ≡ (ok out, c)
    → mark_all now js ≡ ok out
unfolding enqueue_each mark_all
enqueue_each-marked now from_failure [] out b c h = ap (λ p. p.0) h
enqueue_each-marked now from_failure (j ∷ js) out b c h =
    let m = enqueue_job now from_failure j b in
    let (q, first, later) = and_then-eq-ok m.0 _ m.1 c out h in
    let n = enqueue_each now from_failure js m.1 in
    let (qs, rest, same) = and_then-eq-ok n.0 _ n.1 c out later in
    rw
      (
        enqueue_job-marked now from_failure j q b m.1 (ap (λ r. (r, m.1)) first),
        enqueue_each-marked now from_failure js qs m.1 n.1 (ap (λ r. (r, n.1)) rest),
      )
      (ap (λ p. p.0) same)

enqueue_jobs-marked :
    (now : ℕ) (from_failure : Bool) (js out : List Job) (b c : MemoryBroker)
    → enqueue_jobs now from_failure js b ≡ (ok out, c)
    → mark_all now js ≡ ok out
unfolding enqueue_jobs
enqueue_jobs-marked now from_failure js out b c h =
    let m = enqueue_each now from_failure js b in
    let (jobs, first, later) = and_then-eq-ok m.0 _ m.1 c out h in
    enqueue_each-marked now from_failure js out b m.1
      (ap (λ r. (r, m.1)) first ∙ ap (λ p. (p.0, m.1)) later)

fetch-bounded :
    (max_keys : Dict (Option ℕ)) (room : ℕ) (docs : List Json) (cur : Dict ℤ)
    → length (fetch max_keys room docs cur).jobs ≤ room
unfolding fetch
fetch-bounded max_keys zero docs cur = omega arith
fetch-bounded max_keys (suc room) [] cur = omega arith
fetch-bounded max_keys (suc room) (doc ∷ docs) cur = elim (Result-cases (deserialize doc)) [
  | inr (x, e) ↦ rw (e, fetch) (omega arith)
  | inl (j, e) ↦ elim (Decision-cases "" (decide max_keys cur j.task_name)) [
    | inl f ↦ rw (e, f, fetch) (fetch-bounded max_keys (suc room) docs cur)
    | inr (inl f) ↦ rw (e, f, fetch) (omega (arith, fetch-bounded max_keys room docs cur))
    | inr (inr (inl (c, f))) ↦
        rw (e, f, fetch)
          (omega (arith, fetch-bounded max_keys room docs (insert j.task_name c cur)))
    | inr (inr (inr f)) ↦ rw (e, f, fetch) (omega arith)
  ]
]

get_jobs_from_queue-bounded :
    (queue : String) (max_jobs : ℕ) (js : List Job) (b : MemoryBroker)
    → (get_jobs_from_queue queue max_jobs b).0 ≡ ok js
    → length js ≤ max_jobs
unfolding get_jobs_from_queue
get_jobs_from_queue-bounded queue max_jobs js b e =
    let docs = get_queue b queue in
    let f = fetch b.max_concurrency_keys max_jobs docs b.cur_concurrency_keys in
    let (fine, same) = finish_fetch-ok "" b queue f js e in
    omega (
      arith,
      fetch-bounded b.max_concurrency_keys max_jobs docs b.cur_concurrency_keys,
      ap length same,
    )

-- `MemoryBroker` keeps the contract: `enqueue_jobs` returns the jobs it was given under the status of their
-- dates, and `get_jobs_from_queue` returns no more than it was asked for.
pub memory_broker-Contract : (fuel : ℕ) → Contract (memory_broker fuel)
memory_broker-Contract fuel = record {
  marked = λ m from_failure js out s t e.
      enqueue_jobs-marked m.now from_failure js out s t (ends-injective e);
  bounded = λ queue max_jobs js s t some_room e.
      get_jobs_from_queue-bounded queue max_jobs js s (ap (λ p. p.0) (ends-injective e));
}
