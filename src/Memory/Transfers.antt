-- ===== src/Memory/Transfers.antt =====
-- Moving the future jobs of spinach/brokers/memory.py keeps every copy of a job, and so does taking
-- jobs, with the ones that are handed out.
use spinach.Prelude.{
  ◌≢◌, eq_iff, ℕ, zero, suc, ◌+◌, ℤ, ◌≡◌, refl, sym, ap, ◌∙◌, ◌⊎◌, inl, inr, true, false, String,
  List, [], ◌∷◌, ◌++◌, Option, none, insert, arith, Option-cases, Bool-cases, ltb, Dict,
}
use spinach.Outcome.{Exception, ok, Result-cases}
use spinach.Action.{Always, >>=-Always, modify}
use spinach.Json.{Json}
use spinach.Task.{Task}
use spinach.Job.{Job, queued, running, serialize, deserialize, should_start}
use spinach.Job
use spinach.Memory.{Event, MemoryBroker, put, set_queue, enqueue_jobs, get_queue}
use spinach.Memory.Fetch.{
  refuse, take, take_counted, broken, decide, Decision, Fetched, fetch, get_jobs_from_queue,
  finish_fetch, stopped, with_job, with_re_add,
}
use spinach.Memory.Future.{
  move_due, move_ready, schedule_periodic_task, move_future_jobs, periodic_job, enter_task,
}
use spinach.Memory.Runs.{IfEnds, move_future_jobs-IfEnds}
use spinach.Memory.Copies.{
  has_id, among, stored, stored_among, stored_among-append, stored-set_queue, doc_id-serialize,
  stored-put, doc_id,
}
use spinach.Memory.Conserved.{Same, Same-trans, enqueue_other-Same, set_event-Same}

module _ (id : String) where
  doc_id-read : (doc : Json) (j : Job) → deserialize doc ≡ ok j → doc_id id doc ≡ has_id id j
  doc_id-read doc j e = rw (e) refl

  move_one-Same :
      (b : MemoryBroker) (name : String) (doc : Json) (j : Job) (docs : List Json)
      → b.future_jobs ≡ doc ∷ docs
      → deserialize doc ≡ ok j
      → Same id b
          (record (put name (serialize (record j { status = queued })) b) { future_jobs = docs })
  unfolding stored stored_among put set_queue
  move_one-Same b name doc j docs e f =
      let job = record j { status = queued } in
      omega (
        arith,
        stored-put id b name (serialize job),
        doc_id-serialize id job,
        doc_id-read doc j f,
        ap (stored_among id) e,
      )

  move_due-Same :
      (now : ℕ) (docs : List Json) (n : ℕ) (b : MemoryBroker)
      → b.future_jobs ≡ docs
      → Same id b (move_due now docs n b).1
  unfolding move_due
  move_due-Same now [] n b h = refl
  move_due-Same now (doc ∷ docs) n b h = elim (Result-cases (deserialize doc)) [
    | inr (x, e) ↦ rw (e, move_due) refl
    | inl (j, e) ↦ elim (Result-cases (should_start now j)) [
      | inr (x, f) ↦ rw (e, f, move_due) refl
      | inl (false, f) ↦ rw (e, f, move_due) refl
      | inl (true, f) ↦
          rw (e, f, move_due)
            (Same-trans id b _ _ (move_one-Same b j.queue doc j docs h e)
              (move_due-Same now docs (n + 1) _ refl))
    ]
  ]

  move_ready-Same : (now : ℕ) → Always (Same id) (move_ready now)
  unfolding move_ready
  move_ready-Same now =
      >>=-Always (Same id) (Same-trans id) (λ b. move_due now b.future_jobs 0 b) _
        (λ b. move_due-Same now b.future_jobs 0 b refl)
        (λ n b. elim (Bool-cases (ltb n 0)) [
          | inl e ↦ rw e (set_event-Same id b)
          | inr e ↦ rw e refl
        ])

  scheduler-Same : (b : MemoryBroker) (es : List Event) → Same id b (record b { scheduler = es })
  unfolding stored
  scheduler-Same b es = refl

  schedule_periodic_task-Same :
      (now mono : ℕ) (new : String) (t : Task)
      → has_id id (periodic_job now new t) ≡ 0
      → Always (Same id) (schedule_periodic_task now mono new t)
  unfolding schedule_periodic_task
  schedule_periodic_task-Same now mono new t z =
      >>=-Always (Same id) (Same-trans id) (enqueue_jobs now false (periodic_job now new t ∷ []))
        (λ js. modify (enter_task mono t)) (enqueue_other-Same id now (periodic_job now new t) z)
        (λ js b. scheduler-Same b (enter_task mono t b).scheduler)

  periodic_job-other :
      (now : ℕ) (new : String) (t : Task) → new ≢ id → has_id id (periodic_job now new t) ≡ 0
  unfolding Job.create
  periodic_job-other now new t other = ground (arith, eq_iff new id, other)

  -- `move_future_jobs`, if its fuel suffices and no periodic job gets this id.
  pub move_future_jobs-Same :
      (now mono : ℕ) (uuid : ℕ → String) (fuel : ℕ) (b : MemoryBroker)
      → ((n : ℕ) → uuid n ≢ id)
      → IfEnds (Same id) b (move_future_jobs fuel now mono uuid b)
  move_future_jobs-Same now mono uuid fuel b other =
      move_future_jobs-IfEnds (Same id) (Same-trans id) scheduler-Same now mono uuid
        (λ n t.
          schedule_periodic_task-Same now mono (uuid n) t
            (periodic_job-other now (uuid n) t (other n)))
        fuel b (move_ready-Same now b)

  -- Each document that was read is handed out, put back or left.
  abbrev Splits : List Json → Fetched → Type 0
  Splits docs f =
      f.error ≡ none
      → stored_among id docs
        ≡ among id f.jobs + (stored_among id f.rest + stored_among id f.jobs_to_re_add)

  Splits-stopped :
      (docs : List Json) (cur : Dict ℤ) (error : Option Exception)
      → Splits docs (stopped docs cur error)
  unfolding among stored_among
  Splits-stopped docs cur error fine = omega arith

  Splits-with_job :
      (doc : Json) (docs : List Json) (j : Job) (f : Fetched)
      → deserialize doc ≡ ok j
      → Splits docs f
      → Splits (doc ∷ docs) (with_job (record j { status = running }) f)
  unfolding among stored_among
  Splits-with_job doc docs j f e h fine = omega (arith, h fine, doc_id-read doc j e)

  Splits-with_re_add :
      (doc : Json) (docs : List Json) (f : Fetched)
      → Splits docs f
      → Splits (doc ∷ docs) (with_re_add doc f)
  unfolding among stored_among
  Splits-with_re_add doc docs f h fine = omega (arith, h fine)

  pub Decision-cases :
      (d : Decision)
      → (d ≡ refuse) ⊎ ((d ≡ take) ⊎ (((c : ℤ) × (d ≡ take_counted c)) ⊎ (d ≡ broken)))
  Decision-cases refuse = inl refl
  Decision-cases take = inr (inl refl)
  Decision-cases (take_counted c) = inr (inr (inl (c, refl)))
  Decision-cases broken = inr (inr (inr refl))

  fetch-Splits :
      (max_keys : Dict (Option ℕ)) (room : ℕ) (docs : List Json) (cur : Dict ℤ)
      → Splits docs (fetch max_keys room docs cur)
  unfolding fetch
  fetch-Splits max_keys zero docs cur = Splits-stopped docs cur none
  fetch-Splits max_keys (suc room) [] cur = Splits-stopped [] cur none
  fetch-Splits max_keys (suc room) (doc ∷ docs) cur = elim (Result-cases (deserialize doc)) [
    | inr (x, e) ↦ rw (e, fetch) (λ fine. cc)
    | inl (j, e) ↦ elim (Decision-cases (decide max_keys cur j.task_name)) [
      | inl f ↦
          rw (e, f, fetch)
            (Splits-with_re_add doc docs (fetch max_keys (suc room) docs cur)
              (fetch-Splits max_keys (suc room) docs cur))
      | inr (inl f) ↦
          rw (e, f, fetch)
            (Splits-with_job doc docs j (fetch max_keys room docs cur) e
              (fetch-Splits max_keys room docs cur))
      | inr (inr (inl (c, f))) ↦
          rw (e, f, fetch)
            (Splits-with_job doc docs j (fetch max_keys room docs (insert j.task_name c cur)) e
              (fetch-Splits max_keys room docs (insert j.task_name c cur)))
      | inr (inr (inr f)) ↦ rw (e, f, fetch) (λ fine. cc)
    ]
  ]

  -- The jobs that a call hands out leave the broker, each once.
  pub finish_fetch-stored :
      (b : MemoryBroker) (queue : String) (f : Fetched)
      → f.error ≡ none
      → Splits (get_queue b queue) f
      → stored id (finish_fetch queue f b).1 + among id f.jobs ≡ stored id b
  unfolding finish_fetch stored get_queue
  finish_fetch-stored b queue f fine h =
      rw (fine, finish_fetch)
        (omega (
          arith,
          h fine,
          stored_among-append id f.rest f.jobs_to_re_add,
          stored-set_queue id (record b { cur_concurrency_keys = f.cur_keys }) queue
              (f.rest ++ f.jobs_to_re_add),
        ))

  pub finish_fetch-ok :
      (b : MemoryBroker) (queue : String) (f : Fetched) (js : List Job)
      → (finish_fetch queue f b).0 ≡ ok js
      → (f.error ≡ none) × (f.jobs ≡ js)
  unfolding finish_fetch
  finish_fetch-ok b queue f js h = elim (Option-cases f.error) [
    | inl e ↦ (e, ground arith)
    | inr (x, e) ↦ absurd (ground arith)
  ]

  pub fetch-stored :
      (b : MemoryBroker) (queue : String) (max_jobs : ℕ) (js : List Job)
      → (get_jobs_from_queue queue max_jobs b).0 ≡ ok js
      → stored id (get_jobs_from_queue queue max_jobs b).1 + among id js ≡ stored id b
  unfolding get_jobs_from_queue
  fetch-stored b queue max_jobs js e =
      let f = fetch b.max_concurrency_keys max_jobs (get_queue b queue) b.cur_concurrency_keys in
      let (fine, same) = finish_fetch-ok b queue f js e in
      ap (λ l. stored id (finish_fetch queue f b).1 + among id l) (sym same)
      ∙ finish_fetch-stored b queue f fine
          (fetch-Splits b.max_concurrency_keys max_jobs (get_queue b queue) b.cur_concurrency_keys)
