-- ===== src/Engine/OneByOne.antt =====
-- `schedule_batch` of spinach/engine.py against `schedule_at` for each request in turn.
use spinach.Prelude.{
  ℕ, suc, ◌≡◌, refl, ap, sym, ◌∙◌, String, List, [], ◌∷◌, ◌++◌, inl, inr, Bool, true, false,
  if◌then◌else◌, subst, ap₂,
}
use spinach.Outcome.{Result, ok, raise, Result-cases, >>=-eq-ok, ok-injective}
use spinach.Action.{and_then, pure, ◌>>=◌, and_then-eq-ok}
use spinach.Job.{Job, waiting, serialize, should_start}
use spinach.Task.{Tasks, ToCreate}
use spinach.Memory.{
  MemoryBroker, Method, set_event, put, sort_by_at, enqueue_now, enqueue_later, enqueue_job,
  enqueue_each, enqueue_jobs, get_queue, set_queue,
}
use spinach.Engine.{make_job, make_jobs, schedule_at, schedule_batch}

-- Each request by itself, one after the other.
unfoldable pub schedule_each : Tasks → (ℕ → String) → ℕ → ℕ → List ToCreate → Method (List Job)
unfolding schedule_at
schedule_each ts uuid n now [] = pure []
schedule_each ts uuid n now (r ∷ rs) = do
  job ← schedule_at ts (uuid n) now r
  jobs ← schedule_each ts uuid (suc n) now rs
  pure (job ∷ jobs)

-- Nothing that enqueueing does looks at the event.
abbrev with_event : {A : Type 0} → Result A × MemoryBroker → Result A × MemoryBroker
with_event (r, b) = (r, set_event b)

enqueue_later-set_event :
    (j : Job) (b : MemoryBroker) → enqueue_later j (set_event b) ≡ with_event (enqueue_later j b)
unfolding enqueue_later
enqueue_later-set_event j b =
    elim (Result-cases
      (sort_by_at (b.future_jobs ++ serialize (record j { status = waiting }) ∷ []))) [
        | inl (docs, e) ↦ rw (e, enqueue_later) refl
        | inr (x, e) ↦ rw (e, enqueue_later) refl
      ]

enqueue_now-set_event :
    (j : Job) (b : MemoryBroker) → enqueue_now j (set_event b) ≡ with_event (enqueue_now j b)
unfolding enqueue_now put get_queue set_queue
enqueue_now-set_event j b = refl

started-set_event :
    (r : Result Bool) (j : Job) (b : MemoryBroker)
    → and_then r (λ starts. if starts then enqueue_now j else enqueue_later j) (set_event b)
      ≡ with_event (and_then r (λ starts. if starts then enqueue_now j else enqueue_later j) b)
started-set_event (ok true) j b = enqueue_now-set_event j b
started-set_event (ok false) j b = enqueue_later-set_event j b
started-set_event (raise e) j b = refl

enqueue_job-set_event :
    (now : ℕ) (j : Job) (b : MemoryBroker)
    → enqueue_job now false j (set_event b) ≡ with_event (enqueue_job now false j b)
unfolding enqueue_job
enqueue_job-set_event now j b = started-set_event (should_start now j) j b

and_then-set_event :
    {A B : Type 0} (r : Result A) (f : A → Method B) (b : MemoryBroker)
    → ((a : A) → f a (set_event b) ≡ with_event (f a b))
    → and_then r f (set_event b) ≡ with_event (and_then r f b)
and_then-set_event (ok a) f b h = h a
and_then-set_event (raise e) f b h = refl

enqueue_each-set_event :
    (now : ℕ) (js : List Job) (b : MemoryBroker)
    → enqueue_each now false js (set_event b) ≡ with_event (enqueue_each now false js b)
unfolding enqueue_each
enqueue_each-set_event now [] b = refl
enqueue_each-set_event now (j ∷ js) b =
    let (r, c) = enqueue_job now false j b in
    let later : Job → Method (List Job) =
      λ job. enqueue_each now false js >>= λ jobs. pure (job ∷ jobs) in
    ap (λ m. and_then m.0 later m.1) (enqueue_job-set_event now j b)
    ∙ and_then-set_event r later c (λ job.
      ap (λ m. and_then m.0 (λ jobs. pure (job ∷ jobs)) m.1) (enqueue_each-set_event now js c)
      ∙ and_then-set_event (enqueue_each now false js c).0 (λ jobs. pure (job ∷ jobs))
          (enqueue_each now false js c).1 (λ jobs. refl))

schedule_at-ok :
    (ts : Tasks) (id : String) (now : ℕ) (r : ToCreate) (b : MemoryBroker) (job q : Job)
    → make_job ts id r ≡ ok job
    → (enqueue_job now false job b).0 ≡ ok q
    → schedule_at ts id now r b ≡ (ok q, set_event (enqueue_job now false job b).1)
unfolding schedule_at enqueue_jobs enqueue_each
schedule_at-ok ts id now r b job q made queued = rw (made, queued) refl

enqueue_each-ok :
    (now : ℕ) (job : Job) (js : List Job) (b after : MemoryBroker) (jobs : List Job)
    → enqueue_each now false (job ∷ js) b ≡ (ok jobs, after)
    → let (queued, c) = enqueue_job now false job b in
      (q : Job) × (qs : List Job) × (queued ≡ ok q)
      × (enqueue_each now false js c ≡ (ok qs, after))
      × (q ∷ qs ≡ jobs)
unfolding enqueue_each
enqueue_each-ok now job js b after jobs h =
    let (queued, c) = enqueue_job now false job b in
    let (q, first, later) = and_then-eq-ok queued _ c after jobs h in
    let m = enqueue_each now false js c in
    let (qs, rest, same) = and_then-eq-ok m.0 _ m.1 after jobs later in
    (q, qs, first, ap₂ (λ x y. (x, y)) rest (ap (λ p. p.1) same), ok-injective (ap (λ p. p.0) same))

module _ (ts : Tasks) (uuid : ℕ → String) (now : ℕ) where
  make_jobs-ok :
      (n : ℕ) (r : ToCreate) (rs : List ToCreate) (js : List Job)
      → make_jobs ts uuid n (r ∷ rs) ≡ ok js
      → (job : Job) × (rest : List Job) × (make_job ts (uuid n) r ≡ ok job)
        × (make_jobs ts uuid (suc n) rs ≡ ok rest)
        × (js ≡ job ∷ rest)
  unfolding make_jobs
  make_jobs-ok n r rs js made =
      let (job, first, later) = >>=-eq-ok (make_job ts (uuid n) r) _ made in
      let (rest, others, same) = >>=-eq-ok (make_jobs ts uuid (suc n) rs) _ later in
      (job, rest, first, others, sym (ok-injective same))

  -- The first request, and then the others, in a state where the event is set.
  schedule_each-step :
      (n : ℕ) (r : ToCreate) (rs : List ToCreate) (b after : MemoryBroker) (job q : Job)
      (qs : List Job)
      → make_job ts (uuid n) r ≡ ok job
      → (enqueue_job now false job b).0 ≡ ok q
      → schedule_each ts uuid (suc n) now rs (set_event (enqueue_job now false job b).1)
        ≡ (ok qs, set_event after)
      → schedule_each ts uuid n now (r ∷ rs) b ≡ (ok (q ∷ qs), set_event after)
  unfolding schedule_each
  schedule_each-step n r rs b after job q qs made queued others =
      let later : Job → Method (List Job) =
        λ job. schedule_each ts uuid (suc n) now rs >>= λ jobs. pure (job ∷ jobs) in
      ap (λ m. and_then m.0 later m.1) (schedule_at-ok ts (uuid n) now r b job q made queued)
      ∙ ap (λ m. and_then m.0 (λ jobs. pure (q ∷ jobs)) m.1) others

  schedule_each-ok :
      (n : ℕ) (r : ToCreate) (rs : List ToCreate) (b after : MemoryBroker) (js jobs : List Job)
      → make_jobs ts uuid n (r ∷ rs) ≡ ok js
      → enqueue_each now false js b ≡ (ok jobs, after)
      → schedule_each ts uuid n now (r ∷ rs) b ≡ (ok jobs, set_event after)
  unfolding make_jobs enqueue_each schedule_each
  schedule_each-ok n r [] b after js jobs made queued =
      let (job, rest, first, others, same) = make_jobs-ok n r [] js made in
      let (q, qs, done, after_first, all) =
        enqueue_each-ok now job rest b after jobs
          (subst (λ l. enqueue_each now false l b ≡ (ok jobs, after)) same queued) in
      let none_left : [] ≡ rest = ok-injective others in
      let ended =
        subst (λ l. enqueue_each now false l (enqueue_job now false job b).1 ≡ (ok qs, after))
          (sym none_left) after_first in
      schedule_each-step n r [] b after job q qs first done (ap with_event ended)
      ∙ ap (λ l. (ok l, set_event after)) all
  schedule_each-ok n r (next ∷ rs) b after js jobs made queued =
      let (job, rest, first, others, same) = make_jobs-ok n r (next ∷ rs) js made in
      let (q, qs, done, after_first, all) =
        enqueue_each-ok now job rest b after jobs
          (subst (λ l. enqueue_each now false l b ≡ (ok jobs, after)) same queued) in
      let c = (enqueue_job now false job b).1 in
      let from_event = enqueue_each-set_event now rest c ∙ ap with_event after_first in
      schedule_each-step n r (next ∷ rs) b after job q qs first done
        (schedule_each-ok (suc n) next rs (set_event c) (set_event after) rest qs others from_event)
      ∙ ap (λ l. (ok l, set_event after)) all

-- When the broker takes a batch of one request or more, scheduling its requests one after the other,
-- at the same time and with the same ids, gives the same jobs and leaves the same broker.
pub schedule_batch_one_by_one :
    (ts : Tasks) (uuid : ℕ → String) (now : ℕ) (r : ToCreate) (rs : List ToCreate)
    (b after : MemoryBroker) (jobs : List Job)
    → schedule_batch ts uuid now (r ∷ rs) b ≡ (ok jobs, after)
    → schedule_each ts uuid 0 now (r ∷ rs) b ≡ schedule_batch ts uuid now (r ∷ rs) b
unfolding schedule_batch enqueue_jobs
schedule_batch_one_by_one ts uuid now r rs b after jobs h =
    let (js, made, stored) = and_then-eq-ok (make_jobs ts uuid 0 (r ∷ rs)) _ b after jobs h in
    let m = enqueue_each now false js b in
    let (qs, queued, ended) = and_then-eq-ok m.0 _ m.1 after jobs stored in
    schedule_each-ok ts uuid now 0 r rs b m.1 js qs made (ap (λ x. (x, m.1)) queued) ∙ ended ∙ sym h
