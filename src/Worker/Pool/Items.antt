-- ===== src/Worker/Pool/Items.antt =====
-- A worker of spinach/worker.py takes an item or is done with one: what it does, and that it keeps
-- the invariant of the workers.
use spinach.Prelude.{
  ℕ, ◌+◌, ◌-◌, ◌≤◌, ◌≡◌, refl, ap, inl, inr, Bool, true, false, List, [], ◌∷◌, ◌++◌, none, some,
  length, arith, if◌then◌else◌, ◌-◌,
}
use spinach.Outcome.{Result, ok, raise}
use spinach.Job.{Job}
use spinach.Queuey.{Queuey, Put, get_noblock, put_noblock, task_done}
use spinach.Worker.{
  RunEnd, after_run, Item, poison_pill, job, Workers, ends, fate_of, put_in, handle,
}
use spinach.Worker.Pool.{
  State, ready, holding, over, Pool, get_at, set_at, deliver, take, finish, settle, state_after,
}
use spinach.Worker.Pool.Crew.{total, held, waits, passes, pills, count_pills, total-set_at}
use spinach.Worker.Pool.Invariant.{Fair, Placed, done-Fair, put-Placed, take-Took}
use spinach.Worker.Pool.Pill.{OnePill, put-OnePill, take-OnePill}

pub record Inv (p : Pool) : Type 0 where
  pub fair : Fair p.workers.in_queue p.crew
  pub one : OnePill p.workers.must_stop p.workers.in_queue.items p.crew

pub take-Inv : (i : ℕ) (p : Pool) → Inv p → get_at i p.crew ≡ some ready → Inv (take i p)
unfolding take
take-Inv i p v e =
    let q = p.workers.in_queue in
    let took = take-Took i q p.crew v.fair e in
    record {
      fair = took.fair;
      one = take-OnePill p.workers.must_stop q i p.crew (get_noblock i q) v.one e took;
    }

done_in_time :
    (q : Queuey Item)
    → 1 ≤ q.unfinished_tasks
    → task_done q ≡ ok (record q { unfinished_tasks = q.unfinished_tasks - 1 })
unfolding task_done
done_in_time q h = ground arith

-- The worker's state after a job, however it ended.
job_over :
    (r : Result (Unit {0}))
    → let t = state_after (fate_of r) none in
      (held t ≡ 0) × (waits t ≡ 0) × (passes t ≡ 0) × (pills t ≡ 0)
job_over (ok u) = (refl, refl, refl, refl)
job_over (raise e) = (refl, refl, refl, refl)

-- What a worker does with a job.
pub job_done :
    (i ended : ℕ) (randint : ℕ → ℕ) (how : RunEnd) (j : Job) (p : Pool)
    → 1 ≤ p.workers.in_queue.unfinished_tasks
    → let advanced = after_run ended randint how j in
      let q = p.workers.in_queue in
      finish i ended randint how (job j) p ≡ record {
        workers = record p.workers {
          in_queue = record q { unfinished_tasks = q.unfinished_tasks - 1 };
          out_queue = p.workers.out_queue ++ job advanced.0 ∷ [];
        };
        crew = set_at i (state_after (fate_of advanced.1) none) p.crew;
      }
unfolding finish handle
job_done i ended randint how j p h = rw (done_in_time p.workers.in_queue h) refl

pub finish_job-Inv :
    (i ended : ℕ) (randint : ℕ → ℕ) (how : RunEnd) (j : Job) (p : Pool)
    → Inv p
    → get_at i p.crew ≡ some (holding (job j))
    → Inv (finish i ended randint how (job j) p)
finish_job-Inv i ended randint how j p v e =
    let q = p.workers.in_queue in
    let r = (after_run ended randint how j).1 in
    let t = state_after (fate_of r) none in
    let (h, w, s, no_pill) = job_over r in
    let (counted, fair) = done-Fair q p.crew i (job j) t v.fair e h w s in
    let same = total-set_at pills i (holding (job j)) t p.crew e in
    rw (job_done i ended randint how j p counted) (record {
      fair = fair;
      one = record {
        budget = omega (arith, v.one.budget, same, no_pill);
        last = v.one.last;
        behind = elim v.one.behind [
          | inl none_left ↦ inl none_left
          | inr z ↦ inr (omega (arith, z, same, no_pill))
        ];
      };
    })

handle_pill :
    (fut ended : ℕ) (randint : ℕ → ℕ) (how : RunEnd) (w : Workers)
    → 1 ≤ w.in_queue.unfinished_tasks
    → let after = record w.in_queue { unfinished_tasks = w.in_queue.unfinished_tasks - 1 } in
      let put = put_noblock poison_pill fut after in
      handle fut ended randint how poison_pill w
      ≡ record { fate = ends; put = some put; workers = record w { in_queue = put.queue } }
unfolding handle put_in
handle_pill fut ended randint how w h = rw (done_in_time w.in_queue h) refl

stopped_of :
    (must_stop : Bool) (n : ℕ)
    → n ≡ (if must_stop then 1 else 0)
    → 1 ≤ n
    → (must_stop ≡ true) × (n ≡ 1)
stopped_of true n e h = (refl, e)
stopped_of false n e h = absurd (omega (arith, e, h))

settle-ended :
    (i : ℕ) (crew : List State) (put : Put Item) (w : Workers)
    → put.fut ≡ none
    → settle i crew (record { fate = ends; put = some put; workers = w })
      ≡ record { workers = w; crew = deliver put.served (set_at i (over ends) crew) }
settle-ended i crew put w free = rw (free) refl

-- The pill is passed on when the queue is empty.
pub record Passed (i : ℕ) (p after : Pool) (placed : Put Item) : Type 0 where
  pub same : after ≡ record {
    workers = record p.workers { in_queue = placed.queue };
    crew = deliver placed.served (set_at i (over ends) p.crew);
  }
  pub put :
      let q = p.workers.in_queue in
      Placed poison_pill
        (record q { unfinished_tasks = q.unfinished_tasks - 1 })
        (set_at i (over ends) p.crew)
        placed
  pub stopped : p.workers.must_stop ≡ true
  pub none_left : p.workers.in_queue.items ≡ []
  pub none_held : total pills (set_at i (over ends) p.crew) ≡ 0

pub pill-Passed :
    (i ended : ℕ) (randint : ℕ → ℕ) (how : RunEnd) (p : Pool)
    → Inv p
    → get_at i p.crew ≡ some (holding poison_pill)
    → (placed : Put Item) × Passed i p (finish i ended randint how poison_pill p) placed
unfolding finish
pill-Passed i ended randint how p v e =
    let q = p.workers.in_queue in
    let after = record q { unfinished_tasks = q.unfinished_tasks - 1 } in
    let crew = set_at i (over ends) p.crew in
    let placed = put_noblock poison_pill i after in
    let gone = total-set_at pills i (holding poison_pill) (over ends) p.crew e in
    let (stopped, pills_now) =
      stopped_of p.workers.must_stop (count_pills q.items + total pills p.crew) v.one.budget
        (omega (arith, gone)) in
    let none_left : q.items ≡ [] = elim v.one.behind [
      | inl n ↦ n
      | inr z ↦ absurd (omega (arith, z, gone))
    ] in
    let none_counted : length q.items ≡ 0 = ap length none_left in
    let none_pill : count_pills q.items ≡ 0 = ap count_pills none_left in
    let (counted, fair) = done-Fair q p.crew i poison_pill (over ends) v.fair e refl refl refl in
    let put =
      put-Placed poison_pill i after crew fair (omega (arith, none_counted, v.fair.positive)) in
    (
      placed,
      record {
        same =
            rw (handle_pill i ended randint how p.workers counted)
              (settle-ended i p.crew placed _ put.free);
        put = put;
        stopped = stopped;
        none_left = none_left;
        none_held = omega (arith, gone, pills_now, none_pill);
      },
    )

pub finish_pill-Inv :
    (i ended : ℕ) (randint : ℕ → ℕ) (how : RunEnd) (p : Pool)
    → Inv p
    → get_at i p.crew ≡ some (holding poison_pill)
    → Inv (finish i ended randint how poison_pill p)
finish_pill-Inv i ended randint how p v e =
    let q = p.workers.in_queue in
    let (placed, h) = pill-Passed i ended randint how p v e in
    rw (h.same) (record {
      fair = h.put.fair;
      one =
          put-OnePill p.workers.must_stop poison_pill
            (record q { unfinished_tasks = q.unfinished_tasks - 1 }) (set_at i (over ends) p.crew)
            placed (ap count_pills h.none_left) h.none_held (rw (h.stopped) refl) h.put;
    })
