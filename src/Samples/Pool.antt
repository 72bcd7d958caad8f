-- ===== src/Samples/Pool.antt =====
-- Workers of spinach/worker.py that are stopped, with and without room for the pill in their queue.
use spinach.Prelude.{ℕ, ◌+◌, ◌≤◌, ◌/◌, ◌≡◌, refl, ◌⊎◌, [], ◌∷◌, none, false, true, arith}
use spinach.Outcome.{value_error}
use spinach.Time.{aware, utc}
use spinach.Job.{Job, create}
use spinach.Worker
use spinach.Worker.{ran, can_accept_job, Workers, poison_pill, job, ends, dies}
use spinach.Worker.Pool.{
  waiting, over, Pool, crew_of, take, finish, submit, stop_pool, Works, takes, finishes, submits,
  stops, works, Reach, here, next,
}
use spinach.Worker.Pool.Crew.{total, alive}
use spinach.Worker.Pool.Stops.{Runs, rests, goes, measure, stop_ends}

abbrev pub half : ℕ → ℕ
half n = n / 2

abbrev pub mail : Job
mail = create "id" "mail" "main" (aware 5 utc) 2 none none

abbrev pub two : Pool
two = record {
  workers = record {
    in_queue = record { maxsize = 2; items = []; getters = []; putters = []; unfinished_tasks = 0 };
    out_queue = [];
    must_stop = false;
  };
  crew = crew_of 2;
}

-- One worker waits, gets the job that is submitted, and the other takes the pill.
abbrev one_waits : Pool
one_waits = take 1 two

abbrev one_works : Pool
one_works = submit 7 mail one_waits

abbrev stopping : Pool
stopping = stop_pool 8 one_works

abbrev one_ended : Pool
one_ended = finish 0 9 half (ran none) poison_pill (take 0 stopping)

abbrev both_ended : Pool
both_ended =
    finish 1 9 half (ran none) poison_pill
      (take 1 (finish 1 9 half (ran none) (job mail) one_ended))

stops_well : both_ended.crew ≡ over ends ∷ over ends ∷ []
unfolding take submit stop_pool finish
stops_well = refl

stopping-Reach : Reach 2 stopping
unfolding take submit stop_pool Worker.create can_accept_job
stopping-Reach =
    next (next (next (here refl) (works (takes 1 refl))) (submits 7 mail refl refl))
      (stops 8 refl (omega arith))

one_ended-Runs : Runs 2 stopping one_ended
unfolding take submit stop_pool finish
one_ended-Runs = goes (takes 0 refl) (goes (finishes 0 9 half (ran none) poison_pill refl) rests)

stopping-must_stop : stopping.workers.must_stop ≡ true
unfolding take submit stop_pool
stopping-must_stop = refl

stop_ends_example :
    (2 + measure one_ended ≤ measure stopping)
    × (((r : Pool) × Works one_ended r) ⊎ (total alive one_ended.crew ≡ 0))
stop_ends_example =
    stop_ends 2 2 stopping one_ended stopping-Reach stopping-must_stop one_ended-Runs

-- Two jobs fill the queue before `stop` puts the pill, which is never counted: the worker that takes
-- it dies of a ValueError, and the other one waits for ever.
abbrev crowded : Pool
crowded = stop_pool 8 (submit 7 mail (submit 6 mail two))

abbrev both_done : Pool
both_done =
    finish 1 9 half (ran none) (job mail)
      (finish 0 9 half (ran none) (job mail) (take 1 (take 0 crowded)))

abbrev pill_lost : Pool
pill_lost = take 1 (finish 0 9 half (ran none) poison_pill (take 0 both_done))

stop_hangs :
    (pill_lost.crew ≡ over (dies value_error) ∷ waiting ∷ [])
    × (pill_lost.workers.in_queue.items ≡ [])
    × (pill_lost.workers.in_queue.putters ≡ [])
unfolding take submit stop_pool finish
stop_hangs = (refl, refl, refl)
