-- ===== src/Samples/Workers.antt =====
-- A worker of spinach/worker.py whose job asks for a retry at a naive date.
use spinach.Prelude.{
  Option, ℕ, ◌+◌, ◌/◌, ◌<◌, ◌≡◌, ◌↔◌, ◌⊎◌, refl, [], ◌∷◌, ◌++◌, none, some, false, arith,
}
use spinach.Outcome.{type_error, system_exit}
use spinach.Time.{naive, aware, utc}
use spinach.Job.{Job, create}
use spinach.Job.Advance.{Error, retry, advance_job_status}
use spinach.Worker.{ran, exits, job, Workers, goes_on, dies, handle}
use spinach.Worker.Handled.{handle_job}

abbrev half : ℕ → ℕ
half n = n / 2

abbrev mail : Job
mail = create "id" "mail" "main" (aware 5 utc) 2 none none

abbrev busy : Workers
busy = record {
  in_queue = record { maxsize = 2; items = []; getters = []; putters = []; unfinished_tasks = 1 };
  out_queue = [];
  must_stop = false;
}

it_dies :
    (handle 0 9 half (ran (some (retry (some (naive 7))))) (job mail) busy).fate ≡ dies type_error
unfolding handle create
it_dies = refl

-- A task function that calls `sys.exit()`.
it_exits : (handle 0 9 half exits (job mail) busy).fate ≡ dies system_exit
unfolding handle create
it_exits = refl

handle_job_example :
    let how = ran (some (retry (some (naive 7)))) in
    let r = handle 0 9 half how (job mail) busy in
    (k : Job) × ((err : Option Error)
      → how ≡ ran err
      → k ≡ (advance_job_status 9 half mail err).job)
    × (how ≡ exits → k ≡ mail)
    × (r.workers.out_queue ≡ [] ++ job k ∷ [])
    × (r.workers.in_queue.unfinished_tasks + 1 ≡ 1)
    × (r.workers.in_queue.items ≡ [])
    × ((r.fate ≡ dies system_exit) ↔ (how ≡ exits))
    × ((r.fate ≡ dies type_error)
        ↔ ((wall : ℕ) × (how ≡ ran (some (retry (some (naive wall))))) × (0 < 2)))
    × ((r.fate ≡ goes_on) ⊎ ((r.fate ≡ dies type_error) ⊎ (r.fate ≡ dies system_exit)))
unfolding create
handle_job_example =
    handle_job 0 9 half (ran (some (retry (some (naive 7))))) mail busy (omega arith)
