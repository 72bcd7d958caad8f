-- ===== src/Samples/Queues.antt =====
-- Runs of spinach/queuey.py.
use spinach.Prelude.{ℕ, ◌+◌, ◌≤◌, ◌<◌, min, ◌≡◌, refl, List, [], ◌∷◌, length, arith}
use spinach.Outcome.{raise, value_error}
use spinach.Queuey.{task_done, create, get_noblock, put_noblock}
use spinach.Queuey.System.{Call, get, put, done, run, start, step}
use spinach.Queuey.Order.{numbered, take, received_in_order}
use spinach.Queuey.Unfinished.{blocked_puts, tasks_done, unfinished-sent, task_done_too_early}

-- Two puts into a queue with one place, and both items taken and done.
abbrev two_jobs : List (Call ℕ)
two_jobs = put 10 ∷ put 20 ∷ get ∷ done ∷ get ∷ []

received_both : (run (start 1) two_jobs).received ≡ (0, 10) ∷ (1, 20) ∷ []
unfolding run start step get_noblock put_noblock task_done create
received_both = refl

received_in_order_example :
    let s = run (start 1) two_jobs in
    (s.received ≡ numbered 0 (take (min s.asked (length s.sent)) s.sent))
    × (length s.queue.items ≤ s.queue.maxsize)
received_in_order_example = received_in_order 1 two_jobs (omega arith)

unfinished-sent_example :
    let s = run (start 1) two_jobs in
    s.queue.unfinished_tasks + tasks_done (start 1) two_jobs + blocked_puts (start 1) two_jobs
    ≡ length s.sent
unfinished-sent_example = unfinished-sent 1 two_jobs

task_done_too_early_example :
    (tasks_done (start 1) two_jobs < length (run (start 1) two_jobs).sent)
    × (task_done (run (start 1) two_jobs).queue ≡ raise value_error)
unfolding run start tasks_done blocked_puts step get_noblock put_noblock task_done create
task_done_too_early_example = task_done_too_early 1 two_jobs (omega arith) refl
