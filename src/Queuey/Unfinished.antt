-- ===== src/Queuey/Unfinished.antt =====
-- The counter of unfinished tasks of spinach/queuey.py. An item counts when it is put at once, and
-- not when its putter had to wait.
use spinach.Prelude.{
  ℕ, ◌+◌, ◌≤◌, ◌<◌, ◌≡◌, List, [], ◌∷◌, Option, none, some, length, length-append, arith,
}
use spinach.Outcome.{Result, ok, raise, value_error}
use spinach.Queuey.{Queuey, create, get_noblock, put_noblock, task_done}
use spinach.Queuey.System.{Call, get, put, done, System, step, run, start}

abbrev one_if_blocked : Option ℕ → ℕ
one_if_blocked none = 0
one_if_blocked (some fut) = 1

module _ {A : Type 0} where
  abbrev one_if_ok : Result (Queuey A) → ℕ
  one_if_ok (ok q) = 1
  one_if_ok (raise e) = 0

  -- One for a put that has to wait, and one for a `task_done` that raises nothing.
  abbrev pub blocked_by : System A → Call A → ℕ
  blocked_by s get = 0
  blocked_by s (put a) = one_if_blocked (put_noblock a (length s.sent) s.queue).fut
  blocked_by s done = 0

  abbrev pub done_by : System A → Call A → ℕ
  done_by s get = 0
  done_by s (put a) = 0
  done_by s done = one_if_ok (task_done s.queue)

  -- How many puts of a run had to wait, and how many calls of `task_done` raised nothing.
  unfoldable pub blocked_puts : System A → List (Call A) → ℕ
  blocked_puts s [] = 0
  blocked_puts s (c ∷ cs) = blocked_by s c + blocked_puts (step s c) cs

  unfoldable pub tasks_done : System A → List (Call A) → ℕ
  tasks_done s [] = 0
  tasks_done s (c ∷ cs) = done_by s c + tasks_done (step s c) cs

  step_unfinished :
      (s : System A) (c : Call A)
      → (step s c).queue.unfinished_tasks + done_by s c + blocked_by s c + length s.sent
        ≡ s.queue.unfinished_tasks + length (step s c).sent
  unfolding step get_noblock put_noblock task_done
  step_unfinished s get = ground arith
  step_unfinished s (put a) = ground (arith, length-append s.sent (a ∷ []))
  step_unfinished s done = ground arith

  run_unfinished :
      (s : System A) (cs : List (Call A))
      → (run s cs).queue.unfinished_tasks + tasks_done s cs + blocked_puts s cs + length s.sent
        ≡ s.queue.unfinished_tasks + length (run s cs).sent
  unfolding run tasks_done blocked_puts
  run_unfinished s [] = omega arith
  run_unfinished s (c ∷ cs) = omega (arith, step_unfinished s c, run_unfinished (step s c) cs)

-- Whatever is called in which order: each item that was put is unfinished, or was marked as done,
-- or had to wait when it was put and never counted.
pub unfinished-sent :
    {A : Type 0} (maxsize : ℕ) (cs : List (Call A))
    → let s = run (start maxsize) cs in
      s.queue.unfinished_tasks + tasks_done (start maxsize) cs + blocked_puts (start maxsize) cs
      ≡ length s.sent
unfolding start create
unfinished-sent maxsize cs = omega (arith, run_unfinished (start maxsize) cs)

-- So once a put had to wait, `task_done` raises before it was called as often as items were put:
-- when the calls that succeeded and the puts that waited make up all items, the next call raises,
-- though fewer calls than items succeeded.
pub task_done_too_early :
    {A : Type 0} (maxsize : ℕ) (cs : List (Call A))
    → 1 ≤ blocked_puts (start maxsize) cs
    → tasks_done (start maxsize) cs + blocked_puts (start maxsize) cs
      ≡ length (run (start maxsize) cs).sent
    → (tasks_done (start maxsize) cs < length (run (start maxsize) cs).sent)
      × (task_done (run (start maxsize) cs).queue ≡ raise value_error)
unfolding task_done
task_done_too_early maxsize cs waited all =
    (omega arith, ground (arith, unfinished-sent maxsize cs))
