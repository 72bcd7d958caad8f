-- ===== src/Samples/Registry.antt =====
-- Registries of spinach/task.py.
use spinach.Prelude.{◌≡◌, refl, [], ◌∷◌, none, some, lookup, false}
use spinach.Outcome.{ok, raise, value_error}
use spinach.Job.{Func, binds}
use spinach.Task.{Task, Tasks, by_name, get, add, update}
use spinach.Task.Registry.{IsValidDict, add-IsValidDict, get-update}

abbrev any : Func
any = record { bind = λ args kwargs. binds }

abbrev no_tasks : Tasks
no_tasks = record {
  tasks = [];
  queue = some "main";
  max_retries = none;
  periodicity = none;
  max_concurrency = none;
  spin = false;
}

abbrev nap : Task
nap = record {
  func = any;
  name = "nap";
  queue = "main";
  max_retries = 4;
  periodicity = none;
  max_concurrency = some 2;
}

abbrev with_nap : Tasks
with_nap = record no_tasks { tasks = ("nap", nap) ∷ [] }

nap_added : add no_tasks any (some "nap") none (some 4) none (some 2) ≡ ok with_nap
unfolding add lookup
nap_added = refl

-- A limit without a retry is refused.
nap_refused : add no_tasks any (some "nap") none none none (some 2) ≡ raise value_error
unfolding add lookup
nap_refused = refl

no_tasks-IsValidDict : IsValidDict []
unfolding lookup
no_tasks-IsValidDict k t e = cc

add-IsValidDict_example : IsValidDict with_nap.tasks
add-IsValidDict_example =
    add-IsValidDict no_tasks any (some "nap") none (some 4) none (some 2) no_tasks-IsValidDict
      nap_added

get-update_example :
    get (update no_tasks with_nap) (by_name "nap")
    ≡ elim (lookup "nap" with_nap.tasks) [ none ↦ get no_tasks (by_name "nap") | some t ↦ ok t ]
unfolding lookup
get-update_example = get-update no_tasks with_nap "nap" (refl, tt)
