-- ===== src/Engine/Attach.antt =====
-- The tasks of an engine, spinach/engine.py, and scheduling through an attached registry of
-- spinach/task.py; and the namespace that spinach/brokers/base.py lets be set once.
use spinach.Prelude.{
  ℕ, Bool, true, false, not, String, List, [], ◌∷◌, Option, none, some, str_eq, ◌==◌, if◌then◌else◌,
}
use spinach.Outcome.{Result, ok, raise, runtime_error, ◌>>=◌}
use spinach.Action.{lift}
use spinach.Action
use spinach.Time.{aware, utc}
use spinach.Json.{Items, Fields}
use spinach.Job.{Job}
use spinach.Task.{Task, Tasks, Schedulable, ToCreate, update, require_attached_tasks}
use spinach.Memory.{Method}
use spinach.Engine.{schedule_at, schedule_batch}

-- An empty namespace counts as none.
abbrev is_set : Option String → Bool
is_set none = false
is_set (some s) = not (str_eq s "")

-- The broker's property `namespace` and its setter.
unfoldable pub get_namespace : Option String → Result String
get_namespace none = raise runtime_error
get_namespace (some s) = if str_eq s "" then raise runtime_error else ok s

unfoldable pub set_namespace : String → Option String → Result (Option String)
set_namespace value namespace = if is_set namespace then raise runtime_error else ok (some value)

-- What an engine keeps: its namespace and its own registry.
pub record Engine : Type 0 where
  pub namespace : String
  pub tasks : Tasks

-- `Engine(broker, namespace)`, with the broker's namespace before and after.
unfoldable pub create : String → Option String → Result (Engine × Option String)
unfolding set_namespace
create namespace broker_namespace = set_namespace namespace broker_namespace >>= λ after.
    let tasks : Tasks = record {
      tasks = [];
      queue = none;
      max_retries = none;
      periodicity = none;
      max_concurrency = none;
      spin = false;
    } in
    ok (record { namespace = namespace; tasks = tasks }, after)

-- The engine and the registry after `attach_tasks`.
unfoldable pub attach_tasks : Engine → Tasks → Engine × Tasks
unfolding update
attach_tasks engine tasks =
    (record engine { tasks = update engine.tasks tasks }, record tasks { spin = true })

-- `if task.periodicity`: there is a period, and it is not zero.
abbrev is_periodic : Option ℕ → Bool
is_periodic none = false
is_periodic (some us) = not (us == 0)

abbrev pub periodic_of : List Task → List Task
periodic_of [] = []
periodic_of (t ∷ ts) = if is_periodic t.periodicity then t ∷ periodic_of ts else periodic_of ts

-- `schedule` of an engine: at the current time.
unfoldable pub schedule : Tasks → String → ℕ → Schedulable → Items → Fields → Method Job
unfolding schedule_at
schedule ts id now task args kwargs =
    schedule_at ts id now (record { task = task; at = aware now utc; args = args; kwargs = kwargs })

-- The methods of `Tasks`, over the registry `engine_tasks` of the engine that `ts` is attached to.
module _ (ts engine_tasks : Tasks) where
  unfoldable pub tasks_schedule_at : String → ℕ → ToCreate → Method Job
  unfolding require_attached_tasks schedule_at
  tasks_schedule_at id now r =
      Action.◌>>◌ (lift (require_attached_tasks ts)) (schedule_at engine_tasks id now r)

  unfoldable pub tasks_schedule : String → ℕ → Schedulable → Items → Fields → Method Job
  unfolding require_attached_tasks schedule
  tasks_schedule id now task args kwargs =
      Action.◌>>◌ (lift (require_attached_tasks ts)) (schedule engine_tasks id now task args kwargs)

  unfoldable pub tasks_schedule_batch : (ℕ → String) → ℕ → List ToCreate → Method (List Job)
  unfolding require_attached_tasks schedule_batch
  tasks_schedule_batch uuid now batch =
      Action.◌>>◌ (lift (require_attached_tasks ts)) (schedule_batch engine_tasks uuid now batch)
