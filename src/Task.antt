-- ===== src/Task.antt =====
-- spinach/task.py: tasks, the registry that an engine keeps them in, and batches of jobs to create.
pub mod Registry
use text.Mathlib.Text.{starts_with}
use spinach.Prelude.{
  ℕ, Bool, true, false, ◌&&◌, not, String, List, [], ◌∷◌, ◌++◌, Option, none, some, Dict, lookup,
  insert, str_eq, ltb, ◌==◌, ◌/◌, if◌then◌else◌,
}
use spinach.Outcome.{Result, ok, raise, ◌>>=◌, ◌>>◌, unknown_task, value_error, runtime_error}
use spinach.Time.{DateTime, aware, utc, second}
use spinach.Json.{Value, null, num, neg, str, dict, Items, Fields, end, field, Json, dumps}
use spinach.Job.{Func}

-- The constants of spinach/const.py.
abbrev pub default_queue : String
default_queue = "spinach"

abbrev pub default_max_retries : ℕ
default_max_retries = 0

-- A period is in microseconds.
pub record Task : Type 0 where
  pub func : Func
  pub name : String
  pub queue : String
  pub max_retries : ℕ
  pub periodicity : Option ℕ
  pub max_concurrency : Option ℕ

-- The checks of `Task.__init__`.
unfoldable pub check_concurrency : Option ℕ → ℕ → Result (Unit {0})
check_concurrency none max_retries = ok tt
check_concurrency (some max_concurrency) max_retries =
    if max_retries == 0
    then raise value_error
    else if ltb max_concurrency 1
    then raise value_error
    else ok tt

-- `Task(...)`
unfoldable pub create : Func → String → String → ℕ → Option ℕ → Option ℕ → Result Task
unfolding check_concurrency
create func name queue max_retries periodicity max_concurrency = do
  check_concurrency max_concurrency max_retries
  ok (record {
    func = func;
    name = name;
    queue = queue;
    max_retries = max_retries;
    periodicity = periodicity;
    max_concurrency = max_concurrency;
  })

-- The dict that `Task.serialize` gives to `json.dumps`. A period of zero counts as none, and so does
-- a limit of zero, which is written as -1.
abbrev periodicity_value : Option ℕ → Value
periodicity_value none = null
periodicity_value (some us) = if us == 0 then null else num (us / second)

abbrev max_concurrency_value : Option ℕ → Value
max_concurrency_value none = neg 0
max_concurrency_value (some m) = if m == 0 then neg 0 else num m

unfoldable pub serialize : Task → Json
unfolding dumps
serialize t = dumps (
    dict (
      field "name" (str t.name) (
        field "queue" (str t.queue) (
          field "max_retries" (num t.max_retries) (
            field "periodicity" (periodicity_value t.periodicity)
              (field "max_concurrency" (max_concurrency_value t.max_concurrency) end))))))

-- The registry. `spin` says whether an engine is attached.
pub record Tasks : Type 0 where
  pub tasks : Dict Task
  pub queue : Option String
  pub max_retries : Option ℕ
  pub periodicity : Option ℕ
  pub max_concurrency : Option ℕ
  pub spin : Bool

-- What a caller may name a task by: its name, the task, a function that the decorator marked with a
-- name, or a function without one.
pub data Schedulable : Type 0 where
  by_name : String → Schedulable
  of_task : Task → Schedulable
  decorated : String → Schedulable
  undecorated : Schedulable

-- `name.task_name`, or `name` itself; an unmarked function is a key of no registry.
unfoldable pub task_name : Schedulable → Option String
task_name (by_name s) = some s
task_name (of_task t) = some t.name
task_name (decorated s) = some s
task_name undecorated = none

abbrev pub or_unknown {ℓ} : {A : Type ℓ} → Option A → Result A
or_unknown none = raise unknown_task
or_unknown (some a) = ok a

unfoldable pub get : Tasks → Schedulable → Result Task
unfolding task_name lookup
get ts name = elim (task_name name) [
  | none ↦ raise unknown_task
  | some s ↦ or_unknown (lookup s ts.tasks)
]

-- The truth value of an optional text, and an option's value or a default.
abbrev is_empty : String → Bool
is_empty s = str_eq s ""

abbrev or_default {ℓ} : {A : Type ℓ} → Option A → A → A
or_default none d = d
or_default (some a) d = a

abbrev or_else {ℓ} : {A : Type ℓ} → Option A → Option A → Option A
or_else none o = o
or_else (some a) o = some a

-- The queue of a task: its own, the registry's if that is not empty, or the default one.
unfoldable pub queue_of : Tasks → Option String → String
queue_of ts (some queue) = queue
queue_of ts none = elim ts.queue [
  | none ↦ default_queue
  | some q ↦ if is_empty q then default_queue else q
]

-- The retries of a task. A registry's zero counts as none, and so does the default.
unfoldable pub retries_of : Tasks → Option ℕ → ℕ
retries_of ts (some n) = n
retries_of ts none = or_default ts.max_retries default_max_retries

-- The name is there, not empty, and new.
unfoldable pub check_name : Tasks → Option String → Result String
check_name ts none = raise value_error
check_name ts (some name) =
    if is_empty name
    then raise value_error
    else elim (lookup name ts.tasks) [ none ↦ ok name | some t ↦ raise value_error ]

-- A queue that is not empty does not start with an underscore.
unfoldable pub check_queue : String → Result (Unit {0})
check_queue queue = if starts_with queue "_" then raise value_error else ok tt

-- `Tasks.add`; the decorator `Tasks.task` calls it, and marks the function.
unfoldable pub add :
    Tasks → Func → Option String → Option String → Option ℕ → Option ℕ → Option ℕ → Result Tasks
unfolding create queue_of retries_of check_name check_queue insert
add ts func name queue max_retries periodicity max_concurrency = do
  new_name ← check_name ts name
  let q = queue_of ts queue
  check_queue q
  t ←
      create func new_name q (retries_of ts max_retries) (or_else periodicity ts.periodicity)
        (or_else max_concurrency ts.max_concurrency)
  ok (record ts { tasks = insert new_name t ts.tasks })

-- The decorator `Tasks.task`, for a function: the registry after it, and what the function is
-- scheduled by, which is the name that it is marked with.
unfoldable pub task :
    Tasks
    → Func
    → Option String
    → Option String
    → Option ℕ
    → Option ℕ
    → Option ℕ
    → Result (Tasks × Schedulable)
unfolding add
task ts func name queue max_retries periodicity max_concurrency = do
  after ← add ts func name queue max_retries periodicity max_concurrency
  ok (after, elim name [ none ↦ undecorated | some s ↦ decorated s ])

-- `self._tasks.update(tasks.tasks)`
unfoldable pub update_dict : Dict Task → Dict Task → Dict Task
unfolding insert
update_dict d [] = d
update_dict d ((k, t) ∷ new) = update_dict (insert k t d) new

unfoldable pub update : Tasks → Tasks → Tasks
unfolding update_dict
update ts other = record ts { tasks = update_dict ts.tasks other.tasks }

unfoldable pub require_attached_tasks : Tasks → Result (Unit {0})
require_attached_tasks ts = if ts.spin then ok tt else raise runtime_error

-- One job of a batch to create.
pub record ToCreate : Type 0 where
  pub task : Schedulable
  pub at : DateTime
  pub args : Items
  pub kwargs : Fields

-- `Batch.schedule_at`
unfoldable pub schedule_at : List ToCreate → Schedulable → DateTime → Items → Fields → List ToCreate
schedule_at batch task at args kwargs =
    batch ++ record { task = task; at = at; args = args; kwargs = kwargs } ∷ []

-- `Batch.schedule`: at the current time.
unfoldable pub schedule : List ToCreate → ℕ → Schedulable → Items → Fields → List ToCreate
unfolding schedule_at
schedule batch now task args kwargs = schedule_at batch task (aware now utc) args kwargs
