-- ===== src/Job.antt =====
-- spinach/job.py: the job, its status, its construction, its serialized form and its signature
-- check. `Advance` has `advance_job_status`.
pub mod RoundTrip
pub mod Dates
pub mod Advance
use Prim.Native.Nat.{suc}
use spinach.Prelude.{
  ℕ, zero, ◌+◌, ◌-◌, ◌/◌, ◌%◌, Bool, true, false, String, Option, none, some, ltb,
}
use spinach.Outcome.{
  Result, ok, raise, ◌>>=◌, key_error, value_error, type_error, invalid_job_signature,
}
use spinach.Time.{
  DateTime, Zone, second, to_utc, instant, now_reaches, from_parts, int_timestamp, ceil_timestamp,
}
use spinach.Json.{
  Value, num, str, list, tuple, dict, Items, nil, cons, Fields, end, field, Json, dumps, loads, get,
}

pub data JobStatus : Type 0 where
  not_set waiting queued running succeeded failed : JobStatus

-- `JobStatus.value`
unfoldable pub value : JobStatus → ℕ
value not_set = 0
value waiting = 1
value queued = 2
value running = 3
value succeeded = 4
value failed = 5

-- `JobStatus(n)`
unfoldable pub of_value : ℕ → Result JobStatus
of_value zero = ok not_set
of_value (suc zero) = ok waiting
of_value (suc (suc zero)) = ok queued
of_value (suc (suc (suc zero))) = ok running
of_value (suc (suc (suc (suc zero)))) = ok succeeded
of_value (suc (suc (suc (suc (suc zero))))) = ok failed
of_value _ = raise value_error

-- How `inspect.signature(f).bind(*args, **kwargs)` ends: without an exception, with a TypeError or
-- with a ValueError.
pub data Bound : Type 0 where
  binds mismatches unknown_signature : Bound

-- A task function, as far as its signature goes. How a run of it ends is an event of the worker.
pub record Func : Type 0 where
  pub bind : Items → Fields → Bound

pub record Job : Type 0 where
  pub id : String
  pub status : JobStatus
  pub task_name : String
  pub queue : String
  pub at : DateTime
  pub max_retries : ℕ
  pub retries : ℕ
  pub task_args : Items
  pub task_kwargs : Fields
  pub task_func : Option Func

-- `Job(...)`, with the id that `uuid4` gave. Empty arguments are stored for `None`.
unfoldable pub create : String → String → String → DateTime → ℕ → Option Items → Option Fields → Job
create id task_name queue at max_retries task_args task_kwargs = record {
  id = id;
  status = not_set;
  task_name = task_name;
  queue = queue;
  at = to_utc at;
  max_retries = max_retries;
  retries = 0;
  task_args = elim task_args [ none ↦ nil | some xs ↦ xs ];
  task_kwargs = elim task_kwargs [ none ↦ end | some fs ↦ fs ];
  task_func = none;
}

unfoldable pub should_retry : Job → Bool
should_retry j = ltb j.retries j.max_retries

unfoldable pub should_start : ℕ → Job → Result Bool
unfolding now_reaches
should_start now j = now_reaches now j.at

-- `math.ceil` of the seconds.
unfoldable pub at_timestamp : Job → ℕ
unfolding instant ceil_timestamp
at_timestamp j = ceil_timestamp (instant j.at)

-- The dict that `serialize` gives to `json.dumps`.
unfoldable pub to_dict : Job → Value
unfolding value instant int_timestamp
to_dict j = dict (
    field "id" (str j.id) (
      field "status" (num (value j.status)) (
        field "task_name" (str j.task_name) (
          field "queue" (str j.queue) (
            field "max_retries" (num j.max_retries) (
              field "retries" (num j.retries) (
                field "at" (num (int_timestamp (instant j.at))) (
                  field "at_us" (num (instant j.at % second)) (
                    field "task_args" (tuple j.task_args)
                      (field "task_kwargs" (dict j.task_kwargs) end))))))))))

unfoldable pub serialize : Job → Json
unfolding to_dict dumps
serialize j = dumps (to_dict j)

-- `job_dict[key]`. A field of another type than `serialize` writes is refused.
abbrev get_value : String → Fields → Result Value
get_value k d = elim (get k d) [ none ↦ raise key_error | some v ↦ ok v ]

abbrev as_num : Value → Result ℕ
as_num (num n) = ok n
as_num _ = raise type_error

abbrev as_str : Value → Result String
as_str (str s) = ok s
as_str _ = raise type_error

-- The keys of a dict, in their order.
abbrev keys : Fields → Items
keys end = nil
keys (field k v fs) = cons (str k) (keys fs)

-- `tuple(v)`, of an array, or of an object, which a script of the Redis broker writes for no arguments.
abbrev as_list : Value → Result Items
as_list (list xs) = ok xs
as_list (dict fs) = ok (keys fs)
as_list _ = raise type_error

abbrev as_dict : Value → Result Fields
as_dict (dict fs) = ok fs
as_dict _ = raise type_error

-- The two lines that make the date.
unfoldable read_at : Fields → Result DateTime
unfolding get from_parts
read_at job_dict = do
  at_seconds ← as_num (← get_value "at" job_dict)
  at_us ← as_num (← get_value "at_us" job_dict)
  from_parts at_seconds at_us

-- `Job(...)` of the fields, with an id that is replaced at once.
unfoldable new_job : Fields → DateTime → Result Job
unfolding get create to_utc
new_job job_dict at = do
  task_name ← as_str (← get_value "task_name" job_dict)
  queue ← as_str (← get_value "queue" job_dict)
  max_retries ← as_num (← get_value "max_retries" job_dict)
  task_args ← as_list (← get_value "task_args" job_dict)
  task_kwargs ← as_dict (← get_value "task_kwargs" job_dict)
  ok (create "" task_name queue at max_retries (some task_args) (some task_kwargs))

unfoldable pub deserialize : Json → Result Job
unfolding read_at new_job get of_value loads
deserialize job_json_string = do
  job_dict ← as_dict (loads job_json_string)
  at ← read_at job_dict
  job ← new_job job_dict at
  id ← as_str (← get_value "id" job_dict)
  status ← of_value (← as_num (← get_value "status" job_dict))
  retries ← as_num (← get_value "retries" job_dict)
  ok (record job { id = id; status = status; retries = retries })

unfoldable pub check_signature : Job → Result (Unit {0})
check_signature j = elim j.task_func [
  | none ↦ raise value_error
  | some f ↦ elim (f.bind j.task_args j.task_kwargs) [
    | binds ↦ ok tt
    | mismatches ↦ raise invalid_job_signature
    | unknown_signature ↦ ok tt
  ]
]
