-- ===== src/Lib.antt =====
-- spinach is a task queue: an application schedules jobs of registered tasks, a broker keeps them,
-- and worker processes take them, run them and report how they ended.
--
-- The parts, by the files of the repository, and the modules that model them:
--
-- - spinach/job.py: Job is the job with its status, `serialize` and `deserialize`
--   (`Job.serialize`, `Job.deserialize`) and `check_signature`; Job/Advance is
--   `advance_job_status`, which says what becomes of a job after a run. Time and Json are the
--   parts of Python's `datetime` and `json` that it uses.
-- - spinach/utils.py: Utils has `exponential_backoff`, `call_with_retry` and `run_forever`.
-- - spinach/task.py: Task has the task, the registry `Tasks` with `add`, `get` and `update`, and
--   the batch.
-- - spinach/queuey.py: Queuey has the methods of the queue between engine and workers, as
--   functions on its state; Queuey/System runs any sequence of calls and keeps their history.
-- - spinach/worker.py: Worker has the workers' queues, `submit_job`, `stop` and what one worker
--   does with one item; the asynchronous workers do the same. Worker/Pool has the threads around
--   the queue, as steps in any order: a worker takes an item, or waits for one; it handles its
--   item; a job is submitted; `stop` is called, which has to find room for the pill in the queue.
-- - spinach/brokers/memory.py: Memory has the broker's state and `enqueue_jobs`, Memory/Fetch has
--   `get_jobs_from_queue`, `remove_job_from_running`, `set_concurrency_keys` and `flush`, and
--   Memory/Future has `move_future_jobs` and the periodic tasks.
-- - spinach/brokers/redis.py and spinach/brokers/redis_scripts: Redis/Commands is the interface of
--   the commands of a server; Redis/Scripts has the Lua scripts over it, and Redis/Broker the
--   class `RedisBroker`: Runs has `_run_script` (`request` without a token and `run_protected`
--   with one), Enqueueing has `enqueue_jobs`, and Methods the other methods; Info has
--   `_get_broker_info` of spinach/brokers/base.py.
-- - spinach/signals.py: Signals has `send`.
-- - spinach/brokers/base.py: Broker has the abstract class as an interface, and the contract that
--   the engine relies on; Memory/AsBroker and Redis/Broker/AsBroker are the two brokers as such.
--   Memory/Waiting has `wait_for_event`, over the memory broker, and Memory has the namespaced
--   names.
-- - spinach/engine.py: Engine has `schedule_at`, `schedule_batch` and the body of the result
--   notifier; Engine/Lifecycle has the start and the stop of an engine, Engine/Attach has
--   `attach_tasks` and scheduling through a registry, Engine/Arbiter has the arbiter over any
--   broker, and Engine/System is an engine over one memory broker, whose arbiter, workers, notifier
--   and clients take steps in any order; Engine/Ledger keeps account of the jobs over such steps.
--
-- Outcome has the exceptions as values, and Action the methods of an object that outlives an
-- exception. Prelude passes on the libraries' names and adds dicts, integers and list lemmas.
-- Samples has tests, and the theorems at concrete inputs.
--
-- What is assumed and bounded. Times are microseconds since the epoch, never before it and without
-- an end, and the local zone is UTC. A call of a broker method reads each clock once, and runs as
-- a whole: the methods of the queue and of the memory broker hold a lock, but `enqueue_jobs` holds
-- it for one job at a time, and the scheduler runs after it was released. Numbers in JSON are
-- integers. A timestamp goes through a float of 53 binary digits, Time has its rounding, and no
-- date is too late for `datetime.fromtimestamp`. A JSON text is the document that it denotes. An
-- id is its text. The clocks, the random numbers, the ids, the task functions and their
-- signatures are arguments. A log line does nothing, but what its arguments raise is kept.
--
-- A server of Redis, its JSON library and the fate of every request to it are arguments; the laws
-- of the commands are in Redis/Commands. Other clients of the server do nothing between two
-- commands, and the hour after which it drops a token is never over.
--
-- The arbiter puts a job into the workers' queue as if the put never waited; Engine/Arbiter/Room is
-- about that.
--
-- Three loops are on fuel. `call_with_retry` gives its loop as much as the number of retries and
-- one more; Utils/Retry shows that this is enough. `run_scheduler`, the run of Python's
-- `sched.scheduler` in `move_future_jobs`, takes its fuel as an argument; Memory/Scheduling shows
-- how much is enough for periods of a second or more, and a step of Engine/System is a call that
-- ends. The loop of get_jobs_from_queue.lua gets as much as the queue has jobs and one more: each
-- round takes one job off the queue.
--
-- Not modelled: the creation of threads, what the end of one coroutine does to the others, the
-- wait of `start_workers` with `block`, the thread of the Redis broker's subscriber and its connection,
-- blinker's registry of receivers, the integrations in spinach/contrib, signal handling, and the
-- texts of log lines and errors.
pub mod Prelude
pub mod Outcome
pub mod Action
pub mod Time
pub mod Json
pub mod Job
pub mod Utils
pub mod Task
pub mod Queuey
pub mod Signals
pub mod Worker
pub mod Memory
pub mod Engine
pub mod Samples
pub mod Broker
pub mod Redis
