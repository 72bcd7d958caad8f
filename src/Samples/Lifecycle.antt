-- ===== src/Samples/Lifecycle.antt =====
-- An engine of spinach/engine.py that is started, stopped, and told to stop too early.
use spinach.Prelude.{◌≡◌, refl, true}
use spinach.Outcome.{ok, raise, runtime_error, attribute_error}
use spinach.Worker.{poison_pill}
use spinach.Worker
use spinach.Engine.Lifecycle.{Lifecycle, reset, start_workers, stop_workers}

abbrev pub running : Lifecycle
running = (start_workers 2 "main" reset).1

started_twice : start_workers 3 "other" running ≡ (raise runtime_error, running)
unfolding start_workers Worker.create reset
started_twice = refl

stopped_and_started : start_workers 2 "main" (stop_workers 7 running).1 ≡ (ok tt, running)
unfolding start_workers stop_workers Worker.create reset
stopped_and_started = refl

-- The order to stop outlives the error, and the next arbiter finds it.
stopped_too_early :
    (stop_workers 7 reset ≡ (raise attribute_error, record reset { must_stop = true }))
    × (start_workers 2 "main" (stop_workers 7 reset).1
        ≡ (ok tt, record running { must_stop = true }))
unfolding start_workers stop_workers Worker.create reset
stopped_too_early = (refl, refl)
