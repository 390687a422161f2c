-- ===== src/Worker/Start.antt =====
-- `Start`, `registryLoop` and `NewWorker` of internal/worker/worker.go, the health server of
-- internal/worker/server.go, and the processor of internal/worker/processor.go.
pub mod Outcome
pub mod Heartbeats
pub mod Watched
use fluffy_dollop.Base.{
  Bool, true, false, Option, none, some, List, [], ◌∷◌, ◌++◌, if◌then◌else◌, ◌||◌,
}
use fluffy_dollop.Base.Int.{ℤ}
use fluffy_dollop.Base.Text.{Text, lit}
use fluffy_dollop.Go.Errors.{Error, wrap, panic, health_server_failed, processing_cancelled}
use fluffy_dollop.Go.Effect.{Result, ok, err}
use fluffy_dollop.Go.Group.{ErrGroup}
use fluffy_dollop.Config.Types.{WorkerConfig, RegistryConfig}
use fluffy_dollop.Redis.{Redis}
use fluffy_dollop.Queue.Types.{JobEnvelope}
use fluffy_dollop.Queue.Consumer.{Consumer}
use fluffy_dollop.Registry.{heartbeat}
use fluffy_dollop.Worker.Backoff.{Backoff, new_backoff}

-- `ListenAndServe` always returns an error: `http.ErrServerClosed` after a shutdown, or another.
pub data Served : Type 0 where
  server_closed : Served
  serve_failed : Error → Served

-- `HealthServer.Start`: what it returns, by how `ListenAndServe` returned.
unfoldable pub health_start : Served → Option Error
health_start server_closed = none
health_start (serve_failed e) = some (wrap health_server_failed e)

-- A goroutine of the group returns: `pollLoop`, `reclaimLoop` and `registryLoop`, which return nil
-- on every path, one that processes a message, or the health server.
pub data Returned : Type 0 where
  poll_returned reclaim_returned registry_returned job_returned : Returned
  health_returned : Served → Returned

abbrev pub error_of : Returned → Option Error
error_of (health_returned r) = health_start r
error_of _ = none

module _ (E : ErrGroup) where
  abbrev pub all_return : List Returned → E.State → E.State
  all_return [] s = s
  all_return (r ∷ rs) s = all_return rs (E.returns (error_of r) s)

  -- `err != nil && ctx.Err() == nil`, where `ctx` is the context of the group.
  abbrev pub report_if : Option Error → Bool → Option Error
  report_if none is_done = none
  report_if (some e) is_done = if is_done then none else some e

  -- `Start`: the goroutines return in the order of the list.
  unfoldable pub start_worker : Bool → List Returned → Option Error
  unfolding health_start
  start_worker parent_done returned =
      let (r, s) = E.wait (all_return returned (E.with_context parent_done)) in
      report_if r (E.done s)

-- What `registryLoop` receives, and what others do to Redis in between.
pub data Beat (R : Redis) : Type 0 where
  beat_cancelled : Beat R
  -- the ticker, at a Unix time
  beat_tick : ℤ → Beat R
  meanwhile : (R.State → R.State) → Beat R

module _ (R : Redis) where
  -- The loop, from the select on; true if it has returned. An error of a heartbeat is only logged.
  unfoldable pub beat_on : Text → List (Beat R) → R.State → Bool × R.State
  beat_on worker_id [] s = (false, s)
  beat_on worker_id (beat_cancelled ∷ events) s = (true, s)
  beat_on worker_id (beat_tick now ∷ events) s =
      beat_on worker_id events (heartbeat R worker_id now s).1
  beat_on worker_id (meanwhile f ∷ events) s = beat_on worker_id events (f s)

  -- `registryLoop`, at a Unix time.
  unfoldable pub registry_loop : Text → ℤ → List (Beat R) → R.State → Bool × R.State
  unfolding beat_on
  registry_loop worker_id now events s = beat_on worker_id events (heartbeat R worker_id now s).1

-- `DefaultProcessor.Process`: a call for an envelope without data panics in the log line; otherwise
-- the timer fires, or the context is done first, with its error.
unfoldable pub default_process : Option Error → JobEnvelope → Result (Unit {0})
default_process context_error envelope = elim envelope.event [
  | none ↦ err panic
  | some event ↦ elim context_error [ none ↦ ok tt | some e ↦ err (wrap processing_cancelled e) ]
]
