-- ===== src/Commands.antt =====
-- cmd/worker/main.go and cmd/control_plane/main.go: the order of the startup, and how a command
-- ends. The result of config.Load, the host name, the process id, and the clock are arguments.
pub mod Lifecycle
use fluffy_dollop.Base.{ℕ, Bool, true, false, Option, none, some, List, [], ◌++◌, ◌⊎◌, inl, inr}
use fluffy_dollop.Base.Int.{ℤ}
use fluffy_dollop.Base.Text.{Text, lit}
use fluffy_dollop.Go.Errors.{
  Error, wrap, failed_to_setup_partitions, failed_to_register_worker, failed_to_connect_to_redis,
  worker_failed, control_plane_exited,
}
use fluffy_dollop.Go.Effect.{Result, ok, err, Io, pure, ◌>>◌, wrapping}
use fluffy_dollop.Go.Group.{ErrGroup}
use fluffy_dollop.Go.Strconv.{format_int}
use fluffy_dollop.Models.{Time}
use fluffy_dollop.Config.Types.{Config}
use fluffy_dollop.Config.Issue.{Section, Issues}
use fluffy_dollop.Redis.{Redis}
use fluffy_dollop.Bootstrap.{setup_partitions, setup_consumer, setup_dlq}
use fluffy_dollop.Bootstrap.Connect.{setup_redis}
use fluffy_dollop.Registry.{register, deregister}
use fluffy_dollop.Registry.ControlPlane.{Event, Outcome, going, stopped, failed, Watch, start}
use fluffy_dollop.Worker.Poll.{Worker, new_worker}
use fluffy_dollop.Worker.Start.{Returned, start_worker}

-- How `run` returns: nil, an error, or the error of a configuration that the validator refuses.
pub data Exit : Type 0 where
  completed : Exit
  exited : Error → Exit
  config_refused : List (Section × Issues) → Exit

-- `main`: os.Exit(1) on an error.
unfoldable pub exit_code : Exit → ℕ
exit_code completed = 0
exit_code _ = 1

-- `fmt.Sprintf("worker-%s-%d", hostname, os.Getpid())`.
unfoldable pub worker_id_of : Text → ℤ → Text
worker_id_of hostname pid = lit "worker-" ++ (hostname ++ (lit "-" ++ format_int pid))

-- `NewControlPlane`: the id of the instance.
unfoldable pub control_plane_id : Text → ℤ → Text
control_plane_id hostname pid = lit "controlplane-" ++ (hostname ++ (lit "-" ++ format_int pid))

-- The error that the worker's `run` returns for what `Start` returned.
abbrev pub worker_exit : Option Error → Exit
worker_exit none = completed
worker_exit (some e) = exited (wrap worker_failed e)

-- The end of the control plane's `run`, or that it goes on.
abbrev pub control_plane_exit : Outcome → Option Exit
control_plane_exit going = none
control_plane_exit stopped = some completed
control_plane_exit (failed e) = some (exited (wrap control_plane_exited e))

-- What the worker's `run` wires after the startup.
unfoldable pub wired : {Float : Type 0} → Config Float → Text → Worker
unfolding new_worker setup_consumer setup_dlq
wired c worker_id =
    new_worker (setup_consumer c.queue (some (setup_dlq c.queue)) worker_id) c.worker c.registry
      c.queue.partition_id worker_id

module _ {Float : Type 0} (R : Redis) where
  open R use {State}

  -- The worker up to the registration.
  unfoldable pub start_up : Config Float → Text → ℤ → Io State (Unit {0})
  start_up c worker_id now = do
    setup_redis R
    wrapping failed_to_setup_partitions (setup_partitions R c.queue)
    wrapping failed_to_register_worker (register R worker_id now)

  -- `run` of the worker. `work` is what the goroutines of `Start` do: the order in which they
  -- return, and the state when all have; `interrupted` says whether a signal came before.
  unfoldable pub run_worker :
      ErrGroup
      → (Worker → State → List Returned × State)
      → Bool
      → Config Float ⊎ List (Section × Issues)
      → Text
      → ℤ
      → State
      → Exit × State
  unfolding start_up wired
  run_worker E work interrupted (inr issues) worker_id now s = (config_refused issues, s)
  run_worker E work interrupted (inl c) worker_id now s =
      let (r, s') = start_up c worker_id now s in
      let (returned, s'') = work (wired c worker_id) s' in
      elim r [
        | err e ↦ (exited e, s')
        | ok _ ↦ (worker_exit (start_worker E interrupted returned), (deregister R worker_id s'').1)
      ]

  unfoldable pub run_control_plane :
      Config Float ⊎ List (Section × Issues)
      → Text
      → Time
      → List (Event R)
      → State
      → Option Exit × State
  unfolding start
  run_control_plane (inr issues) id now events s = (some (config_refused issues), s)
  run_control_plane (inl c) id now events s =
      let (r, s') = wrapping failed_to_connect_to_redis (setup_redis R) s in
      let (outcome, w) = start R c.registry id now events (record { redis = s'; reports = [] }) in
      elim r [ err e ↦ (some (exited e), s') | ok _ ↦ (control_plane_exit outcome, w.redis) ]
