-- ===== src/Worker/Reclaim.antt =====
-- `tryReclaim` and `reclaimStale` of internal/worker/worker.go.
pub mod Lock
use fluffy_dollop.Base.{Bool, true, false, Option, none, some, List, [], ◌∷◌, ◌++◌, if◌then◌else◌}
use fluffy_dollop.Base.Int.{ℤ}
use fluffy_dollop.Base.Text.{Text, lit}
use fluffy_dollop.Go.Errors.{
  Error, wrap, failed_to_acquire_reclaim_lock, failed_to_reclaim_messages,
}
use fluffy_dollop.Go.Effect.{Result, ok, err}
use fluffy_dollop.Go.Strconv.{format_int}
use fluffy_dollop.Config.Types.{Duration, WorkerConfig}
use fluffy_dollop.Redis.{Redis}
use fluffy_dollop.Queue.Types.{Json}
use fluffy_dollop.Queue.Consumer.{Consumer, reclaim_stale}
use fluffy_dollop.Worker.Pool.{Job}

unfoldable pub reclaim_lock_key : ℤ → Text
reclaim_lock_key partition_id = lit "worker:reclaim:lock:" ++ format_int partition_id

-- The jobs that are handed to goroutines, and the error. After an error of `ReclaimStale` the
-- messages of its earlier pages are not handed on.
abbrev pub handed_on : Option (List Job × Option Error) → Option (List Job × Option Error)
handed_on none = none
handed_on (some (jobs, none)) = some (jobs, none)
handed_on (some (jobs, some e)) = some ([], some (wrap failed_to_reclaim_messages e))

module _ (R : Redis) (J : Json) where
  -- `rounds` is the fuel of `reclaim_stale`.
  unfoldable pub try_reclaim :
      List Bool
      → Consumer
      → WorkerConfig
      → Text
      → ℤ
      → R.State
      → Option (List Job × Option Error) × R.State
  unfolding reclaim_lock_key
  try_reclaim rounds c config worker_id partition_id s =
      let (r, s') = R.set_nx (reclaim_lock_key partition_id) worker_id config.reclaim_interval s in
      let (reclaimed, s'') =
        reclaim_stale R J rounds c config.reclaim_idle_time config.reclaim_batch_size s' in
      elim r [
        | err e ↦ (some ([], some (wrap failed_to_acquire_reclaim_lock e)), s')
        | ok acquired ↦ elim acquired [
          | true ↦ (handed_on reclaimed, s'')
          | false ↦ (some ([], none), s')
        ]
      ]
