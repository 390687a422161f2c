-- ===== src/Worker/Process.antt =====
-- `processMessage` of internal/worker/worker.go: process, then ack, or retry on failure.
pub mod AtLeastOnce
pub mod Redelivery
pub mod Batch
use fluffy_dollop.Base.Int.{ℤ}
use fluffy_dollop.Base.Text.{Text}
use fluffy_dollop.Go.Effect.{Result, ok, err, Io}
use fluffy_dollop.Redis.{Redis}
use fluffy_dollop.Queue.Types.{JobEnvelope, Json}
use fluffy_dollop.Queue.Consumer.{Consumer, ack, retry}
use fluffy_dollop.Worker.Dedup.{World, Processor, on_redis}

module _ (R : Redis) (J : Json) where
  -- Errors of `Retry` and `Ack` are only logged. The timeout of the job's context is the
  -- processor's: a processor that runs into it returns an error. `now` is the Unix time of a retry.
  unfoldable pub process_message :
      Processor R → Consumer → JobEnvelope → Text → ℤ → World R → World R
  process_message processor c envelope id now w =
      let (r, w') = processor envelope w in
      elim r [
        | err e ↦ (on_redis R (retry R J c envelope id e now) w').1
        | ok _ ↦ (on_redis R (ack R J c id) w').1
      ]
