-- ===== src/Pipeline.antt =====
-- The ingestion service, the workers and the requeue of dead letters on one Redis, as what they do
-- there one after the other: internal/ingestion/handler.go, internal/worker/worker.go and
-- internal/queue/dlq.go.
pub mod Readable
pub mod Consumed
pub mod Reclaimed
use fluffy_dollop.Base.{Option, List, [], ◌∷◌}
use fluffy_dollop.Base.Int.{ℤ}
use fluffy_dollop.Base.Text.{Text}
use fluffy_dollop.Config.Types.{QueueConfig, Duration}
use fluffy_dollop.Redis.{Redis}
use fluffy_dollop.Models.{Time, LogEvent}
use fluffy_dollop.Queue.Types.{JobEnvelope, Json}
use fluffy_dollop.Queue.Producer.{enqueue}
use fluffy_dollop.Queue.Dlq.{Dlq, requeue}
use fluffy_dollop.Queue.Consumer.{Consumer}
use fluffy_dollop.Ingestion.Throttler.{ThrottleDecision}
use fluffy_dollop.Ingestion.Handler.Answers.{serve}
use fluffy_dollop.Worker.Dedup.{World, Processor, on_redis}
use fluffy_dollop.Worker.Process.{process_message}

-- A request with its body, a message that a consumer's worker handles, or a dead letter that is
-- requeued to a stream with a length limit.
pub data Action : Type 0 where
  request : Text → ℤ → ThrottleDecision × Duration → Option LogEvent → Time → Action
  message : Consumer → JobEnvelope → Text → ℤ → Action
  letter : Text → Text → ℤ → Action

module _ (R : Redis) (J : Json) (q : QueueConfig) (p : Processor R) (d : Dlq) where
  abbrev pub act : Action → World R → World R
  act (request job_id unix decision body now) w = record w {
    redis = (serve (λ event. enqueue R J q event job_id unix) decision body now w.redis).1;
  }
  act (message c envelope id now) w = process_message R J p c envelope id now w
  act (letter id stream max_len) w = (on_redis R (requeue R J d id stream max_len) w).1

  abbrev pub act_all : List Action → World R → World R
  act_all [] w = w
  act_all (a ∷ actions) w = act_all actions (act a w)
