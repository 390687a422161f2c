-- ===== src/Ingestion/Handler/EndToEnd.antt =====
-- From the request to the entry in Redis: the handler on the service on the producer.
use fluffy_dollop.Base.{Option}
use fluffy_dollop.Base.Int.{ℤ}
use fluffy_dollop.Base.Text.{Text}
use fluffy_dollop.Config.Types.{QueueConfig, Duration}
use fluffy_dollop.Redis.{Redis}
use fluffy_dollop.Redis.Laws.{QueueLaws}
use fluffy_dollop.Models.{Time, LogEvent}
use fluffy_dollop.Queue.Types.{Json}
use fluffy_dollop.Queue.Producer.{enqueue}
use fluffy_dollop.Ingestion.Throttler.{ThrottleDecision}
use fluffy_dollop.Ingestion.Handler.{Response}
use fluffy_dollop.Ingestion.Handler.Answers.{serve}

module _ (R : Redis) (J : Json) (L : QueueLaws R) where
  open R use {State}

  -- The endpoint on the Redis producer. The job gets the id and the Unix time that are given.
  abbrev pub serve_redis :
      QueueConfig
      → Text
      → ℤ
      → ThrottleDecision × Duration
      → Option LogEvent
      → Time
      → State
      → Response × State
  serve_redis c job_id unix decision body now s =
      serve (λ event. enqueue R J c event job_id unix) decision body now s
