-- ===== src/Ingestion/Service.antt =====
-- internal/ingestion/service.go.
use fluffy_dollop.Base.{Bool, true, ◌||◌, Option, none, some, if◌then◌else◌}
use fluffy_dollop.Base.Int.{pos}
use fluffy_dollop.Base.Text.{Text, is_empty}
use fluffy_dollop.Go.Errors.{Error}
use fluffy_dollop.Go.Effect.{ok, err, Io}
use fluffy_dollop.Config.Types.{Duration}
use fluffy_dollop.Models.{LogEvent}
use fluffy_dollop.Ingestion.Throttler.{ThrottleDecision, allow, rate_limit, circuit_open}

-- The errors that `IngestLog` returns; a failed enqueue wraps the producer's error, and that is
-- none of the first three.
pub data IngestError : Type 0 where
  err_circuit_open : IngestError
  err_rate_limited : Duration → IngestError
  err_validation_failed : IngestError
  enqueue_failed : Error → IngestError

pub data Ingested : Type 0 where
  accepted : Text → Ingested
  refused : IngestError → Ingested

-- `validateLogEvent`: nil, no level, no message.
unfoldable pub is_invalid : Option LogEvent → Bool
is_invalid none = true
is_invalid (some event) = is_empty event.level || is_empty event.message

-- `Decision` of the throttler that allows everything.
unfoldable pub noop_decision : ThrottleDecision × Duration
noop_decision = (allow, pos 0)

module _ {S : Type 0} (enqueue : LogEvent → Io S Text) where
  abbrev pub enqueue_valid : Option LogEvent → S → Ingested × S
  enqueue_valid none s = (refused err_validation_failed, s)
  enqueue_valid (some event) s =
      let (r, s') = enqueue event s in
      elim r [ ok id ↦ (accepted id, s') | err e ↦ (refused (enqueue_failed e), s') ]

  -- What follows the throttler's decision.
  unfoldable pub ingest_log : ThrottleDecision × Duration → Option LogEvent → S → Ingested × S
  unfolding is_invalid
  ingest_log (circuit_open, retry_after) event s = (refused err_circuit_open, s)
  ingest_log (rate_limit, retry_after) event s = (refused (err_rate_limited retry_after), s)
  ingest_log (allow, retry_after) event s =
      if is_invalid event then (refused err_validation_failed, s) else enqueue_valid event s
