-- ===== src/Queue/Message.antt =====
-- internal/queue/message.go.
use fluffy_dollop.Base.{ℕ, true, some, [], ◌∷◌, length}
use fluffy_dollop.Base.Int.{ℤ, pos}
use fluffy_dollop.Base.Text.{Text, lit}
use fluffy_dollop.Go.Errors.{wrap, failed_to_marshal_job_envelope}
use fluffy_dollop.Go.Effect.{Result, ok, err}
use fluffy_dollop.Redis.{XAddArgs}
use fluffy_dollop.Models.{LogEvent}
use fluffy_dollop.Queue.Types.{JobEnvelope, Json}

-- `job_id` is the fresh uuid and `now` the Unix time.
unfoldable pub build_job_envelope : LogEvent → ℤ → Text → ℤ → JobEnvelope
build_job_envelope event max_retries job_id now = record {
  job_id = job_id;
  event = some event;
  enqueued_at = now;
  retry_count = pos 0;
  max_retries = max_retries;
  event_type = lit "log_event";
  last_error = [];
}

-- The arguments of the XADD of one entry with the envelope's JSON.
abbrev pub job_args : Text → ℤ → Text → XAddArgs
job_args stream max_len json = record {
  stream = stream;
  max_len = max_len;
  approx = true;
  id = lit "*";
  values = (lit "job", json) ∷ [];
}

-- The number is the size of the payload.
unfoldable pub build_xadd_args : Json → Text → ℤ → JobEnvelope → Result (XAddArgs × ℕ)
build_xadd_args J stream max_len envelope = elim (J.marshal_envelope envelope) [
  | ok json ↦ ok (job_args stream max_len json, length json)
  | err e ↦ err (wrap failed_to_marshal_job_envelope e)
]
