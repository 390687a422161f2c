-- ===== src/Ingestion/Handler.antt =====
-- internal/ingestion/handler.go and response.go. The JSON decoder's result is an argument of the
-- handler, as are the clock and the call of the service.
pub mod Answers
pub mod EndToEnd
use fluffy_dollop.Base.{
  ℕ, Bool, true, false, Option, none, some, List, [], ◌∷◌, ◌++◌, if◌then◌else◌, ◌==◌, ◌+◌, ◌-◌, ◌*◌,
}
use fluffy_dollop.Base.Int.{ℤ, eq_ℤ, pos, negsuc, pos_part, neg_part, quot_ℤ}
use fluffy_dollop.Base.Text.{Text, lit}
use fluffy_dollop.Go.Strconv.{format_int}
use fluffy_dollop.Models.{Time, LogEvent}
use fluffy_dollop.Ingestion.Service.{
  IngestError, err_circuit_open, err_rate_limited, err_validation_failed, enqueue_failed, Ingested,
  accepted, refused,
}

pub data Body : Type 0 where
  ingest_response : Bool → Text → Body
  error_response : Text → Body

pub record Response : Type 0 where
  pub status : ℕ
  pub retry_after : Option Text
  pub body : Body

-- `respondError` and `respondJSON`, with the headers that the handler has set.
abbrev pub respond_error : Option Text → ℕ → Text → Response
respond_error header status message = record {
  status = status;
  retry_after = header;
  body = error_response message;
}

-- `int(d.Seconds())`: exact where the float64 of the seconds does not round up to the next one,
-- which needs a delay of months.
abbrev pub whole_seconds : ℤ → ℤ
whole_seconds d = quot_ℤ d 1000000000

unfoldable pub respond_ingest_error : IngestError → Response
respond_ingest_error (err_rate_limited d) =
    respond_error (some (format_int (whole_seconds d))) 429
      (lit "rate limited - retry after " ++ (format_int (whole_seconds d) ++ lit " seconds"))
respond_ingest_error err_circuit_open =
    respond_error none 503 (lit "system overloaded - try again later")
respond_ingest_error err_validation_failed = respond_error none 400 (lit "invalid log event")
respond_ingest_error (enqueue_failed e) = respond_error none 500 (lit "failed to process log")

abbrev pub respond_accepted : Text → Response
respond_accepted id = record { status = 202; retry_after = none; body = ingest_response true id }

unfoldable pub respond_ingested : Ingested → Response
unfolding respond_ingest_error
respond_ingested (accepted id) = respond_accepted id
respond_ingested (refused e) = respond_ingest_error e

-- The zero time.Time, 1 January of year 1.
abbrev pub zero_time : Time
zero_time = negsuc (62135596800 * 1000000000 - 1)

-- `if logEvent.Timestamp.IsZero() { logEvent.Timestamp = time.Now() }`.
unfoldable pub stamp : Time → LogEvent → LogEvent
stamp now event = if eq_ℤ event.timestamp zero_time then record event { timestamp = now } else event

abbrev pub test_event : Time → LogEvent
test_event now = record {
  timestamp = now;
  level = lit "INFO";
  service = lit "test-service";
  message = lit "Hardcoded test log event from ingestion";
  metadata = (lit "force_failure", lit "true") ∷ [];
  trace_id = lit "trace-test-456";
}

module _ {S : Type 0} (ingest : Option LogEvent → S → Ingested × S) where
  unfoldable pub handle_logs : Option LogEvent → Time → S → Response × S
  unfolding stamp respond_ingested
  handle_logs none now s = (respond_error none 400 (lit "invalid request body"), s)
  handle_logs (some event) now s =
      let (r, s') = ingest (some (stamp now event)) s in (respond_ingested r, s')

  unfoldable pub handle_test_failure : Time → S → Response × S
  handle_test_failure now s =
      let (r, s') = ingest (some (test_event now)) s in
      elim r [
        | accepted id ↦ (respond_accepted id, s')
        | refused e ↦ (respond_error none 500 (lit "failed to ingest log"), s')
      ]
