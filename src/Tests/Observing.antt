-- ===== src/Tests/Observing.antt =====
-- A line of the logger.
use fluffy_dollop.Base.{◌≡◌, none, some, List, [], ◌∷◌, if◌then◌else◌, ◌++◌}
use fluffy_dollop.Base.Text.{lit, eq_text}
use fluffy_dollop.Go.Errors.{redis_nil}
use fluffy_dollop.Config.Types.{ObservabilityConfig}
use fluffy_dollop.Config.Defaults.{default_observability}
use fluffy_dollop.Config.Loader.{Environment}
use fluffy_dollop.Observability.{error}
use fluffy_dollop.Observability.Logger.{text, env_or, new_logger, log_queue_error}
use fluffy_dollop.Observability.Logger.Lines.{
  Derivation, by_context, by_args, derive, added, error_attrs, log_queue_error-derived,
}
use fluffy_dollop.Tests.Samples.{thousandths}

abbrev production : Environment
production name = if eq_text name (lit "ENVIRONMENT") then lit "production" else []

abbrev quiet : ObservabilityConfig thousandths.Float
quiet = record (default_observability thousandths) { log_level = lit "error" }

abbrev derivations : List Derivation
derivations =
    by_context (record { request_id = some (lit "r1"); trace_id = some []; user_id = none })
    ∷ by_args ((lit "stream", text (lit "logs")) ∷ [])
    ∷ []

log_queue_error-derived_example :
    log_queue_error
      (lit "enqueue")
      redis_nil
      (derive derivations (new_logger production quiet (lit "ingestion-service")))
    ≡ some (record {
      level = error;
      message = lit "queue error";
      attrs =
          (lit "service", text (lit "ingestion-service"))
          ∷ (lit "environment", text (env_or production (lit "ENVIRONMENT") (lit "development")))
          ∷ (added derivations ++ error_attrs (lit "enqueue") redis_nil);
    })
log_queue_error-derived_example =
    log_queue_error-derived production quiet (lit "ingestion-service") (lit "enqueue") redis_nil
      derivations
