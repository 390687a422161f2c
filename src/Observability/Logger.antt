-- ===== src/Observability/Logger.antt =====
-- The logger of internal/observability/logger.go as a value: the attributes that it puts on every
-- line, and what each call logs.
pub mod Lines
use fluffy_dollop.Base.{
  ℕ, leb, Bool, true, false, ◌&&◌, not, Option, none, some, List, [], ◌∷◌, ◌++◌, if◌then◌else◌,
}
use fluffy_dollop.Base.Int.{ℤ, pos}
use fluffy_dollop.Base.Text.{Text, lit, is_empty}
use fluffy_dollop.Go.Errors.{Error, error_text}
use fluffy_dollop.Config.Types.{Duration, ObservabilityConfig}
use fluffy_dollop.Config.Loader.{Environment}
use fluffy_dollop.Observability.{
  LogLevel, debug, info, warn, error, parse_log_level, LogHandler, select_handler,
}

pub data Value : Type 0 where
  text : Text → Value
  int : ℤ → Value
  duration : Duration → Value

abbrev pub Attr : Type 0
Attr = Text × Value

pub record Logger : Type 0 where
  pub level : LogLevel
  pub handler : LogHandler
  pub attrs : List Attr
  pub service_name : Text

pub record Line : Type 0 where
  pub level : LogLevel
  pub message : Text
  pub attrs : List Attr

-- slog's order of the levels.
abbrev pub rank : LogLevel → ℕ
rank debug = 0
rank info = 1
rank warn = 2
rank error = 3

-- `getEnv`.
unfoldable pub env_or : Environment → Text → Text → Text
env_or env key default_value =
    let value = env key in if is_empty value then default_value else value

unfoldable pub new_logger :
    {Float : Type 0} → Environment → ObservabilityConfig Float → Text → Logger
unfolding parse_log_level select_handler env_or
new_logger env c service_name = record {
  level = parse_log_level c.log_level;
  handler = select_handler c.log_format;
  attrs =
      (lit "service", text service_name)
      ∷ (lit "environment", text (env_or env (lit "ENVIRONMENT") (lit "development")))
      ∷ [];
  service_name = service_name;
}

-- `slog.Logger.With`.
abbrev pub add_attrs : List Attr → Logger → Logger
add_attrs extra l = record l { attrs = l.attrs ++ extra }

-- What a context holds under the three keys, where it is a string.
pub record Context : Type 0 where
  pub request_id : Option Text
  pub trace_id : Option Text
  pub user_id : Option Text

abbrev pub attr_of : Text → Option Text → List Attr
attr_of key none = []
attr_of key (some []) = []
attr_of key (some (c ∷ rest)) = (key, text (c ∷ rest)) ∷ []

unfoldable pub with_context : Context → Logger → Logger
with_context ctx l = add_attrs (attr_of (lit "user_id") ctx.user_id) (
    add_attrs (attr_of (lit "trace_id") ctx.trace_id)
      (add_attrs (attr_of (lit "request_id") ctx.request_id) l))

unfoldable pub with_args : List Attr → Logger → Logger
with_args args l = add_attrs args l

unfoldable pub with_error : Option Error → Logger → Logger
with_error none l = l
with_error (some e) l = add_attrs ((lit "error", text (error_text e)) ∷ []) l

-- The fields in the order in which the map is ranged over.
unfoldable pub with_fields : List Attr → Logger → Logger
with_fields fields l = add_attrs fields l

-- A line is written if its level is not below the logger's.
abbrev pub log_at : LogLevel → Text → List Attr → Logger → Option Line
log_at level message attrs l =
    if leb (rank l.level) (rank level)
    then some (record { level = level; message = message; attrs = l.attrs ++ attrs })
    else none

unfoldable pub log_http_request : Text → Text → ℤ → Duration → ℤ → Logger → Option Line
log_http_request method path status elapsed size = log_at info (lit "http request") (
    (lit "method", text method)
    ∷ (lit "path", text path)
    ∷ (lit "status", int status)
    ∷ (lit "duration", duration elapsed)
    ∷ (lit "size", int size)
    ∷ [])

unfoldable pub log_http_error : Text → Text → ℤ → Error → Logger → Option Line
log_http_error method path status e = log_at error (lit "http error") (
    (lit "method", text method)
    ∷ (lit "path", text path)
    ∷ (lit "status", int status)
    ∷ (lit "error", text (error_text e))
    ∷ [])

unfoldable pub log_queue_enqueue : Text → Text → ℤ → Logger → Option Line
log_queue_enqueue stream message_id payload_size = log_at debug (lit "enqueued message") (
    (lit "stream", text stream)
    ∷ (lit "message_id", text message_id)
    ∷ (lit "payload_size", int payload_size)
    ∷ [])

unfoldable pub log_queue_dequeue : Text → Text → Text → ℤ → Logger → Option Line
log_queue_dequeue stream message_id job_id retry_count = log_at debug (lit "dequeued message") (
    (lit "stream", text stream)
    ∷ (lit "message_id", text message_id)
    ∷ (lit "job_id", text job_id)
    ∷ (lit "retry_count", int retry_count)
    ∷ [])

unfoldable pub log_queue_error : Text → Error → Logger → Option Line
log_queue_error operation e =
    log_at error (lit "queue error")
      ((lit "operation", text operation) ∷ (lit "error", text (error_text e)) ∷ [])

unfoldable pub log_db_query : Text → Duration → ℤ → Logger → Option Line
log_db_query query elapsed rows_affected = log_at debug (lit "db query") (
    (lit "query", text query)
    ∷ (lit "duration", duration elapsed)
    ∷ (lit "rows_affected", int rows_affected)
    ∷ [])

unfoldable pub log_db_error : Text → Error → Logger → Option Line
log_db_error operation e =
    log_at error (lit "db error")
      ((lit "operation", text operation) ∷ (lit "error", text (error_text e)) ∷ [])
