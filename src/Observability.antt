-- ===== src/Observability.antt =====
-- What internal/observability/logger.go makes of the configured level and format.
pub mod Levels
pub mod Logger
use fluffy_dollop.Base.{if◌then◌else◌}
use fluffy_dollop.Base.Text.{Text, lit, eq_text}

pub data LogLevel : Type 0 where
  debug info warn error : LogLevel

unfoldable pub parse_log_level : Text → LogLevel
parse_log_level level =
    if eq_text level (lit "debug")
    then debug
    else (if eq_text level (lit "info")
        then info
        else (if eq_text level (lit "warn")
            then warn
            else (if eq_text level (lit "error") then error else info)))

pub data LogHandler : Type 0 where
  json_handler text_handler : LogHandler

-- The switch of `NewLogger`.
unfoldable pub select_handler : Text → LogHandler
select_handler format =
    if eq_text format (lit "json")
    then json_handler
    else (if eq_text format (lit "text") then text_handler else json_handler)
