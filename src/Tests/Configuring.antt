-- ===== src/Tests/Configuring.antt =====
-- Runs of the validator, of the partition wiring and of the health endpoint.
use fluffy_dollop.Base.{
  ◌≡◌, refl, ◌≢◌, ◌↔◌, ◌⊎◌, inl, inr, Bool, true, false, Option, none, some, List, [], ◌∷◌, All, ℕ,
  if◌then◌else◌, In, ◌<◌,
}
use fluffy_dollop.Base.Int.{pos}
use fluffy_dollop.Base.Text.{Text, lit, eq_text}
use fluffy_dollop.Config.Defaults.{default_worker, get_defaults}
use fluffy_dollop.Config.Validator.{
  validate_queue, validate_server, validate_redis, validate_worker, validate_registry,
  validate_throttler, validate, contains, to_lower, valid_log_levels,
}
use fluffy_dollop.Config.Validator.Whole.{IsUsable, validate_iff}
use fluffy_dollop.Config.Types.{Config}
use fluffy_dollop.Config.Loader.{Environment, Parsers, load}
use fluffy_dollop.Config.Loader.Unread.{load-IsUsable}
use fluffy_dollop.Observability.{parse_log_level}
use fluffy_dollop.Observability.Levels.{level_name, parse_log_level-accepted}
use fluffy_dollop.Tests.Samples.{thousandths}

validate_iff_example :
    (validate thousandths (get_defaults thousandths) ≡ [])
    ↔ IsUsable thousandths (get_defaults thousandths)
validate_iff_example = validate_iff thousandths (get_defaults thousandths)

abbrev no_parsers : Parsers ℕ
no_parsers = record { parse_float = λ s. none; parse_duration = λ s. none }

-- One variable is set.
abbrev four_jobs : Environment
four_jobs name = if eq_text name (lit "WORKER_CONCURRENCY") then lit "4" else []

abbrev loaded : Config ℕ
loaded = record (get_defaults thousandths) {
  worker = record default_worker { concurrency = pos 4 };
}

loaded_four : load thousandths no_parsers four_jobs ≡ inl loaded
unfolding load validate validate_server eq_text get_defaults fluffy_dollop.Config.Validator.bad_port
    fluffy_dollop.Go.Strconv.parse_int validate_redis validate_queue
    fluffy_dollop.Config.Validator.validate_postgres fluffy_dollop.Config.Validator.contains
    fluffy_dollop.Config.Validator.validate_ingestion validate_worker
    fluffy_dollop.Config.Validator.validate_observability fluffy_dollop.Config.Validator.to_lower
    validate_throttler validate_registry
loaded_four = refl

load-IsUsable_example : IsUsable thousandths loaded
load-IsUsable_example = load-IsUsable thousandths no_parsers four_jobs loaded loaded_four

upper_accepted : contains valid_log_levels (to_lower (lit "DEBUG")) ≡ true
unfolding contains eq_text to_lower
upper_accepted = refl

parse_log_level-accepted_example :
    (level_name (parse_log_level (lit "DEBUG")) ≡ to_lower (lit "DEBUG"))
    ↔ ((to_lower (lit "DEBUG") ≡ lit "DEBUG") ⊎ (to_lower (lit "DEBUG") ≡ lit "info"))
parse_log_level-accepted_example = parse_log_level-accepted (lit "DEBUG") upper_accepted
