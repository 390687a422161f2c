-- ===== src/Config/Validator.antt =====
-- internal/config/validator.go. A section's validator returns the messages in order; the error of
-- `combineErrors` is nil exactly if there are none.
pub mod Laws
pub mod Sections
pub mod Whole
use fluffy_dollop.Base.{
  ℕ, ◌+◌, Bool, true, false, not, ◌&&◌, ◌||◌, Option, none, some, List, [], ◌∷◌, ◌++◌, ltb, leb,
  ◌==◌, if◌then◌else◌,
}
use fluffy_dollop.Base.Int.{ℤ, pos, ltb_ℤ, leb_ℤ}
use fluffy_dollop.Base.Text.{Text, lit, eq_text, is_empty}
use fluffy_dollop.Go.Strconv.{parse_int}
use fluffy_dollop.Go.Float.{Float64}
use fluffy_dollop.Config.Types.{
  Config, ServerConfig, RedisClientConfig, QueueConfig, PostgresClientConfig, WorkerConfig,
  IngestionConfig, ObservabilityConfig, ThrottlerConfig, RegistryConfig,
}
use fluffy_dollop.Config.Issue.{Issue, Issues, Section, collect}
use fluffy_dollop.Config.Issue

-- `x <= 0`.
abbrev pub not_positive : ℤ → Bool
not_positive x = leb_ℤ x (pos 0)

abbrev pub is_negative : ℤ → Bool
is_negative x = ltb_ℤ x (pos 0)

unfoldable pub contains : List Text → Text → Bool
contains [] item = false
contains (s ∷ rest) item = eq_text s item || contains rest item

-- `port, err := strconv.Atoi(p); err != nil || port < 1 || port > 65535`.
abbrev pub outside_ports : Option ℤ → Bool
outside_ports none = true
outside_ports (some port) = ltb_ℤ port (pos 1) || ltb_ℤ (pos 65535) port

unfoldable pub bad_port : Text → Bool
bad_port port = outside_ports (parse_int port)

-- strings.ToLower, as far as the words that the result is compared with tell: all of them are
-- ASCII, and U+0130 is the one other letter whose lower case stands in any of them.
abbrev pub lower_byte : ℕ → ℕ
lower_byte c = if leb b'A' c && leb c b'Z' then c + 32 else c

unfoldable pub to_lower : Text → Text
to_lower [] = []
to_lower (c ∷ []) = lower_byte c ∷ []
to_lower (c ∷ d ∷ s) =
    let dotted = b'i' ∷ to_lower s in
    let plain = lower_byte c ∷ to_lower (d ∷ s) in
    if (c == 0xc4) && (d == 0xb0) then dotted else plain

abbrev pub server_checks : ServerConfig → List (Bool × Issue)
server_checks c =
    (is_empty c.port, Issue.port_required)
    ∷ (not (is_empty c.port) && bad_port c.port, Issue.port_out_of_range c.port)
    ∷ (not_positive c.read_timeout, Issue.read_timeout_not_positive)
    ∷ (not_positive c.write_timeout, Issue.write_timeout_not_positive)
    ∷ (not_positive c.shutdown_timeout, Issue.shutdown_timeout_not_positive)
    ∷ []

unfoldable pub validate_server : ServerConfig → Issues
unfolding collect
validate_server c = collect (server_checks c)

abbrev pub redis_checks : RedisClientConfig → List (Bool × Issue)
redis_checks c =
    (is_empty c.host, Issue.host_required)
    ∷ (is_empty c.port, Issue.port_required)
    ∷ (not (is_empty c.port) && bad_port c.port, Issue.port_out_of_range c.port)
    ∷ (is_negative c.db || ltb_ℤ (pos 15) c.db, Issue.db_out_of_range c.db)
    ∷ (not_positive c.pool_size, Issue.pool_size_not_positive)
    ∷ []

unfoldable pub validate_redis : RedisClientConfig → Issues
unfolding collect
validate_redis c = collect (redis_checks c)

abbrev pub queue_checks : QueueConfig → List (Bool × Issue)
queue_checks c =
    (is_empty c.base_stream_name, Issue.stream_name_required)
    ∷ (is_empty c.base_consumer_group, Issue.consumer_group_required)
    ∷ (not_positive c.redis_max_retries, Issue.max_retries_not_positive)
    ∷ (not_positive c.max_len, Issue.max_len_not_positive)
    ∷ (is_empty c.dlq_stream_name, Issue.dlq_stream_name_required)
    ∷ (not_positive c.dlq_max_len, Issue.dlq_max_len_not_positive)
    ∷ (eq_text c.dlq_stream_name c.base_stream_name, Issue.dlq_stream_is_main_stream)
    ∷ (not_positive c.partition_count, Issue.partition_count_not_positive)
    ∷ (
      is_negative c.partition_id || leb_ℤ c.partition_count c.partition_id,
      Issue.partition_id_out_of_range c.partition_id c.partition_count,
    )
    ∷ []

unfoldable pub validate_queue : QueueConfig → Issues
unfolding collect
validate_queue c = collect (queue_checks c)

abbrev pub valid_ssl_modes : List Text
valid_ssl_modes = lit "disable" ∷ lit "require" ∷ lit "verify-ca" ∷ lit "verify-full" ∷ []

abbrev pub postgres_checks : PostgresClientConfig → List (Bool × Issue)
postgres_checks c =
    (is_empty c.host, Issue.host_required)
    ∷ (is_empty c.port, Issue.port_required)
    ∷ (not (is_empty c.port) && bad_port c.port, Issue.port_out_of_range c.port)
    ∷ (is_empty c.database, Issue.database_required)
    ∷ (is_empty c.user, Issue.user_required)
    ∷ (not (contains valid_ssl_modes c.ssl_mode), Issue.ssl_mode_unknown c.ssl_mode)
    ∷ (not_positive c.max_conns, Issue.max_conns_not_positive)
    ∷ (is_negative c.min_conns, Issue.min_conns_negative)
    ∷ (ltb_ℤ c.max_conns c.min_conns, Issue.min_conns_above_max c.min_conns c.max_conns)
    ∷ []

unfoldable pub validate_postgres : PostgresClientConfig → Issues
unfolding collect
validate_postgres c = collect (postgres_checks c)

abbrev pub worker_checks : WorkerConfig → List (Bool × Issue)
worker_checks c =
    (not_positive c.concurrency, Issue.concurrency_not_positive)
    ∷ (
      not (not_positive c.concurrency) && ltb_ℤ (pos 1000) c.concurrency,
      Issue.concurrency_above_limit c.concurrency,
    )
    ∷ (not_positive c.poll_interval, Issue.poll_interval_not_positive)
    ∷ (not_positive c.batch_size, Issue.batch_size_not_positive)
    ∷ (not_positive c.processing_timeout, Issue.processing_timeout_not_positive)
    ∷ (is_negative c.job_max_retries, Issue.max_retries_negative)
    ∷ (not_positive c.backoff_min_delay, Issue.backoff_min_not_positive)
    ∷ (not_positive c.backoff_max_delay, Issue.backoff_max_not_positive)
    ∷ (
      ltb_ℤ c.backoff_max_delay c.backoff_min_delay,
      Issue.backoff_min_above_max c.backoff_min_delay c.backoff_max_delay,
    )
    ∷ (is_empty c.health_port, Issue.health_port_required)
    ∷ (not_positive c.reclaim_interval, Issue.reclaim_interval_not_positive)
    ∷ (not_positive c.reclaim_idle_time, Issue.reclaim_idle_not_positive)
    ∷ (
      ltb_ℤ c.reclaim_idle_time c.reclaim_interval,
      Issue.reclaim_idle_below_interval c.reclaim_idle_time c.reclaim_interval,
    )
    ∷ (not_positive c.reclaim_batch_size, Issue.reclaim_batch_not_positive)
    ∷ (not_positive c.dedup_ttl, Issue.dedup_ttl_not_positive)
    ∷ []

unfoldable pub validate_worker : WorkerConfig → Issues
unfolding collect
validate_worker c = collect (worker_checks c)

abbrev pub registry_checks : RegistryConfig → List (Bool × Issue)
registry_checks c =
    (not_positive c.heartbeat_interval, Issue.heartbeat_not_positive)
    ∷ (leb_ℤ c.dead_threshold c.heartbeat_interval, Issue.dead_threshold_not_above_heartbeat)
    ∷ (not_positive c.poll_interval, Issue.registry_poll_not_positive)
    ∷ (not_positive c.control_plane_poll, Issue.control_plane_poll_not_positive)
    ∷ (leb_ℤ c.lock_ttl c.control_plane_poll, Issue.lock_ttl_not_above_poll)
    ∷ []

unfoldable pub validate_registry : RegistryConfig → Issues
unfolding collect
validate_registry c = collect (registry_checks c)

abbrev pub valid_log_levels : List Text
valid_log_levels = lit "debug" ∷ lit "info" ∷ lit "warn" ∷ lit "error" ∷ []

abbrev pub valid_log_formats : List Text
valid_log_formats = lit "json" ∷ lit "text" ∷ []

module _ (F : Float64) where
  open F use {Float, of_int, le, lt}

  unfoldable pub validate_ingestion : IngestionConfig Float → Issues
  unfolding collect
  validate_ingestion c =
      collect ((is_negative c.max_queue_depth, Issue.max_queue_depth_negative) ∷ [])

  abbrev pub observability_checks : ObservabilityConfig Float → List (Bool × Issue)
  observability_checks c =
      (not (contains valid_log_levels (to_lower c.log_level)), Issue.log_level_unknown c.log_level)
      ∷ (
        not (contains valid_log_formats (to_lower c.log_format)),
        Issue.log_format_unknown c.log_format,
      )
      ∷ (c.metrics_enabled && is_empty c.metrics_port, Issue.metrics_port_required)
      ∷ (
        c.metrics_enabled && (not (is_empty c.metrics_port) && bad_port c.metrics_port),
        Issue.metrics_port_out_of_range c.metrics_port,
      )
      ∷ (
        c.tracing_enabled
            && (lt c.tracing_sample_rate (of_int (pos 0))
                || lt (of_int (pos 1)) c.tracing_sample_rate),
        Issue.sample_rate_out_of_range,
      )
      ∷ (not_positive c.health_check_timeout, Issue.health_check_timeout_not_positive)
      ∷ []

  unfoldable pub validate_observability : ObservabilityConfig Float → Issues
  unfolding collect
  validate_observability c = collect (observability_checks c)

  -- The tests of `validateThrottler` behind its early return.
  abbrev pub throttler_checks : ThrottlerConfig Float → List (Bool × Issue)
  throttler_checks c =
      (not_positive c.soft_depth_limit, Issue.soft_depth_not_positive)
      ∷ (not_positive c.hard_depth_limit, Issue.hard_depth_not_positive)
      ∷ (leb_ℤ c.hard_depth_limit c.soft_depth_limit, Issue.hard_depth_not_above_soft)
      ∷ (not_positive c.max_message_age, Issue.max_message_age_not_positive)
      ∷ (leb_ℤ c.critical_message_age c.max_message_age, Issue.critical_age_not_above_max)
      ∷ (le c.rate_limit_score (of_int (pos 0)), Issue.rate_limit_score_not_positive)
      ∷ (le c.circuit_open_score c.rate_limit_score, Issue.circuit_score_not_above_rate_limit)
      ∷ (not_positive c.metrics_update_interval, Issue.update_interval_not_positive)
      ∷ (le c.estimated_drain_rate (of_int (pos 0)), Issue.drain_rate_not_positive)
      ∷ (not_positive c.min_retry_after, Issue.min_retry_after_not_positive)
      ∷ (leb_ℤ c.max_retry_after c.min_retry_after, Issue.max_retry_after_not_above_min)
      ∷ []

  unfoldable pub validate_throttler : ThrottlerConfig Float → Issues
  unfolding collect
  validate_throttler c = if c.enabled then collect (throttler_checks c) else []

  -- `if err := validateX(..); err != nil { errs = append(errs, ..) }`.
  unfoldable pub report : Section → Issues → List (Section × Issues) → List (Section × Issues)
  report s [] errs = errs
  report s (i ∷ is) errs = (s, i ∷ is) ∷ errs

  -- `Validate`: the sections with errors, in order; the error is nil if there are none. The
  -- throttler that it checks is the one inside the ingestion section.
  unfoldable pub validate : Config Float → List (Section × Issues)
  unfolding report
  validate c = report Section.server (validate_server c.server) (
      report Section.redis (validate_redis c.redis) (
        report Section.queue (validate_queue c.queue) (
          report Section.postgres (validate_postgres c.postgres) (
            report Section.ingestion (validate_ingestion c.ingestion) (
              report Section.worker (validate_worker c.worker) (
                report Section.observability (validate_observability c.observability) (
                  report Section.throttler (validate_throttler c.ingestion.throttler)
                    (report Section.registry (validate_registry c.registry) []))))))))
