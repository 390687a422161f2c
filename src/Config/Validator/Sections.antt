-- ===== src/Config/Validator/Sections.antt =====
-- Each section's validator decides a declarative description of a usable section.
use fluffy_dollop.Base.{◌≡◌, ◌≢◌, ◌↔◌, inl, inr, true, false, [], arith, Bool-cases, In}
use fluffy_dollop.Base.Int.{ℤ, pos, ◌≤ℤ◌, ◌<ℤ◌}
use fluffy_dollop.Base.Text.{eq_text_iff}
use fluffy_dollop.Go.Float.{Float64}
use fluffy_dollop.Config.Types.{
  ServerConfig, RedisClientConfig, QueueConfig, PostgresClientConfig, WorkerConfig, ThrottlerConfig,
  ObservabilityConfig, RegistryConfig,
}
use fluffy_dollop.Config.Validator.{
  valid_ssl_modes, validate_server, validate_redis, validate_queue, validate_postgres,
  validate_worker, validate_registry, validate_throttler, queue_checks, server_checks, redis_checks,
  postgres_checks, worker_checks, registry_checks, throttler_checks, observability_checks,
  validate_observability, to_lower, valid_log_levels, valid_log_formats,
}
use fluffy_dollop.Config.Validator.Laws.{
  collect-Passes, collect_of_Passes, contains_iff, IsPort, bad_port-IsPort, is_empty_of_IsPort,
  bad_port_of_IsPort,
}

abbrev pub IsPositive : ℤ → Type 0
IsPositive x = pos 0 <ℤ x

pub record IsUsableQueue (c : QueueConfig) : Type 0 where
  pub stream_named : c.base_stream_name ≢ []
  pub group_named : c.base_consumer_group ≢ []
  pub retries : IsPositive c.redis_max_retries
  pub max_len : IsPositive c.max_len
  pub dlq_named : c.dlq_stream_name ≢ []
  pub dlq_max_len : IsPositive c.dlq_max_len
  pub dlq_apart : c.dlq_stream_name ≢ c.base_stream_name
  pub partitions : IsPositive c.partition_count
  pub partition_from : pos 0 ≤ℤ c.partition_id
  pub partition_to : c.partition_id <ℤ c.partition_count

-- The queue section is accepted exactly if it is usable: names are given and the two streams are
-- apart, the limits are positive, and the partition id lies in [0, partition count).
pub validate_queue_iff : (c : QueueConfig) → (validate_queue c ≡ []) ↔ IsUsableQueue c
unfolding validate_queue
validate_queue_iff c = (
  λ h.
      let t = collect-Passes (queue_checks c) h in
      ground (arith, eq_text_iff c.dlq_stream_name c.base_stream_name),
  λ v.
      collect_of_Passes (queue_checks c)
        (ground (arith, eq_text_iff c.dlq_stream_name c.base_stream_name)),
)

pub record IsUsableServer (c : ServerConfig) : Type 0 where
  pub port : IsPort c.port
  pub read_timeout : IsPositive c.read_timeout
  pub write_timeout : IsPositive c.write_timeout
  pub shutdown_timeout : IsPositive c.shutdown_timeout

-- The server section is accepted exactly if its port is a decimal number from 1 to 65535 and its
-- read, write and shutdown timeouts are positive.
pub validate_server_iff : (c : ServerConfig) → (validate_server c ≡ []) ↔ IsUsableServer c
unfolding validate_server
validate_server_iff c = (
  λ h.
      let t = collect-Passes (server_checks c) h in
      record {
        port = bad_port-IsPort c.port t.0 t.1.0;
        read_timeout = ground arith;
        write_timeout = ground arith;
        shutdown_timeout = ground arith;
      },
  λ v.
      collect_of_Passes (server_checks c)
        (ground (arith, is_empty_of_IsPort c.port v.port, bad_port_of_IsPort c.port v.port)),
)

pub record IsUsableRedis (c : RedisClientConfig) : Type 0 where
  pub host_named : c.host ≢ []
  pub port : IsPort c.port
  pub db_from : pos 0 ≤ℤ c.db
  pub db_to : c.db ≤ℤ pos 15
  pub pool : IsPositive c.pool_size

-- The Redis section is accepted exactly if a host is named, the port is a decimal number from 1 to
-- 65535, the database lies in [0, 15], and the pool size is positive.
pub validate_redis_iff : (c : RedisClientConfig) → (validate_redis c ≡ []) ↔ IsUsableRedis c
unfolding validate_redis
validate_redis_iff c = (
  λ h.
      let t = collect-Passes (redis_checks c) h in
      record {
        host_named = ground arith;
        port = bad_port-IsPort c.port t.1.0 t.1.1.0;
        db_from = ground arith;
        db_to = ground arith;
        pool = ground arith;
      },
  λ v.
      collect_of_Passes (redis_checks c)
        (ground (arith, is_empty_of_IsPort c.port v.port, bad_port_of_IsPort c.port v.port)),
)

pub record IsUsablePostgres (c : PostgresClientConfig) : Type 0 where
  pub host_named : c.host ≢ []
  pub port : IsPort c.port
  pub database_named : c.database ≢ []
  pub user_named : c.user ≢ []
  pub ssl_mode_known : In c.ssl_mode valid_ssl_modes
  pub max_conns : IsPositive c.max_conns
  pub min_conns : pos 0 ≤ℤ c.min_conns
  pub conns_ordered : c.min_conns ≤ℤ c.max_conns

-- The Postgres section is accepted exactly if host, database and user are named, the port is a
-- decimal number from 1 to 65535, the SSL mode is one of the four, and the connection limits are
-- in order with a positive maximum.
pub validate_postgres_iff :
    (c : PostgresClientConfig) → (validate_postgres c ≡ []) ↔ IsUsablePostgres c
unfolding validate_postgres
validate_postgres_iff c = (
  λ h.
      let t = collect-Passes (postgres_checks c) h in
      record {
        host_named = ground arith;
        port = bad_port-IsPort c.port t.1.0 t.1.1.0;
        database_named = ground arith;
        user_named = ground arith;
        ssl_mode_known = (contains_iff valid_ssl_modes c.ssl_mode).0 (ground arith);
        max_conns = ground arith;
        min_conns = ground arith;
        conns_ordered = ground arith;
      },
  λ v.
      let known = (contains_iff valid_ssl_modes c.ssl_mode).1 v.ssl_mode_known in
      collect_of_Passes (postgres_checks c)
        (ground (arith, is_empty_of_IsPort c.port v.port, bad_port_of_IsPort c.port v.port)),
)

pub record IsUsableWorker (c : WorkerConfig) : Type 0 where
  pub concurrency_from : pos 1 ≤ℤ c.concurrency
  pub concurrency_to : c.concurrency ≤ℤ pos 1000
  pub poll : IsPositive c.poll_interval
  pub batch : IsPositive c.batch_size
  pub timeout : IsPositive c.processing_timeout
  pub retries : pos 0 ≤ℤ c.job_max_retries
  pub backoff_min : IsPositive c.backoff_min_delay
  pub backoff_ordered : c.backoff_min_delay ≤ℤ c.backoff_max_delay
  pub health_port : c.health_port ≢ []
  pub reclaim_interval : IsPositive c.reclaim_interval
  pub reclaim_ordered : c.reclaim_interval ≤ℤ c.reclaim_idle_time
  pub reclaim_batch : IsPositive c.reclaim_batch_size
  pub dedup_ttl : IsPositive c.dedup_ttl

-- The worker section is accepted exactly if the concurrency lies in [1, 1000], every interval,
-- batch size and time to live is positive, the retries are not negative, the backoff delays are in
-- order, a message is reclaimed no earlier than one reclaim interval, and a health port is given.
pub validate_worker_iff : (c : WorkerConfig) → (validate_worker c ≡ []) ↔ IsUsableWorker c
unfolding validate_worker
validate_worker_iff c = (
  λ h. let t = collect-Passes (worker_checks c) h in ground arith,
  λ v. collect_of_Passes (worker_checks c) (ground arith),
)

pub record IsUsableRegistry (c : RegistryConfig) : Type 0 where
  pub heartbeat : IsPositive c.heartbeat_interval
  pub dead_after_heartbeat : c.heartbeat_interval <ℤ c.dead_threshold
  pub poll : IsPositive c.poll_interval
  pub control_plane_poll : IsPositive c.control_plane_poll
  pub lock_outlives_poll : c.control_plane_poll <ℤ c.lock_ttl

-- The registry section is accepted exactly if its intervals are positive, a worker is dead only
-- after more than one heartbeat interval, and the lock outlives the control plane's poll interval.
pub validate_registry_iff : (c : RegistryConfig) → (validate_registry c ≡ []) ↔ IsUsableRegistry c
unfolding validate_registry
validate_registry_iff c = (
  λ h. let t = collect-Passes (registry_checks c) h in ground arith,
  λ v. collect_of_Passes (registry_checks c) (ground arith),
)

module _ (F : Float64) where
  open F use {Float, of_int, le, lt}

  pub record IsUsableThrottler (c : ThrottlerConfig Float) : Type 0 where
    pub soft_depth : IsPositive c.soft_depth_limit
    pub depth_ordered : c.soft_depth_limit <ℤ c.hard_depth_limit
    pub message_age : IsPositive c.max_message_age
    pub age_ordered : c.max_message_age <ℤ c.critical_message_age
    pub rate_limit_score : le c.rate_limit_score (of_int (pos 0)) ≡ false
    pub scores_ordered : le c.circuit_open_score c.rate_limit_score ≡ false
    pub update_interval : IsPositive c.metrics_update_interval
    pub drain_rate : le c.estimated_drain_rate (of_int (pos 0)) ≡ false
    pub min_retry : IsPositive c.min_retry_after
    pub retry_ordered : c.min_retry_after <ℤ c.max_retry_after

  pub record IsUsableObservability (c : ObservabilityConfig Float) : Type 0 where
    pub level_known : In (to_lower c.log_level) valid_log_levels
    pub format_known : In (to_lower c.log_format) valid_log_formats
    pub metrics_port : c.metrics_enabled ≡ true → IsPort c.metrics_port
    pub sample_rate :
        c.tracing_enabled ≡ true
        → (lt c.tracing_sample_rate (of_int (pos 0)) ≡ false)
          × (lt (of_int (pos 1)) c.tracing_sample_rate ≡ false)
    pub health_check_timeout : IsPositive c.health_check_timeout

  -- The observability section is accepted exactly if the lower case of its level and of its format
  -- is a known word, an enabled metrics endpoint has a port from 1 to 65535, an enabled tracer has
  -- a sample rate that is neither below 0 nor above 1, and the health check timeout is positive.
  pub validate_observability_iff :
      (c : ObservabilityConfig Float) → (validate_observability F c ≡ []) ↔ IsUsableObservability c
  unfolding validate_observability
  validate_observability_iff c = (
    λ h.
        let t = collect-Passes (observability_checks F c) h in
        record {
          level_known = (contains_iff valid_log_levels (to_lower c.log_level)).0 (ground arith);
          format_known = (contains_iff valid_log_formats (to_lower c.log_format)).0 (ground arith);
          metrics_port = λ on. bad_port-IsPort c.metrics_port (ground arith) (ground arith);
          sample_rate = λ on. (ground arith, ground arith);
          health_check_timeout = ground arith;
        },
    λ v.
        let level = (contains_iff valid_log_levels (to_lower c.log_level)).1 v.level_known in
        let format = (contains_iff valid_log_formats (to_lower c.log_format)).1 v.format_known in
        let port = v.metrics_port in
        let rate = v.sample_rate in
        collect_of_Passes (observability_checks F c) (
          ground (
            arith,
            λ (on : c.metrics_enabled ≡ true). is_empty_of_IsPort c.metrics_port (port on),
            λ (on : c.metrics_enabled ≡ true). bad_port_of_IsPort c.metrics_port (port on),
          )),
  )

  -- An enabled throttler section is accepted exactly if it is usable; a disabled one always is
  -- accepted.
  pub validate_throttler_iff :
      (c : ThrottlerConfig Float)
      → (validate_throttler F c ≡ []) ↔ (c.enabled ≡ true → IsUsableThrottler c)
  unfolding validate_throttler
  validate_throttler_iff c = (
    λ h on. let t = collect-Passes (throttler_checks F c) (ground arith) in ground arith,
    λ v. elim (Bool-cases c.enabled) [
      | inl on ↦ let u = v on in rw on (collect_of_Passes (throttler_checks F c) (ground arith))
      | inr off ↦ rw off
    ],
  )
