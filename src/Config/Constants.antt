-- ===== src/Config/Constants.antt =====
-- The constants of internal/config/defaults.go.
use fluffy_dollop.Base.{ℕ, ◌*◌, Bool, true, false}
use fluffy_dollop.Base.Int.{ℤ, pos}
use fluffy_dollop.Base.Text.{Text, lit}
use fluffy_dollop.Go.Float.{Float64}
use fluffy_dollop.Config.Types.{Duration}

abbrev pub milliseconds : ℕ → Duration
milliseconds n = pos (n * 1000000)

abbrev pub seconds : ℕ → Duration
seconds n = pos (n * 1000000000)

abbrev pub default_environment : Text
default_environment = lit "development"

-- Ingestion defaults.
abbrev pub default_enable_circuit_breaker : Bool
default_enable_circuit_breaker = true

abbrev pub default_max_queue_depth : ℤ
default_max_queue_depth = pos 1000

-- Throttler defaults.
abbrev pub default_throttler_enabled : Bool
default_throttler_enabled = true

abbrev pub default_throttler_soft_depth_limit : ℤ
default_throttler_soft_depth_limit = pos 100

abbrev pub default_throttler_hard_depth_limit : ℤ
default_throttler_hard_depth_limit = pos 5000

abbrev pub default_throttler_max_message_age : Duration
default_throttler_max_message_age = seconds 30

abbrev pub default_throttler_critical_message_age : Duration
default_throttler_critical_message_age = seconds 60

abbrev pub default_throttler_metrics_update_interval : Duration
default_throttler_metrics_update_interval = milliseconds 500

abbrev pub default_throttler_min_retry_after : Duration
default_throttler_min_retry_after = seconds 1

abbrev pub default_throttler_max_retry_after : Duration
default_throttler_max_retry_after = seconds 30

-- Registry defaults.
abbrev pub default_registry_heartbeat_interval : Duration
default_registry_heartbeat_interval = seconds 10

abbrev pub default_registry_dead_threshold : Duration
default_registry_dead_threshold = seconds 30

abbrev pub default_registry_poll_interval : Duration
default_registry_poll_interval = seconds 15

abbrev pub default_registry_control_plane_poll : Duration
default_registry_control_plane_poll = seconds 15

abbrev pub default_registry_lock_ttl : Duration
default_registry_lock_ttl = seconds 60

-- Worker defaults.
abbrev pub default_worker_concurrency : ℤ
default_worker_concurrency = pos 2

abbrev pub default_worker_poll_interval : Duration
default_worker_poll_interval = milliseconds 100

abbrev pub default_worker_batch_size : ℤ
default_worker_batch_size = pos 10

abbrev pub default_worker_process_timeout : Duration
default_worker_process_timeout = seconds 30

abbrev pub default_worker_max_retries : ℤ
default_worker_max_retries = pos 3

abbrev pub default_worker_backoff_min_delay : Duration
default_worker_backoff_min_delay = milliseconds 500

abbrev pub default_worker_backoff_max_delay : Duration
default_worker_backoff_max_delay = seconds 5

abbrev pub default_worker_health_port : Text
default_worker_health_port = lit "8081"

abbrev pub default_worker_reclaim_interval : Duration
default_worker_reclaim_interval = seconds 30

abbrev pub default_worker_reclaim_idle_time : Duration
default_worker_reclaim_idle_time = seconds 60

abbrev pub default_worker_reclaim_batch_size : ℤ
default_worker_reclaim_batch_size = pos 100

abbrev pub default_worker_dedup_ttl : Duration
default_worker_dedup_ttl = seconds (1 * 3600)

-- Server defaults.
abbrev pub default_server_host : Text
default_server_host = lit "0.0.0.0"

abbrev pub default_server_port : Text
default_server_port = lit "8080"

abbrev pub default_read_timeout : Duration
default_read_timeout = seconds 10

abbrev pub default_write_timeout : Duration
default_write_timeout = seconds 10

abbrev pub default_idle_timeout : Duration
default_idle_timeout = seconds 30

abbrev pub default_shutdown_timeout : Duration
default_shutdown_timeout = seconds 30

-- Redis defaults.
abbrev pub default_redis_host : Text
default_redis_host = lit "localhost"

abbrev pub default_redis_port : Text
default_redis_port = lit "6379"

abbrev pub default_redis_db : ℤ
default_redis_db = pos 0

abbrev pub default_redis_pool_size : ℤ
default_redis_pool_size = pos 10

abbrev pub default_redis_min_idle_conns : ℤ
default_redis_min_idle_conns = pos 5

abbrev pub default_redis_conn_max_idle : Duration
default_redis_conn_max_idle = seconds (5 * 60)

-- Queue defaults.
abbrev pub default_queue_base_stream_name : Text
default_queue_base_stream_name = lit "logs:ingest"

abbrev pub default_queue_base_consumer_group : Text
default_queue_base_consumer_group = lit "log-workers"

abbrev pub default_queue_redis_max_retries : ℤ
default_queue_redis_max_retries = pos 3

abbrev pub default_queue_max_len : ℤ
default_queue_max_len = pos 10000

abbrev pub default_queue_dlq_stream_name : Text
default_queue_dlq_stream_name = lit "logs:dlq"

abbrev pub default_queue_dlq_max_len : ℤ
default_queue_dlq_max_len = pos 1000

abbrev pub default_queue_partition_count : ℤ
default_queue_partition_count = pos 2

abbrev pub default_queue_parition_id : ℤ
default_queue_parition_id = pos 0

-- Postgres defaults.
abbrev pub default_postgres_host : Text
default_postgres_host = lit "localhost"

abbrev pub default_postgres_port : Text
default_postgres_port = lit "5432"

abbrev pub default_postgres_db : Text
default_postgres_db = lit "logdb"

abbrev pub default_postgres_user : Text
default_postgres_user = lit "postgres"

abbrev pub default_postgres_password : Text
default_postgres_password = lit "postgres"

abbrev pub default_postgres_ssl_mode : Text
default_postgres_ssl_mode = lit "disable"

abbrev pub default_postgres_max_conns : ℤ
default_postgres_max_conns = pos 25

abbrev pub default_postgres_min_conns : ℤ
default_postgres_min_conns = pos 5

abbrev pub default_postgres_max_conn_life : Duration
default_postgres_max_conn_life = seconds (1 * 3600)

abbrev pub default_postgres_max_conn_idle : Duration
default_postgres_max_conn_idle = seconds (30 * 60)

-- Observability defaults.
abbrev pub default_log_level : Text
default_log_level = lit "info"

abbrev pub default_log_format : Text
default_log_format = lit "json"

abbrev pub default_metrics_enabled : Bool
default_metrics_enabled = true

abbrev pub default_metrics_port : Text
default_metrics_port = lit "9090"

abbrev pub default_tracing_enabled : Bool
default_tracing_enabled = false

abbrev pub default_health_check_timeout : Duration
default_health_check_timeout = seconds 5

module _ (F : Float64) where
  open F use {Float, of_int, div}

  abbrev pub default_throttler_rate_limit_score : Float
  default_throttler_rate_limit_score = of_int (pos 1)

  abbrev pub default_throttler_circuit_open_score : Float
  default_throttler_circuit_open_score = div (of_int (pos 3)) (of_int (pos 2))

  abbrev pub default_throttler_estimated_drain_rate : Float
  default_throttler_estimated_drain_rate = of_int (pos 100)

  abbrev pub default_tracing_sample_rate : Float
  default_tracing_sample_rate = div (of_int (pos 1)) (of_int (pos 10))
