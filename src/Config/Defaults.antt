-- ===== src/Config/Defaults.antt =====
-- internal/config/defaults.go.
use fluffy_dollop.Base.{[]}
use fluffy_dollop.Go.Float.{Float64}
use fluffy_dollop.Config.Constants.{
  default_enable_circuit_breaker, default_environment, default_health_check_timeout,
  default_idle_timeout, default_log_format, default_log_level, default_max_queue_depth,
  default_metrics_enabled, default_metrics_port, default_postgres_db, default_postgres_host,
  default_postgres_max_conn_idle, default_postgres_max_conn_life, default_postgres_max_conns,
  default_postgres_min_conns, default_postgres_password, default_postgres_port,
  default_postgres_ssl_mode, default_postgres_user, default_queue_base_consumer_group,
  default_queue_base_stream_name, default_queue_dlq_max_len, default_queue_dlq_stream_name,
  default_queue_max_len, default_queue_parition_id, default_queue_partition_count,
  default_queue_redis_max_retries, default_read_timeout, default_redis_conn_max_idle,
  default_redis_db, default_redis_host, default_redis_min_idle_conns, default_redis_pool_size,
  default_redis_port, default_registry_control_plane_poll, default_registry_dead_threshold,
  default_registry_heartbeat_interval, default_registry_lock_ttl, default_registry_poll_interval,
  default_server_host, default_server_port, default_shutdown_timeout,
  default_throttler_circuit_open_score, default_throttler_critical_message_age,
  default_throttler_enabled, default_throttler_estimated_drain_rate,
  default_throttler_hard_depth_limit, default_throttler_max_message_age,
  default_throttler_max_retry_after, default_throttler_metrics_update_interval,
  default_throttler_min_retry_after, default_throttler_rate_limit_score,
  default_throttler_soft_depth_limit, default_tracing_enabled, default_tracing_sample_rate,
  default_worker_backoff_max_delay, default_worker_backoff_min_delay, default_worker_batch_size,
  default_worker_concurrency, default_worker_dedup_ttl, default_worker_health_port,
  default_worker_max_retries, default_worker_poll_interval, default_worker_process_timeout,
  default_worker_reclaim_idle_time, default_worker_reclaim_interval, default_write_timeout,
}
use fluffy_dollop.Config.Types.{
  Config, ServerConfig, RedisClientConfig, QueueConfig, PostgresClientConfig, WorkerConfig,
  IngestionConfig, ObservabilityConfig, ThrottlerConfig, RegistryConfig,
}

unfoldable pub default_server : ServerConfig
default_server = record {
  host = default_server_host;
  port = default_server_port;
  read_timeout = default_read_timeout;
  write_timeout = default_write_timeout;
  idle_timeout = default_idle_timeout;
  shutdown_timeout = default_shutdown_timeout;
}

unfoldable pub default_redis : RedisClientConfig
default_redis = record {
  host = default_redis_host;
  port = default_redis_port;
  password = [];
  db = default_redis_db;
  pool_size = default_redis_pool_size;
  min_idle_conns = default_redis_min_idle_conns;
  conn_max_idle_time = default_redis_conn_max_idle;
}

unfoldable pub default_queue : QueueConfig
default_queue = record {
  base_stream_name = default_queue_base_stream_name;
  base_consumer_group = default_queue_base_consumer_group;
  redis_max_retries = default_queue_redis_max_retries;
  max_len = default_queue_max_len;
  dlq_stream_name = default_queue_dlq_stream_name;
  dlq_max_len = default_queue_dlq_max_len;
  partition_count = default_queue_partition_count;
  partition_id = default_queue_parition_id;
}

unfoldable pub default_postgres : PostgresClientConfig
default_postgres = record {
  host = default_postgres_host;
  port = default_postgres_port;
  database = default_postgres_db;
  user = default_postgres_user;
  password = default_postgres_password;
  ssl_mode = default_postgres_ssl_mode;
  max_conns = default_postgres_max_conns;
  min_conns = default_postgres_min_conns;
  max_conn_lifetime = default_postgres_max_conn_life;
  max_conn_idle_time = default_postgres_max_conn_idle;
}

unfoldable pub default_worker : WorkerConfig
default_worker = record {
  concurrency = default_worker_concurrency;
  poll_interval = default_worker_poll_interval;
  batch_size = default_worker_batch_size;
  processing_timeout = default_worker_process_timeout;
  job_max_retries = default_worker_max_retries;
  backoff_min_delay = default_worker_backoff_min_delay;
  backoff_max_delay = default_worker_backoff_max_delay;
  health_port = default_worker_health_port;
  reclaim_interval = default_worker_reclaim_interval;
  reclaim_idle_time = default_worker_reclaim_idle_time;
  reclaim_batch_size = default_worker_batch_size;
  dedup_ttl = default_worker_dedup_ttl;
}

unfoldable pub default_registry : RegistryConfig
default_registry = record {
  heartbeat_interval = default_registry_heartbeat_interval;
  dead_threshold = default_registry_dead_threshold;
  poll_interval = default_registry_poll_interval;
  control_plane_poll = default_registry_control_plane_poll;
  lock_ttl = default_registry_lock_ttl;
}

module _ (F : Float64) where
  open F use {Float, of_int, div}

  unfoldable pub default_throttler : ThrottlerConfig Float
  default_throttler = record {
    enabled = default_throttler_enabled;
    soft_depth_limit = default_throttler_soft_depth_limit;
    hard_depth_limit = default_throttler_hard_depth_limit;
    max_message_age = default_throttler_max_message_age;
    critical_message_age = default_throttler_critical_message_age;
    rate_limit_score = default_throttler_rate_limit_score F;
    circuit_open_score = default_throttler_circuit_open_score F;
    metrics_update_interval = default_throttler_metrics_update_interval;
    estimated_drain_rate = default_throttler_estimated_drain_rate F;
    min_retry_after = default_throttler_min_retry_after;
    max_retry_after = default_throttler_max_retry_after;
  }

  unfoldable pub default_ingestion : IngestionConfig Float
  unfolding default_throttler
  default_ingestion = record {
    enable_circuit_breaker = default_enable_circuit_breaker;
    max_queue_depth = default_max_queue_depth;
    throttler = default_throttler;
  }

  unfoldable pub default_observability : ObservabilityConfig Float
  default_observability = record {
    log_level = default_log_level;
    log_format = default_log_format;
    metrics_enabled = default_metrics_enabled;
    metrics_port = default_metrics_port;
    tracing_enabled = default_tracing_enabled;
    tracing_sample_rate = default_tracing_sample_rate F;
    health_check_timeout = default_health_check_timeout;
  }

  unfoldable pub get_defaults : Config Float
  unfolding default_server default_redis default_queue default_postgres default_worker
      default_registry default_throttler default_ingestion default_observability
  get_defaults = record {
    environment = default_environment;
    ingestion = default_ingestion;
    worker = default_worker;
    registry = default_registry;
    throttler = default_throttler;
    server = default_server;
    redis = default_redis;
    queue = default_queue;
    postgres = default_postgres;
    observability = default_observability;
  }
