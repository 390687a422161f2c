-- ===== src/Config/Types.antt =====
-- internal/config/config.go. A time.Duration is its int64 of nanoseconds. The type of float64 is a
-- parameter of the records that have one.
use fluffy_dollop.Base.{Bool}
use fluffy_dollop.Base.Int.{ℤ}
use fluffy_dollop.Base.Text.{Text}

abbrev pub Duration : Type 0
Duration = ℤ

pub record ThrottlerConfig (Float : Type 0) : Type 0 where
  pub enabled : Bool
  pub soft_depth_limit : ℤ
  pub hard_depth_limit : ℤ
  pub max_message_age : Duration
  pub critical_message_age : Duration
  pub rate_limit_score : Float
  pub circuit_open_score : Float
  pub metrics_update_interval : Duration
  pub estimated_drain_rate : Float
  pub min_retry_after : Duration
  pub max_retry_after : Duration

pub record IngestionConfig (Float : Type 0) : Type 0 where
  pub enable_circuit_breaker : Bool
  pub max_queue_depth : ℤ
  pub throttler : ThrottlerConfig Float

pub record RegistryConfig : Type 0 where
  pub heartbeat_interval : Duration
  pub dead_threshold : Duration
  pub poll_interval : Duration
  pub control_plane_poll : Duration
  pub lock_ttl : Duration

pub record WorkerConfig : Type 0 where
  pub concurrency : ℤ
  pub poll_interval : Duration
  pub batch_size : ℤ
  pub processing_timeout : Duration
  pub job_max_retries : ℤ
  pub backoff_min_delay : Duration
  pub backoff_max_delay : Duration
  pub health_port : Text
  pub reclaim_interval : Duration
  pub reclaim_idle_time : Duration
  pub reclaim_batch_size : ℤ
  pub dedup_ttl : Duration

pub record ServerConfig : Type 0 where
  pub host : Text
  pub port : Text
  pub read_timeout : Duration
  pub write_timeout : Duration
  pub idle_timeout : Duration
  pub shutdown_timeout : Duration

pub record QueueConfig : Type 0 where
  pub base_stream_name : Text
  pub base_consumer_group : Text
  pub redis_max_retries : ℤ
  pub max_len : ℤ
  pub dlq_stream_name : Text
  pub dlq_max_len : ℤ
  pub partition_count : ℤ
  pub partition_id : ℤ

pub record RedisClientConfig : Type 0 where
  pub host : Text
  pub port : Text
  pub password : Text
  pub db : ℤ
  pub pool_size : ℤ
  pub min_idle_conns : ℤ
  pub conn_max_idle_time : Duration

pub record PostgresClientConfig : Type 0 where
  pub host : Text
  pub port : Text
  pub database : Text
  pub user : Text
  pub password : Text
  pub ssl_mode : Text
  pub max_conns : ℤ
  pub min_conns : ℤ
  pub max_conn_lifetime : Duration
  pub max_conn_idle_time : Duration

pub record ObservabilityConfig (Float : Type 0) : Type 0 where
  pub log_level : Text
  pub log_format : Text
  pub metrics_enabled : Bool
  pub metrics_port : Text
  pub tracing_enabled : Bool
  pub tracing_sample_rate : Float
  pub health_check_timeout : Duration

pub record Config (Float : Type 0) : Type 0 where
  pub environment : Text
  pub ingestion : IngestionConfig Float
  pub worker : WorkerConfig
  pub registry : RegistryConfig
  pub throttler : ThrottlerConfig Float
  pub server : ServerConfig
  pub redis : RedisClientConfig
  pub queue : QueueConfig
  pub postgres : PostgresClientConfig
  pub observability : ObservabilityConfig Float
