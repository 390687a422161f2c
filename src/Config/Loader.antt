-- ===== src/Config/Loader.antt =====
-- internal/config/loader.go. The environment is an argument: a variable that is not set reads as
-- the empty string, as os.Getenv reads it. strconv.ParseFloat and time.ParseDuration are parameters.
pub mod Unread
use fluffy_dollop.Base.{
  ◌⊎◌, inl, inr, Bool, true, false, ◌||◌, Option, none, some, List, [], ◌∷◌, if◌then◌else◌,
}
use fluffy_dollop.Base.Int.{ℤ}
use fluffy_dollop.Base.Text.{Text, lit, is_empty, eq_text}
use fluffy_dollop.Go.Float.{Float64}
use fluffy_dollop.Go.Strconv.{parse_int}
use fluffy_dollop.Config.Types.{
  Duration, Config, ServerConfig, RedisClientConfig, QueueConfig, PostgresClientConfig,
  WorkerConfig, IngestionConfig, ObservabilityConfig, ThrottlerConfig, RegistryConfig,
}
use fluffy_dollop.Config.Defaults.{get_defaults}
use fluffy_dollop.Config.Issue.{Section, Issues}
use fluffy_dollop.Config.Validator.{validate}

abbrev pub Environment : Type 0
Environment = Text → Text

pub record Parsers (Float : Type 0) : Type 0 where
  pub parse_float : Text → Option Float
  pub parse_duration : Text → Option Duration

-- `value := os.Getenv(key); value != ""`, then a parser whose error means the default.
abbrev pub parsed_or : {A : Type 0} → (Text → Option A) → A → Text → A
parsed_or parse default_value [] = default_value
parsed_or parse default_value (c ∷ s) = elim (parse (c ∷ s)) [ none ↦ default_value | some v ↦ v ]

abbrev pub get_env : Environment → Text → Text → Text
get_env env key default_value = parsed_or (λ value. some value) default_value (env key)

-- strconv.Atoi and strconv.ParseInt to 64 bits: int has 64 bits.
abbrev pub get_int_env : Environment → Text → ℤ → ℤ
get_int_env env key default_value = parsed_or parse_int default_value (env key)

-- strconv.ParseBool.
unfoldable pub parse_bool : Text → Option Bool
parse_bool s =
    if eq_text s (lit "1")
      || (eq_text s (lit "t")
          || (eq_text s (lit "T")
              || (eq_text s (lit "TRUE") || (eq_text s (lit "true") || eq_text s (lit "True")))))
    then some true
    else (if eq_text s (lit "0")
          || (eq_text s (lit "f")
              || (eq_text s (lit "F")
                  || (eq_text s (lit "FALSE")
                      || (eq_text s (lit "false") || eq_text s (lit "False")))))
        then some false
        else none)

abbrev pub get_bool_env : Environment → Text → Bool → Bool
get_bool_env env key default_value = parsed_or parse_bool default_value (env key)

abbrev pub get_duration_env :
    {Float : Type 0} → Parsers Float → Environment → Text → Duration → Duration
get_duration_env P env key default_value = parsed_or P.parse_duration default_value (env key)

abbrev pub get_float_env : {Float : Type 0} → Parsers Float → Environment → Text → Float → Float
get_float_env P env key default_value = parsed_or P.parse_float default_value (env key)

module _ (F : Float64) (P : Parsers F.Float) (env : Environment) where
  open F use {Float}

  unfoldable pub load_ingestion_config : IngestionConfig Float → IngestionConfig Float
  load_ingestion_config c = record c {
    enable_circuit_breaker =
        get_bool_env env (lit "INGESTION_ENABLE_CIRCUIT_BREAKER") c.enable_circuit_breaker;
    max_queue_depth = get_int_env env (lit "INGESTION_MAX_QUEUE_DEPTH") c.max_queue_depth;
    throttler = record c.throttler {
      enabled = get_bool_env env (lit "INGESTION_THROTTLER_ENABLED") c.throttler.enabled;
      soft_depth_limit =
          get_int_env env (lit "INGESTION_THROTTLER_SOFT_DEPTH") c.throttler.soft_depth_limit;
      hard_depth_limit =
          get_int_env env (lit "INGESTION_THROTTLER_HARD_DEPTH") c.throttler.hard_depth_limit;
      max_message_age =
          get_duration_env P env (lit "INGESTION_THROTTLER_MAX_AGE") c.throttler.max_message_age;
      critical_message_age =
          get_duration_env P env (lit "INGESTION_THROTTLER_CRITICAL_AGE")
            c.throttler.critical_message_age;
      rate_limit_score =
          get_float_env P env (lit "INGESTION_THROTTLER_RATE_LIMIT_SCORE")
            c.throttler.rate_limit_score;
      circuit_open_score =
          get_float_env P env (lit "INGESTION_THROTTLER_CIRCUIT_SCORE")
            c.throttler.circuit_open_score;
      metrics_update_interval =
          get_duration_env P env (lit "INGESTION_THROTTLER_UPDATE_INTERVAL")
            c.throttler.metrics_update_interval;
      estimated_drain_rate =
          get_float_env P env (lit "INGESTION_THROTTLER_DRAIN_RATE")
            c.throttler.estimated_drain_rate;
      min_retry_after =
          get_duration_env P env (lit "INGESTION_THROTTLER_MIN_RETRY") c.throttler.min_retry_after;
      max_retry_after =
          get_duration_env P env (lit "INGESTION_THROTTLER_MAX_RETRY") c.throttler.max_retry_after;
    };
  }

  unfoldable pub load_worker_config : WorkerConfig → WorkerConfig
  load_worker_config c = record c {
    concurrency = get_int_env env (lit "WORKER_CONCURRENCY") c.concurrency;
    poll_interval = get_duration_env P env (lit "WORKER_POLL_INTERVAL") c.poll_interval;
    batch_size = get_int_env env (lit "WORKER_BATCH_SIZE") c.batch_size;
    processing_timeout =
        get_duration_env P env (lit "WORKER_PROCESSING_TIMEOUT") c.processing_timeout;
    job_max_retries = get_int_env env (lit "WORKER_MAX_RETRIES") c.job_max_retries;
    backoff_min_delay = get_duration_env P env (lit "WORKER_BACKOFF_MIN_DELAY") c.backoff_min_delay;
    backoff_max_delay = get_duration_env P env (lit "WORKER_BACKOFF_MAX_DELAY") c.backoff_max_delay;
    health_port = get_env env (lit "WORKER_HEALTH_PORT") c.health_port;
    reclaim_interval = get_duration_env P env (lit "WORKER_RECLAIM_INTERVAL") c.reclaim_interval;
    reclaim_idle_time = get_duration_env P env (lit "WORKER_RECLAIM_IDLE_TIME") c.reclaim_idle_time;
    reclaim_batch_size = get_int_env env (lit "WORKER_RECLAIM_BATCH_SIZE") c.reclaim_batch_size;
    dedup_ttl = get_duration_env P env (lit "WORKER_DEDUP_TTL") c.dedup_ttl;
  }

  unfoldable pub load_server_config : ServerConfig → ServerConfig
  load_server_config c = record c {
    host = get_env env (lit "SERVER_HOST") c.host;
    port = get_env env (lit "SERVER_PORT") c.port;
    read_timeout = get_duration_env P env (lit "SERVER_READ_TIMEOUT") c.read_timeout;
    write_timeout = get_duration_env P env (lit "SERVER_WRITE_TIMEOUT") c.write_timeout;
    idle_timeout = get_duration_env P env (lit "SERVER_IDLE_TIMEOUT") c.idle_timeout;
    shutdown_timeout = get_duration_env P env (lit "SERVER_SHUTDOWN_TIMEOUT") c.shutdown_timeout;
  }

  unfoldable pub load_redis_config : RedisClientConfig → RedisClientConfig
  load_redis_config c = record c {
    host = get_env env (lit "REDIS_HOST") c.host;
    port = get_env env (lit "REDIS_PORT") c.port;
    password = get_env env (lit "REDIS_PASSWORD") c.password;
    db = get_int_env env (lit "REDIS_DB") c.db;
    pool_size = get_int_env env (lit "REDIS_POOL_SIZE") c.pool_size;
    min_idle_conns = get_int_env env (lit "REDIS_MIN_IDLE_CONNS") c.min_idle_conns;
    conn_max_idle_time =
        get_duration_env P env (lit "REDIS_CONN_MAX_IDLE_TIME") c.conn_max_idle_time;
  }

  unfoldable pub load_queue_config : QueueConfig → QueueConfig
  load_queue_config c = record c {
    base_stream_name = get_env env (lit "QUEUE_STREAM_NAME") c.base_stream_name;
    base_consumer_group = get_env env (lit "QUEUE_CONSUMER_GROUP") c.base_consumer_group;
    redis_max_retries = get_int_env env (lit "QUEUE_REDIS_MAX_RETRIES") c.redis_max_retries;
    max_len = get_int_env env (lit "QUEUE_MAX_LEN") c.max_len;
    dlq_stream_name = get_env env (lit "QUEUE_DLQ_STREAM_NAME") c.dlq_stream_name;
    dlq_max_len = get_int_env env (lit "QUEUE_DLQ_MAX_LEN") c.dlq_max_len;
    partition_count = get_int_env env (lit "QUEUE_PARTITION_COUNT") c.partition_count;
    partition_id = get_int_env env (lit "QUEUE_PARTITION_ID") c.partition_id;
  }

  unfoldable pub load_postgres_config : PostgresClientConfig → PostgresClientConfig
  load_postgres_config c = record c {
    host = get_env env (lit "POSTGRES_HOST") c.host;
    port = get_env env (lit "POSTGRES_PORT") c.port;
    database = get_env env (lit "POSTGRES_DB") c.database;
    user = get_env env (lit "POSTGRES_USER") c.user;
    password = get_env env (lit "POSTGRES_PASSWORD") c.password;
    ssl_mode = get_env env (lit "POSTGRES_SSLMODE") c.ssl_mode;
    max_conns = get_int_env env (lit "POSTGRES_MAX_CONNS") c.max_conns;
    min_conns = get_int_env env (lit "POSTGRES_MIN_CONNS") c.min_conns;
    max_conn_lifetime =
        get_duration_env P env (lit "POSTGRES_MAX_CONN_LIFETIME") c.max_conn_lifetime;
    max_conn_idle_time =
        get_duration_env P env (lit "POSTGRES_MAX_CONN_IDLE_TIME") c.max_conn_idle_time;
  }

  unfoldable pub load_observability_config : ObservabilityConfig Float → ObservabilityConfig Float
  load_observability_config c = record c {
    log_level = get_env env (lit "LOG_LEVEL") c.log_level;
    log_format = get_env env (lit "LOG_FORMAT") c.log_format;
    metrics_enabled = get_bool_env env (lit "METRICS_ENABLED") c.metrics_enabled;
    metrics_port = get_env env (lit "METRICS_PORT") c.metrics_port;
    tracing_enabled = get_bool_env env (lit "TRACING_ENABLED") c.tracing_enabled;
    tracing_sample_rate = get_float_env P env (lit "TRACING_SAMPLE_RATE") c.tracing_sample_rate;
    health_check_timeout =
        get_duration_env P env (lit "HEALTH_CHECK_TIMEOUT") c.health_check_timeout;
  }

  unfoldable pub load_throttler_config : ThrottlerConfig Float → ThrottlerConfig Float
  load_throttler_config c = record c {
    enabled = get_bool_env env (lit "THROTTLER_ENABLED") c.enabled;
    soft_depth_limit = get_int_env env (lit "THROTTLER_SOFT_DEPTH_LIMIT") c.soft_depth_limit;
    hard_depth_limit = get_int_env env (lit "THROTTLER_HARD_DEPTH_LIMIT") c.hard_depth_limit;
    max_message_age = get_duration_env P env (lit "THROTTLER_MAX_MESSAGE_AGE") c.max_message_age;
    critical_message_age =
        get_duration_env P env (lit "THROTTLER_CRITICAL_MESSAGE_AGE") c.critical_message_age;
    rate_limit_score = get_float_env P env (lit "THROTTLER_RATE_LIMIT_SCORE") c.rate_limit_score;
    circuit_open_score =
        get_float_env P env (lit "THROTTLER_CIRCUIT_OPEN_SCORE") c.circuit_open_score;
    metrics_update_interval =
        get_duration_env P env (lit "THROTTLER_METRICS_UPDATE_INTERVAL") c.metrics_update_interval;
    estimated_drain_rate =
        get_float_env P env (lit "THROTTLER_ESTIMATED_DRAIN_RATE") c.estimated_drain_rate;
    min_retry_after = get_duration_env P env (lit "THROTTLER_MIN_RETRY_AFTER") c.min_retry_after;
    max_retry_after = get_duration_env P env (lit "THROTTLER_MAX_RETRY_AFTER") c.max_retry_after;
  }

  unfoldable pub load_registry_config : RegistryConfig → RegistryConfig
  load_registry_config c = record c {
    heartbeat_interval =
        get_duration_env P env (lit "REGISTRY_HEARTBEAT_INTERVAL") c.heartbeat_interval;
    dead_threshold = get_duration_env P env (lit "REGISTRY_DEAD_THRESHOLD") c.dead_threshold;
    poll_interval = get_duration_env P env (lit "REGISTRY_POLL_INTERVAL") c.poll_interval;
    control_plane_poll =
        get_duration_env P env (lit "REGISTRY_CONTROL_PLANE_POLL") c.control_plane_poll;
    lock_ttl = get_duration_env P env (lit "REGISTRY_LOCK_TTL") c.lock_ttl;
  }

  -- The configuration before the validation.
  unfoldable pub read_config : Config Float
  unfolding load_ingestion_config load_worker_config load_server_config load_redis_config
      load_queue_config load_postgres_config load_observability_config load_registry_config
      load_throttler_config
  read_config =
      let c = get_defaults F in
      record {
        environment = get_env env (lit "ENVIRONMENT") c.environment;
        ingestion = load_ingestion_config c.ingestion;
        worker = load_worker_config c.worker;
        registry = load_registry_config c.registry;
        throttler = load_throttler_config c.throttler;
        server = load_server_config c.server;
        redis = load_redis_config c.redis;
        queue = load_queue_config c.queue;
        postgres = load_postgres_config c.postgres;
        observability = load_observability_config c.observability;
      }

  abbrev pub accept :
      Config Float → List (Section × Issues) → Config Float ⊎ List (Section × Issues)
  accept c [] = inl c
  accept c (e ∷ errs) = inr (e ∷ errs)

  -- `Load`: the configuration, or the sections that the validator finds at fault.
  unfoldable pub load : Config Float ⊎ List (Section × Issues)
  unfolding read_config
  load = accept read_config (validate F read_config)
