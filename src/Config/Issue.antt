-- ===== src/Config/Issue.antt =====
-- What the validator can find wrong: one constructor for each message of
-- internal/config/validator.go, with the values that the message prints.
use fluffy_dollop.Base.{List, [], ◌∷◌, Bool, true, false}
use fluffy_dollop.Base.Int.{ℤ}
use fluffy_dollop.Base.Text.{Text}

pub data Issue : Type 0 where
  -- server, redis, postgres
  port_required : Issue
  port_out_of_range : Text → Issue
  read_timeout_not_positive write_timeout_not_positive shutdown_timeout_not_positive : Issue
  host_required : Issue
  db_out_of_range : ℤ → Issue
  pool_size_not_positive : Issue
  database_required user_required : Issue
  ssl_mode_unknown : Text → Issue
  max_conns_not_positive min_conns_negative : Issue
  min_conns_above_max : ℤ → ℤ → Issue
  -- queue
  stream_name_required consumer_group_required max_retries_not_positive : Issue
  max_len_not_positive dlq_stream_name_required dlq_max_len_not_positive : Issue
  dlq_stream_is_main_stream partition_count_not_positive : Issue
  partition_id_out_of_range : ℤ → ℤ → Issue
  -- worker
  concurrency_not_positive : Issue
  concurrency_above_limit : ℤ → Issue
  poll_interval_not_positive batch_size_not_positive processing_timeout_not_positive : Issue
  max_retries_negative backoff_min_not_positive backoff_max_not_positive : Issue
  backoff_min_above_max : ℤ → ℤ → Issue
  health_port_required reclaim_interval_not_positive reclaim_idle_not_positive : Issue
  reclaim_idle_below_interval : ℤ → ℤ → Issue
  reclaim_batch_not_positive dedup_ttl_not_positive : Issue
  -- ingestion, observability
  max_queue_depth_negative : Issue
  log_level_unknown log_format_unknown : Text → Issue
  metrics_port_required : Issue
  metrics_port_out_of_range : Text → Issue
  sample_rate_out_of_range health_check_timeout_not_positive : Issue
  -- throttler
  soft_depth_not_positive hard_depth_not_positive hard_depth_not_above_soft : Issue
  max_message_age_not_positive critical_age_not_above_max : Issue
  rate_limit_score_not_positive circuit_score_not_above_rate_limit : Issue
  update_interval_not_positive drain_rate_not_positive : Issue
  min_retry_after_not_positive max_retry_after_not_above_min : Issue
  -- registry
  heartbeat_not_positive dead_threshold_not_above_heartbeat : Issue
  registry_poll_not_positive control_plane_poll_not_positive lock_ttl_not_above_poll : Issue

-- The section that a top-level message names; the last two are passed on without one.
pub data Section : Type 0 where
  server redis queue postgres ingestion worker observability throttler registry : Section

-- An error that `combineErrors` returns: the messages that it joins, in order.
abbrev pub Issues : Type 0
Issues = List Issue

-- `if test { errs = append(errs, issue) }` for each test of a section, in order.
unfoldable pub collect : List (Bool × Issue) → Issues
collect [] = []
collect ((true, issue) ∷ rest) = issue ∷ collect rest
collect ((false, issue) ∷ rest) = collect rest
