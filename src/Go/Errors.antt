-- ===== src/Go/Errors.antt =====
-- Go errors: what `errors.New` and `fmt.Errorf` build, `redis.Nil`, and a panic that unwinds.
use fluffy_dollop.Base.{Bool, true, false, ◌++◌}
use fluffy_dollop.Base.Text.{Text, lit}

-- Where an error is wrapped: the text before `: %w`.
pub data Site : Type 0 where
  failed_to_read_from_stream failed_to_unmarshal failed_to_ack : Site
  failed_to_marshal_job_envelope failed_to_build_retry_args failed_to_reenqueue : Site
  failed_to_reclaim failed_to_get_pending_info : Site
  failed_to_add_to_stream failed_to_execute_batch failed_to_get_stream_length : Site
  failed_to_marshal_dlq_entry failed_to_add_to_dlq failed_to_get_dlq_entry : Site
  failed_to_list_dlq_entries failed_to_unmarshal_dlq_entry failed_to_get_dlq_count : Site
  failed_to_delete_dlq_entry failed_to_build_requeue_args failed_to_requeue : Site
  dedup_check_failed failed_to_acquire_reclaim_lock failed_to_reclaim_messages : Site
  processing_cancelled : Site
  lock_set_nx_failed failed_to_read_lock failed_to_renew_lock_ttl : Site
  failed_to_acquire_lock lost_control_plane_lock : Site
  failed_to_register_worker failed_to_heartbeat_worker failed_to_deregister_worker : Site
  failed_to_get_worker failed_to_list_worker_keys : Site
  failed_to_create_partition : Site
  health_server_failed worker_failed redis_connection_failed redis_ping_failed : Site
  postgres_ping_failed failed_to_connect_to_redis failed_to_load_config : Site
  failed_to_setup_partitions control_plane_exited server_stopped shutdown_failed : Site

pub data Error : Type 0 where
  -- errors.New, or fmt.Errorf with nothing wrapped
  plain : Text → Error
  -- fmt.Errorf with `%w`
  wrap : Site → Error → Error
  -- the sentinel redis.Nil
  redis_nil : Error
  -- a runtime panic, which no caller of the modelled code recovers
  panic : Error

unfoldable pub site_text : Site → Text
site_text failed_to_read_from_stream = lit "failed to read from stream"
site_text failed_to_unmarshal = lit "failed to unmarshal"
site_text failed_to_ack = lit "failed to ack"
site_text failed_to_marshal_job_envelope = lit "failed to marshal job envelope"
site_text failed_to_build_retry_args = lit "failed to build retry args"
site_text failed_to_reenqueue = lit "failed to re-enqueue"
site_text failed_to_reclaim = lit "failed to reclaim stale messages"
site_text failed_to_get_pending_info = lit "failed to get pending info"
site_text failed_to_add_to_stream = lit "failed to add to stream"
site_text failed_to_execute_batch = lit "failed to execute batch"
site_text failed_to_get_stream_length = lit "failed to get stream length for partition"
site_text failed_to_marshal_dlq_entry = lit "failed to marshal DLQ entry"
site_text failed_to_add_to_dlq = lit "failed to add to DLQ"
site_text failed_to_get_dlq_entry = lit "failed to get DLQ entry"
site_text failed_to_list_dlq_entries = lit "failed to list DLQ entries"
site_text failed_to_unmarshal_dlq_entry = lit "failed to unmarshal DLQ entry"
site_text failed_to_get_dlq_count = lit "failed to get DLQ count"
site_text failed_to_delete_dlq_entry = lit "failed to delete DLQ entry"
site_text failed_to_build_requeue_args = lit "failed to build requeue args"
site_text failed_to_requeue = lit "failed to requeue to main stream"
site_text dedup_check_failed = lit "dedup check failed"
site_text failed_to_acquire_reclaim_lock = lit "failed to acquire reclaim lock"
site_text failed_to_reclaim_messages = lit "failed to reclaim stale messages"
site_text processing_cancelled = lit "processing cancelled"
site_text lock_set_nx_failed = lit "lock SetNX failed"
site_text failed_to_read_lock = lit "failed to read lock"
site_text failed_to_renew_lock_ttl = lit "failed to renew lock TTL"
site_text failed_to_acquire_lock = lit "failed to acquire control plane lock"
site_text lost_control_plane_lock = lit "lost control plane lock"
site_text failed_to_register_worker = lit "failed to register worker"
site_text failed_to_heartbeat_worker = lit "failed to heartbeat worker"
site_text failed_to_deregister_worker = lit "failed to deregister worker"
site_text failed_to_get_worker = lit "failed to get worker"
site_text failed_to_list_worker_keys = lit "failed to list worker keys"
site_text failed_to_create_partition = lit "failed to create partition"
site_text health_server_failed = lit "health server failed"
site_text worker_failed = lit "worker failed"
site_text redis_connection_failed = lit "redis connection failed"
site_text redis_ping_failed = lit "redis ping failed"
site_text postgres_ping_failed = lit "postgres ping failed"
site_text failed_to_connect_to_redis = lit "failed to connect to Redis"
site_text failed_to_load_config = lit "failed to load config"
site_text failed_to_setup_partitions = lit "failed to setup partitions"
site_text control_plane_exited = lit "control plane exited with error"
site_text server_stopped = lit "server stopped with error"
site_text shutdown_failed = lit "shutdown failed"

-- `err.Error()`.
unfoldable pub error_text : Error → Text
error_text (plain message) = message
error_text (wrap site e) = site_text site ++ (lit ": " ++ error_text e)
error_text redis_nil = lit "redis: nil"
error_text panic = lit "panic"

-- `err == redis.Nil`.
abbrev pub is_redis_nil : Error → Bool
is_redis_nil redis_nil = true
is_redis_nil _ = false
