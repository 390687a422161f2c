-- ===== src/Bootstrap.antt =====
-- internal/bootstrap: the partitions' streams and groups, and what is wired to them.
pub mod Routing
pub mod Groups
pub mod Connect
use fluffy_dollop.Base.{
  ℕ, zero, suc, Bool, true, false, ◌||◌, ◌&&◌, Option, some, List, [], ◌∷◌, ◌++◌, ◌==◌,
  if◌then◌else◌,
}
use fluffy_dollop.Base.Int.{ℤ, pos, pos_part}
use fluffy_dollop.Base.Text.{Text, lit}
use fluffy_dollop.Go.Errors.{Error, wrap, error_text, failed_to_create_partition}
use fluffy_dollop.Go.Effect.{Result, ok, err, Io, pure}
use fluffy_dollop.Go.Strconv.{format_int}
use fluffy_dollop.Config.Types.{QueueConfig}
use fluffy_dollop.Redis.{Redis}
use fluffy_dollop.Queue.Dlq.{Dlq}
use fluffy_dollop.Queue.Consumer.{Consumer}

unfoldable pub partition_stream_name : Text → ℤ → Text
partition_stream_name base i = base ++ (lit ":partition:" ++ format_int i)

unfoldable pub partition_group_name : Text → ℤ → Text
partition_group_name base i = base ++ (lit "-" ++ format_int i)

-- SetupDLQ.
unfoldable pub setup_dlq : QueueConfig → Dlq
setup_dlq c = record { stream_name = c.dlq_stream_name; max_len = c.dlq_max_len }

-- SetupConsumer.
unfoldable pub setup_consumer : QueueConfig → Option Dlq → Text → Consumer
setup_consumer c dlq worker_id = record {
  stream_name = partition_stream_name c.base_stream_name c.partition_id;
  consumer_group = partition_group_name c.base_consumer_group c.partition_id;
  consumer_name = worker_id;
  dlq = dlq;
}

-- `strings.Contains`.
unfoldable pub has_prefix : Text → Text → Bool
has_prefix [] s = true
has_prefix (a ∷ word) [] = false
has_prefix (a ∷ word) (b ∷ s) = (a == b) && has_prefix word s

unfoldable pub contains_text : Text → Text → Bool
unfolding has_prefix
contains_text word [] = has_prefix word []
contains_text word (c ∷ s) = has_prefix word (c ∷ s) || contains_text word s

abbrev pub is_busy_group : Error → Bool
is_busy_group e = contains_text (lit "BUSYGROUP") (error_text e)

module _ (R : Redis) where
  open R use {State}

  -- The loop of SetupPartitions from partition `i`, with `left` to go.
  unfoldable pub setup_partitions_from : QueueConfig → ℕ → ℕ → Io State (Unit {0})
  setup_partitions_from c zero i s = (ok tt, s)
  setup_partitions_from c (suc left) i s =
      let (r, s') =
        R.xgroup_create_mkstream (partition_stream_name c.base_stream_name (pos i))
          (partition_group_name c.base_consumer_group (pos i)) (lit "0") s in
      let rest = setup_partitions_from c left (suc i) s' in
      elim r [
        | ok _ ↦ rest
        | err e ↦ if is_busy_group e then rest else (err (wrap failed_to_create_partition e), s')
      ]

  unfoldable pub setup_partitions : QueueConfig → Io State (Unit {0})
  unfolding setup_partitions_from
  setup_partitions c = setup_partitions_from c (pos_part c.partition_count) 0
