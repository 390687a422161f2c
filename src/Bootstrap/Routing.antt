-- ===== src/Bootstrap/Routing.antt =====
-- The producer's routing meets the workers' wiring.
use fluffy_dollop.Base.{◌+◌, ◌%◌, ◌≡◌, [], arith}
use fluffy_dollop.Base.Int.{ℤ, pos, pos_part, neg_part, ◌≤ℤ◌, ◌<ℤ◌, IsInt64}
use fluffy_dollop.Base.Text.{Text, lit, append_cancel}
use fluffy_dollop.Go.Effect.{ok}
use fluffy_dollop.Go.Strconv.Laws.{format_int_injective}
use fluffy_dollop.Go.Fnv.{sum32a}
use fluffy_dollop.Config.Types.{QueueConfig}
use fluffy_dollop.Config.Validator.{validate_queue}
use fluffy_dollop.Config.Validator.Sections.{validate_queue_iff}
use fluffy_dollop.Queue.Dlq.{Dlq}
use fluffy_dollop.Queue.Producer.{partition_for}
use fluffy_dollop.Bootstrap.{partition_stream_name}

-- With a queue section that the validator accepts, every routing key has a partition, and it lies
-- in [0, partition count).
pub partition_for_range :
    (c : QueueConfig) (key : Text)
    → validate_queue c ≡ []
    → (i : ℤ) × (partition_for c key ≡ ok i) × (pos 0 ≤ℤ i) × (i <ℤ c.partition_count)
unfolding partition_for
partition_for_range c key valid =
    let n = pos_part c.partition_count + neg_part c.partition_count in
    let some_partition = ((validate_queue_iff c).0 valid).partitions in
    (pos (sum32a key % n), ground arith, omega arith, ground arith)

-- Two partitions of one base have one stream only if they are one.
pub partition_stream_name_injective :
    (base : Text) (m n : ℤ)
    → IsInt64 m
    → IsInt64 n
    → partition_stream_name base m ≡ partition_stream_name base n
    → m ≡ n
unfolding partition_stream_name
partition_stream_name_injective base m n hm hn h =
    format_int_injective m n hm hn
      (append_cancel (lit ":partition:") _ _ (append_cancel base _ _ h))
