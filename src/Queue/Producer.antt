-- ===== src/Queue/Producer.antt =====
-- internal/queue/producer.go. Clock and uuid are arguments: `job_id` is the fresh uuid of a job,
-- `now` the Unix time.
pub mod Enqueue
pub mod Depth
use fluffy_dollop.Base.{
  ℕ, zero, suc, ◌+◌, ◌%◌, Option, none, some, List, [], ◌∷◌, ◌++◌, if◌then◌else◌, ◌==◌, length,
}
use fluffy_dollop.Base.Int.{ℤ, pos, pos_part, neg_part, ◌+ℤ◌, wrap64}
use fluffy_dollop.Base.Text.{Text, lit}
use fluffy_dollop.Go.Errors.{
  Error, panic, wrap, failed_to_add_to_stream, failed_to_execute_batch, failed_to_get_stream_length,
}
use fluffy_dollop.Go.Effect.{Result, ok, err, Io, pure, ◌>>=◌, wrapping, lift_result}
use fluffy_dollop.Go.Strconv.{format_int}
use fluffy_dollop.Go.Fnv.{sum32a}
use fluffy_dollop.Config.Types.{QueueConfig}
use fluffy_dollop.Redis.{Redis, XAddArgs}
use fluffy_dollop.Models.{LogEvent}
use fluffy_dollop.Queue.Types.{Json}
use fluffy_dollop.Queue.Message.{build_job_envelope, build_xadd_args}

-- `int(h.Sum32()) % count`: Go's remainder has the sign of the dividend, which is not negative
-- here, and a zero divisor panics.
unfoldable pub partition_for : QueueConfig → Text → Result ℤ
partition_for c key =
    let divisor = pos_part c.partition_count + neg_part c.partition_count in
    if divisor == 0 then err panic else ok (pos (sum32a key % divisor))

unfoldable pub stream_name : Text → ℤ → Text
stream_name base i = base ++ (lit ":partition:" ++ format_int i)

unfoldable pub stream_name_for : QueueConfig → Text → Result Text
unfolding partition_for
stream_name_for c key = elim (partition_for c key) [
  | ok i ↦ ok (stream_name c.base_stream_name i)
  | err e ↦ err e
]

module _ (R : Redis) (J : Json) where
  open R use {State}

  -- The XADD of one event: the arguments that `Enqueue` and the loop of `EnqueueBatch` build.
  unfoldable pub enqueue_args : QueueConfig → LogEvent → Text → ℤ → Result (XAddArgs × ℕ)
  enqueue_args c event job_id now = elim (stream_name_for c event.service) [
    | ok stream ↦
        build_xadd_args J stream c.max_len (build_job_envelope event c.redis_max_retries job_id now)
    | err e ↦ err e
  ]

  -- The id that Redis gives to the entry.
  unfoldable pub enqueue : QueueConfig → LogEvent → Text → ℤ → Io State Text
  unfolding enqueue_args
  enqueue c event job_id now = do
    built ← lift_result (enqueue_args c event job_id now)
    wrapping failed_to_add_to_stream (R.xadd built.0)

  -- The loop over the events; each has its own uuid and time.
  unfoldable pub batch_args : QueueConfig → List (LogEvent × Text × ℤ) → Result (List XAddArgs)
  unfolding enqueue_args
  batch_args c [] = ok []
  batch_args c ((event, job_id, now) ∷ rest) = elim (enqueue_args c event job_id now) [
    | ok built ↦ elim (batch_args c rest) [ ok args ↦ ok (built.0 ∷ args) | err e ↦ err e ]
    | err e ↦ err e
  ]

  unfoldable pub enqueue_batch : QueueConfig → List (LogEvent × Text × ℤ) → Io State (List Text)
  unfolding batch_args
  enqueue_batch c [] = pure []
  enqueue_batch c (e ∷ events) = do
    args ← lift_result (batch_args c (e ∷ events))
    wrapping failed_to_execute_batch (R.xadd_pipeline args)

  -- The loop of `StreamLength` from partition `i`, with `left` partitions to go.
  unfoldable pub stream_length_from : QueueConfig → ℕ → ℕ → ℤ → Io State ℤ
  stream_length_from c zero i total = pure total
  stream_length_from c (suc left) i total = do
    n ← wrapping failed_to_get_stream_length (R.xlen (stream_name c.base_stream_name (pos i)))
    stream_length_from c left (suc i) (wrap64 (total +ℤ n))

  unfoldable pub stream_length : QueueConfig → Io State ℤ
  unfolding stream_length_from
  stream_length c = stream_length_from c (pos_part c.partition_count) 0 (pos 0)
