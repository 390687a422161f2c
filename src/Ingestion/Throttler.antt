-- ===== src/Ingestion/Throttler.antt =====
-- internal/ingestion/adpative_throttler.go and throttler.go. The clock is an argument: `now` is in
-- nanoseconds since the Unix epoch.
pub mod Bounds
pub mod Load
pub mod Updater
use fluffy_dollop.Base.{Bool, true, false, if◌then◌else◌}
use fluffy_dollop.Base.Int.{ℤ, pos, ltb_ℤ, leb_ℤ, ◌+ℤ◌, ◌-ℤ◌, ◌*ℤ◌, wrap64, saturate64, quot_ℤ}
use fluffy_dollop.Go.Effect.{Result, ok, err, Io}
use fluffy_dollop.Go.Float.{Float64}
use fluffy_dollop.Config.Types.{Duration, ThrottlerConfig}
use fluffy_dollop.Models.{Time}

pub record ThrottlerMetrics : Type 0 where
  pub stream_depth : ℤ
  pub pending_count : ℤ
  pub oldest_message_age : ℤ  -- seconds
  pub last_updated : ℤ  -- unix timestamp

pub data ThrottleDecision : Type 0 where
  allow rate_limit circuit_open : ThrottleDecision

abbrev pub second : ℤ
second = pos 1000000000

-- `time.Since(time.Unix(m.lastUpdated, 0))`.
unfoldable pub staleness : ThrottlerMetrics → Time → Duration
staleness m now = saturate64 (now -ℤ m.last_updated *ℤ second)

-- `time.Duration(m.oldestMessageAge) * time.Second`.
unfoldable pub oldest_age : ThrottlerMetrics → Duration
oldest_age m = wrap64 (m.oldest_message_age *ℤ second)

-- The metrics after `updateMetrics`: the calls' results are the arguments. A failed depth leaves
-- the metrics alone; failed pending metrics count as none.
unfoldable pub update_metrics :
    Result ℤ → Result (ℤ × ℤ) → Time → ThrottlerMetrics → ThrottlerMetrics
update_metrics (err e) pending now m = m
update_metrics (ok depth) (ok (count, age)) now m = record {
  stream_depth = depth;
  pending_count = count;
  oldest_message_age = age;
  last_updated = quot_ℤ now 1000000000;
}
update_metrics (ok depth) (err e) now m = record {
  stream_depth = depth;
  pending_count = pos 0;
  oldest_message_age = pos 0;
  last_updated = quot_ℤ now 1000000000;
}

abbrev pub clamp : Duration → Duration → Duration → Duration
clamp lo hi d = let raised = if ltb_ℤ d lo then lo else d in if ltb_ℤ hi raised then hi else raised

module _ (F : Float64) where
  open F use {Float, of_int, truncate, div, mul, lt, le}

  -- `max` of the file.
  abbrev pub max_float : Float → Float → Float
  max_float a b = if lt b a then a else b

  unfoldable pub overload_score : ThrottlerConfig Float → ThrottlerMetrics → Float
  unfolding oldest_age
  overload_score c m =
      max_float (div (of_int m.stream_depth) (of_int c.soft_depth_limit))
        (div (of_int (oldest_age m)) (of_int c.max_message_age))

  -- The seconds to drain the backlog, longer where the oldest message is too old.
  unfoldable pub retry_seconds : ThrottlerConfig Float → ThrottlerMetrics → Float
  unfolding oldest_age
  retry_seconds c m =
      let drain =
        div (of_int (wrap64 (m.stream_depth +ℤ m.pending_count))) c.estimated_drain_rate in
      if ltb_ℤ c.max_message_age (oldest_age m)
      then mul drain (div (of_int (oldest_age m)) (of_int c.max_message_age))
      else drain

  unfoldable pub compute_retry_after : ThrottlerConfig Float → ThrottlerMetrics → Duration
  unfolding retry_seconds
  compute_retry_after c m =
      if le c.estimated_drain_rate (of_int (pos 0))
      then c.min_retry_after
      else clamp c.min_retry_after c.max_retry_after
          (wrap64 (truncate (retry_seconds c m) *ℤ second))

  -- The decision on a score.
  unfoldable pub decide :
      ThrottlerConfig Float → Float → ThrottlerMetrics → ThrottleDecision × Duration
  unfolding compute_retry_after
  decide c score m =
      if lt c.circuit_open_score score
      then (circuit_open, pos 0)
      else (if lt c.rate_limit_score score
          then (rate_limit, compute_retry_after c m)
          else (allow, pos 0))

  unfoldable pub decision :
      ThrottlerConfig Float → ThrottlerMetrics → Time → ThrottleDecision × Duration
  unfolding staleness overload_score decide
  decision c m now =
      if c.enabled
      then (if ltb_ℤ (wrap64 (pos 2 *ℤ c.metrics_update_interval)) (staleness m now)
          then (allow, pos 0)
          else decide c (overload_score c m) m)
      else (allow, pos 0)
