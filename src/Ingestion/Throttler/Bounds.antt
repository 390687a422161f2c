-- ===== src/Ingestion/Throttler/Bounds.antt =====
-- The delay that Decision gives with a rate limit.
use fluffy_dollop.Base.{◌≡◌, true, [], arith}
use fluffy_dollop.Base.Int.{pos, ◌≤ℤ◌, ◌<ℤ◌}
use fluffy_dollop.Go.Float.{Float64}
use fluffy_dollop.Config.Types.{Duration, ThrottlerConfig}
use fluffy_dollop.Config.Validator.{validate_throttler}
use fluffy_dollop.Config.Validator.Sections.{validate_throttler_iff}
use fluffy_dollop.Models.{Time}
use fluffy_dollop.Ingestion.Throttler.{
  ThrottlerMetrics, rate_limit, clamp, compute_retry_after, decide, decision,
}

clamp_bounds : (lo hi d : Duration) → lo ≤ℤ hi → (lo ≤ℤ clamp lo hi d) × (clamp lo hi d ≤ℤ hi)
clamp_bounds lo hi d h = ground arith

module _ (F : Float64) where
  open F use {Float}

  compute_retry_after_bounds :
      (c : ThrottlerConfig Float) (m : ThrottlerMetrics)
      → c.min_retry_after ≤ℤ c.max_retry_after
      → (c.min_retry_after ≤ℤ compute_retry_after F c m)
        × (compute_retry_after F c m ≤ℤ c.max_retry_after)
  unfolding compute_retry_after
  compute_retry_after_bounds c m h = ground arith

  decision_retry :
      (c : ThrottlerConfig Float) (m : ThrottlerMetrics) (now : Time) (d : Duration)
      → decision F c m now ≡ (rate_limit, d)
      → (c.enabled ≡ true) × (d ≡ compute_retry_after F c m)
  unfolding decision decide
  decision_retry c m now d h = ground arith

  -- With a configuration that the validator accepts, the delay that Decision returns with a rate
  -- limit is positive and within the configured bounds, as a time.Duration, whatever the metrics and the arithmetic on
  -- floating point give.
  pub decision_retry_bounds :
      (c : ThrottlerConfig Float) (m : ThrottlerMetrics) (now : Time) (d : Duration)
      → validate_throttler F c ≡ []
      → decision F c m now ≡ (rate_limit, d)
      → (pos 0 <ℤ d) × (c.min_retry_after ≤ℤ d) × (d ≤ℤ c.max_retry_after)
  decision_retry_bounds c m now d valid h =
      let (on, e) = decision_retry c m now d h in
      let usable = (validate_throttler_iff F c).0 valid on in
      let bounds = compute_retry_after_bounds c m (omega (arith, usable.retry_ordered)) in
      rw e (omega (arith, usable.retry_ordered, usable.min_retry, bounds), bounds.0, bounds.1)
