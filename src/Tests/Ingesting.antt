-- ===== src/Tests/Ingesting.antt =====
-- Runs of the endpoint and of the throttler.
use native.Mathlib.Nat.{le-div_iff_mul-le}
use fluffy_dollop.Base.{
  ℕ, ◌+◌, ◌*◌, ◌/◌, ◌≤◌, ◌<◌, ◌≡◌, refl, ◌≢◌, ◌↔◌, Bool, true, false, Option, none, List, [], ◌∷◌,
  arith, ltb, In,
}
use fluffy_dollop.Base.Int.{ℤ, pos, negsuc, pos_part, neg_part, ◌≤ℤ◌, ◌<ℤ◌}
use fluffy_dollop.Base.Text.{Text}
use fluffy_dollop.Config.Types.{ThrottlerConfig}
use fluffy_dollop.Config.Defaults.{default_throttler}
use fluffy_dollop.Config.Validator.{validate_throttler}
use fluffy_dollop.Ingestion.Throttler.{ThrottlerMetrics, rate_limit, decision}
use fluffy_dollop.Ingestion.Throttler.Bounds.{decision_retry_bounds}
use fluffy_dollop.Ingestion.Throttler.Load.{severity, RatioOrder, decision_mono}
use fluffy_dollop.Tests.Samples.{of_thousands, thousandths}

-- A depth of 120 with a soft limit of 100.
abbrev loaded : ThrottlerMetrics
loaded = record {
  stream_depth = pos 120;
  pending_count = pos 3;
  oldest_message_age = pos 2;
  last_updated = pos 1000;
}

abbrev throttling : ThrottlerConfig ℕ
throttling = default_throttler thousandths

throttling_valid : validate_throttler thousandths throttling ≡ []
unfolding validate_throttler default_throttler
throttling_valid = refl

loaded_answer :
    decision thousandths throttling loaded (pos 1000000000001) ≡ (rate_limit, pos 1000000000)
unfolding decision default_throttler fluffy_dollop.Base.Int.wrap64 fluffy_dollop.Base.Int.◌*ℤ◌
    fluffy_dollop.Base.Int.saturate64 fluffy_dollop.Base.Int.◌-ℤ◌ fluffy_dollop.Base.Int.◌+ℤ◌
loaded_answer = refl

decision_retry_bounds_example :
    (pos 0 <ℤ pos 1000000000)
    × (throttling.min_retry_after ≤ℤ pos 1000000000)
    × (pos 1000000000 ≤ℤ throttling.max_retry_after)
decision_retry_bounds_example =
    decision_retry_bounds thousandths throttling loaded (pos 1000000000001) (pos 1000000000)
      throttling_valid loaded_answer

div_mono : (k x y : ℕ) → 0 < k → x ≤ y → x / k ≤ y / k
div_mono k x y some_k h =
    let below = (le-div_iff_mul-le {k = k} {x = x / k} {y = x} some_k).0 (omega arith) in
    (le-div_iff_mul-le {k = k} {x = x / k} {y = y} some_k).1 (omega (arith, below))

ratio_grows :
    (t : ℕ) (m n q : ℤ)
    → m ≤ℤ n
    → pos 0 <ℤ q
    → ltb t (of_thousands m * 1000 / of_thousands q) ≡ true
    → ltb t (of_thousands n * 1000 / of_thousands q) ≡ true
ratio_grows t m n q h some_q l =
    let grows =
      div_mono (of_thousands q) (of_thousands m * 1000) (of_thousands n * 1000) (ground arith)
        (ground arith) in
    ground arith

abbrev thousandths_ordered : RatioOrder thousandths
thousandths_ordered = record { lt_trans = λ a b c h k. ground arith; ratio_mono = ratio_grows }

soft_positive : pos 0 <ℤ throttling.soft_depth_limit
unfolding default_throttler
soft_positive = omega arith

decision_mono_example :
    severity (decision thousandths throttling loaded (pos 1000000000001)).0
    ≤ severity
        (decision thousandths throttling
          (record loaded { stream_depth = pos 900 })
          (pos 1000000000001)).0
decision_mono_example =
    decision_mono thousandths thousandths_ordered throttling loaded (pos 900) (pos 1000000000001)
      soft_positive (omega arith)
