-- ===== src/Ingestion/Throttler/Load.antt =====
-- How the decision follows the load.
use fluffy_dollop.Base.{◌≡◌, refl, ◌≤◌, ℕ, true, arith}
use fluffy_dollop.Base.Int.{ℤ, pos, ◌≤ℤ◌, ◌<ℤ◌}
use fluffy_dollop.Go.Float.{Float64}
use fluffy_dollop.Config.Types.{Duration, ThrottlerConfig}
use fluffy_dollop.Models.{Time}
use fluffy_dollop.Ingestion.Throttler.{
  ThrottlerMetrics, ThrottleDecision, allow, rate_limit, circuit_open, max_float, overload_score,
  oldest_age, decide, decision, staleness,
}

-- How strict a decision is.
abbrev pub severity : ThrottleDecision → ℕ
severity allow = 0
severity rate_limit = 1
severity circuit_open = 2

-- IEEE 754: the order of the numbers is transitive, and the quotient of two int64 by a positive one
-- keeps their order, since conversion and division round monotonically.
pub record RatioOrder (F : Float64) : Type 0 where
  pub lt_trans : (a b c : F.Float) → F.lt a b ≡ true → F.lt b c ≡ true → F.lt a c ≡ true
  pub ratio_mono :
      (t : F.Float) (m n q : ℤ)
      → m ≤ℤ n
      → pos 0 <ℤ q
      → F.lt t (F.div (F.of_int m) (F.of_int q)) ≡ true
      → F.lt t (F.div (F.of_int n) (F.of_int q)) ≡ true

module _ (F : Float64) (O : RatioOrder F) where
  open F use {Float, lt, of_int, div}

  -- What exceeds a score exceeds the larger ones.
  max_mono :
      (t a a' b : Float)
      → ((u : Float) → lt u a ≡ true → lt u a' ≡ true)
      → lt t (max_float F a b) ≡ true
      → lt t (max_float F a' b) ≡ true
  max_mono t a a' b up h = ground (arith, up t, up b, O.lt_trans t b a')

  score_mono :
      (c : ThrottlerConfig Float) (m : ThrottlerMetrics) (depth : ℤ) (t : Float)
      → pos 0 <ℤ c.soft_depth_limit
      → m.stream_depth ≤ℤ depth
      → lt t (overload_score F c m) ≡ true
      → lt t (overload_score F c (record m { stream_depth = depth })) ≡ true
  unfolding overload_score oldest_age
  score_mono c m depth t q h =
      max_mono t (div (of_int m.stream_depth) (of_int c.soft_depth_limit))
        (div (of_int depth) (of_int c.soft_depth_limit)) _
        (λ u. O.ratio_mono u m.stream_depth depth c.soft_depth_limit h q)

  decide_mono :
      (c : ThrottlerConfig Float) (x y : Float) (m m' : ThrottlerMetrics)
      → (lt c.circuit_open_score x ≡ true → lt c.circuit_open_score y ≡ true)
      → (lt c.rate_limit_score x ≡ true → lt c.rate_limit_score y ≡ true)
      → severity (decide F c x m).0 ≤ severity (decide F c y m').0
  unfolding decide
  decide_mono c x y m m' circuit rate = ground arith

  -- At equal ages and freshness and with a positive soft depth limit, a deeper queue is never
  -- treated more leniently.
  pub decision_mono :
      (c : ThrottlerConfig Float) (m : ThrottlerMetrics) (depth : ℤ) (now : Time)
      → pos 0 <ℤ c.soft_depth_limit
      → m.stream_depth ≤ℤ depth
      → let deeper = record m { stream_depth = depth } in
        severity (decision F c m now).0 ≤ severity (decision F c deeper now).0
  unfolding decision staleness
  decision_mono c m depth now q h =
      let deeper = record m { stream_depth = depth } in
      let graded =
        decide_mono c (overload_score F c m) (overload_score F c deeper) m deeper
          (score_mono c m depth c.circuit_open_score q h)
          (score_mono c m depth c.rate_limit_score q h) in
      ground arith

module _ (F : Float64) where
  open F use {Float}

  -- The hard depth limit and the critical age have no part in the decision: other values give the
  -- same decision and the same delay on all metrics.
  pub decision_ignores_hard_limits :
      (c : ThrottlerConfig Float) (hard : ℤ) (critical : Duration) (m : ThrottlerMetrics)
      (now : Time)
      → decision F (record c { hard_depth_limit = hard; critical_message_age = critical }) m now
        ≡ decision F c m now
  unfolding decision
  decision_ignores_hard_limits c hard critical m now = refl
