-- ===== src/Health/Checkers.antt =====
-- internal/health/redis.go and postgres.go, and the checks that internal/bootstrap/health.go
-- registers.
pub mod Ping
use fluffy_dollop.Base.{ℕ, Bool, true, false, none, some, [], ◌∷◌, if◌then◌else◌}
use fluffy_dollop.Base.Text.{Text, lit}
use fluffy_dollop.Go.Errors.{redis_ping_failed, postgres_ping_failed}
use fluffy_dollop.Go.Effect.{Result, ok, err, Io, pure, ◌>>◌, wrapping}
use fluffy_dollop.Config.Types.{Duration}
use fluffy_dollop.Redis.{Redis}
use fluffy_dollop.Health.{CheckOutcome, returned, timed_out, Check, AggregatedHealth, handle_ready}

abbrev pub redis_name : Text
redis_name = lit "redis"

abbrev pub postgres_name : Text
postgres_name = lit "postgres"

-- `PostgresChecker.Check`, on what `pool.Ping` does.
unfoldable pub postgres_check : {S : Type 0} → Io S (Unit {0}) → Io S (Unit {0})
postgres_check ping = wrapping postgres_ping_failed ping

-- What the aggregator sees of a check that returns before the context is done, or does not.
abbrev pub outcome_of : Bool → Result (Unit {0}) → CheckOutcome
outcome_of in_time (ok _) = if in_time then returned none else timed_out
outcome_of in_time (err e) = if in_time then returned (some e) else timed_out

module _ (R : Redis) where
  open R use {State}

  unfoldable pub redis_check : Io State (Unit {0})
  redis_check = wrapping redis_ping_failed R.ping >> pure tt

  -- `GET /health/ready` on the aggregator of `SetupHealthChecks`, whose one checker is that of
  -- Redis; `in_time` says whether the check is done before the time-out.
  unfoldable pub ready : Bool → Duration → State → (ℕ × AggregatedHealth) × State
  unfolding redis_check
  ready in_time elapsed s =
      let (r, s') = redis_check s in
      (
        handle_ready
            (record { name = redis_name; outcome = outcome_of in_time r; elapsed = elapsed } ∷ []),
        s',
      )
