-- ===== src/Health/Checkers/Ping.antt =====
-- When a service with the registered checks is ready.
use fluffy_dollop.Base.{◌≡◌, ◌⊎◌, inl, inr, Bool, true, false, [], ◌∷◌, ◌++◌, arith}
use fluffy_dollop.Base.Text.{Text, lit}
use fluffy_dollop.Go.Errors.{Error, error_text, site_text}
use fluffy_dollop.Go.Effect.{Result-cases, ok, err}
use fluffy_dollop.Config.Types.{Duration}
use fluffy_dollop.Redis.{Redis}
use fluffy_dollop.Health.{check_all, run_all, run_check_safe, check_overall_health, handle_ready}
use fluffy_dollop.Health.Checkers.{redis_check, ready}

module _ (R : Redis) where
  open R use {State}

  -- A service answers its readiness probe with 200 exactly if Redis answers the ping before the
  -- time-out, and with 503 otherwise; for an error of the ping in time the one result of the body
  -- then has the message of the error.
  pub ready-ping :
      (in_time : Bool) (elapsed : Duration) (s : State)
      → (((ready R in_time elapsed s).0.0 ≡ 200)
          × (in_time ≡ true)
          × ((v : Text) × ((R.ping s).0 ≡ ok v)))
        ⊎ (((ready R in_time elapsed s).0.0 ≡ 503)
            × ((in_time ≡ false)
                ⊎ ((e : Error) × ((R.ping s).0 ≡ err e)
                    × ((ready R in_time elapsed s).0.1.checks
                        ≡ record {
                          name = lit "redis";
                          healthy = false;
                          message = lit "redis ping failed: " ++ error_text e;
                          duration = elapsed;
                        }
                          ∷ []))))
  unfolding ready redis_check handle_ready check_all run_all run_check_safe check_overall_health
      error_text site_text
  ready-ping true elapsed s = elim (Result-cases (R.ping s).0) [
    | inl (v, good) ↦ inl (ground arith, ground arith, (v, good))
    | inr (e, bad) ↦ inr (ground arith, inr (e, bad, ground arith))
  ]
  ready-ping false elapsed s = elim (Result-cases (R.ping s).0) [
    | inl (v, good) ↦ inr (ground arith, inl (ground arith))
    | inr (e, bad) ↦ inr (ground arith, inl (ground arith))
  ]
