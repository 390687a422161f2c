-- ===== src/Config/Validator/Whole.antt =====
-- `Validate` on the whole configuration.
use fluffy_dollop.Base.{◌≡◌, refl, ◌↔◌, true, List, [], ◌∷◌, arith}
use fluffy_dollop.Base.Int.{pos, ◌≤ℤ◌}
use fluffy_dollop.Go.Float.{Float64}
use fluffy_dollop.Config.Types.{Config, IngestionConfig}
use fluffy_dollop.Config.Issue.{Issues, Section}
use fluffy_dollop.Config.Validator.{report, validate, validate_ingestion}
use fluffy_dollop.Config.Validator.Sections.{
  IsUsableServer, IsUsableRedis, IsUsableQueue, IsUsablePostgres, IsUsableWorker,
  IsUsableObservability, IsUsableThrottler, IsUsableRegistry, validate_server_iff,
  validate_redis_iff, validate_queue_iff, validate_postgres_iff, validate_worker_iff,
  validate_observability_iff, validate_throttler_iff, validate_registry_iff,
}

module _ (F : Float64) where
  open F use {Float}

  report-nil :
      (s : Section) (issues : Issues) (errs : List (Section × Issues))
      → report F s issues errs ≡ []
      → (issues ≡ []) × (errs ≡ [])
  unfolding report
  report-nil s [] errs h = (refl, h)
  report-nil s (i ∷ is) errs h = cc

  report_of_nil :
      (s : Section) (issues : Issues) (errs : List (Section × Issues))
      → issues ≡ []
      → errs ≡ []
      → report F s issues errs ≡ []
  unfolding report
  report_of_nil s [] errs h k = k
  report_of_nil s (i ∷ is) errs h k = cc

  validate_ingestion_iff :
      (c : IngestionConfig Float) → (validate_ingestion F c ≡ []) ↔ (pos 0 ≤ℤ c.max_queue_depth)
  unfolding validate_ingestion
  validate_ingestion_iff c = ground arith

  pub record IsUsable (c : Config Float) : Type 0 where
    pub server : IsUsableServer c.server
    pub redis : IsUsableRedis c.redis
    pub queue : IsUsableQueue c.queue
    pub postgres : IsUsablePostgres c.postgres
    pub max_queue_depth : pos 0 ≤ℤ c.ingestion.max_queue_depth
    pub worker : IsUsableWorker c.worker
    pub observability : IsUsableObservability F c.observability
    pub throttler : c.ingestion.throttler.enabled ≡ true → IsUsableThrottler F c.ingestion.throttler
    pub registry : IsUsableRegistry c.registry

  -- `Validate` accepts a configuration exactly if every section of it is usable, the throttler
  -- inside the ingestion section only where it is enabled.
  pub validate_iff : (c : Config Float) → (validate F c ≡ []) ↔ IsUsable c
  unfolding validate
  validate_iff c = (
    λ h.
        let (a, h1) = report-nil Section.server _ _ h in
        let (b, h2) = report-nil Section.redis _ _ h1 in
        let (d, h3) = report-nil Section.queue _ _ h2 in
        let (e, h4) = report-nil Section.postgres _ _ h3 in
        let (f, h5) = report-nil Section.ingestion _ _ h4 in
        let (g, h6) = report-nil Section.worker _ _ h5 in
        let (i, h7) = report-nil Section.observability _ _ h6 in
        let (j, h8) = report-nil Section.throttler _ _ h7 in
        let (k, h9) = report-nil Section.registry _ _ h8 in
        record {
          server = (validate_server_iff c.server).0 a;
          redis = (validate_redis_iff c.redis).0 b;
          queue = (validate_queue_iff c.queue).0 d;
          postgres = (validate_postgres_iff c.postgres).0 e;
          max_queue_depth = (validate_ingestion_iff c.ingestion).0 f;
          worker = (validate_worker_iff c.worker).0 g;
          observability = (validate_observability_iff F c.observability).0 i;
          throttler = (validate_throttler_iff F c.ingestion.throttler).0 j;
          registry = (validate_registry_iff c.registry).0 k;
        },
    λ v. report_of_nil Section.server _ _ ((validate_server_iff c.server).1 v.server) (
        report_of_nil Section.redis _ _ ((validate_redis_iff c.redis).1 v.redis) (
          report_of_nil Section.queue _ _ ((validate_queue_iff c.queue).1 v.queue) (
            report_of_nil Section.postgres _ _ ((validate_postgres_iff c.postgres).1 v.postgres) (
              report_of_nil Section.ingestion _ _
                ((validate_ingestion_iff c.ingestion).1 v.max_queue_depth)
                (report_of_nil Section.worker _ _ ((validate_worker_iff c.worker).1 v.worker) (
                  report_of_nil Section.observability _ _
                    ((validate_observability_iff F c.observability).1 v.observability)
                    (report_of_nil Section.throttler _ _
                      ((validate_throttler_iff F c.ingestion.throttler).1 v.throttler)
                      (report_of_nil Section.registry _ []
                        ((validate_registry_iff c.registry).1 v.registry) refl)))))))),
  )
