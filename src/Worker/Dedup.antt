-- ===== src/Worker/Dedup.antt =====
-- internal/worker/dedup_processor.go. A processor is a call on the worker's world: Redis, and the
-- counter of the duplicates.
pub mod Keys
pub mod Laws
use fluffy_dollop.Base.{Bool, true, false, ◌++◌}
use fluffy_dollop.Base.Int.{ℤ, pos, ◌+ℤ◌, wrap64}
use fluffy_dollop.Base.Text.{Text, lit}
use fluffy_dollop.Go.Errors.{wrap, dedup_check_failed}
use fluffy_dollop.Go.Effect.{Result, ok, err, Io}
use fluffy_dollop.Go.Strconv.{format_int}
use fluffy_dollop.Config.Types.{Duration}
use fluffy_dollop.Redis.{Redis}
use fluffy_dollop.Queue.Types.{JobEnvelope}

-- `fmt.Sprintf("dedup:%s:%d", jobID, retryCount)`.
unfoldable pub dedup_key : Text → ℤ → Text
dedup_key job_id retry_count = lit "dedup:" ++ (job_id ++ (lit ":" ++ format_int retry_count))

abbrev pub key_of : JobEnvelope → Text
key_of envelope = dedup_key envelope.job_id envelope.retry_count

module _ (R : Redis) where
  pub record World : Type 0 where
    pub redis : R.State
    pub duplicate_count : ℤ

  abbrev pub Processor : Type 0
  Processor = JobEnvelope → Io World (Unit {0})

  -- A call on Redis, in the worker's world.
  abbrev pub on_redis : {A : Type 0} → Io R.State A → Io World A
  on_redis m w = let (r, s) = m w.redis in (r, record w { redis = s })

  -- The counter is an int64.
  abbrev pub count_duplicate : World → World
  count_duplicate w = record w { duplicate_count = wrap64 (w.duplicate_count +ℤ pos 1) }

  -- `Process` of the deduplicating processor.
  unfoldable pub dedup_process : Processor → Duration → Processor
  dedup_process downstream ttl envelope w =
      let (r, w') = on_redis (R.set_nx (key_of envelope) (lit "1") ttl) w in
      elim r [
        | err e ↦ (err (wrap dedup_check_failed e), w')
        | ok was_new ↦ elim was_new [
          | true ↦ downstream envelope w'
          | false ↦ (ok tt, count_duplicate w')
        ]
      ]
