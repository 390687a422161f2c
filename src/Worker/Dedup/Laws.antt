-- ===== src/Worker/Dedup/Laws.antt =====
-- When a job is processed, and when it is taken for a duplicate.
use fluffy_dollop.Base.{◌≡◌, ◌≢◌, ◌∙◌, none, sym, ◌⊎◌, inl, inr, true, false, some, arith}
use fluffy_dollop.Base.Int.{pos, ◌+ℤ◌, wrap64, IsInt64, wrap64-IsInt64, wrap64-succ_ne}
use fluffy_dollop.Base.Text.{Text, lit}
use fluffy_dollop.Go.Errors.{Error, wrap, dedup_check_failed}
use fluffy_dollop.Go.Effect.{Result-cases, ok, err}
use fluffy_dollop.Config.Types.{Duration}
use fluffy_dollop.Redis.{Redis}
use fluffy_dollop.Redis.Laws.{KeyLaws}
use fluffy_dollop.Queue.Types.{JobEnvelope}
use fluffy_dollop.Queue.Consumer.{failed_once}
use fluffy_dollop.Worker.Dedup.{key_of, World, Processor, on_redis, count_duplicate, dedup_process}
use fluffy_dollop.Worker.Dedup.Keys.{dedup_key_injective}

module _ (R : Redis) (K : KeyLaws R) where
  open K use {value}

  -- The key of the attempt is there: an earlier delivery of it has begun.
  abbrev pub HasBegun : JobEnvelope → World R → Type 0
  HasBegun envelope w = (v : Text) × (value w.redis (key_of envelope) ≡ some v)

  -- The world after the SETNX of an attempt.
  abbrev pub after_check : Duration → JobEnvelope → World R → World R
  after_check ttl envelope w = (on_redis R (R.set_nx (key_of envelope) (lit "1") ttl) w).1

  -- An attempt that has begun is not processed again: its processor is not called, and the result
  -- is success, or the error of the check.
  pub dedup_process_begun :
      (downstream : Processor R) (ttl : Duration) (envelope : JobEnvelope) (w : World R)
      → HasBegun envelope w
      → let w' = after_check ttl envelope w in
        (dedup_process R downstream ttl envelope w ≡ (ok tt, count_duplicate R w'))
        ⊎ ((e : Error) × (dedup_process R downstream ttl envelope w
              ≡ (err (wrap dedup_check_failed e), w')))
  unfolding dedup_process
  dedup_process_begun downstream ttl envelope w (v, there) =
      elim (Result-cases (R.set_nx (key_of envelope) (lit "1") ttl w.redis).0) [
        | inr (e, bad) ↦ inr (e, ground arith)
        | inl (false, old) ↦ inl (ground arith)
        | inl (true, new) ↦
            absurd (K.set_nx_present (key_of envelope) (lit "1") v ttl w.redis there new)
      ]

  -- An attempt that has not begun is processed if Redis sets its key, in the world where the key
  -- is set.
  pub dedup_process_new :
      (downstream : Processor R) (ttl : Duration) (envelope : JobEnvelope) (w : World R)
      → (R.set_nx (key_of envelope) (lit "1") ttl w.redis).0 ≡ ok true
      → let w' = after_check ttl envelope w in
        (dedup_process R downstream ttl envelope w ≡ downstream envelope w') × HasBegun envelope w'
  unfolding dedup_process
  dedup_process_new downstream ttl envelope w new =
      (ground arith, (lit "1", K.set_nx_sets (key_of envelope) (lit "1") ttl w.redis new))

  -- The retry has another key than the attempt that failed.
  retry_key_apart :
      (envelope : JobEnvelope) (e : Error)
      → IsInt64 envelope.retry_count
      → key_of envelope ≢ key_of (failed_once envelope e)
  retry_key_apart envelope e small same = wrap64-succ_ne envelope.retry_count small (
      sym (
        dedup_key_injective envelope.job_id envelope.retry_count
          (wrap64 (envelope.retry_count +ℤ pos 1)) small
          (wrap64-IsInt64 (envelope.retry_count +ℤ pos 1)) same))

  -- A processor that does not touch the key.
  abbrev pub KeepsKey : Text → Processor R → Type 0
  KeepsKey key p =
      (envelope : JobEnvelope) (w : World R) → value (p envelope w).1.redis key ≡ value w.redis key

  dedup_process_keeps :
      (downstream : Processor R) (ttl : Duration) (envelope : JobEnvelope) (w : World R)
      (key : Text)
      → key_of envelope ≢ key
      → KeepsKey key downstream
      → value (dedup_process R downstream ttl envelope w).1.redis key ≡ value w.redis key
  unfolding dedup_process
  dedup_process_keeps downstream ttl envelope w key apart keeps =
      let other = K.set_nx_other (key_of envelope) (lit "1") key ttl w.redis apart in
      elim (Result-cases (R.set_nx (key_of envelope) (lit "1") ttl w.redis).0) [
        | inr (e, bad) ↦ rw (bad, dedup_process) other
        | inl (false, old) ↦ rw (old, dedup_process) other
        | inl (true, new) ↦
            rw (new, dedup_process) (keeps envelope (after_check ttl envelope w) ∙ other)
      ]

  dedup_process_absent :
      (downstream : Processor R) (ttl : Duration) (envelope : JobEnvelope) (w : World R)
      → value w.redis (key_of envelope) ≡ none
      → let w' = after_check ttl envelope w in
        (dedup_process R downstream ttl envelope w ≡ downstream envelope w')
        ⊎ ((e : Error) × (dedup_process R downstream ttl envelope w
              ≡ (err (wrap dedup_check_failed e), w')))
  unfolding dedup_process
  dedup_process_absent downstream ttl envelope w absent =
      elim (Result-cases (R.set_nx (key_of envelope) (lit "1") ttl w.redis).0) [
        | inr (e, bad) ↦ inr (e, ground arith)
        | inl (true, new) ↦ inl (ground arith)
        | inl (false, old) ↦
            absurd (K.set_nx_absent (key_of envelope) (lit "1") ttl w.redis absent old)
      ]

  -- A retry is not taken for a duplicate of the attempt before it: when the deduplicating processor
  -- has run the first attempt, whatever came of it, its run of the retry hands the job to the
  -- processor behind it, or returns the error of its check. That is for a retry count that an int64
  -- holds, a retry whose own key was not there before, say from the time before a requeue, and a
  -- processor that does not touch that key.
  pub retry_not_duplicate :
      (downstream : Processor R) (ttl : Duration) (envelope : JobEnvelope) (e : Error) (w : World R)
      → IsInt64 envelope.retry_count
      → value w.redis (key_of (failed_once envelope e)) ≡ none
      → KeepsKey (key_of (failed_once envelope e)) downstream
      → let again = failed_once envelope e in
        let w1 = (dedup_process R downstream ttl envelope w).1 in
        let w2 = after_check ttl again w1 in
        (dedup_process R downstream ttl again w1 ≡ downstream again w2)
        ⊎ ((why : Error) × (dedup_process R downstream ttl again w1
              ≡ (err (wrap dedup_check_failed why), w2)))
  retry_not_duplicate downstream ttl envelope e w small fresh keeps =
      dedup_process_absent downstream ttl (failed_once envelope e) _ (
        dedup_process_keeps downstream ttl envelope w (key_of (failed_once envelope e))
          (retry_key_apart envelope e small) keeps
        ∙ fresh)
