-- ===== src/Worker/Process/Redelivery.antt =====
-- Deliveries that are acknowledged without being processed.
use mathlib.Core.Path.{subst}
use fluffy_dollop.Base.{◌≡◌, Bool, true, false, some, arith}
use fluffy_dollop.Base.Int.{ℤ, pos}
use fluffy_dollop.Base.Text.{Text, lit}
use fluffy_dollop.Go.Effect.{ok, ok-injective}
use fluffy_dollop.Config.Types.{Duration}
use fluffy_dollop.Redis.{Redis}
use fluffy_dollop.Redis.Laws.{KeyLaws}
use fluffy_dollop.Queue.Types.{JobEnvelope, Json}
use fluffy_dollop.Queue.Dlq.{reset_job}
use fluffy_dollop.Queue.Consumer.{Consumer, ack}
use fluffy_dollop.Worker.Dedup.{
  key_of, dedup_key, World, Processor, on_redis, count_duplicate, dedup_process,
}
use fluffy_dollop.Worker.Dedup.Laws.{after_check}
use fluffy_dollop.Worker.Process.{process_message}

module _ (R : Redis) (J : Json) (K : KeyLaws R) where
  open K use {value}

  -- The check of an attempt answers that its key is there.
  abbrev pub IsDuplicate : Duration → JobEnvelope → World R → Type 0
  IsDuplicate ttl envelope w = (R.set_nx (key_of envelope) (lit "1") ttl w.redis).0 ≡ ok false

  duplicate_acked :
      (p : Processor R) (ttl : Duration) (c : Consumer) (envelope : JobEnvelope) (id : Text)
      (now : ℤ) (w : World R)
      → IsDuplicate ttl envelope w
      → process_message R J (dedup_process R p ttl) c envelope id now w
        ≡ (on_redis R (ack R J c id) (count_duplicate R (after_check R K ttl envelope w))).1
  unfolding process_message dedup_process
  duplicate_acked p ttl c envelope id now w old = ground arith

  -- A worker that stops between the check of an attempt and its end leaves the key behind. When
  -- the message is then delivered again and Redis answers the check, the message is acknowledged
  -- and no processor is called, whatever the processor is: the job is lost.
  pub interrupted_job_lost :
      (p : Processor R) (ttl : Duration) (c : Consumer) (envelope : JobEnvelope) (id : Text)
      (now : ℤ) (w : World R) (answer : Bool)
      → (R.set_nx (key_of envelope) (lit "1") ttl w.redis).0 ≡ ok true
      → (R.set_nx (key_of envelope) (lit "1") ttl (after_check R K ttl envelope w).redis).0
        ≡ ok answer
      → process_message R J
          (dedup_process R p ttl)
          c
          envelope
          id
          now
          (after_check R K ttl envelope w)
        ≡ (on_redis R
            (ack R J c id)
            (count_duplicate R (after_check R K ttl envelope (after_check R K ttl envelope w)))).1
  interrupted_job_lost p ttl c envelope id now w true first second = absurd (
      K.set_nx_present (key_of envelope) (lit "1") (lit "1") ttl _
        (K.set_nx_sets (key_of envelope) (lit "1") ttl w.redis first) second)
  interrupted_job_lost p ttl c envelope id now w false first second =
      duplicate_acked p ttl c envelope id now _ second

  -- A job that `Requeue` takes out of the dead letter queue has retry count 0 again. While the key
  -- of its first attempt is there and Redis answers the check, it is acknowledged and no processor
  -- is called.
  pub requeued_job_lost :
      (p : Processor R) (ttl : Duration) (c : Consumer) (job requeued : JobEnvelope) (id : Text)
      (now : ℤ) (w : World R) (v : Text) (answer : Bool)
      → reset_job (some job) ≡ ok requeued
      → value w.redis (dedup_key job.job_id (pos 0)) ≡ some v
      → (R.set_nx (key_of requeued) (lit "1") ttl w.redis).0 ≡ ok answer
      → process_message R J (dedup_process R p ttl) c requeued id now w
        ≡ (on_redis R (ack R J c id) (count_duplicate R (after_check R K ttl requeued w))).1
  requeued_job_lost p ttl c job requeued id now w v true reset there check = absurd (
      K.set_nx_present (key_of requeued) (lit "1") v ttl w.redis
        (subst (λ j. value w.redis (key_of j) ≡ some v) (ok-injective reset) there) check)
  requeued_job_lost p ttl c job requeued id now w v false reset there check =
      duplicate_acked p ttl c requeued id now w check
