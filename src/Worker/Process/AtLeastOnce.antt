-- ===== src/Worker/Process/AtLeastOnce.antt =====
-- Delivery at least once, for one message.
use fluffy_dollop.Base.{◌≡◌, ◌⊎◌, inl, inr, ◌≢◌, true, false, arith, In}
use fluffy_dollop.Base.Int.{ℤ}
use fluffy_dollop.Base.Text.{Text, lit}
use fluffy_dollop.Go.Errors.{Error}
use fluffy_dollop.Go.Effect.{Result-cases, ok, err}
use fluffy_dollop.Config.Types.{Duration}
use fluffy_dollop.Redis.{Redis}
use fluffy_dollop.Redis.Laws.{QueueLaws}
use fluffy_dollop.Queue.Types.{JobEnvelope, Json}
use fluffy_dollop.Queue.Consumer.{Consumer, ack, failed_once, retry}
use fluffy_dollop.Queue.Consumer.Delivery.{
  HasRetries, IsPending, IsQueued, retry_keeps_job, ack_others,
}
use fluffy_dollop.Queue.Consumer.Exhausted.{retry_others}
use fluffy_dollop.Worker.Dedup.{World, Processor, on_redis, key_of, dedup_process}
use fluffy_dollop.Worker.Process.{process_message}

module _ (R : Redis) (J : Json) (L : QueueLaws R) where
  open L use {pending}

  -- A processor that acknowledges nothing itself.
  abbrev pub LeavesPending : Processor R → Type 0
  LeavesPending p =
      (envelope : JobEnvelope) (w : World R) (stream group id : Text)
      → In id (pending w.redis stream group)
      → In id (pending (p envelope w).1.redis stream group)

  pub process_failed :
      (p : Processor R) (c : Consumer) (envelope : JobEnvelope) (id : Text) (now : ℤ) (w : World R)
      (e : Error)
      → (p envelope w).0 ≡ err e
      → (process_message R J p c envelope id now w).redis
        ≡ (retry R J c envelope id e now (p envelope w).1.redis).1
  unfolding process_message
  process_failed p c envelope id now w e h = ground arith

  pub process_done :
      (p : Processor R) (c : Consumer) (envelope : JobEnvelope) (id : Text) (now : ℤ) (w : World R)
      → (p envelope w).0 ≡ ok tt
      → (process_message R J p c envelope id now w).redis ≡ (ack R J c id (p envelope w).1.redis).1
  unfolding process_message
  process_done p c envelope id now w h = ground arith

  -- A pending message whose job has a retry left is processed successfully, or stays pending, or
  -- the job is queued again with one more retry counted: whatever the processor does, if it
  -- acknowledges nothing itself, and whichever commands fail.
  pub process_at_least_once :
      (p : Processor R) (c : Consumer) (envelope : JobEnvelope) (id : Text) (now : ℤ) (w : World R)
      → LeavesPending p
      → HasRetries envelope
      → IsPending R J L c id w.redis
      → let s' = (process_message R J p c envelope id now w).redis in
        ((p envelope w).0 ≡ ok tt)
        ⊎ IsPending R J L c id s'
        ⊎ ((e : Error) × ((p envelope w).0 ≡ err e) × IsQueued R J L c (failed_once envelope e) s')
  process_at_least_once p c envelope id now w leaves left h = elim (Result-cases (p envelope w).0) [
    | inl (_, done) ↦ inl done
    | inr (e, bad) ↦
        let there = leaves envelope w c.stream_name c.consumer_group id h in
        rw (process_failed p c envelope id now w e bad)
          (elim (retry_keeps_job R J L c envelope id e now (p envelope w).1.redis left there) [
            | inl still ↦ inr (inl still)
            | inr again ↦ inr (inr (e, bad, again))
          ])
  ]

  -- Handling one message takes no other off the pending list, if the processor does not.
  pub process_others :
      (p : Processor R) (c : Consumer) (envelope : JobEnvelope) (id other : Text) (now : ℤ)
      (w : World R)
      → LeavesPending p
      → other ≢ id
      → IsPending R J L c other w.redis
      → IsPending R J L c other (process_message R J p c envelope id now w).redis
  process_others p c envelope id other now w leaves ne h =
      let there = leaves envelope w c.stream_name c.consumer_group other h in
      elim (Result-cases (p envelope w).0) [
        | inl (_, done) ↦
            rw (process_done p c envelope id now w done) (ack_others R J L c id other _ ne there)
        | inr (e, bad) ↦
            rw (process_failed p c envelope id now w e bad)
              (retry_others R J L c envelope id other e now _ ne there)
      ]

  -- Deduplication acknowledges nothing, if the processor behind it does not.
  pub dedup-LeavesPending :
      (p : Processor R) (ttl : Duration) → LeavesPending p → LeavesPending (dedup_process R p ttl)
  unfolding dedup_process
  dedup-LeavesPending p ttl leaves envelope w stream group id h =
      let check = R.set_nx (key_of envelope) (lit "1") ttl in
      let there : In id (pending (check w.redis).1 stream group) =
        rw (L.set_nx_pending (key_of envelope) (lit "1") ttl w.redis stream group) h in
      elim (Result-cases (check w.redis).0) [
        | inr (e, bad) ↦ rw (bad, dedup_process) there
        | inl (false, old) ↦ rw (old, dedup_process) there
        | inl (true, new) ↦
            rw (new, dedup_process) (leaves envelope (on_redis R check w).1 stream group id there)
      ]
