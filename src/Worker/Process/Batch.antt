-- ===== src/Worker/Process/Batch.antt =====
-- Delivery at least once, for all the messages that a worker handles one after the other.
use fluffy_dollop.Base.{◌≡◌, ◌⊎◌, inl, inr, ◌≢◌, refl, sym, List, [], ◌∷◌, All, In}
use fluffy_dollop.Base.Int.{ℤ}
use fluffy_dollop.Base.Text.{Text}
use fluffy_dollop.Go.Errors.{Error}
use fluffy_dollop.Go.Effect.{Result-cases, then_ok, then_err, ok, err}
use fluffy_dollop.Redis.{Redis, XMessage}
use fluffy_dollop.Redis.Laws.{QueueLaws}
use fluffy_dollop.Queue.Types.{JobEnvelope, Json}
use fluffy_dollop.Queue.Consumer.{Consumer, ack, failed_once, reenqueue, retry}
use fluffy_dollop.Queue.Consumer.Delivery.{
  HasRetries, IsPending, IsQueued, ack_state, retry_left, retry_args, reenqueue_state,
  reenqueue_unmarshalled,
}
use fluffy_dollop.Worker.Dedup.{World, Processor}
use fluffy_dollop.Worker.Process.{process_message}
use fluffy_dollop.Worker.Process.AtLeastOnce.{
  LeavesPending, process_at_least_once, process_others, process_failed, process_done,
}

-- A message that is handled: its envelope, its id, and the Unix time of a retry.
pub record Delivery : Type 0 where
  pub envelope : JobEnvelope
  pub id : Text
  pub now : ℤ

-- No message is delivered twice.
abbrev pub Distinct : List Delivery → Type 0
Distinct [] = Unit
Distinct (d ∷ ds) = All (λ k. k.id ≢ d.id) ds × Distinct ds

module _ (R : Redis) (J : Json) (L : QueueLaws R) where
  open R use {State}
  open L use {entries}

  -- A processor that deletes no entry of a stream.
  abbrev pub LeavesEntries : Processor R → Type 0
  LeavesEntries p =
      (envelope : JobEnvelope) (w : World R) (stream : Text) (m : XMessage)
      → In m (entries w.redis stream)
      → In m (entries (p envelope w).1.redis stream)

  reenqueue_entries :
      (c : Consumer) (envelope : JobEnvelope) (s : State) (stream : Text) (m : XMessage)
      → In m (entries s stream)
      → In m (entries (reenqueue R J c envelope s).1 stream)
  reenqueue_entries c envelope s stream m h = elim (Result-cases (J.marshal_envelope envelope)) [
    | inl (json, good) ↦
        rw (reenqueue_state R J L c envelope json s good)
          (L.xadd_keeps_entries (retry_args R J L c json) s stream m refl h)
    | inr (e, bad) ↦ rw (reenqueue_unmarshalled R J L c envelope e s bad) h
  ]

  ack_keeps_entries :
      (c : Consumer) (id : Text) (s : State) (stream : Text) (m : XMessage)
      → In m (entries s stream)
      → In m (entries (ack R J c id s).1 stream)
  ack_keeps_entries c id s stream m h =
      rw (ack_state R J L c id s, L.xack_entries c.stream_name c.consumer_group id s stream) h

  retry_entries :
      (c : Consumer) (envelope : JobEnvelope) (id : Text) (e : Error) (now : ℤ) (s : State)
      (stream : Text) (m : XMessage)
      → HasRetries envelope
      → In m (entries s stream)
      → In m (entries (retry R J c envelope id e now s).1 stream)
  retry_entries c envelope id e now s stream m left h =
      let again = reenqueue R J c (failed_once envelope e) in
      let there = reenqueue_entries c (failed_once envelope e) s stream m h in
      rw (retry_left R J L c envelope id e now s left) (elim (Result-cases (again s).0) [
        | inl (_, added) ↦
            rw (then_ok again (ack R J c id) s tt added) (ack_keeps_entries c id _ stream m there)
        | inr (e', lost) ↦ rw (then_err again (ack R J c id) s e' lost) there
      ])

  module _ (p : Processor R) (c : Consumer) where
    abbrev pub handle : Delivery → World R → World R
    handle d w = process_message R J p c d.envelope d.id d.now w

    abbrev pub handle_all : List Delivery → World R → World R
    handle_all [] w = w
    handle_all (d ∷ ds) w = handle_all ds (handle d w)

    -- What has become of a message that was handled from one world on, at the end.
    abbrev pub Fate : Delivery → World R → World R → Type 0
    Fate d w end =
        ((p d.envelope w).0 ≡ ok tt)
        ⊎ IsPending R J L c d.id end.redis
        ⊎ ((e : Error) × ((p d.envelope w).0 ≡ err e)
            × IsQueued R J L c (failed_once d.envelope e) end.redis)

    abbrev pub Fates : List Delivery → World R → World R → Type 0
    Fates [] w end = Unit
    Fates (d ∷ ds) w end = Fate d w end × Fates ds (handle d w) end

    module _ (keeps : LeavesPending R J L p) (kept : LeavesEntries p) where
      handle-entries :
          (d : Delivery) (w : World R) (stream : Text) (m : XMessage)
          → HasRetries d.envelope
          → In m (entries w.redis stream)
          → In m (entries (handle d w).redis stream)
      handle-entries d w stream m left h =
          let there = kept d.envelope w stream m h in
          elim (Result-cases (p d.envelope w).0) [
            | inl (_, good) ↦
                rw (process_done R J L p c d.envelope d.id d.now w good)
                  (ack_keeps_entries c d.id _ stream m there)
            | inr (e, bad) ↦
                rw (process_failed R J L p c d.envelope d.id d.now w e bad)
                  (retry_entries c d.envelope d.id e d.now _ stream m left there)
          ]

      handle_all-entries :
          (ds : List Delivery) (w : World R) (stream : Text) (m : XMessage)
          → All (λ d. HasRetries d.envelope) ds
          → In m (entries w.redis stream)
          → In m (entries (handle_all ds w).redis stream)
      handle_all-entries [] w stream m left h = h
      handle_all-entries (d ∷ ds) w stream m (here, rest) h =
          handle_all-entries ds (handle d w) stream m rest (handle-entries d w stream m here h)

      handle_all-IsPending :
          (ds : List Delivery) (w : World R) (id : Text)
          → All (λ d. d.id ≢ id) ds
          → IsPending R J L c id w.redis
          → IsPending R J L c id (handle_all ds w).redis
      handle_all-IsPending [] w id apart h = h
      handle_all-IsPending (d ∷ ds) w id (here, rest) h =
          handle_all-IsPending ds (handle d w) id rest
            (process_others R J L p c d.envelope d.id id d.now w keeps (λ e. here (sym e)) h)

      rest-IsPending :
          (d : Delivery) (ds : List Delivery) (w : World R)
          → All (λ k. k.id ≢ d.id) ds
          → All (λ k. IsPending R J L c k.id w.redis) ds
          → All (λ k. IsPending R J L c k.id (handle d w).redis) ds
      rest-IsPending d [] w apart all = tt
      rest-IsPending d (k ∷ ds) w (here, rest) (there, all) = (
        process_others R J L p c d.envelope d.id k.id d.now w keeps here there,
        rest-IsPending d ds w rest all,
      )

      -- Of messages that are pending and have a retry left, handled one after the other, none is lost,
      -- whichever commands fail: at the end each one was processed without an error, or is still
      -- pending, or its job is in the stream again with one more retry counted. That is for messages
      -- with different ids and a processor that acknowledges no message and deletes no entry itself.
      pub handle_all-Fates :
          (ds : List Delivery) (w : World R)
          → Distinct ds
          → All (λ d. HasRetries d.envelope) ds
          → All (λ d. IsPending R J L c d.id w.redis) ds
          → Fates ds w (handle_all ds w)
      handle_all-Fates [] w distinct left pending = tt
      handle_all-Fates (d ∷ ds) w (apart, distinct) (retries, left) (there, pending) =
          let w' = handle d w in
          (
            elim (process_at_least_once R J L p c d.envelope d.id d.now w keeps retries there) [
              | inl good ↦ inl good
              | inr (inl still) ↦ inr (inl (handle_all-IsPending ds w' d.id apart still))
              | inr (inr (e, bad, (json, is_json, m, values, queued))) ↦ inr (
                  inr (
                    e,
                    bad,
                    (
                      json,
                      is_json,
                      m,
                      values,
                      handle_all-entries ds w' c.stream_name m left queued,
                    ),
                  ))
            ],
            handle_all-Fates ds w' distinct left (rest-IsPending d ds w apart pending),
          )
