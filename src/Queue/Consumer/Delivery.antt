-- ===== src/Queue/Consumer/Delivery.antt =====
-- What becomes of a job whose attempt failed.
use fluffy_dollop.Base.{◌≡◌, refl, ◌≢◌, ◌⊎◌, inl, inr, [], ◌∷◌, arith, In}
use fluffy_dollop.Base.Int.{ℤ, pos, ◌<ℤ◌, ◌+ℤ◌, wrap64}
use fluffy_dollop.Base.Text.{Text, lit}
use fluffy_dollop.Go.Errors.{Error}
use fluffy_dollop.Go.Effect.{Result-cases, then_ok, then_err, ok, err, ◌>>◌}
use fluffy_dollop.Redis.{Redis, XMessage, XAddArgs}
use fluffy_dollop.Redis.Laws.{QueueLaws}
use fluffy_dollop.Queue.Types.{JobEnvelope, Json}
use fluffy_dollop.Queue.Message.{job_args}
use fluffy_dollop.Queue.Consumer.{Consumer, ack, failed_once, reenqueue, retry}

-- Retries are left after one more failure.
abbrev pub HasRetries : JobEnvelope → Type 0
HasRetries envelope = wrap64 (envelope.retry_count +ℤ pos 1) <ℤ envelope.max_retries

module _ (R : Redis) (J : Json) (L : QueueLaws R) where
  open R use {State}
  open L use {entries, pending}

  -- The message is still on the group's pending list: Redis delivers it again.
  abbrev pub IsPending : Consumer → Text → State → Type 0
  IsPending c id s = In id (pending s c.stream_name c.consumer_group)

  -- The consumer's stream has an entry with the JSON of the envelope.
  abbrev pub IsQueued : Consumer → JobEnvelope → State → Type 0
  IsQueued c envelope s =
      (json : Text) × (J.marshal_envelope envelope ≡ ok json)
      × (m : XMessage) × (m.values ≡ (lit "job", json) ∷ [])
      × In m (entries s c.stream_name)

  abbrev pub retry_args : Consumer → Text → XAddArgs
  retry_args c json = job_args c.stream_name (pos 0) json

  pub reenqueue_state :
      (c : Consumer) (envelope : JobEnvelope) (json : Text) (s : State)
      → J.marshal_envelope envelope ≡ ok json
      → (reenqueue R J c envelope s).1 ≡ (R.xadd (retry_args c json) s).1
  unfolding reenqueue
  reenqueue_state c envelope json s good = ground arith

  pub reenqueue_unmarshalled :
      (c : Consumer) (envelope : JobEnvelope) (e : Error) (s : State)
      → J.marshal_envelope envelope ≡ err e
      → (reenqueue R J c envelope s).1 ≡ s
  unfolding reenqueue
  reenqueue_unmarshalled c envelope e s bad = ground arith

  reenqueue_added :
      (c : Consumer) (envelope : JobEnvelope) (s : State)
      → (reenqueue R J c envelope s).0 ≡ ok tt
      → (json : Text) × (J.marshal_envelope envelope ≡ ok json)
        × (id : Text) × ((R.xadd (retry_args c json) s).0 ≡ ok id)
  unfolding reenqueue
  reenqueue_added c envelope s h = elim (Result-cases (J.marshal_envelope envelope)) [
    | inr (e, bad) ↦ ground arith
    | inl (json, good) ↦ elim (Result-cases (R.xadd (retry_args c json) s).0) [
      | inl (id, added) ↦ (json, good, id, added)
      | inr (e, lost) ↦ ground arith
    ]
  ]

  pub reenqueue-pending :
      (c : Consumer) (envelope : JobEnvelope) (s : State) (stream group : Text)
      → pending (reenqueue R J c envelope s).1 stream group ≡ pending s stream group
  reenqueue-pending c envelope s stream group = elim (Result-cases (J.marshal_envelope envelope)) [
    | inl (json, good) ↦
        rw (reenqueue_state c envelope json s good)
          (L.xadd_pending (retry_args c json) s stream group)
    | inr (e, bad) ↦ rw (reenqueue_unmarshalled c envelope e s bad)
  ]

  reenqueue-IsQueued :
      (c : Consumer) (envelope : JobEnvelope) (s : State)
      → (reenqueue R J c envelope s).0 ≡ ok tt
      → IsQueued c envelope (reenqueue R J c envelope s).1
  reenqueue-IsQueued c envelope s h =
      let (json, good, id, added) = reenqueue_added c envelope s h in
      (
        json,
        good,
        record { id = id; values = (lit "job", json) ∷ [] },
        refl,
        rw (reenqueue_state c envelope json s good) (L.xadd_adds (retry_args c json) s id added),
      )

  pub ack_state :
      (c : Consumer) (id : Text) (s : State)
      → (ack R J c id s).1 ≡ (R.xack c.stream_name c.consumer_group id s).1
  unfolding ack
  ack_state c id s = ground arith

  ack-IsQueued :
      (c : Consumer) (id : Text) (envelope : JobEnvelope) (s : State)
      → IsQueued c envelope s
      → IsQueued c envelope (ack R J c id s).1
  ack-IsQueued c id envelope s (json, good, m, v, h) = (
    json,
    good,
    m,
    v,
    rw (ack_state c id s) (rw (L.xack_entries c.stream_name c.consumer_group id s c.stream_name) h),
  )

  pub ack_others :
      (c : Consumer) (id other : Text) (s : State)
      → other ≢ id
      → IsPending c other s
      → IsPending c other (ack R J c id s).1
  ack_others c id other s ne h =
      rw (ack_state c id s) (
        L.xack_pending c.stream_name c.consumer_group id s c.stream_name c.consumer_group other ne
          h)

  pub retry_left :
      (c : Consumer) (envelope : JobEnvelope) (id : Text) (e : Error) (now : ℤ) (s : State)
      → HasRetries envelope
      → retry R J c envelope id e now s
        ≡ (reenqueue R J c (failed_once envelope e) >> ack R J c id) s
  unfolding retry
  retry_left c envelope id e now s left = ground arith

  -- A failed job with retries left is not lost: after `Retry` its message is still pending, or the
  -- stream holds a new entry with the envelope whose retry count is one higher.
  pub retry_keeps_job :
      (c : Consumer) (envelope : JobEnvelope) (id : Text) (e : Error) (now : ℤ) (s : State)
      → HasRetries envelope
      → IsPending c id s
      → let s' = (retry R J c envelope id e now s).1 in
        IsPending c id s' ⊎ IsQueued c (failed_once envelope e) s'
  retry_keeps_job c envelope id e now s left h =
      let again = reenqueue R J c (failed_once envelope e) in
      rw (retry_left c envelope id e now s left) (elim (Result-cases (again s).0) [
        | inl (_, added) ↦ inr (
            rw (then_ok again (ack R J c id) s tt added) (
              ack-IsQueued c id (failed_once envelope e) _
                (reenqueue-IsQueued c (failed_once envelope e) s added)))
        | inr (e', lost) ↦ inl (
            rw (then_err again (ack R J c id) s e' lost) (
              rw (reenqueue-pending c (failed_once envelope e) s c.stream_name c.consumer_group) h))
      ])
