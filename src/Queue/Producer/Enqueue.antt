-- ===== src/Queue/Producer/Enqueue.antt =====
-- What a successful `Enqueue` has added.
use fluffy_dollop.Base.{◌≡◌, inl, inr, [], ◌∷◌, arith, In}
use fluffy_dollop.Base.Int.{ℤ}
use fluffy_dollop.Base.Text.{Text, lit}
use fluffy_dollop.Go.Effect.{Result-cases, ok}
use fluffy_dollop.Config.Types.{QueueConfig}
use fluffy_dollop.Redis.{Redis}
use fluffy_dollop.Redis.Laws.{QueueLaws}
use fluffy_dollop.Models.{LogEvent}
use fluffy_dollop.Queue.Types.{Json}
use fluffy_dollop.Queue.Message.{build_job_envelope, build_xadd_args, job_args}
use fluffy_dollop.Queue.Producer.{stream_name_for, enqueue}

module _ (R : Redis) (J : Json) (L : QueueLaws R) where
  open R use {State}
  open L use {entries}

  -- The entry with the id stands in the stream that the event's service is routed to, with the
  -- JSON of a new envelope of the event.
  abbrev pub IsEnqueued : QueueConfig → LogEvent → Text → ℤ → Text → State → Type 0
  IsEnqueued c event job_id now id s =
      (stream : Text) × (json : Text) × (stream_name_for c event.service ≡ ok stream)
      × (J.marshal_envelope (build_job_envelope event c.redis_max_retries job_id now) ≡ ok json)
      × In (record { id = id; values = (lit "job", json) ∷ [] }) (entries s stream)

  enqueue_added :
      (c : QueueConfig) (event : LogEvent) (job_id : Text) (now : ℤ) (s : State) (id : Text)
      → (enqueue R J c event job_id now s).0 ≡ ok id
      → (stream : Text) × (json : Text) × (stream_name_for c event.service ≡ ok stream)
        × (J.marshal_envelope (build_job_envelope event c.redis_max_retries job_id now) ≡ ok json)
        × ((R.xadd (job_args stream c.max_len json) s).0 ≡ ok id)
        × ((enqueue R J c event job_id now s).1 ≡ (R.xadd (job_args stream c.max_len json) s).1)
  unfolding enqueue build_xadd_args
  enqueue_added c event job_id now s id h = elim (Result-cases (stream_name_for c event.service)) [
    | inr (e, bad) ↦ ground arith
    | inl (stream, routed) ↦
        elim (Result-cases
          (J.marshal_envelope (build_job_envelope event c.redis_max_retries job_id now))) [
            | inr (e, bad) ↦ ground arith
            | inl (json, good) ↦ (stream, json, routed, good, ground arith, ground arith)
          ]
  ]

  -- An event that `Enqueue` reports as added stands in the stream of its service, under the id
  -- that is reported.
  pub enqueue-IsEnqueued :
      (c : QueueConfig) (event : LogEvent) (job_id : Text) (now : ℤ) (s : State) (id : Text)
      → (enqueue R J c event job_id now s).0 ≡ ok id
      → IsEnqueued c event job_id now id (enqueue R J c event job_id now s).1
  enqueue-IsEnqueued c event job_id now s id h =
      let (stream, json, routed, good, added, same) = enqueue_added c event job_id now s id h in
      (
        stream,
        json,
        routed,
        good,
        rw same (L.xadd_adds (job_args stream c.max_len json) s id added),
      )
