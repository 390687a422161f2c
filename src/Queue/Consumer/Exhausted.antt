-- ===== src/Queue/Consumer/Exhausted.antt =====
-- The last attempt of a job: the dead letter queue.
use fluffy_dollop.Base.{
  ◌≡◌, refl, ◌∙◌, ◌≢◌, ◌⊎◌, inl, inr, none, some, [], ◌∷◌, arith, In, Option-cases,
}
use fluffy_dollop.Base.Int.{ℤ, pos, ◌≤ℤ◌, ◌+ℤ◌, wrap64}
use fluffy_dollop.Base.Text.{Text, lit}
use fluffy_dollop.Go.Errors.{Error, error_text}
use fluffy_dollop.Go.Effect.{Result-cases, then_ok, then_err, ok, ◌>>◌}
use fluffy_dollop.Redis.{Redis, XMessage}
use fluffy_dollop.Redis.Laws.{QueueLaws}
use fluffy_dollop.Queue.Types.{JobEnvelope, DlqEntry, Json}
use fluffy_dollop.Queue.Dlq.{Dlq, dlq_args, send}
use fluffy_dollop.Queue.Consumer.{Consumer, ack, failed_once, give_up, reenqueue, retry}
use fluffy_dollop.Queue.Consumer.Delivery.{
  IsPending, ack_state, reenqueue-pending, ack_others, retry_left, HasRetries,
}

-- The entry that a job leaves in the dead letter queue.
abbrev pub dead_entry : JobEnvelope → Text → Error → ℤ → DlqEntry
dead_entry envelope id e now = record {
  original_stream_id = id;
  job_data = some envelope;
  failure_reason = error_text e;
  sent_to_dlq_at = now;
}

-- One more failure uses up the retries.
abbrev pub IsExhausted : JobEnvelope → Type 0
IsExhausted envelope = envelope.max_retries ≤ℤ wrap64 (envelope.retry_count +ℤ pos 1)

pub last_or_left : (envelope : JobEnvelope) → IsExhausted envelope ⊎ HasRetries envelope
last_or_left envelope = omega arith

module _ (R : Redis) (J : Json) (L : QueueLaws R) where
  open R use {State}
  open L use {entries, pending}

  pub retry_last :
      (c : Consumer) (envelope : JobEnvelope) (id : Text) (e : Error) (now : ℤ) (s : State)
      → IsExhausted envelope
      → retry R J c envelope id e now s
        ≡ (give_up R J c (failed_once envelope e) id e now >> ack R J c id) s
  unfolding retry
  retry_last c envelope id e now s last = ground arith

  pub give_up_ok :
      (c : Consumer) (envelope : JobEnvelope) (id : Text) (e : Error) (now : ℤ) (s : State)
      → (give_up R J c envelope id e now s).0 ≡ ok tt
  unfolding give_up
  give_up_ok c envelope id e now s = ground arith

  pub give_up_without_dlq :
      (c : Consumer) (envelope : JobEnvelope) (id : Text) (e : Error) (now : ℤ) (s : State)
      → c.dlq ≡ none
      → (give_up R J c envelope id e now s).1 ≡ s
  unfolding give_up
  give_up_without_dlq c envelope id e now s no_dlq = ground arith

  pub give_up_with_dlq :
      (c : Consumer) (d : Dlq) (envelope : JobEnvelope) (id : Text) (e : Error) (now : ℤ)
      (s : State)
      → c.dlq ≡ some d
      → (give_up R J c envelope id e now s).1 ≡ (send R J d (dead_entry envelope id e now) s).1
  unfolding give_up
  give_up_with_dlq c d envelope id e now s has_dlq = ground arith

  -- The dead letter stream has an entry with the JSON of the dead letter.
  abbrev pub IsDead : Dlq → DlqEntry → State → Type 0
  IsDead d entry s =
      (json : Text) × (J.marshal_entry entry ≡ ok json)
      × (m : XMessage) × (m.values ≡ (lit "entry", json) ∷ [])
      × In m (entries s d.stream_name)

  pub send_added :
      (d : Dlq) (entry : DlqEntry) (s : State) (id : Text)
      → (send R J d entry s).0 ≡ ok id
      → (json : Text) × (J.marshal_entry entry ≡ ok json)
        × ((R.xadd (dlq_args d json) s).0 ≡ ok id)
        × ((send R J d entry s).1 ≡ (R.xadd (dlq_args d json) s).1)
  unfolding send
  send_added d entry s id h = elim (Result-cases (J.marshal_entry entry)) [
    | inl (json, good) ↦ (json, good, ground arith, ground arith)
    | inr (e, bad) ↦ ground arith
  ]

  send-IsDead :
      (d : Dlq) (entry : DlqEntry) (s : State) (id : Text)
      → (send R J d entry s).0 ≡ ok id
      → IsDead d entry (send R J d entry s).1
  send-IsDead d entry s id h =
      let (json, good, added, same) = send_added d entry s id h in
      (
        json,
        good,
        record { id = id; values = (lit "entry", json) ∷ [] },
        refl,
        rw same (L.xadd_adds (dlq_args d json) s id added),
      )

  -- Sending a dead letter adds to its own stream alone, and takes nothing off a pending list.
  pub send_other :
      (d : Dlq) (entry : DlqEntry) (s : State) (stream : Text)
      → d.stream_name ≢ stream
      → entries (send R J d entry s).1 stream ≡ entries s stream
  unfolding send
  send_other d entry s stream ne = elim (Result-cases (J.marshal_entry entry)) [
    | inl (json, good) ↦ ground (arith, L.xadd_other (dlq_args d json) s stream ne)
    | inr (e, bad) ↦ ground arith
  ]

  send-pending :
      (d : Dlq) (entry : DlqEntry) (s : State) (stream group : Text)
      → pending (send R J d entry s).1 stream group ≡ pending s stream group
  unfolding send
  send-pending d entry s stream group = elim (Result-cases (J.marshal_entry entry)) [
    | inl (json, good) ↦ ground (arith, L.xadd_pending (dlq_args d json) s stream group)
    | inr (e, bad) ↦ ground arith
  ]

  give_up-pending :
      (c : Consumer) (envelope : JobEnvelope) (id : Text) (e : Error) (now : ℤ) (s : State)
      (stream group : Text)
      → pending (give_up R J c envelope id e now s).1 stream group ≡ pending s stream group
  give_up-pending c envelope id e now s stream group = elim (Option-cases c.dlq) [
    | inl no_dlq ↦ rw (give_up_without_dlq c envelope id e now s no_dlq)
    | inr (d, has_dlq) ↦
        rw (give_up_with_dlq c d envelope id e now s has_dlq)
          (send-pending d (dead_entry envelope id e now) s stream group)
  ]

  -- With its retries used up, a job of a consumer with a dead letter queue on another stream ends
  -- there if Redis accepts the dead letter, with the retry count and the error of this attempt, and
  -- nothing is added to the stream of the jobs.
  pub retry_exhausted :
      (c : Consumer) (d : Dlq) (envelope : JobEnvelope) (id : Text) (e : Error) (now : ℤ)
      (s : State) (dead_id : Text)
      → IsExhausted envelope
      → c.dlq ≡ some d
      → d.stream_name ≢ c.stream_name
      → (send R J d (dead_entry (failed_once envelope e) id e now) s).0 ≡ ok dead_id
      → IsDead d (dead_entry (failed_once envelope e) id e now) (retry R J c envelope id e now s).1
        × (entries (retry R J c envelope id e now s).1 c.stream_name ≡ entries s c.stream_name)
  retry_exhausted c d envelope id e now s dead_id last has_dlq apart sent =
      let envelope' = failed_once envelope e in
      let entry = dead_entry envelope' id e now in
      let (json, good, m, v, there) = send-IsDead d entry s dead_id sent in
      rw (retry_last c envelope id e now s last) (
        rw
          (then_ok (give_up R J c envelope' id e now) (ack R J c id) s tt
            (give_up_ok c envelope' id e now s))
          (rw (give_up_with_dlq c d envelope' id e now s has_dlq) (
            (
              json,
              good,
              m,
              v,
              rw (ack_state R J L c id _)
                  (rw (L.xack_entries c.stream_name c.consumer_group id _ d.stream_name) there),
            ),
            rw (ack_state R J L c id _) (
                L.xack_entries c.stream_name c.consumer_group id _ c.stream_name
                ∙ send_other d entry s c.stream_name apart),
          )))

  others_last :
      (c : Consumer) (envelope : JobEnvelope) (id other : Text) (e : Error) (now : ℤ) (s : State)
      → IsExhausted envelope
      → other ≢ id
      → IsPending R J L c other s
      → IsPending R J L c other (retry R J c envelope id e now s).1
  others_last c envelope id other e now s last ne h =
      let envelope' = failed_once envelope e in
      rw (retry_last c envelope id e now s last) (
        rw
          (then_ok (give_up R J c envelope' id e now) (ack R J c id) s tt
            (give_up_ok c envelope' id e now s))
          (ack_others R J L c id other _ ne
            (rw (give_up-pending c envelope' id e now s c.stream_name c.consumer_group) h)))

  others_left :
      (c : Consumer) (envelope : JobEnvelope) (id other : Text) (e : Error) (now : ℤ) (s : State)
      → HasRetries envelope
      → other ≢ id
      → IsPending R J L c other s
      → IsPending R J L c other (retry R J c envelope id e now s).1
  others_left c envelope id other e now s left ne h =
      let again = reenqueue R J c (failed_once envelope e) in
      let kept =
        reenqueue-pending R J L c (failed_once envelope e) s c.stream_name c.consumer_group in
      rw (retry_left R J L c envelope id e now s left) (elim (Result-cases (again s).0) [
        | inl (_, added) ↦
            rw (then_ok again (ack R J c id) s tt added)
              (ack_others R J L c id other _ ne (rw kept h))
        | inr (e', lost) ↦ rw (then_err again (ack R J c id) s e' lost) (rw kept h)
      ])

  -- `Retry` of one message leaves every other message pending that was.
  pub retry_others :
      (c : Consumer) (envelope : JobEnvelope) (id other : Text) (e : Error) (now : ℤ) (s : State)
      → other ≢ id
      → IsPending R J L c other s
      → IsPending R J L c other (retry R J c envelope id e now s).1
  retry_others c envelope id other e now s ne h = elim (last_or_left envelope) [
    | inl last ↦ others_last c envelope id other e now s last ne h
    | inr left ↦ others_left c envelope id other e now s left ne h
  ]
