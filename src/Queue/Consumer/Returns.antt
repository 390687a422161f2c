-- ===== src/Queue/Consumer/Returns.antt =====
-- The way of a job through the dead letter queue and back.
use fluffy_dollop.Base.{◌≡◌, ◌∙◌, ap, sym, ◌≢◌, inl, inr, some, [], ◌∷◌, arith, In}
use fluffy_dollop.Base.Int.{ℤ, pos}
use fluffy_dollop.Base.Text.{Text, lit}
use fluffy_dollop.Go.Errors.{Error}
use fluffy_dollop.Go.Effect.{Result-cases, then_ok, ok, ok-injective}
use fluffy_dollop.Redis.{Redis, field}
use fluffy_dollop.Redis.Laws.{QueueLaws, RangeLaws}
use fluffy_dollop.Queue.Types.{JobEnvelope, DlqEntry, Json}
use fluffy_dollop.Queue.Dlq.{Dlq, dlq_args, get, reset_job, send, requeue}
use fluffy_dollop.Queue.Dlq.Requeue.{requeue_adds_job}
use fluffy_dollop.Queue.Consumer.{Consumer, ack, failed_once, give_up, retry}
use fluffy_dollop.Queue.Consumer.Delivery.{ack_state}
use fluffy_dollop.Queue.Consumer.Exhausted.{
  IsExhausted, dead_entry, retry_last, give_up_ok, give_up_with_dlq, send_added,
}

-- The job as a requeue sends it back: no attempt counts any more.
abbrev pub renewed : JobEnvelope → JobEnvelope
renewed envelope = record envelope { retry_count = pos 0; last_error = [] }

-- The letter's JSON reads back as the letter.
abbrev pub ReadsBack : Json → DlqEntry → Type 0
ReadsBack J entry =
    (json : Text) → J.marshal_entry entry ≡ ok json → J.unmarshal_entry json ≡ ok entry

module _ (R : Redis) (J : Json) (L : QueueLaws R) (V : RangeLaws R) where
  open R use {State}
  open V use {at}

  retry_sent :
      (c : Consumer) (d : Dlq) (envelope : JobEnvelope) (id : Text) (e : Error) (now : ℤ)
      (s : State)
      → IsExhausted envelope
      → c.dlq ≡ some d
      → (retry R J c envelope id e now s).1
        ≡ (R.xack c.stream_name c.consumer_group id
            (send R J d (dead_entry (failed_once envelope e) id e now) s).1).1
  retry_sent c d envelope id e now s last has_dlq =
      let envelope' = failed_once envelope e in
      rw
        (
          retry_last R J L c envelope id e now s last,
          then_ok (give_up R J c envelope' id e now) (ack R J c id) s tt
              (give_up_ok R J L c envelope' id e now s),
          give_up_with_dlq R J L c d envelope' id e now s has_dlq,
        )
        (ack_state R J L c id _)

  sent_at :
      (c : Consumer) (d : Dlq) (envelope : JobEnvelope) (id : Text) (e : Error) (now : ℤ)
      (s : State) (dead_id json : Text)
      → IsExhausted envelope
      → c.dlq ≡ some d
      → J.marshal_entry (dead_entry (failed_once envelope e) id e now) ≡ ok json
      → (R.xadd (dlq_args d json) s).0 ≡ ok dead_id
      → (send R J d (dead_entry (failed_once envelope e) id e now) s).1
        ≡ (R.xadd (dlq_args d json) s).1
      → at (retry R J c envelope id e now s).1 d.stream_name dead_id
        ≡ record { id = dead_id; values = (lit "entry", json) ∷ [] } ∷ []
  sent_at c d envelope id e now s dead_id json last has_dlq good added same =
      rw (retry_sent c d envelope id e now s last has_dlq, same)
        (V.xack_at c.stream_name c.consumer_group id _ d.stream_name dead_id
          ∙ V.xadd_at (dlq_args d json) s dead_id added)

  get_answered :
      (d : Dlq) (id json : Text) (s : State) (entry entry' : DlqEntry)
      → at s d.stream_name id ≡ record { id = id; values = (lit "entry", json) ∷ [] } ∷ []
      → J.unmarshal_entry json ≡ ok entry'
      → (get R J d id s).0 ≡ ok entry
      → entry ≡ entry'
  unfolding get field
  get_answered d id json s entry entry' there reads got =
      elim (Result-cases (R.xrange d.stream_name id id s).0) [
        | inr (e, bad) ↦ ground arith
        | inl (ms, answer) ↦
            let found = V.xrange_reads d.stream_name id s ms answer ∙ there in ground arith
      ]

  reset_dead :
      (envelope job : JobEnvelope) (id : Text) (e : Error) (now : ℤ)
      → reset_job (dead_entry (failed_once envelope e) id e now).job_data ≡ ok job
      → job ≡ renewed envelope
  reset_dead envelope job id e now h = sym (ok-injective h)

  -- A job whose last retry fails comes back by a Requeue of its dead letter: if Redis accepts the
  -- letter, a Requeue under the letter's id that reports success has added the JSON of the very
  -- same job to the main stream, with retry count 0 and no last error. That is for a dead letter
  -- stream of its own, and a letter that JSON reads back as it was.
  pub exhausted_then_requeued :
      (c : Consumer) (d : Dlq) (envelope : JobEnvelope) (id : Text) (e : Error) (now max_len : ℤ)
      (s : State) (dead_id : Text)
      → IsExhausted envelope
      → c.dlq ≡ some d
      → d.stream_name ≢ c.stream_name
      → ReadsBack J (dead_entry (failed_once envelope e) id e now)
      → (send R J d (dead_entry (failed_once envelope e) id e now) s).0 ≡ ok dead_id
      → (requeue R J d dead_id c.stream_name max_len (retry R J c envelope id e now s).1).0 ≡ ok tt
      → (json : Text) × (J.marshal_envelope (renewed envelope) ≡ ok json)
        × (new_id : Text) × In
            (record { id = new_id; values = (lit "job", json) ∷ [] })
            (L.entries
              (requeue R J d dead_id c.stream_name max_len (retry R J c envelope id e now s).1).1
              c.stream_name)
  exhausted_then_requeued c d envelope id e now max_len s dead_id last has_dlq apart back sent
        done =
      let entry = dead_entry (failed_once envelope e) id e now in
      let (text, written, added, same) = send_added R J L d entry s dead_id sent in
      let there = sent_at c d envelope id e now s dead_id text last has_dlq written added same in
      let (job, json, (entry', got, reset, good), new_id, queued) =
        requeue_adds_job R J L d dead_id c.stream_name max_len (retry R J c envelope id e now s).1
          apart done in
      let letter = get_answered d dead_id text _ entry' entry there (back text written) got in
      let is_job =
        reset_dead envelope job id e now (ap (λ x. reset_job x.job_data) (sym letter) ∙ reset) in
      (json, ap J.marshal_envelope (sym is_job) ∙ good, new_id, queued)
