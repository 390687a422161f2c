-- ===== src/Pipeline/Readable.antt =====
-- What the streams of jobs hold can be read: no message is left pending because it does not parse.
use mathlib.Core.Path.{subst}
use fluffy_dollop.Base.{
  true, Option-cases, ◌≡◌, refl, ap, sym, ◌∙◌, ◌≢◌, ◌⊎◌, inl, inr, Bool-cases, Option, none, some,
  [], ◌∷◌, In, arith,
}
use fluffy_dollop.Base.Int.{ℤ, pos}
use fluffy_dollop.Base.Text.{Text, lit, eq_text, eq_text_iff}
use fluffy_dollop.Go.Errors.{Error}
use fluffy_dollop.Go.Effect.{Result-cases, then_ok, then_err, ok}
use fluffy_dollop.Config.Types.{QueueConfig, Duration}
use fluffy_dollop.Redis.{Redis, XMessage, field}
use fluffy_dollop.Redis.Laws.{QueueLaws, StreamLaws}
use fluffy_dollop.Models.{Time, LogEvent}
use fluffy_dollop.Queue.Types.{JobEnvelope, DlqEntry, Json, JsonLaws, metadata_pass}
use fluffy_dollop.Queue.Message.{build_job_envelope, build_xadd_args, job_args}
use fluffy_dollop.Queue.Producer.{stream_name_for, enqueue}
use fluffy_dollop.Queue.Dlq.{Dlq, reset_job, get, delete_entry, requeue}
use fluffy_dollop.Queue.Dlq.Requeue.{
  get_read, get_entries, delete_state, requeue_cases, requeue_added, requeue_refused,
}
use fluffy_dollop.Queue.Consumer.{
  Consumer, parse_message, ack, failed_once, give_up, reenqueue, retry,
}
use fluffy_dollop.Queue.Consumer.Delivery.{
  ack_state, reenqueue_state, reenqueue_unmarshalled, retry_left,
}
use fluffy_dollop.Queue.Consumer.Exhausted.{
  last_or_left, dead_entry, retry_last, give_up_ok, give_up_with_dlq, give_up_without_dlq,
  send_other,
}
use fluffy_dollop.Ingestion.Throttler.{ThrottleDecision}
use fluffy_dollop.Ingestion.Handler.Answers.{serve, serve_state}
use fluffy_dollop.Ingestion.Handler.{stamp}
use fluffy_dollop.Worker.Dedup.{World, Processor}
use fluffy_dollop.Worker.Process.{process_message}
use fluffy_dollop.Worker.Process.AtLeastOnce.{process_done, process_failed}

module _ (R : Redis) (J : Json) (L : QueueLaws R) (S : StreamLaws R L) (K : JsonLaws J)
    (d : Dlq) where
  open R use {State}
  open L use {entries}

  -- The message parses.
  abbrev pub IsReadable : XMessage → Type 0
  IsReadable m = (envelope : JobEnvelope) × (parse_message R J m ≡ ok (envelope, m.id))

  -- Every entry of every stream parses, but for the stream of the dead letters.
  abbrev pub IsClean : State → Type 0
  IsClean s =
      (stream : Text) (m : XMessage)
      → d.stream_name ≢ stream
      → In m (entries s stream)
      → IsReadable m

  -- The metadata of the event, if there is one, are not nested too deep to be read.
  abbrev pub IsShallow : Option LogEvent → Type 0
  IsShallow event = metadata_pass K.is_shallow event ≡ true

  pub job-IsReadable :
      (envelope : JobEnvelope) (json : Text) (m : XMessage)
      → IsShallow envelope.event
      → J.marshal_envelope envelope ≡ ok json
      → m.values ≡ (lit "job", json) ∷ []
      → IsReadable m
  unfolding parse_message field eq_text
  job-IsReadable envelope json m shallow good values =
      let (envelope', reads) = K.reads_back envelope json shallow good in
      (envelope', rw (values, reads) refl)

  xadd-IsClean :
      (stream json : Text) (max_len : ℤ) (envelope : JobEnvelope) (s : State)
      → IsShallow envelope.event
      → J.marshal_envelope envelope ≡ ok json
      → IsClean s
      → IsClean (R.xadd (job_args stream max_len json) s).1
  xadd-IsClean stream json max_len envelope s shallow good clean other m apart h =
      let args = job_args stream max_len json in
      elim (Bool-cases (eq_text stream other)) [
        | inr b ↦
            let ne : stream ≢ other = λ e. ground (arith, eq_text_iff stream other) in
            clean other m apart (subst (In m) (L.xadd_other args s other ne) h)
        | inl b ↦
            let same : other ≡ stream = sym ((eq_text_iff stream other).0 b) in
            elim (S.xadd_new args s m (subst (λ t. In m (entries (R.xadd args s).1 t)) same h)) [
              | inl old ↦ clean stream m (λ e. apart (e ∙ sym same)) old
              | inr values ↦ job-IsReadable envelope json m shallow good values
            ]
      ]

  pub same-IsClean :
      (s s' : State)
      → ((stream : Text) → d.stream_name ≢ stream → entries s' stream ≡ entries s stream)
      → IsClean s
      → IsClean s'
  same-IsClean s s' same clean stream m apart h =
      clean stream m apart (subst (In m) (same stream apart) h)

  ack-IsClean : (c : Consumer) (id : Text) (s : State) → IsClean s → IsClean (ack R J c id s).1
  ack-IsClean c id s clean =
      same-IsClean s (ack R J c id s).1
        (λ stream apart.
          ap (λ t. entries t stream) (ack_state R J L c id s)
          ∙ L.xack_entries c.stream_name c.consumer_group id s stream)
        clean

  enqueue-IsClean :
      (q : QueueConfig) (event : LogEvent) (job_id : Text) (now : ℤ) (s : State)
      → IsShallow (some event)
      → IsClean s
      → IsClean (enqueue R J q event job_id now s).1
  unfolding enqueue build_xadd_args build_job_envelope
  enqueue-IsClean q event job_id now s shallow clean =
      let envelope = build_job_envelope event q.redis_max_retries job_id now in
      elim (Result-cases (stream_name_for q event.service)) [
        | inr (e, bad) ↦
            let same : (enqueue R J q event job_id now s).1 ≡ s = ground arith in rw same clean
        | inl (stream, routed) ↦ elim (Result-cases (J.marshal_envelope envelope)) [
          | inr (e, bad) ↦
              let same : (enqueue R J q event job_id now s).1 ≡ s = ground arith in rw same clean
          | inl (json, good) ↦
              let same : (enqueue R J q event job_id now s).1
                  ≡ (R.xadd (job_args stream q.max_len json) s).1 =
                ground arith in
              rw same (xadd-IsClean stream json q.max_len envelope s shallow good clean)
        ]
      ]

  reenqueue-IsClean :
      (c : Consumer) (envelope : JobEnvelope) (s : State)
      → IsShallow envelope.event
      → IsClean s
      → IsClean (reenqueue R J c envelope s).1
  reenqueue-IsClean c envelope s shallow clean = elim (Result-cases (J.marshal_envelope envelope)) [
    | inr (e, bad) ↦ rw (reenqueue_unmarshalled R J L c envelope e s bad) clean
    | inl (json, good) ↦
        rw (reenqueue_state R J L c envelope json s good)
          (xadd-IsClean c.stream_name json (pos 0) envelope s shallow good clean)
  ]

  -- The consumer's dead letter queue is this one, if it has one.
  abbrev pub SharesDlq : Consumer → Type 0
  SharesDlq c = (c.dlq ≡ none) ⊎ (c.dlq ≡ some d)

  give_up-IsClean :
      (c : Consumer) (envelope : JobEnvelope) (id : Text) (e : Error) (now : ℤ) (s : State)
      → SharesDlq c
      → IsClean s
      → IsClean (give_up R J c envelope id e now s).1
  give_up-IsClean c envelope id e now s (inl without) clean =
      rw (give_up_without_dlq R J L c envelope id e now s without) clean
  give_up-IsClean c envelope id e now s (inr has) clean =
      rw (give_up_with_dlq R J L c d envelope id e now s has) (
        same-IsClean s _
          (λ stream apart. send_other R J L d (dead_entry envelope id e now) s stream apart) clean)

  retry-IsClean :
      (c : Consumer) (envelope : JobEnvelope) (id : Text) (e : Error) (now : ℤ) (s : State)
      → SharesDlq c
      → IsShallow envelope.event
      → IsClean s
      → IsClean (retry R J c envelope id e now s).1
  retry-IsClean c envelope id e now s shares shallow clean =
      let envelope' = failed_once envelope e in
      let again = reenqueue R J c envelope' in
      elim (last_or_left envelope) [
        | inl last ↦
            rw
              (
                retry_last R J L c envelope id e now s last,
                then_ok (give_up R J c envelope' id e now) (ack R J c id) s tt
                    (give_up_ok R J L c envelope' id e now s),
              )
              (ack-IsClean c id _ (give_up-IsClean c envelope' id e now s shares clean))
        | inr left ↦
            rw (retry_left R J L c envelope id e now s left) (elim (Result-cases (again s).0) [
              | inl (_, added) ↦
                  rw (then_ok again (ack R J c id) s tt added)
                    (ack-IsClean c id _ (reenqueue-IsClean c envelope' s shallow clean))
              | inr (e', lost) ↦
                  rw (then_err again (ack R J c id) s e' lost)
                    (reenqueue-IsClean c envelope' s shallow clean)
            ])
      ]

  stamp-IsShallow :
      (now : Time) (event : LogEvent) → IsShallow (some event) → IsShallow (some (stamp now event))
  unfolding stamp
  stamp-IsShallow now event shallow = ground arith

  pub serve-IsClean :
      (q : QueueConfig) (job_id : Text) (unix : ℤ) (decision : ThrottleDecision × Duration)
      (body : Option LogEvent) (now : Time) (s : State)
      → IsShallow body
      → IsClean s
      → IsClean (serve (λ event. enqueue R J q event job_id unix) decision body now s).1
  serve-IsClean q job_id unix decision body now s shallow clean =
      elim (serve_state (λ event. enqueue R J q event job_id unix) decision body now s) [
        | inl same ↦ rw same clean
        | inr (event, is_event, same) ↦ rw same (
            enqueue-IsClean q (stamp now event) job_id unix s
              (stamp-IsShallow now event (subst IsShallow is_event shallow)) clean)
      ]

  -- A processor that adds no entry to a stream of jobs, or only such as parse.
  abbrev pub LeavesClean : Processor R → Type 0
  LeavesClean p =
      (envelope : JobEnvelope) (w : World R) → IsClean w.redis → IsClean (p envelope w).1.redis

  pub process-IsClean :
      (p : Processor R) (c : Consumer) (envelope : JobEnvelope) (id : Text) (now : ℤ) (w : World R)
      → LeavesClean p
      → SharesDlq c
      → IsShallow envelope.event
      → IsClean w.redis
      → IsClean (process_message R J p c envelope id now w).redis
  process-IsClean p c envelope id now w leaves shares shallow clean =
      let after = leaves envelope w clean in
      elim (Result-cases (p envelope w).0) [
        | inl (_, done) ↦
            rw (process_done R J L p c envelope id now w done) (ack-IsClean c id _ after)
        | inr (e, bad) ↦
            rw (process_failed R J L p c envelope id now w e bad)
              (retry-IsClean c envelope id e now _ shares shallow after)
      ]

  get-IsClean : (id : Text) (s : State) → IsClean s → IsClean (get R J d id s).1
  get-IsClean id s clean = same-IsClean s _ (λ stream apart. get_entries R J L d id s stream) clean

  delete-IsClean : (id : Text) (s : State) → IsClean s → IsClean (delete_entry R J d id s).1
  delete-IsClean id s clean stream m apart h = clean stream m apart (
      S.xdel_old d.stream_name id s stream m
        (subst (λ t. In m (entries t stream)) (delete_state R J L d id s) h))

  -- So are those of a letter that has been read.
  reset-IsShallow :
      (id : Text) (s : State) (entry : DlqEntry) (again : JobEnvelope)
      → (get R J d id s).0 ≡ ok entry
      → reset_job entry.job_data ≡ ok again
      → IsShallow again.event
  reset-IsShallow id s entry again got reset =
      let (json, reads) = get_read R J L d id s entry got in
      elim (Option-cases entry.job_data) [
        | inl missing ↦ ground arith
        | inr (envelope, there) ↦
            let shallow = K.entry_shallow json entry envelope reads there in ground arith
      ]

  pub requeue-IsClean :
      (id stream : Text) (max_len : ℤ) (s : State)
      → IsClean s
      → IsClean (requeue R J d id stream max_len s).1
  requeue-IsClean id stream max_len s clean = elim (requeue_cases R J L d id stream max_len s) [
    | inr (_, same) ↦ rw same (get-IsClean id s clean)
    | inl (again, json, can) ↦
        let (entry, got, reset, good) = can in
        let args = job_args stream max_len json in
        let s1 = (get R J d id s).1 in
        let added =
          xadd-IsClean stream json max_len again s1 (reset-IsShallow id s entry again got reset)
            good (get-IsClean id s clean) in
        elim (Result-cases (R.xadd args s1).0) [
          | inl (new_id, done) ↦
              rw (requeue_added R J L d id stream max_len s again json new_id can done).1
                (delete-IsClean id _ added)
          | inr (e, lost) ↦
              rw (requeue_refused R J L d id stream max_len s again json e can lost).1 added
        ]
  ]
