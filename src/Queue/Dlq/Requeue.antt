-- ===== src/Queue/Dlq/Requeue.antt =====
-- What becomes of a dead letter that is requeued.
use fluffy_dollop.Base.{Option-cases, ◌≡◌, ◌≢◌, sym, ◌∙◌, ◌⊎◌, inl, inr, [], ◌∷◌, arith, In}
use fluffy_dollop.Base.Int.{ℤ}
use fluffy_dollop.Base.Text.{Text, lit}
use fluffy_dollop.Go.Errors.{
  Error, wrap, failed_to_get_dlq_entry, failed_to_build_requeue_args,
  failed_to_marshal_job_envelope,
}
use fluffy_dollop.Go.Effect.{Result-cases, ok, err}
use fluffy_dollop.Redis.{Redis, field}
use fluffy_dollop.Redis.Laws.{QueueLaws}
use fluffy_dollop.Queue.Types.{JobEnvelope, DlqEntry, Json}
use fluffy_dollop.Queue.Message.{build_xadd_args, job_args}
use fluffy_dollop.Queue.Dlq.{Dlq, get, reset_job, delete_entry, requeue}

module _ (R : Redis) (J : Json) (L : QueueLaws R) where
  open R use {State}
  open L use {entries}

  pub get_state :
      (d : Dlq) (id : Text) (s : State) → (get R J d id s).1 ≡ (R.xrange d.stream_name id id s).1
  unfolding get
  get_state d id s = ground arith

  pub get_entries :
      (d : Dlq) (id : Text) (s : State) (other : Text)
      → entries (get R J d id s).1 other ≡ entries s other
  get_entries d id s other = rw (get_state d id s) (L.xrange_entries d.stream_name id id s other)

  -- A letter that Get returns has been read from its JSON.
  pub get_read :
      (d : Dlq) (id : Text) (s : State) (entry : DlqEntry)
      → (get R J d id s).0 ≡ ok entry
      → (json : Text) × (J.unmarshal_entry json ≡ ok entry)
  unfolding get
  get_read d id s entry got = elim (Result-cases (R.xrange d.stream_name id id s).0) [
    | inr (e, bad) ↦ ground arith
    | inl ([], found) ↦ ground arith
    | inl (m ∷ ms, found) ↦ elim (Option-cases (field (lit "entry") m.values)) [
      | inl missing ↦ ground arith
      | inr (json, there) ↦ elim (Result-cases (J.unmarshal_entry json)) [
        | inr (e, bad) ↦ ground arith
        | inl (entry', good) ↦ (json, ground arith)
      ]
    ]
  ]

  pub delete_state :
      (d : Dlq) (id : Text) (s : State)
      → (delete_entry R J d id s).1 ≡ (R.xdel d.stream_name id s).1
  unfolding delete_entry
  delete_state d id s = ground arith

  -- The reset job that a requeue of the letter adds, and its JSON.
  abbrev pub IsRequeuable : Dlq → Text → State → JobEnvelope → Text → Type 0
  IsRequeuable d id s job json =
      (entry : DlqEntry) × ((get R J d id s).0 ≡ ok entry)
      × (reset_job entry.job_data ≡ ok job)
      × (J.marshal_envelope job ≡ ok json)

  pub requeue_cases :
      (d : Dlq) (id main_stream : Text) (max_len : ℤ) (s : State)
      → ((job : JobEnvelope) × (json : Text) × IsRequeuable d id s job json)
        ⊎ (((e : Error) × ((requeue R J d id main_stream max_len s).0 ≡ err e))
            × ((requeue R J d id main_stream max_len s).1 ≡ (get R J d id s).1))
  unfolding requeue build_xadd_args
  requeue_cases d id main_stream max_len s = elim (Result-cases (get R J d id s).0) [
    | inr (e, bad) ↦ inr ((wrap failed_to_get_dlq_entry e, ground arith), ground arith)
    | inl (entry, got) ↦ elim (Result-cases (reset_job entry.job_data)) [
      | inr (e, bad) ↦ inr ((e, ground arith), ground arith)
      | inl (job, reset) ↦ elim (Result-cases (J.marshal_envelope job)) [
        | inr (e, bad) ↦ inr (
          (wrap failed_to_build_requeue_args (wrap failed_to_marshal_job_envelope e), ground arith),
          ground arith,
        )
        | inl (json, good) ↦ inl (job, json, (entry, got, reset, good))
      ]
    ]
  ]

  pub requeue_added :
      (d : Dlq) (id main_stream : Text) (max_len : ℤ) (s : State) (job : JobEnvelope)
      (json new_id : Text)
      → IsRequeuable d id s job json
      → (R.xadd (job_args main_stream max_len json) (get R J d id s).1).0 ≡ ok new_id
      → ((requeue R J d id main_stream max_len s).0 ≡ ok tt)
        × ((requeue R J d id main_stream max_len s).1
            ≡ (delete_entry R J d id
                (R.xadd (job_args main_stream max_len json) (get R J d id s).1).1).1)
  unfolding requeue build_xadd_args
  requeue_added d id main_stream max_len s job json new_id (entry, got, reset, good) added =
      (ground arith, ground arith)

  pub requeue_refused :
      (d : Dlq) (id main_stream : Text) (max_len : ℤ) (s : State) (job : JobEnvelope) (json : Text)
      (e : Error)
      → IsRequeuable d id s job json
      → (R.xadd (job_args main_stream max_len json) (get R J d id s).1).0 ≡ err e
      → ((requeue R J d id main_stream max_len s).0 ≢ ok tt)
        × ((requeue R J d id main_stream max_len s).1
            ≡ (R.xadd (job_args main_stream max_len json) (get R J d id s).1).1)
  unfolding requeue build_xadd_args
  requeue_refused d id main_stream max_len s job json e (entry, got, reset, good) lost =
      (ground arith, ground arith)

  IsRequeuable-added :
      (d : Dlq) (id main_stream : Text) (max_len : ℤ) (s : State)
      → (requeue R J d id main_stream max_len s).0 ≡ ok tt
      → (job : JobEnvelope) × (json : Text) × IsRequeuable d id s job json
        × (new_id : Text) × ((R.xadd (job_args main_stream max_len json) (get R J d id s).1).0
            ≡ ok new_id)
  IsRequeuable-added d id main_stream max_len s done =
      elim (requeue_cases d id main_stream max_len s) [
        | inr ((e, bad), same) ↦ ground arith
        | inl (job, json, can) ↦
            elim (Result-cases (R.xadd (job_args main_stream max_len json) (get R J d id s).1).0) [
              | inl (new_id, added) ↦ (job, json, can, new_id, added)
              | inr (e, lost) ↦
                  elim ((requeue_refused d id main_stream max_len s job json e can lost).0 done) [ ]
            ]
      ]

  pub requeue_adds_job :
      (d : Dlq) (id main_stream : Text) (max_len : ℤ) (s : State)
      → d.stream_name ≢ main_stream
      → (requeue R J d id main_stream max_len s).0 ≡ ok tt
      → (job : JobEnvelope) × (json : Text) × IsRequeuable d id s job json
        × (new_id : Text) × In
            (record { id = new_id; values = (lit "job", json) ∷ [] })
            (entries (requeue R J d id main_stream max_len s).1 main_stream)
  requeue_adds_job d id main_stream max_len s apart done =
      let (job, json, can, new_id, added) = IsRequeuable-added d id main_stream max_len s done in
      let args = job_args main_stream max_len json in
      let s1 = (get R J d id s).1 in
      (
        job,
        json,
        can,
        new_id,
        rw ((requeue_added d id main_stream max_len s job json new_id can added).1) (
            rw (delete_state d id (R.xadd args s1).1) (
              rw (L.xdel_other d.stream_name id (R.xadd args s1).1 main_stream apart)
                (L.xadd_adds args s1 new_id added))),
      )

  -- A Requeue to another stream than the dead letters' that reports an error leaves every letter in
  -- the dead letter stream.
  pub requeue_error_keeps :
      (d : Dlq) (id main_stream : Text) (max_len : ℤ) (s : State) (e : Error)
      → d.stream_name ≢ main_stream
      → (requeue R J d id main_stream max_len s).0 ≡ err e
      → entries (requeue R J d id main_stream max_len s).1 d.stream_name ≡ entries s d.stream_name
  requeue_error_keeps d id main_stream max_len s e apart h =
      elim (requeue_cases d id main_stream max_len s) [
        | inr ((e', bad), same) ↦ rw same (get_entries d id s d.stream_name)
        | inl (job, json, can) ↦
            let args = job_args main_stream max_len json in
            let s1 = (get R J d id s).1 in
            elim (Result-cases (R.xadd args s1).0) [
              | inl (new_id, added) ↦
                  let done =
                    (requeue_added d id main_stream max_len s job json new_id can added).0 in
                  ground arith
              | inr (e', lost) ↦
                  rw ((requeue_refused d id main_stream max_len s job json e' can lost).1) (
                    L.xadd_other args s1 d.stream_name (λ same. apart (sym same))
                    ∙ get_entries d id s d.stream_name)
            ]
      ]
