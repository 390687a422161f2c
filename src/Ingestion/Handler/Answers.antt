-- ===== src/Ingestion/Handler/Answers.antt =====
-- Which status the log endpoint answers with, and when.
use fluffy_dollop.Base.{
  ◌≡◌, ◌≢◌, refl, ap, ◌⊎◌, inl, inr, ◌↔◌, true, false, Bool-cases, Option, none, some, arith,
}
use fluffy_dollop.Base.Text.{Text}
use fluffy_dollop.Go.Errors.{Error}
use fluffy_dollop.Go.Effect.{Result-cases, ok, err, Io}
use fluffy_dollop.Config.Types.{Duration}
use fluffy_dollop.Models.{Time, LogEvent}
use fluffy_dollop.Ingestion.Throttler.{ThrottleDecision, allow, rate_limit, circuit_open}
use fluffy_dollop.Ingestion.Service.{ingest_log, is_invalid}
use fluffy_dollop.Ingestion.Handler.{
  Response, respond_accepted, respond_ingest_error, handle_logs, stamp, respond_ingested,
}

module _ {S : Type 0} (enqueue : LogEvent → Io S Text) where
  -- The endpoint: the handler on the service on the producer.
  abbrev pub serve : ThrottleDecision × Duration → Option LogEvent → Time → S → Response × S
  serve decision body now s = handle_logs (ingest_log enqueue decision) body now s

  -- The log reaches the queue: it was decoded, the throttler allows it, its level and message are
  -- not empty, and the producer added it under this id.
  abbrev pub IsAccepted : ThrottleDecision × Duration → Option LogEvent → Time → S → Text → Type 0
  IsAccepted decision body now s id =
      (event : LogEvent) × (body ≡ some event)
      × (decision.0 ≡ allow)
      × (is_invalid (some event) ≡ false)
      × ((enqueue (stamp now event) s).0 ≡ ok id)

  is_invalid-stamp :
      (now : Time) (event : LogEvent)
      → is_invalid (some (stamp now event)) ≡ is_invalid (some event)
  unfolding stamp is_invalid
  is_invalid-stamp now event = ground arith

  -- The request gets past the decoder, the throttler and the validation.
  abbrev pub IsAdmitted : ThrottleDecision × Duration → Option LogEvent → LogEvent → Type 0
  IsAdmitted decision body event =
      (body ≡ some event) × (decision.0 ≡ allow) × (is_invalid (some event) ≡ false)

  admitted_serve :
      (d : Duration) (event : LogEvent) (now : Time) (s : S)
      → is_invalid (some event) ≡ false
      → (((id : Text) × ((enqueue (stamp now event) s).0 ≡ ok id)
            × ((serve (allow, d) (some event) now s).0 ≡ respond_accepted id))
          ⊎ ((e : Error) × ((enqueue (stamp now event) s).0 ≡ err e)
              × ((serve (allow, d) (some event) now s).0.status ≡ 500)))
        × ((serve (allow, d) (some event) now s).1 ≡ (enqueue (stamp now event) s).1)
  unfolding handle_logs ingest_log respond_ingested respond_ingest_error
  admitted_serve d event now s valid =
      let same = is_invalid-stamp now event in
      elim (Result-cases (enqueue (stamp now event) s).0) [
        | inl (id, good) ↦ (inl (id, good, ground arith), ground arith)
        | inr (e, bad) ↦ (inr (e, bad, ground arith), ground arith)
      ]

  invalid_serve :
      (d : Duration) (event : LogEvent) (now : Time) (s : S)
      → is_invalid (some event) ≡ true
      → ((serve (allow, d) (some event) now s).0.status ≡ 400)
        × ((serve (allow, d) (some event) now s).1 ≡ s)
  unfolding handle_logs ingest_log respond_ingested respond_ingest_error
  invalid_serve d event now s invalid =
      let same = is_invalid-stamp now event in (ground arith, ground arith)

  refused_serve :
      (decision : ThrottleDecision × Duration) (body : Option LogEvent) (now : Time) (s : S)
      → ((body ≡ none) ⊎ (decision.0 ≢ allow))
      → ((serve decision body now s).0.status ≢ 202)
        × ((serve decision body now s).0.status ≢ 500)
        × ((serve decision body now s).1 ≡ s)
  unfolding handle_logs ingest_log respond_ingested respond_ingest_error
  refused_serve (allow, d) (some event) now s (inl h) = ground arith
  refused_serve (allow, d) (some event) now s (inr h) = elim (h refl) [ ]
  refused_serve (rate_limit, d) (some event) now s h = (ground arith, ground arith, refl)
  refused_serve (circuit_open, d) (some event) now s h = (ground arith, ground arith, refl)
  refused_serve (k, d) none now s h = (ground arith, ground arith, refl)

  pub serve-admitted :
      (decision : ThrottleDecision × Duration) (body : Option LogEvent) (event : LogEvent)
      (now : Time) (s : S)
      → body ≡ some event
      → decision.0 ≡ allow
      → is_invalid (some event) ≡ false
      → (serve decision body now s).1 ≡ (enqueue (stamp now event) s).1
  serve-admitted (k, d) body event now s is_event allows valid =
      rw (is_event, allows) ((admitted_serve d event now s valid).1)

  -- The endpoint answers 202 exactly if the body was decoded, the throttler's decision is to allow
  -- it, the level and the message are not empty and the producer returns the id of a new entry.
  pub serve_accepts_iff :
      (decision : ThrottleDecision × Duration) (body : Option LogEvent) (now : Time) (s : S)
      → ((serve decision body now s).0.status ≡ 202)
        ↔ ((id : Text) × IsAccepted decision body now s id)
  serve_accepts_iff (rate_limit, d) body now s =
      let (refuses, _, _) = refused_serve (rate_limit, d) body now s (inr (λ e. ground arith)) in
      ((λ h. elim (refuses h) [ ]), λ (id, (event, e, k, valid, good)). ground arith)
  serve_accepts_iff (circuit_open, d) body now s =
      let (refuses, _, _) = refused_serve (circuit_open, d) body now s (inr (λ e. ground arith)) in
      ((λ h. elim (refuses h) [ ]), λ (id, (event, e, k, valid, good)). ground arith)
  serve_accepts_iff (allow, d) none now s =
      let (refuses, _, _) = refused_serve (allow, d) none now s (inl refl) in
      ((λ h. elim (refuses h) [ ]), λ (id, (event, e, k, valid, good)). ground arith)
  serve_accepts_iff (allow, d) (some event) now s = elim (Bool-cases (is_invalid (some event))) [
    | inl invalid ↦
        let answer = invalid_serve d event now s invalid in
        ((λ h. ground arith), λ (id, (event', e, k, valid, r)). ground arith)
    | inr valid ↦ elim (admitted_serve d event now s valid).0 [
      | inl (id, good, answer) ↦ ((λ h. (id, (event, refl, refl, valid, good))), λ h. rw answer)
      | inr (e, bad, answer) ↦
          ((λ h. ground arith), λ (id, (event', same, k, ok', good)). ground arith)
    ]
  ]

  -- A request that is answered neither 202 nor 500 leaves the state of the queue as it was.
  pub serve_untouched :
      (decision : ThrottleDecision × Duration) (body : Option LogEvent) (now : Time) (s : S)
      → (serve decision body now s).0.status ≢ 202
      → (serve decision body now s).0.status ≢ 500
      → (serve decision body now s).1 ≡ s
  serve_untouched (rate_limit, d) body now s no_202 no_500 =
      (refused_serve (rate_limit, d) body now s (inr (λ e. ground arith))).2
  serve_untouched (circuit_open, d) body now s no_202 no_500 =
      (refused_serve (circuit_open, d) body now s (inr (λ e. ground arith))).2
  serve_untouched (allow, d) none now s no_202 no_500 =
      (refused_serve (allow, d) none now s (inl refl)).2
  serve_untouched (allow, d) (some event) now s no_202 no_500 =
      elim (Bool-cases (is_invalid (some event))) [
        | inl invalid ↦ (invalid_serve d event now s invalid).1
        | inr valid ↦ elim (admitted_serve d event now s valid).0 [
          | inl (id, good, answer) ↦ elim (no_202 (ap (λ r. r.status) answer)) [ ]
          | inr (e, bad, answer) ↦ elim (no_500 answer) [ ]
        ]
      ]

  -- Whatever the answer is, the endpoint has done nothing or one call of the producer.
  pub serve_state :
      (decision : ThrottleDecision × Duration) (body : Option LogEvent) (now : Time) (s : S)
      → ((serve decision body now s).1 ≡ s)
        ⊎ ((event : LogEvent) × (body ≡ some event)
            × ((serve decision body now s).1 ≡ (enqueue (stamp now event) s).1))
  serve_state (rate_limit, d) body now s =
      inl (refused_serve (rate_limit, d) body now s (inr (λ e. ground arith))).2
  serve_state (circuit_open, d) body now s =
      inl (refused_serve (circuit_open, d) body now s (inr (λ e. ground arith))).2
  serve_state (allow, d) none now s = inl (refused_serve (allow, d) none now s (inl refl)).2
  serve_state (allow, d) (some event) now s = elim (Bool-cases (is_invalid (some event))) [
    | inl invalid ↦ inl (invalid_serve d event now s invalid).1
    | inr valid ↦ inr (event, refl, (admitted_serve d event now s valid).1)
  ]
