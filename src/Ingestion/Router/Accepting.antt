-- ===== src/Ingestion/Router/Accepting.antt =====
-- Which requests put an event into the queue.
use fluffy_dollop.Base.{◌≡◌, ◌≢◌, refl, ◌↔◌, ◌⊎◌, inl, inr, List, Option, arith, ◌==◌, Bool-cases}
use fluffy_dollop.Base.Text.{Text, lit, eq_text_iff}
use fluffy_dollop.Go.Effect.{Io, Result-cases, ok}
use fluffy_dollop.Config.Types.{Duration}
use fluffy_dollop.Models.{Time, LogEvent}
use fluffy_dollop.Health.{Check, handle_live, handle_ready}
use fluffy_dollop.Health.Readiness.{handle_ready_iff}
use fluffy_dollop.Ingestion.Throttler.{ThrottleDecision, allow, rate_limit, circuit_open}
use fluffy_dollop.Ingestion.Service.{ingest_log, is_invalid}
use fluffy_dollop.Ingestion.Handler.{handle_test_failure, test_event}
use fluffy_dollop.Ingestion.Handler.Answers.{IsAccepted, serve_accepts_iff, serve_untouched}
use fluffy_dollop.Ingestion.Router.{
  Route, live, ready, logs, test_failure, method_not_allowed, not_found, route, Request,
  serve_route, serve_request,
}

route-logs :
    (method path : Text)
    → (route method path ≡ logs) ↔ ((method ≡ lit "POST") × (path ≡ lit "/api/v1/logs"))
unfolding route
route-logs method path = ground (
  arith,
  eq_text_iff path (lit "/health/live"),
  eq_text_iff path (lit "/health/ready"),
  eq_text_iff path (lit "/api/v1/logs"),
  eq_text_iff method (lit "POST"),
)

route-test_failure :
    (method path : Text)
    → (route method path ≡ test_failure)
      ↔ ((method ≡ lit "POST") × (path ≡ lit "/api/v1/test/failure"))
unfolding route
route-test_failure method path = ground (
  arith,
  eq_text_iff path (lit "/health/live"),
  eq_text_iff path (lit "/health/ready"),
  eq_text_iff path (lit "/api/v1/logs"),
  eq_text_iff path (lit "/api/v1/test/failure"),
  eq_text_iff method (lit "POST"),
)

module _ {S : Type 0} (enqueue : LogEvent → Io S Text) where
  -- The test endpoint enqueues its own event.
  abbrev pub IsTestAccepted : ThrottleDecision × Duration → Time → S → Text → Type 0
  IsTestAccepted decision now s id = (decision.0 ≡ allow) × ((enqueue (test_event now) s).0 ≡ ok id)

  test_failure-accepts :
      (decision : ThrottleDecision × Duration) (now : Time) (s : S)
      → ((handle_test_failure (ingest_log enqueue decision) now s).0.status ≡ 202)
        ↔ ((id : Text) × IsTestAccepted decision now s id)
  unfolding handle_test_failure ingest_log is_invalid
  test_failure-accepts (allow, d) now s = elim (Result-cases (enqueue (test_event now) s).0) [
    | inl (id, good) ↦ (λ h. (id, (refl, good)), λ (id', (e, good')). ground arith)
    | inr (e, bad) ↦ (λ h. ground arith, λ (id', (e', good')). ground arith)
  ]
  test_failure-accepts (rate_limit, d) now s = (λ h. ground arith, λ (id, (e, good)). ground arith)
  test_failure-accepts (circuit_open, d) now s =
      (λ h. ground arith, λ (id, (e, good)). ground arith)

  test_failure-status :
      (decision : ThrottleDecision × Duration) (now : Time) (s : S)
      → ((handle_test_failure (ingest_log enqueue decision) now s).0.status ≡ 202)
        ⊎ ((handle_test_failure (ingest_log enqueue decision) now s).0.status ≡ 500)
  unfolding handle_test_failure
  test_failure-status decision now s = ground arith

  -- What gets an event into the queue, by the route.
  abbrev pub Accepts : Route → ThrottleDecision × Duration → Option LogEvent → Time → S → Type 0
  Accepts k decision body now s =
      ((k ≡ logs) × ((id : Text) × IsAccepted enqueue decision body now s id))
      ⊎ ((k ≡ test_failure) × ((id : Text) × IsTestAccepted decision now s id))

  serve_route-202 :
      (k : Route) (decision : ThrottleDecision × Duration) (checks : List Check)
      (body : Option LogEvent) (now : Time) (s : S)
      → ((serve_route enqueue k decision checks body now s).0 ≡ 202) ↔ Accepts k decision body now s
  unfolding serve_route handle_live handle_ready
  serve_route-202 live decision checks body now s = ground arith
  serve_route-202 ready decision checks body now s =
      let answers = (handle_ready_iff checks).1 in ground arith
  serve_route-202 method_not_allowed decision checks body now s = ground arith
  serve_route-202 not_found decision checks body now s = ground arith
  serve_route-202 logs decision checks body now s =
      let accepts = serve_accepts_iff enqueue decision body now s in
      (
        λ h. inl (refl, accepts.0 h),
        λ h. elim h [ inl (e, accepted) ↦ accepts.1 accepted | inr (e, accepted) ↦ ground arith ],
      )
  serve_route-202 test_failure decision checks body now s =
      let accepts = test_failure-accepts decision now s in
      (
        λ h. inr (refl, accepts.0 h),
        λ h. elim h [ inl (e, accepted) ↦ ground arith | inr (e, accepted) ↦ accepts.1 accepted ],
      )

  serve_route_untouched :
      (k : Route) (decision : ThrottleDecision × Duration) (checks : List Check)
      (body : Option LogEvent) (now : Time) (s : S)
      → (serve_route enqueue k decision checks body now s).0 ≢ 202
      → (serve_route enqueue k decision checks body now s).0 ≢ 500
      → (serve_route enqueue k decision checks body now s).1 ≡ s
  unfolding serve_route
  serve_route_untouched live decision checks body now s no_202 no_500 = refl
  serve_route_untouched ready decision checks body now s no_202 no_500 = refl
  serve_route_untouched method_not_allowed decision checks body now s no_202 no_500 = refl
  serve_route_untouched not_found decision checks body now s no_202 no_500 = refl
  serve_route_untouched logs decision checks body now s no_202 no_500 =
      serve_untouched enqueue decision body now s no_202 no_500
  serve_route_untouched test_failure decision checks body now s no_202 no_500 =
      elim (test_failure-status decision now s) [
        | inl h ↦ absurd (no_202 h)
        | inr h ↦ absurd (no_500 h)
      ]

  serve_route-effect :
      (k : Route) (decision : ThrottleDecision × Duration) (checks : List Check)
      (body : Option LogEvent) (now : Time) (s : S)
      → ((serve_route enqueue k decision checks body now s).0 ≡ 202)
        ⊎ ((serve_route enqueue k decision checks body now s).0 ≡ 500)
        ⊎ ((serve_route enqueue k decision checks body now s).1 ≡ s)
  serve_route-effect k decision checks body now s =
      let status = (serve_route enqueue k decision checks body now s).0 in
      elim (Bool-cases (status == 202)) [
        | inl h ↦ inl (ground arith)
        | inr no_202 ↦ elim (Bool-cases (status == 500)) [
          | inl h ↦ inr (inl (ground arith))
          | inr no_500 ↦ inr (
              inr (
                serve_route_untouched k decision checks body now s (λ h. ground arith)
                  (λ h. ground arith)))
        ]
      ]

  -- The service answers a request with 202 exactly if it is a POST to /api/v1/logs whose event was
  -- decoded, admitted by the throttler, valid and added to the queue, or a POST to
  -- /api/v1/test/failure while the throttler allows and the test event was added. A request that is
  -- answered neither 202 nor 500 leaves the queue as it was.
  pub serve_request-accepts :
      (r : Request) (decision : ThrottleDecision × Duration) (checks : List Check) (now : Time)
      (s : S)
      → (((serve_request enqueue r decision checks now s).0 ≡ 202) ↔ (
          ((r.method ≡ lit "POST")
            × (r.path ≡ lit "/api/v1/logs")
            × ((id : Text) × IsAccepted enqueue decision r.decoded now s id))
          ⊎ ((r.method ≡ lit "POST")
              × (r.path ≡ lit "/api/v1/test/failure")
              × ((id : Text) × IsTestAccepted decision now s id))))
        × (((serve_request enqueue r decision checks now s).0 ≡ 202)
            ⊎ ((serve_request enqueue r decision checks now s).0 ≡ 500)
            ⊎ ((serve_request enqueue r decision checks now s).1 ≡ s))
  unfolding serve_request
  serve_request-accepts r decision checks now s =
      let k = route r.method r.path in
      let accepts = serve_route-202 k decision checks r.decoded now s in
      let to_logs = route-logs r.method r.path in
      let to_test = route-test_failure r.method r.path in
      (
        (
          λ h. elim (accepts.0 h) [
            | inl (e, accepted) ↦ inl ((to_logs.0 e).0, (to_logs.0 e).1, accepted)
            | inr (e, accepted) ↦ inr ((to_test.0 e).0, (to_test.0 e).1, accepted)
          ],
          λ h. elim h [
            | inl (post, there, accepted) ↦ accepts.1 (inl (to_logs.1 (post, there), accepted))
            | inr (post, there, accepted) ↦ accepts.1 (inr (to_test.1 (post, there), accepted))
          ],
        ),
        serve_route-effect k decision checks r.decoded now s,
      )
