-- ===== src/Tests/Serving.antt =====
-- Requests through the router, the middleware and the readiness check, and the ingestion command.
use fluffy_dollop.Base.{
  ◌≢◌, arith, ℕ, ◌+◌, ◌≡◌, refl, ◌↔◌, ◌⊎◌, true, false, Option, none, some, List, [], ◌∷◌, ◌++◌,
  arith,
}
use fluffy_dollop.Base.Int.{pos}
use fluffy_dollop.Base.Text.{Text, lit}
use fluffy_dollop.Go.Errors.{Error, redis_nil, error_text}
use fluffy_dollop.Go.Effect.{ok, err, Io}
use fluffy_dollop.Redis.Memory.{Server, blank, memory}
use fluffy_dollop.Config.Types.{Config}
use fluffy_dollop.Config.Defaults.{get_defaults}
use fluffy_dollop.Models.{LogEvent}
use fluffy_dollop.Health.{Check, returned}
use fluffy_dollop.Health.Checkers.{ready}
use fluffy_dollop.Health.Checkers.Ping.{ready-ping}
use fluffy_dollop.Ingestion.Throttler.{allow}
use fluffy_dollop.Ingestion.Throttler.Updater.{Throttler}
use fluffy_dollop.Ingestion.Handler.Answers.{IsAccepted}
use fluffy_dollop.Ingestion.Middleware.{answered, logging_middleware}
use fluffy_dollop.Ingestion.Middleware.Logged.{logging_middleware-answered}
use fluffy_dollop.Ingestion.Router.{Request, respond_json, serve_request}
use fluffy_dollop.Ingestion.Router.Accepting.{IsTestAccepted, serve_request-accepts}
use fluffy_dollop.Ingestion.HttpServer.{ServerEvent, signalled}
use fluffy_dollop.Tests.Samples.{event, thousandths}

abbrev counting : LogEvent → Io ℕ Text
counting e n = (ok (lit "1-0"), n + 1)

abbrev checks : List Check
checks = record { name = lit "redis"; outcome = returned none; elapsed = pos 1000 } ∷ []

abbrev posted : Request
posted = record { method = lit "POST"; path = lit "/api/v1/logs"; decoded = some event }

serve_request-accepts_example :
    (((serve_request counting posted (allow, pos 0) checks (pos 7) 0).0 ≡ 202) ↔ (
      ((posted.method ≡ lit "POST")
        × (posted.path ≡ lit "/api/v1/logs")
        × ((id : Text) × IsAccepted counting (allow, pos 0) posted.decoded (pos 7) 0 id))
      ⊎ ((posted.method ≡ lit "POST")
          × (posted.path ≡ lit "/api/v1/test/failure")
          × ((id : Text) × IsTestAccepted counting (allow, pos 0) (pos 7) 0 id))))
    × (((serve_request counting posted (allow, pos 0) checks (pos 7) 0).0 ≡ 202)
        ⊎ ((serve_request counting posted (allow, pos 0) checks (pos 7) 0).0 ≡ 500)
        ⊎ ((serve_request counting posted (allow, pos 0) checks (pos 7) 0).1 ≡ 0))
serve_request-accepts_example =
    serve_request-accepts counting posted (allow, pos 0) checks (pos 7) 0

post_not_head : lit "POST" ≢ lit "HEAD"
post_not_head h = ground arith

logging_middleware-answered_example :
    let (sent, line) =
      logging_middleware (lit "POST") (lit "/api/v1/logs") (pos 9) (respond_json 429 64) in
    (line.status ≡ answered sent.status) × (line.size ≡ pos sent.body_bytes)
logging_middleware-answered_example =
    logging_middleware-answered (lit "POST") (lit "/api/v1/logs") (pos 9) (respond_json 429 64)
      post_not_head (refl, (tt, tt)) (omega arith)

ready-ping_example :
    (((ready memory true (pos 1000) blank).0.0 ≡ 200)
      × (true ≡ true)
      × ((v : Text) × ((memory.ping blank).0 ≡ ok v)))
    ⊎ (((ready memory true (pos 1000) blank).0.0 ≡ 503)
        × ((true ≡ false)
            ⊎ ((e : Error) × ((memory.ping blank).0 ≡ err e)
                × ((ready memory true (pos 1000) blank).0.1.checks
                    ≡ record {
                      name = lit "redis";
                      healthy = false;
                      message = lit "redis ping failed: " ++ error_text e;
                      duration = pos 1000;
                    }
                      ∷ []))))
ready-ping_example = ready-ping memory true (pos 1000) blank

abbrev settings : Config thousandths.Float
settings = get_defaults thousandths

-- The server does not shut down in time.
abbrev serving :
    Option (Throttler thousandths.Float)
    → Server
    → ServerEvent × Option (Throttler thousandths.Float) × Server
serving t s = (signalled (some redis_nil) none, t, s)
