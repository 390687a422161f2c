-- ===== src/Ingestion/Router.antt =====
-- internal/ingestion/router.go with the routes of internal/health/http.go: which handler a request
-- reaches, and what it answers. The path is a clean one, which net/http does not redirect.
pub mod Accepting
use fluffy_dollop.Base.{
  ℕ, Bool, true, false, ◌||◌, Option, none, some, List, [], ◌∷◌, if◌then◌else◌,
}
use fluffy_dollop.Base.Text.{Text, lit, eq_text}
use fluffy_dollop.Go.Effect.{Io}
use fluffy_dollop.Config.Types.{Duration}
use fluffy_dollop.Models.{Time, LogEvent}
use fluffy_dollop.Health.{Check, handle_live, handle_ready}
use fluffy_dollop.Ingestion.Throttler.{ThrottleDecision}
use fluffy_dollop.Ingestion.Service.{ingest_log}
use fluffy_dollop.Ingestion.Handler.{handle_logs, handle_test_failure}
use fluffy_dollop.Ingestion.Middleware.{Call, write_header, write}

pub data Route : Type 0 where
  live ready logs test_failure : Route
  -- what the mux answers itself: 405 for a path that has another method, and 404
  method_not_allowed not_found : Route

-- A pattern with GET also takes HEAD.
abbrev pub is_get : Text → Bool
is_get method = eq_text method (lit "GET") || eq_text method (lit "HEAD")

abbrev pub is_post : Text → Bool
is_post method = eq_text method (lit "POST")

abbrev pub guard : Bool → Route → Route
guard allowed r = if allowed then r else method_not_allowed

-- `NewRouter`.
unfoldable pub route : Text → Text → Route
route method path =
    if eq_text path (lit "/health/live")
    then guard (is_get method) live
    else (if eq_text path (lit "/health/ready")
        then guard (is_get method) ready
        else (if eq_text path (lit "/api/v1/logs")
            then guard (is_post method) logs
            else (if eq_text path (lit "/api/v1/test/failure")
                then guard (is_post method) test_failure
                else not_found)))

-- A request as the handlers see it: the decoded body where it decodes.
pub record Request : Type 0 where
  pub method : Text
  pub path : Text
  pub decoded : Option LogEvent

-- `respondJSON`: the status, then the encoded body.
abbrev pub respond_json : ℕ → ℕ → List Call
respond_json status bytes = write_header status ∷ write bytes ∷ []

module _ {S : Type 0} (enqueue : LogEvent → Io S Text) where
  -- What a route answers, given the throttler's decision and what the registered checks do.
  unfoldable pub serve_route :
      Route → ThrottleDecision × Duration → List Check → Option LogEvent → Time → S → ℕ × S
  serve_route live decision checks body now s = (handle_live.0, s)
  serve_route ready decision checks body now s = ((handle_ready checks).0, s)
  serve_route logs decision checks body now s =
      let (r, s') = handle_logs (ingest_log enqueue decision) body now s in (r.status, s')
  serve_route test_failure decision checks body now s =
      let (r, s') = handle_test_failure (ingest_log enqueue decision) now s in (r.status, s')
  serve_route method_not_allowed decision checks body now s = (405, s)
  serve_route not_found decision checks body now s = (404, s)

  unfoldable pub serve_request :
      Request → ThrottleDecision × Duration → List Check → Time → S → ℕ × S
  unfolding route serve_route
  serve_request r decision checks now s =
      serve_route (route r.method r.path) decision checks r.decoded now s
