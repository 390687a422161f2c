-- ===== src/Ingestion/Middleware.antt =====
-- internal/ingestion/middleware.go: `responseWriter` on net/http's response, and the line that
-- `loggingMiddleware` logs.
pub mod Logged
use fluffy_dollop.Base.{
  ℕ, ◌+◌, ltb, Bool, true, false, Option, none, some, List, [], ◌∷◌, if◌then◌else◌, ◌&&◌, ◌||◌,
  ◌==◌, not,
}
use fluffy_dollop.Base.Int.{ℤ, pos, ◌+ℤ◌, wrap64}
use fluffy_dollop.Base.Text.{Text, lit, eq_text}
use fluffy_dollop.Config.Types.{Duration}

-- net/http's response: whether it answers HEAD, the status that is sent, once there is one, and the
-- bytes of the body that are sent.
pub record Sent : Type 0 where
  pub is_head : Bool
  pub status : Option ℕ
  pub body_bytes : ℕ

-- A status from 100 to 199 but for 101, which does not end the header.
abbrev pub is_informational : ℕ → Bool
is_informational code = ltb 99 code && (ltb code 200 && not (code == 101))

abbrev pub first_status : Option ℕ → ℕ → Option ℕ
first_status none code = if is_informational code then none else some code
first_status (some sent) code = some sent

abbrev pub is_status : ℕ → Option ℕ → Bool
is_status code none = false
is_status code (some sent) = sent == code

-- The calls that a handler makes: `WriteHeader` with a status, and `Write` of a number of bytes, those
-- that no broken connection keeps from being taken.
pub data Call : Type 0 where
  write_header : ℕ → Call
  write : ℕ → Call

-- What `Write` returns: all bytes, those that are not sent in answer to HEAD included, but none with a
-- status that allows no body.
abbrev pub taken : Sent → ℕ → ℕ
taken r n =
    if is_status 204 (first_status r.status 200) || is_status 304 (first_status r.status 200)
    then 0
    else n

-- What they do to the response of net/http: after the first final status others are dropped, and a
-- write sends 200 where no status is sent.
abbrev pub send : Call → Sent → Sent
send (write_header code) r = record r { status = first_status r.status code }
send (write n) r = record r {
  status = first_status r.status 200;
  body_bytes = r.body_bytes + (if r.is_head then 0 else taken r n);
}

-- The status of the answer: 200 for a handler that sends none.
abbrev pub answered : Option ℕ → ℕ
answered none = 200
answered (some code) = code

pub record ResponseWriter : Type 0 where
  pub inner : Sent
  pub status_code : ℕ
  pub bytes_written : ℤ

unfoldable pub call_writer : Call → ResponseWriter → ResponseWriter
call_writer (write_header code) w = record w {
  inner = send (write_header code) w.inner;
  status_code = code;
}
call_writer (write n) w = record w {
  inner = send (write n) w.inner;
  bytes_written = wrap64 (w.bytes_written +ℤ pos (taken w.inner n));
}

unfoldable pub call_all : List Call → ResponseWriter → ResponseWriter
unfolding call_writer
call_all [] w = w
call_all (c ∷ calls) w = call_all calls (call_writer c w)

-- The wrapped writer before the handler.
abbrev pub wrapped : Text → ResponseWriter
wrapped method = record {
  inner = record { is_head = eq_text method (lit "HEAD"); status = none; body_bytes = 0 };
  status_code = 200;
  bytes_written = pos 0;
}

-- The arguments of `LogHTTPRequest`.
pub record LoggedRequest : Type 0 where
  pub method : Text
  pub path : Text
  pub status : ℕ
  pub duration : Duration
  pub size : ℤ

-- `loggingMiddleware` around a handler that makes these calls: what is sent, and what is logged.
unfoldable pub logging_middleware : Text → Text → Duration → List Call → Sent × LoggedRequest
unfolding call_all
logging_middleware method path duration calls =
    let w = call_all calls (wrapped method) in
    (
      w.inner,
      record {
        method = method;
        path = path;
        status = w.status_code;
        duration = duration;
        size = w.bytes_written;
      },
    )
