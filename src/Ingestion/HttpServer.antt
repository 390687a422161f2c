-- ===== src/Ingestion/HttpServer.antt =====
-- internal/ingestion/server.go: the HTTP server's options, how `Start` ends, and the writer of
-- net/http's own log; and the run of cmd/ingestion/main.go.
pub mod Ending
use fluffy_dollop.Base.{
  ℕ, Bool, true, false, ◌==◌, Option, none, some, List, [], ◌∷◌, ◌⊎◌, inl, inr, if◌then◌else◌,
  length,
}
use fluffy_dollop.Base.Int.{ℤ}
use fluffy_dollop.Base.Text.{Text}
use fluffy_dollop.Go.Errors.{Error, wrap, shutdown_failed, server_stopped}
use fluffy_dollop.Go.Effect.{Result, ok, err}
use fluffy_dollop.Config.Types.{Config, Duration, ServerConfig}
use fluffy_dollop.Config.Addresses.{server_addr}
use fluffy_dollop.Config.Issue.{Section, Issues}
use fluffy_dollop.Redis.{Redis}
use fluffy_dollop.Bootstrap.{setup_dlq}
use fluffy_dollop.Bootstrap.Connect.{setup_redis}
use fluffy_dollop.Ingestion.Throttler.Updater.{
  LastUpdate, Throttler, setup_throttler, stop_throttler,
}
use fluffy_dollop.Worker.Start.{Served, server_closed, serve_failed}
use fluffy_dollop.Commands.{Exit, completed, exited, config_refused}

pub record HttpOptions : Type 0 where
  pub addr : Text
  pub read_timeout : Duration
  pub write_timeout : Duration
  pub idle_timeout : Duration

-- `buildHTTPServer`, less the handler and the log.
unfoldable pub build_http_server : ServerConfig → HttpOptions
unfolding server_addr
build_http_server c = record {
  addr = server_addr c;
  read_timeout = c.read_timeout;
  write_timeout = c.write_timeout;
  idle_timeout = c.idle_timeout;
}

-- What the select of `Start` receives: the signal, with what `Shutdown` and then, after an error,
-- `Close` return; or the end of `ListenAndServe`.
pub data ServerEvent : Type 0 where
  signalled : Option Error → Option Error → ServerEvent
  ended : Served → ServerEvent

-- What `Start` returns, and whether it has forced the server to close. An error of `Close` is only
-- logged.
unfoldable pub start_server : ServerEvent → Option Error × Bool
start_server (ended server_closed) = (none, false)
start_server (ended (serve_failed e)) = (some e, false)
start_server (signalled none close) = (none, false)
start_server (signalled (some e) close) = (some (wrap shutdown_failed e), true)

-- A last byte that is a newline is left out.
unfoldable pub without_newline : Text → Text
without_newline [] = []
without_newline (c ∷ []) = if c == 10 then [] else c ∷ []
without_newline (c ∷ d ∷ rest) = c ∷ without_newline (d ∷ rest)

-- `errorLogWriter.Write`: the message that is logged, and the number of bytes that it returns.
unfoldable pub write_error_log : Text → Text × ℕ
unfolding without_newline
write_error_log p = (without_newline p, length p)

abbrev pub ingestion_exit : Option Error → Exit
ingestion_exit none = completed
ingestion_exit (some e) = exited (wrap server_stopped e)

-- The deferred `throttler.Stop()`; the one that allows everything has nothing to stop.
abbrev pub stop_if :
    {Float : Type 0} → Option LastUpdate → Option (Throttler Float) → Option (Throttler Float)
stop_if under_way none = none
stop_if under_way (some t) = some (stop_throttler under_way t)

module _ (R : Redis) {Float : Type 0} where
  open R use {State}

  -- `run` of the ingestion service: how it ends, the throttler then, if it came so far, and Redis.
  -- `serving` is what happens while the server serves, to the throttler too, and what the select
  -- receives at the end; `under_way` is the update of the metrics that Stop then waits for.
  unfoldable pub run_ingestion :
      (Option (Throttler Float) → State → ServerEvent × Option (Throttler Float) × State)
      → Option LastUpdate
      → Config Float ⊎ List (Section × Issues)
      → Text
      → ℤ
      → State
      → Exit × Option (Throttler Float) × State
  unfolding setup_redis setup_throttler setup_dlq start_server stop_throttler
  run_ingestion serving under_way (inr issues) hostname pid s = (config_refused issues, none, s)
  run_ingestion serving under_way (inl c) hostname pid s =
      let (r, s') = setup_redis R s in
      let throttler =
        setup_throttler c.queue c.ingestion.throttler (some (setup_dlq c.queue)) hostname pid in
      let (event, throttler', s'') = serving throttler s' in
      elim r [
        | err e ↦ (exited e, none, s')
        | ok _ ↦ (ingestion_exit (start_server event).0, stop_if under_way throttler', s'')
      ]
