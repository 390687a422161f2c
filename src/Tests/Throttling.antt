-- ===== src/Tests/Throttling.antt =====
-- The throttler's updater on the server in memory, and the logger.
use fluffy_dollop.Base.{
  ℕ, ◌+◌, ◌/◌, ◌≡◌, refl, ltb, ltb→lt, lt→ltb, Bool, true, Option, some, List, [], ◌∷◌, ◌++◌, arith,
}
use fluffy_dollop.Base.Int.{ℤ, pos, ◌<ℤ◌}
use fluffy_dollop.Base.Text.{Text, lit}
use fluffy_dollop.Go.Errors.{redis_nil}
use fluffy_dollop.Go.Effect.{ok, err}
use fluffy_dollop.Redis.{Redis}
use fluffy_dollop.Redis.Memory.{Server, blank, memory}
use fluffy_dollop.Redis.Memory.Laws.{memory_queue}
use fluffy_dollop.Config.Types.{ThrottlerConfig}
use fluffy_dollop.Config.Defaults.{default_queue, default_throttler}
use fluffy_dollop.Queue.Consumer.{Consumer}
use fluffy_dollop.Queue.Producer.{stream_length}
use fluffy_dollop.Ingestion.Throttler.{allow, circuit_open}
use fluffy_dollop.Ingestion.Throttler.Updater.{
  LastUpdate, Throttler, no_metrics, new_throttler, start_throttler, UpdateEvent, update_tick,
  update_cancelled, elsewhere, refresh, update_on, metrics_updater, throttler_decision,
}
use fluffy_dollop.Ingestion.Throttler.Updater.Outage.{update_on-allows}
use fluffy_dollop.Ingestion.Throttler.Updater.Backlog.{
  RatioTotal, ack_all, acknowledged_backlog_refuses,
}
use fluffy_dollop.Tests.Samples.{consumer, json, thousandths}

abbrev throttling : ThrottlerConfig ℕ
throttling = record (default_throttler thousandths) { soft_depth_limit = pos 1 }

abbrev throttler : Throttler ℕ
throttler = start_throttler (new_throttler default_queue (some consumer) throttling)

thousandths_total : RatioTotal thousandths
thousandths_total = record { ratio_total = λ t m q n r hq hr other above. ground arith }

-- A server that answers no XLEN.
abbrev silent : Redis
silent = record memory { xlen = λ stream s. (err redis_nil, s) }

abbrev updated : Throttler ℕ
updated = record throttler { metrics = record no_metrics { last_updated = pos 1000 } }

abbrev failing_ticks : List (UpdateEvent silent)
failing_ticks =
    update_tick (pos 1001000000000) (pos 1001000000000)
    ∷ elsewhere (λ s. s)
    ∷ update_tick (pos 1001500000000) (pos 1001500000000)
    ∷ update_cancelled
    ∷ []

update_on-allows_example :
    throttler_decision thousandths
      (some (update_on silent json failing_ticks updated blank).0)
      (pos 1001600000000)
    ≡ (allow, pos 0)
unfolding stream_length default_queue new_throttler start_throttler default_throttler
update_on-allows_example =
    update_on-allows silent json thousandths failing_ticks updated blank 1000 500000000
      1001600000000 ((_, refl), ((_, refl), tt)) refl refl (omega arith) (omega arith)

-- Two entries in every stream.
abbrev full : Server
full = record blank {
  entries = λ stream.
      record { id = lit "7-0"; values = [] } ∷ record { id = lit "8-0"; values = [] } ∷ [];
}

abbrev acks : List (Consumer × Text)
acks = (consumer, lit "7-0") ∷ (consumer, lit "8-0") ∷ []

abbrev finished : Server
finished = ack_all memory json memory_queue thousandths thousandths_total acks full

acknowledged_backlog_refuses_example :
    throttler_decision thousandths
      (some (refresh memory json (pos 1000000000000) (pos 1000000000000) throttler finished).0)
      (pos 1001000000000)
    ≡ (circuit_open, pos 0)
unfolding stream_length default_queue new_throttler start_throttler default_throttler
    fluffy_dollop.Base.Int.wrap64 fluffy_dollop.Base.Int.◌+ℤ◌ fluffy_dollop.Queue.Consumer.ack
acknowledged_backlog_refuses_example =
    acknowledged_backlog_refuses memory json memory_queue thousandths thousandths_total throttler
      acks full (pos 1000000000000) 1000000000000 500000000 1001000000000 (pos 4) refl (omega arith)
      (omega arith) refl (omega arith) refl refl (omega arith) (omega arith)

abbrev ticks : List (UpdateEvent memory)
ticks = update_tick (pos 1001000000000) (pos 1001000000000) ∷ elsewhere (λ s. s) ∷ []

abbrev run_down : Throttler ℕ
run_down =
    (metrics_updater memory json (pos 1000000000000) (pos 1000000000000) ticks throttler full).0

-- The cancellation comes between the two calls of an update.
abbrev between : LastUpdate
between = record { depth = ok (pos 7); pending = err redis_nil; now = pos 1002000000000 }
