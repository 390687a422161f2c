-- ===== src/Ingestion/Throttler/Updater.antt =====
-- The life of the throttler of internal/ingestion/adpative_throttler.go: `NewThrottler`, `Start`,
-- the goroutine `metricsUpdater` on what its select receives, `Stop`, `GetMetrics`; and what
-- internal/bootstrap/throttler.go wires.
pub mod Outage
pub mod Backlog
pub mod Stopping
use fluffy_dollop.Base.{Bool, true, false, Option, none, some, List, [], ◌∷◌, ◌++◌, if◌then◌else◌}
use fluffy_dollop.Base.Int.{ℤ, pos, quot_ℤ}
use fluffy_dollop.Base.Text.{Text, lit}
use fluffy_dollop.Go.Effect.{Result, ok, err, Io, pure}
use fluffy_dollop.Go.Float.{Float64}
use fluffy_dollop.Go.Strconv.{format_int}
use fluffy_dollop.Config.Types.{Duration, ThrottlerConfig, QueueConfig}
use fluffy_dollop.Models.{Time}
use fluffy_dollop.Redis.{Redis}
use fluffy_dollop.Queue.Types.{Json}
use fluffy_dollop.Queue.Dlq.{Dlq}
use fluffy_dollop.Queue.Producer.{stream_length}
use fluffy_dollop.Queue.Consumer.{Consumer, get_pending_info}
use fluffy_dollop.Bootstrap.{setup_consumer, setup_dlq}
use fluffy_dollop.Ingestion.Service.{noop_decision}
use fluffy_dollop.Ingestion.Throttler.{ThrottlerMetrics, ThrottleDecision, update_metrics, decision}

-- A throttler, less its logger: the producer's section, the consumer, the configuration, the
-- metrics, whether `Start` has set `cancel`, whether the goroutine is there, and whether `stopOnce`
-- is used up.
pub record Throttler (Float : Type 0) : Type 0 where
  pub producer : QueueConfig
  pub consumer : Option Consumer
  pub config : ThrottlerConfig Float
  pub metrics : ThrottlerMetrics
  pub started : Bool
  pub updating : Bool
  pub stopped : Bool

-- What the two calls of an `updateMetrics` return that the cancellation finds under way, the error
-- of the cancellation included, and the instant that it stores.
pub record LastUpdate : Type 0 where
  pub depth : Result ℤ
  pub pending : Result (ℤ × ℤ)
  pub now : Time

abbrev pub no_metrics : ThrottlerMetrics
no_metrics = record {
  stream_depth = pos 0;
  pending_count = pos 0;
  oldest_message_age = pos 0;
  last_updated = pos 0;
}

abbrev pub throttler_id : Text → ℤ → Text
throttler_id hostname pid = lit "throttler-" ++ (hostname ++ (lit "-" ++ format_int pid))

-- `GetMetrics`.
unfoldable pub get_metrics : ThrottlerMetrics → ℤ × ℤ × ℤ
get_metrics m = (m.stream_depth, m.pending_count, m.oldest_message_age)

module _ {Float : Type 0} where
  unfoldable pub new_throttler :
      QueueConfig → Option Consumer → ThrottlerConfig Float → Throttler Float
  new_throttler producer consumer config = record {
    producer = producer;
    consumer = consumer;
    config = config;
    metrics = no_metrics;
    started = false;
    updating = false;
    stopped = false;
  }

  -- `Start`, which returns at once.
  unfoldable pub start_throttler : Throttler Float → Throttler Float
  start_throttler t = if t.config.enabled then record t { started = true; updating = true } else t

  -- The rest of an `updateMetrics` that is under way.
  abbrev pub finish_update : Option LastUpdate → Throttler Float → Throttler Float
  finish_update none t = t
  finish_update (some u) t =
      if t.updating
      then record t { metrics = update_metrics u.depth u.pending u.now t.metrics }
      else t

  -- `Stop`: it cancels the context of the goroutine, if there is one, and waits for it to end, which
  -- an `updateMetrics` that is under way does after it has come to its own end. What that one asks
  -- Redis belongs to what happened before.
  unfoldable pub stop_throttler : Option LastUpdate → Throttler Float → Throttler Float
  stop_throttler under_way t =
      if t.stopped
      then t
      else (if t.started
          then record (finish_update under_way t) { stopped = true; updating = false }
          else record t { stopped = true })

  -- `SetupThrottler`: the started throttler, or none for the one that allows everything.
  unfoldable pub setup_throttler :
      QueueConfig → ThrottlerConfig Float → Option Dlq → Text → ℤ → Option (Throttler Float)
  unfolding new_throttler start_throttler
  setup_throttler queue c dlq hostname pid =
      if c.enabled
      then some (
          start_throttler
            (new_throttler queue (some (setup_consumer queue dlq (throttler_id hostname pid))) c))
      else none

-- The decision of the throttler interface.
unfoldable pub throttler_decision :
    (F : Float64) → Option (Throttler F.Float) → Time → ThrottleDecision × Duration
unfolding noop_decision
throttler_decision F none now = noop_decision
throttler_decision F (some t) now = decision F t.config t.metrics now

module _ (R : Redis) where
  open R use {State}

  pub data UpdateEvent : Type 0 where
    -- `ctx.Done()`
    update_cancelled : UpdateEvent
    -- the ticker; the instants at which `GetPendingInfo` and `updateMetrics` read the clock
    update_tick : Time → Time → UpdateEvent
    -- steps of others
    elsewhere : (State → State) → UpdateEvent

module _ (R : Redis) (J : Json) where
  open R use {State}

  -- A consumer that cannot tell what is pending counts as one with nothing pending.
  unfoldable pub get_pending_metrics : Option Consumer → Time → Io State (ℤ × ℤ)
  get_pending_metrics none asked s = (ok (pos 0, pos 0), s)
  get_pending_metrics (some c) asked s = get_pending_info R J c (quot_ℤ asked 1000000) s

module _ (R : Redis) (J : Json) {Float : Type 0} where
  open R use {State}

  -- `updateMetrics`.
  unfoldable pub refresh : Time → Time → Throttler Float → State → Throttler Float × State
  unfolding get_pending_metrics
  refresh asked now t s =
      let (depth, s') = stream_length R J t.producer s in
      let (pending, s'') = get_pending_metrics R J t.consumer asked s' in
      elim depth [
        | err e ↦ (t, s')
        | ok d ↦ (record t { metrics = update_metrics (ok d) pending now t.metrics }, s'')
      ]

  -- The loop, from the select on.
  unfoldable pub update_on :
      List (UpdateEvent R) → Throttler Float → State → Throttler Float × State
  unfolding refresh
  update_on [] t s = (t, s)
  update_on (update_cancelled ∷ events) t s = (record t { updating = false }, s)
  update_on (update_tick asked now ∷ events) t s =
      let (t', s') = refresh asked now t s in update_on events t' s'
  update_on (elsewhere f ∷ events) t s = update_on events t (f s)

  unfoldable pub metrics_updater :
      Time → Time → List (UpdateEvent R) → Throttler Float → State → Throttler Float × State
  unfolding refresh update_on
  metrics_updater asked now events t s =
      let (t', s') = refresh asked now t s in update_on events t' s'
