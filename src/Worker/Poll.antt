-- ===== src/Worker/Poll.antt =====
-- `pollLoop` of internal/worker/worker.go as a function of what it receives, with its backoff, and
-- `NewWorker`. What `Consume` returns, the random numbers, and whether the context ends a wait are
-- the events.
pub mod Delays
use fluffy_dollop.Base.{Bool, true, false, List, [], ◌∷◌, if◌then◌else◌}
use fluffy_dollop.Base.Int.{ℤ, pos}
use fluffy_dollop.Base.Text.{Text}
use fluffy_dollop.Go.Float.{Float64}
use fluffy_dollop.Config.Types.{Duration, WorkerConfig, RegistryConfig}
use fluffy_dollop.Queue.Consumer.{Consumer, Fetched, nothing, job, failed}
use fluffy_dollop.Worker.Backoff.{Backoff, new_backoff, next, reset}
use fluffy_dollop.Worker.Pool.{Job}

-- A worker, less its clients, its logger and the parts that are functions here.
pub record Worker : Type 0 where
  pub consumer : Consumer
  pub config : WorkerConfig
  pub registry_config : RegistryConfig
  pub partition_id : ℤ
  -- the semaphore's weight
  pub weight : ℤ
  pub active_jobs : ℤ
  pub backoff : Backoff
  -- whether `ready` is closed
  pub ready : Bool
  pub worker_id : Text

unfoldable pub new_worker : Consumer → WorkerConfig → RegistryConfig → ℤ → Text → Worker
unfolding new_backoff
new_worker consumer config registry_config partition_id worker_id = record {
  consumer = consumer;
  config = config;
  registry_config = registry_config;
  partition_id = partition_id;
  weight = config.concurrency;
  active_jobs = pos 0;
  backoff = new_backoff config.backoff_min_delay config.backoff_max_delay;
  ready = false;
  worker_id = worker_id;
}

-- The worker after the loop, the messages that it gave to goroutines, the times that it slept, and
-- whether it has returned.
pub record Polled : Type 0 where
  pub worker : Worker
  pub jobs : List Job
  pub sleeps : List Duration
  pub returned : Bool

module _ (F : Float64) where
  open F use {Float}

  pub data PollEvent : Type 0 where
    -- `ctx.Done()` at the select
    poll_cancelled : PollEvent
    -- `Consume` returns; the random number is for the delay after an error, and the last argument
    -- says whether the context ends the sleep after an error or the wait for the semaphore
    consumed : Fetched → Float → Bool → PollEvent

  abbrev add_job : Job → Polled → Polled
  add_job j p = record p { jobs = j ∷ p.jobs }

  abbrev add_sleep : Duration → Polled → Polled
  add_sleep d p = record p { sleeps = d ∷ p.sleeps }

  abbrev pub stays_at : Bool → Worker → Polled
  stays_at returned w = record { worker = w; jobs = []; sleeps = []; returned = returned }

  abbrev pub delayed : Worker → Float → Worker
  delayed w random = record w { backoff = (next F w.backoff random).1 }

  abbrev pub succeeded : Worker → Worker
  succeeded w = record w { backoff = reset w.backoff }

  -- The loop, from the select on.
  unfoldable pub poll_on : List PollEvent → Worker → Polled
  poll_on [] w = stays_at false w
  poll_on (poll_cancelled ∷ events) w = stays_at true w
  poll_on (consumed (failed e) random interrupted ∷ events) w =
      let rest = poll_on events (delayed w random) in
      add_sleep (next F w.backoff random).0
        (if interrupted then stays_at true (delayed w random) else rest)
  poll_on (consumed nothing random interrupted ∷ events) w = poll_on events (succeeded w)
  poll_on (consumed (job envelope id) random interrupted ∷ events) w =
      let rest = poll_on events (succeeded w) in
      if interrupted then stays_at true (succeeded w) else add_job (envelope, id) rest

  unfoldable pub poll_loop : List PollEvent → Worker → Polled
  unfolding poll_on
  poll_loop events w = poll_on events (record w { ready = true })
