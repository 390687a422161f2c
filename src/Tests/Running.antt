-- ===== src/Tests/Running.antt =====
-- Runs of the worker's command, its loops and its registry loop.
use fluffy_dollop.Base.{
  ◌≡◌, refl, ◌≢◌, All, ◌↔◌, ◌⊎◌, inl, Bool, true, false, Option, none, some, List, [], ◌∷◌, In,
  arith,
}
use fluffy_dollop.Base.Int.{pos}
use fluffy_dollop.Base.Text.{Text, lit, eq_text}
use fluffy_dollop.Go.Errors.{Error, wrap, health_server_failed, redis_nil}
use fluffy_dollop.Go.Effect.{ok}
use fluffy_dollop.Go.Group.{ErrGroup, ErrGroupLaws}
use fluffy_dollop.Redis.{field}
use fluffy_dollop.Redis.Hashes.{or_else}
use fluffy_dollop.Redis.Memory.{Server, blank, memory}
use fluffy_dollop.Redis.Memory.Laws.{memory_hashes, memory_listing}
use fluffy_dollop.Config.Types.{Config}
use fluffy_dollop.Config.Issue.{Section, Issues}
use fluffy_dollop.Config.Defaults.{default_queue, default_worker, default_registry, get_defaults}
use fluffy_dollop.Config.Validator.Sections.{IsUsableQueue}
use fluffy_dollop.Bootstrap.{setup_partitions}
use fluffy_dollop.Bootstrap.Connect.{setup_redis}
use fluffy_dollop.Registry.{register, heartbeat}
use fluffy_dollop.Registry.Records.{IsRegistered}
use fluffy_dollop.Registry.Replay.{absent, Call, registers, replay}
use fluffy_dollop.Registry.Replay.Refinement.{Refines, make_calls, make_calls-Refines}
use fluffy_dollop.Worker.Poll.{Worker, new_worker}
use fluffy_dollop.Worker.Start.{
  Returned, poll_returned, reclaim_returned, registry_returned, health_returned, serve_failed,
  all_return, start_worker, registry_loop,
}
use fluffy_dollop.Worker.Start.Outcome.{start_hides_failure}
use fluffy_dollop.Worker.Start.Heartbeats.{tick, other, Moment, events_of}
use fluffy_dollop.Worker.Start.Watched.{reconcile-spares}
use fluffy_dollop.Registry.ControlPlane.{reconcile}
use fluffy_dollop.Registry.Replay.Answers.{IsEntry, replay-IsEntry}
use fluffy_dollop.Registry.Replay.Listing.{last_dead}
use fluffy_dollop.Commands.{exit_code, start_up, wired, run_worker}
use fluffy_dollop.Commands.Lifecycle.{start_up-ready, run_worker-exit_code}
use fluffy_dollop.Tests.Samples.{consumer, thousandths, memory_groups}

-- A group that keeps the first error and whether it is done.
abbrev grouping : ErrGroup
grouping = record {
  State = Option Error × Bool;
  with_context = λ parent. (none, parent);
  returns = λ o s. (or_else s.0 o, s.1);
  wait = λ s. (s.0, (s.0, true));
  done = λ s. s.1;
}

abbrev grouping_laws : ErrGroupLaws grouping
grouping_laws = record {
  first = λ s. s.0;
  first_none = λ parent. refl;
  returns_first = λ o s. refl;
  wait_first = λ s. refl;
  wait_cancels = λ s. refl;
}

-- The port of the health server is taken.
abbrev taken : Error
taken = redis_nil

abbrev all_returned : List Returned
all_returned =
    poll_returned ∷ health_returned (serve_failed taken) ∷ reclaim_returned ∷ registry_returned ∷ []

start_hides_failure_example :
    ((grouping.wait (all_return grouping all_returned (grouping.with_context false))).0
      ≡ some (wrap health_server_failed taken))
    × (start_worker grouping false all_returned ≡ none)
start_hides_failure_example = start_hides_failure grouping grouping_laws false all_returned

-- A worker with delays from 500 to 5000.
abbrev polling_worker : Worker
polling_worker =
    new_worker consumer
      (record default_worker { backoff_min_delay = pos 500; backoff_max_delay = pos 5000 })
      default_registry (pos 0) (lit "w1")

-- Two ticks of the worker, with another that registers in between.
abbrev moments : List (Moment memory memory_hashes)
moments = tick (pos 110) ∷ other (registers (lit "w2") (pos 115)) ∷ tick (pos 120) ∷ []

abbrev first_call : List Call
first_call = registers (lit "w1") (pos 100) ∷ []

abbrev registered : Server
registered = (make_calls memory memory_hashes first_call blank).1

registered-Refines : Refines memory memory_hashes (replay first_call (λ w. absent)) registered
unfolding register field
registered-Refines =
    make_calls-Refines memory memory_hashes first_call (λ w. absent) blank (λ w f. refl) refl

abbrev after_ticks : Server
after_ticks =
    (registry_loop memory (lit "w1") (pos 101) (events_of memory memory_hashes moments)
      registered).1

own-IsEntry : (w : Text) → IsEntry w (replay first_call (λ v. absent) w)
own-IsEntry =
    replay-IsEntry first_call (λ v. absent) ((refl, (omega arith, omega arith)), tt) (λ v. tt)

reconcile-spares_example :
    All
      (λ i. i.worker_id ≢ lit "w1")
      (last_dead
        (reconcile memory default_registry
          (pos 149000000000)
          (record { redis = after_ticks; reports = [] })).reports)
unfolding register heartbeat eq_text field default_registry
reconcile-spares_example =
    reconcile-spares memory memory_hashes memory_listing (lit "w1") moments
      (replay first_call (λ w. absent)) registered [] (pos 101) (pos 100) (pos 100) default_registry
      120 30000000000 149000000000 registered-Refines own-IsEntry
      (
        (omega arith, omega arith),
        (
          (omega arith, omega arith),
          ((refl, (omega arith, omega arith)), ((omega arith, omega arith), tt)),
        ),
      )
      refl (tt, (refl, (tt, tt))) (refl, (refl, (refl, (refl, tt)))) refl refl (omega arith)
      (omega arith)

abbrev settings : Config thousandths.Float
settings = get_defaults thousandths

abbrev started : Server
started = (start_up memory settings (lit "w1") (pos 100) blank).1

-- All goroutines return, the health server first, with an error.
abbrev work : Worker → Server → List Returned × Server
work w s = (
  health_returned (serve_failed taken) ∷ poll_returned ∷ reclaim_returned ∷ registry_returned ∷ [],
  s,
)

settings_usable : IsUsableQueue settings.queue
unfolding get_defaults default_queue
settings_usable = record {
  stream_named = λ h. ground arith;
  group_named = λ h. ground arith;
  retries = omega arith;
  max_len = omega arith;
  dlq_named = λ h. ground arith;
  dlq_max_len = omega arith;
  dlq_apart = λ h. ground arith;
  partitions = omega arith;
  partition_from = omega arith;
  partition_to = omega arith;
}

started_ok : (start_up memory settings (lit "w1") (pos 100) blank).0 ≡ ok tt
unfolding start_up setup_redis setup_partitions get_defaults default_queue register
started_ok = refl

start_up-ready_example :
    In
      (wired settings (lit "w1")).consumer.consumer_group
      (memory_groups.groups started (wired settings (lit "w1")).consumer.stream_name)
    × IsRegistered memory memory_hashes (lit "w1") (pos 100) (pos 100) started
start_up-ready_example =
    start_up-ready memory memory_groups memory_hashes settings (lit "w1") (pos 100) blank
      settings_usable started_ok

run_worker-exit_code_example :
    (exit_code (run_worker memory grouping work false (inl settings) (lit "w1") (pos 100) blank).0
      ≡ 0)
    ↔ ((c : Config thousandths.Float) × (◌≡◌
          {A = Config thousandths.Float ⊎ List (Section × Issues)}
          (inl settings)
          (inl c))
        × ((start_up memory c (lit "w1") (pos 100) blank).0 ≡ ok tt))
run_worker-exit_code_example =
    run_worker-exit_code memory grouping grouping_laws work false (inl settings) (lit "w1")
      (pos 100) blank
