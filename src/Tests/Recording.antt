-- ===== src/Tests/Recording.antt =====
-- A run of the registry with two workers.
use fluffy_dollop.Base.{◌≡◌, refl, some, List, [], ◌∷◌, All, arith}
use fluffy_dollop.Base.Int.{pos}
use fluffy_dollop.Base.Text.{Text, lit, eq_text}
use fluffy_dollop.Go.Effect.{ok}
use fluffy_dollop.Redis.{field}
use fluffy_dollop.Redis.Memory.{Server, blank, memory}
use fluffy_dollop.Redis.Memory.Laws.{memory_hashes, memory_listing}
use fluffy_dollop.Registry.{worker_key, register, heartbeat, deregister, get_worker}
use fluffy_dollop.Registry.ControlPlane.{reconcile}
use fluffy_dollop.Config.Defaults.{default_registry}
use fluffy_dollop.Registry.Replay.Listing.{Matches, IsOverdue, last_dead, reconcile-Matches}
use fluffy_dollop.Registry.Replay.{Call, registers, beats, leaves, IsSound, absent, replay}
use fluffy_dollop.Registry.Replay.Refinement.{Refines, make_calls, make_calls-Refines}
use fluffy_dollop.Registry.Replay.Answers.{IsEntry, replay-IsEntry, get_worker-Answers}

-- The first worker stops and comes back, and the second calls in between.
abbrev calls : List Call
calls =
    registers (lit "w1") (pos 100)
    ∷ registers (lit "w2") (pos 105)
    ∷ leaves (lit "w1")
    ∷ registers (lit "w1") (pos 110)
    ∷ beats (lit "w2") (pos 115)
    ∷ beats (lit "w1") (pos 120)
    ∷ []

calls-IsSound : All IsSound calls
calls-IsSound = (
  (refl, (omega arith, omega arith)),
  (
    (refl, (omega arith, omega arith)),
    (
      tt,
      (
        (refl, (omega arith, omega arith)),
        ((omega arith, omega arith), ((omega arith, omega arith), tt)),
      ),
    ),
  ),
)

calls_made : (make_calls memory memory_hashes calls blank).0 ≡ ok tt
unfolding register heartbeat deregister
calls_made = refl

abbrev recorded : Server
recorded = (make_calls memory memory_hashes calls blank).1

get_worker-Answers_example :
    (get_worker memory (lit "w1") recorded).0
    ≡ ok (some (record { worker_id = lit "w1"; last_seen = pos 120; started_at = pos 110 }))
unfolding eq_text field
get_worker-Answers_example =
    get_worker-Answers memory memory_hashes calls blank (lit "w1")
      (recorded.hash (worker_key (lit "w1"))) (λ v f. refl) calls-IsSound calls_made refl

calls-IsEntry : (w : Text) → IsEntry w (replay calls (λ v. absent) w)
calls-IsEntry = replay-IsEntry calls (λ v. absent) calls-IsSound (λ v. tt)

calls-Refines : Refines memory memory_hashes (replay calls (λ v. absent)) recorded
calls-Refines =
    make_calls-Refines memory memory_hashes calls (λ v. absent) blank (λ v f. refl) calls_made

-- Both workers have been silent for longer than the threshold.
reconcile-Matches_example :
    All
      (λ i.
        Matches (replay calls (λ v. absent)) i
        × IsOverdue default_registry.dead_threshold (pos 200000000000) i)
      (last_dead
        (reconcile memory default_registry
          (pos 200000000000)
          (record { redis = recorded; reports = [] })).reports)
reconcile-Matches_example =
    reconcile-Matches memory memory_hashes memory_listing (replay calls (λ v. absent))
      default_registry (pos 200000000000) (record { redis = recorded; reports = [] }) calls-Refines
      calls-IsEntry
