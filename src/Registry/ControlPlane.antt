-- ===== src/Registry/ControlPlane.antt =====
-- internal/registry/control_plane.go. The loops read a list of events: what the select statement
-- receives, and what the rest of the world does to Redis between two of them. A run that has used
-- up its events is still going.
pub mod Standby
use fluffy_dollop.Base.{
  ℕ, ◌+◌, length, Bool, true, false, Option, none, some, List, [], ◌∷◌, ◌++◌, if◌then◌else◌,
}
use fluffy_dollop.Base.Text.{Text, lit, eq_text}
use fluffy_dollop.Go.Errors.{
  Error, plain, wrap, lock_set_nx_failed, failed_to_read_lock, failed_to_renew_lock_ttl,
  failed_to_acquire_lock, lost_control_plane_lock,
}
use fluffy_dollop.Go.Effect.{Result, ok, err, Io, pure, fail, ◌>>=◌, ◌>>◌, wrapping}
use fluffy_dollop.Config.Types.{RegistryConfig}
use fluffy_dollop.Models.{Time}
use fluffy_dollop.Redis.{Redis}
use fluffy_dollop.Registry.{WorkerInfo, is_alive, quoted, list_workers}

abbrev pub lock_key : Text
lock_key = lit "controlplane:lock"

-- What one reconcile logs: the dead workers, and how many there are and how many of them live.
pub data Report : Type 0 where
  listing_failed : Error → Report
  reconciled : List WorkerInfo → ℕ → ℕ → Report

-- How a run ends, or that it goes on.
pub data Outcome : Type 0 where
  going : Outcome
  stopped : Outcome
  failed : Error → Outcome

-- The loop of `reconcile` over the workers.
unfoldable pub count_workers : RegistryConfig → Time → List WorkerInfo → List WorkerInfo × ℕ
count_workers c now [] = ([], 0)
count_workers c now (w ∷ workers) =
    let (dead, alive) = count_workers c now workers in
    if is_alive w c.dead_threshold now then (dead, alive + 1) else (w ∷ dead, alive)

module _ (R : Redis) where
  pub data Event : Type 0 where
    -- ctx.Done()
    cancelled : Event
    -- the ticker of the lock: renewal for the leader, another try for a standby, at an instant
    lock_tick : Time → Event
    -- the reconcile ticker, at an instant
    reconcile_tick : Time → Event
    -- steps of other clients, and keys whose time to live is over
    meanwhile : (R.State → R.State) → Event

  pub record Watch : Type 0 where
    pub redis : R.State
    pub reports : List Report

  abbrev watch : {A : Type 0} → Io R.State A → Io Watch A
  watch m w = let (r, s) = m w.redis in (r, record w { redis = s })

  abbrev report_of : RegistryConfig → Time → Result (List WorkerInfo) → Report
  report_of c now (err e) = listing_failed e
  report_of c now (ok workers) =
      let (dead, alive) = count_workers c now workers in reconciled dead (length workers) alive

  unfoldable pub reconcile : RegistryConfig → Time → Watch → Watch
  unfolding count_workers
  reconcile c now w =
      let (r, w') = watch (list_workers R) w in
      record w' { reports = report_of c now r ∷ w'.reports }

  unfoldable pub acquire_lock : RegistryConfig → Text → Io R.State Bool
  acquire_lock c id = wrapping lock_set_nx_failed (R.set_nx lock_key id c.lock_ttl)

  unfoldable pub renew_lock : RegistryConfig → Text → Io R.State (Unit {0})
  renew_lock c id = do
    current ← wrapping failed_to_read_lock (R.get lock_key)
    if eq_text current id
        then wrapping failed_to_renew_lock_ttl (R.expire lock_key c.lock_ttl) >> pure tt
        else fail (plain (lit "lock owned by " ++ (quoted current ++ (lit ", not " ++ quoted id))))

  unfoldable pub release_lock : Text → R.State → R.State
  release_lock id s =
      let (r, s') = R.get lock_key s in
      elim r [ ok current ↦ if eq_text current id then (R.del lock_key s').1 else s' | err e ↦ s' ]

  -- The loop of the leader.
  unfoldable pub lead : RegistryConfig → Text → List Event → Watch → Outcome × Watch
  unfolding reconcile renew_lock release_lock
  lead c id [] w = (going, w)
  lead c id (cancelled ∷ events) w = (stopped, record w { redis = release_lock id w.redis })
  lead c id (lock_tick now ∷ events) w =
      let (r, w') = watch (renew_lock c id) w in
      let rest = lead c id events w' in
      elim r [ ok u ↦ rest | err e ↦ (failed (wrap lost_control_plane_lock e), w') ]
  lead c id (reconcile_tick now ∷ events) w = lead c id events (reconcile c now w)
  lead c id (meanwhile f ∷ events) w = lead c id events (record w { redis = f w.redis })

  -- `Start`, with `wait_for_lock` on the same events as an argument; `now` is the instant of the
  -- first reconcile.
  abbrev pub start_or :
      (Watch → Outcome × Watch)
      → RegistryConfig
      → Text
      → Time
      → List Event
      → Watch
      → Outcome × Watch
  start_or wait c id now events w =
      let (r, w') = watch (acquire_lock c id) w in
      elim r [
        | err e ↦ (failed (wrap failed_to_acquire_lock e), w')
        | ok acquired ↦ elim acquired [
          | true ↦ lead c id events (reconcile c now w')
          | false ↦ wait w'
        ]
      ]

  -- The loop of a standby. A failed try is logged, and the next tick tries again.
  unfoldable pub wait_for_lock : RegistryConfig → Text → List Event → Watch → Outcome × Watch
  unfolding lead acquire_lock reconcile
  wait_for_lock c id [] w = (going, w)
  wait_for_lock c id (cancelled ∷ events) w = (stopped, w)
  wait_for_lock c id (lock_tick now ∷ events) w =
      let (r, w') = watch (acquire_lock c id) w in
      let rest = λ (v : Watch). wait_for_lock c id events v in
      elim r [
        | err e ↦ rest w'
        | ok acquired ↦ elim acquired [ true ↦ start_or rest c id now events w' | false ↦ rest w' ]
      ]
  wait_for_lock c id (reconcile_tick t ∷ events) w = wait_for_lock c id events w
  wait_for_lock c id (meanwhile f ∷ events) w =
      wait_for_lock c id events (record w { redis = f w.redis })

  unfoldable pub start : RegistryConfig → Text → Time → List Event → Watch → Outcome × Watch
  unfolding wait_for_lock acquire_lock lead reconcile
  start c id now events w = start_or (λ v. wait_for_lock c id events v) c id now events w
