-- ===== src/Worker/Start/Watched.antt =====
-- The worker's registry loop under the eyes of the control plane.
use fluffy_dollop.Base.{
  ℕ, ◌+◌, ◌*◌, ◌^◌, ◌<◌, ◌≡◌, ◌≢◌, refl, ap, sym, ◌∙◌, false, List, ◌∷◌, All, arith,
}
use fluffy_dollop.Base.Int.{ℤ, pos}
use fluffy_dollop.Base.Text.{Text, eq_text_iff}
use fluffy_dollop.Config.Types.{RegistryConfig}
use fluffy_dollop.Redis.{Redis}
use fluffy_dollop.Redis.Hashes.{HashLaws, ListingLaws}
use fluffy_dollop.Registry.{WorkerInfo, is_alive, heartbeat}
use fluffy_dollop.Registry.ControlPlane.{Report, reconcile}
use fluffy_dollop.Registry.Replay.{Entry, known, beats, apply_call, replay, IsSound}
use fluffy_dollop.Registry.Replay.Refinement.{Refines, make_call-Refines}
use fluffy_dollop.Registry.Replay.Answers.{IsEntry, replay-IsEntry}
use fluffy_dollop.Registry.Replay.Listing.{Matches, All-map, last_dead, reconcile_dead}
use fluffy_dollop.Worker.Start.{registry_loop}
use fluffy_dollop.Worker.Start.Heartbeats.{
  Moment, events_of, calls_of, Answered, IsOther, last_tick, own_entry, beat_on-Refines,
  recent-is_alive,
}

-- An entry of another time is another's.
abbrev IsAnother : Text → WorkerInfo → Type 0
IsAnother worker_id info = info.worker_id ≢ worker_id

known_last :
    {seen last started started' : ℤ} → known seen started ≡ known last started' → seen ≡ last
known_last h = ground arith

module _ (R : Redis) (H : HashLaws R) (L : ListingLaws R H) where
  silent-IsAnother :
      (m : Text → Entry) (worker_id : Text) (started : ℤ) (last threshold clock : ℕ)
      (info : WorkerInfo)
      → m worker_id ≡ known (pos last) started
      → clock < last * 1000000000 + threshold
      → threshold < 2 ^ 63
      → Matches m info
      → is_alive info (pos threshold) (pos clock) ≡ false
      → IsAnother worker_id info
  silent-IsAnother m worker_id started last threshold clock info mine recent small matches silent
        same =
      let seen : info.last_seen ≡ pos last = known_last (sym matches ∙ ap m same ∙ mine) in
      let alive =
        recent-is_alive R H info.worker_id last threshold clock info.started_at recent small in
      let still =
        ap
          (λ t.
            is_alive
              (record { worker_id = info.worker_id; last_seen = t; started_at = info.started_at })
              (pos threshold) (pos clock))
          seen
        ∙ alive in
      ground arith

  -- While a worker that is registered runs its registry loop, and the other workers register, send
  -- heartbeats and deregister, with every call answered, a reconcile of the control plane does not
  -- report the worker as dead until the dead threshold has passed since its last tick: for workers
  -- with names, Unix times that an int64 holds, and a clock that is not before 1970.
  pub reconcile-spares :
      (worker_id : Text) (ms : List (Moment R H)) (m : Text → Entry) (s : R.State)
      (reports : List Report) (now seen started : ℤ) (c : RegistryConfig) (last threshold clock : ℕ)
      → Refines R H m s
      → ((w : Text) → IsEntry w (m w))
      → All IsSound (beats worker_id now ∷ calls_of R H worker_id ms)
      → m worker_id ≡ known seen started
      → All (IsOther R H worker_id) ms
      → Answered R H (beats worker_id now ∷ calls_of R H worker_id ms) s
      → last_tick R H now ms ≡ pos last
      → c.dead_threshold ≡ pos threshold
      → clock < last * 1000000000 + threshold
      → threshold < 2 ^ 63
      → All
          (λ i. i.worker_id ≢ worker_id)
          (last_dead
            (reconcile R c (pos clock) (record {
              redis = (registry_loop R worker_id now (events_of R H ms) s).1;
              reports = reports;
            })).reports)
  unfolding registry_loop
  reconcile-spares worker_id ms m s reports now seen started c last threshold clock before sound
        times mine others (here, rest) ends limit recent small =
      let m' = apply_call (beats worker_id now) m in
      let s' = (registry_loop R worker_id now (events_of R H ms) s).1 in
      let after =
        beat_on-Refines R H worker_id ms m' (heartbeat R worker_id now s).1
          (make_call-Refines R H (beats worker_id now) m s before here) rest in
      let same = (eq_text_iff worker_id worker_id).1 refl in
      let entry =
        own_entry R H worker_id ms m' now started (rw (same, mine) refl) others
        ∙ ap (λ t. known t started) ends in
      let m'' = replay (calls_of R H worker_id ms) m' in
      let told =
        reconcile_dead R H L m'' c (pos clock) (record { redis = s'; reports = reports }) after
          (replay-IsEntry (beats worker_id now ∷ calls_of R H worker_id ms) m times sound) in
      All-map _
        (λ i (matches, silent).
          silent-IsAnother m'' worker_id started last threshold clock i entry recent small matches
            (ap (λ d. is_alive i d (pos clock)) (sym limit) ∙ silent))
        told
