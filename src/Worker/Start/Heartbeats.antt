-- ===== src/Worker/Start/Heartbeats.antt =====
-- What the registry holds of a worker that runs its registry loop.
use fluffy_dollop.Base.{
  ℕ, ◌+◌, ◌*◌, ◌^◌, ◌<◌, ◌≡◌, refl, ap, ◌∙◌, true, false, some, List, [], ◌∷◌, All, arith,
}
use fluffy_dollop.Base.Int.{ℤ, pos, IsInt64, ltb_ℤ, saturate64, ◌-ℤ◌, ◌*ℤ◌}
use fluffy_dollop.Base.Text.{Text, is_empty, eq_text, eq_text_iff}
use fluffy_dollop.Go.Effect.{ok}
use fluffy_dollop.Redis.{Redis, Fields, field}
use fluffy_dollop.Redis.Hashes.{HashLaws}
use fluffy_dollop.Registry.{WorkerInfo, worker_key, is_alive, get_worker, heartbeat}
use fluffy_dollop.Registry.Replay.{Entry, known, Call, registers, beats, leaves, apply_call, replay}
use fluffy_dollop.Registry.Replay.Refinement.{Refines, entry_fields, make_call, make_call-Refines}
use fluffy_dollop.Registry.Replay.Answers.{entry-Answers}
use fluffy_dollop.Worker.Start.{Beat, beat_tick, meanwhile, beat_on, registry_loop}

module _ (R : Redis) (H : HashLaws R) where
  -- What a worker's registry loop sees: its ticks, and calls of other workers in between.
  pub data Moment : Type 0 where
    tick : ℤ → Moment
    other : Call → Moment

  abbrev pub event_of : Moment → Beat R
  event_of (tick now) = beat_tick now
  event_of (other c) = meanwhile (λ s. (make_call R H c s).1)

  abbrev pub events_of : List Moment → List (Beat R)
  events_of [] = []
  events_of (m ∷ ms) = event_of m ∷ events_of ms

  abbrev pub call_of : Text → Moment → Call
  call_of worker_id (tick now) = beats worker_id now
  call_of worker_id (other c) = c

  abbrev pub calls_of : Text → List Moment → List Call
  calls_of worker_id [] = []
  calls_of worker_id (m ∷ ms) = call_of worker_id m ∷ calls_of worker_id ms

  -- Redis answers each of the calls.
  abbrev pub Answered : List Call → R.State → Type 0
  Answered [] s = Unit
  Answered (c ∷ calls) s = ((make_call R H c s).0 ≡ ok tt) × Answered calls (make_call R H c s).1

  -- Calls of other workers.
  abbrev pub IsOther : Text → Moment → Type 0
  IsOther worker_id (tick now) = Unit
  IsOther worker_id (other (registers w now)) = eq_text w worker_id ≡ false
  IsOther worker_id (other (beats w now)) = eq_text w worker_id ≡ false
  IsOther worker_id (other (leaves w)) = eq_text w worker_id ≡ false

  abbrev pub last_tick : ℤ → List Moment → ℤ
  last_tick seen [] = seen
  last_tick seen (tick now ∷ ms) = last_tick now ms
  last_tick seen (other c ∷ ms) = last_tick seen ms

  pub beat_on-Refines :
      (worker_id : Text) (ms : List Moment) (m : Text → Entry) (s : R.State)
      → Refines R H m s
      → Answered (calls_of worker_id ms) s
      → Refines R H (replay (calls_of worker_id ms) m) (beat_on R worker_id (events_of ms) s).1
  unfolding beat_on
  beat_on-Refines worker_id [] m s before answered = before
  beat_on-Refines worker_id (tick now ∷ ms) m s before (here, rest) =
      beat_on-Refines worker_id ms (apply_call (beats worker_id now) m) _
        (make_call-Refines R H (beats worker_id now) m s before here) rest
  beat_on-Refines worker_id (other c ∷ ms) m s before (here, rest) =
      beat_on-Refines worker_id ms (apply_call c m) _ (make_call-Refines R H c m s before here) rest

  -- The worker's own entry.
  pub own_entry :
      (worker_id : Text) (ms : List Moment) (m : Text → Entry) (seen started : ℤ)
      → m worker_id ≡ known seen started
      → All (IsOther worker_id) ms
      → replay (calls_of worker_id ms) m worker_id ≡ known (last_tick seen ms) started
  own_entry worker_id [] m seen started h others = h
  own_entry worker_id (tick now ∷ ms) m seen started h (here, rest) =
      let same = (eq_text_iff worker_id worker_id).1 refl in
      own_entry worker_id ms (apply_call (beats worker_id now) m) now started (ground arith) rest
  own_entry worker_id (other (registers w now) ∷ ms) m seen started h (here, rest) =
      own_entry worker_id ms (apply_call (registers w now) m) seen started (rw here h) rest
  own_entry worker_id (other (beats w now) ∷ ms) m seen started h (here, rest) =
      own_entry worker_id ms (apply_call (beats w now) m) seen started (rw here h) rest
  own_entry worker_id (other (leaves w) ∷ ms) m seen started h (here, rest) =
      own_entry worker_id ms (apply_call (leaves w) m) seen started (rw here h) rest

  scaled : (seen : ℕ) → pos seen *ℤ pos 1000000000 ≡ pos (seen * 1000000000)
  unfolding ◌*ℤ◌
  scaled seen = ground arith

  below-ltb_ℤ :
      (clock base threshold : ℕ)
      → clock < base + threshold
      → threshold < 2 ^ 63
      → ltb_ℤ (saturate64 (pos clock -ℤ pos base)) (pos threshold) ≡ true
  unfolding saturate64 ◌-ℤ◌
  below-ltb_ℤ clock base threshold recent small = ground arith

  pub recent-is_alive :
      (worker_id : Text) (seen threshold clock : ℕ) (started : ℤ)
      → clock < seen * 1000000000 + threshold
      → threshold < 2 ^ 63
      → is_alive
          (record { worker_id = worker_id; last_seen = pos seen; started_at = started })
          (pos threshold)
          (pos clock)
        ≡ true
  unfolding is_alive
  recent-is_alive worker_id seen threshold clock started recent small =
      rw (scaled seen) (below-ltb_ℤ clock (seen * 1000000000) threshold recent small)

  -- A worker with a name that is registered and runs its registry loop, while other workers
  -- register, send heartbeats and deregister in between, with every call answered, is one that
  -- GetWorker, if answered, reports as alive until the dead threshold has passed since its last
  -- tick: for Unix times of ticks and of the registration that an int64 holds, and a clock that is
  -- not before 1970.
  pub registry_loop-is_alive :
      (worker_id : Text) (ms : List Moment) (m : Text → Entry) (s : R.State) (fields : Fields)
      (now seen : ℤ) (started : ℤ) (last threshold clock : ℕ)
      → is_empty worker_id ≡ false
      → IsInt64 started
      → IsInt64 (pos last)
      → Refines R H m s
      → m worker_id ≡ known seen started
      → All (IsOther worker_id) ms
      → Answered (beats worker_id now ∷ calls_of worker_id ms) s
      → last_tick now ms ≡ pos last
      → clock < last * 1000000000 + threshold
      → threshold < 2 ^ 63
      → (R.hget_all (worker_key worker_id) (registry_loop R worker_id now (events_of ms) s).1).0
        ≡ ok fields
      → (info : WorkerInfo) × ((get_worker R worker_id
            (registry_loop R worker_id now (events_of ms) s).1).0
          ≡ ok (some info))
        × (info.started_at ≡ started)
        × (is_alive info (pos threshold) (pos clock) ≡ true)
  unfolding registry_loop
  registry_loop-is_alive worker_id ms m s fields now seen started last threshold clock named t64 l64
        before mine others (here, rest) ends recent small read =
      let m' = apply_call (beats worker_id now) m in
      let after =
        beat_on-Refines worker_id ms m' (heartbeat R worker_id now s).1
          (make_call-Refines R H (beats worker_id now) m s before here) rest in
      let same = (eq_text_iff worker_id worker_id).1 refl in
      let entry =
        own_entry worker_id ms m' now started (rw (same, mine) refl) others
        ∙ ap (λ t. known t started) ends in
      (
        record { worker_id = worker_id; last_seen = pos last; started_at = started },
        entry-Answers R H worker_id (known (pos last) started) _ fields (named, (l64, t64))
            (λ f. after worker_id f ∙ ap (λ e. field f (entry_fields worker_id e)) entry) read,
        refl,
        recent-is_alive worker_id last threshold clock started recent small,
      )
