-- ===== src/Registry/Replay.antt =====
-- What a registry promises, with no Redis in it: each worker has no record, a heartbeat alone, or
-- a registration, and calls change the record of their worker. `Refinement` shows that the calls of
-- registry.go implement it.
pub mod Refinement
pub mod Answers
pub mod Listing
use fluffy_dollop.Base.{◌≡◌, false, Option, none, some, List, [], ◌∷◌, if◌then◌else◌}
use fluffy_dollop.Base.Int.{ℤ, IsInt64}
use fluffy_dollop.Base.Text.{Text, eq_text, is_empty}
use fluffy_dollop.Go.Errors.{Error}
use fluffy_dollop.Go.Effect.{Result, ok, err}
use fluffy_dollop.Registry.{WorkerInfo}

pub data Entry : Type 0 where
  absent : Entry
  -- a heartbeat without a registration
  ghost : ℤ → Entry
  -- the last heartbeat and the registration
  known : ℤ → ℤ → Entry

pub data Call : Type 0 where
  registers : Text → ℤ → Call
  beats : Text → ℤ → Call
  leaves : Text → Call

abbrev pub seen_now : ℤ → Entry → Entry
seen_now now absent = ghost now
seen_now now (ghost seen) = ghost now
seen_now now (known seen started) = known now started

abbrev pub set_entry : (Text → Entry) → Text → Entry → Text → Entry
set_entry m worker_id e w = if eq_text worker_id w then e else m w

abbrev pub apply_call : Call → (Text → Entry) → Text → Entry
apply_call (registers worker_id now) m = set_entry m worker_id (known now now)
apply_call (beats worker_id now) m = set_entry m worker_id (seen_now now (m worker_id))
apply_call (leaves worker_id) m = set_entry m worker_id absent

abbrev pub replay : List Call → (Text → Entry) → Text → Entry
replay [] m = m
replay (c ∷ calls) m = replay calls (apply_call c m)

-- What GetWorker has to answer.
abbrev pub Answers : Text → Entry → Result (Option WorkerInfo) → Type 0
Answers w absent r = r ≡ ok none
Answers w (ghost seen) r = (e : Error) × (r ≡ err e)
Answers w (known seen started) r =
    r ≡ ok (some (record { worker_id = w; last_seen = seen; started_at = started }))

-- A call for a worker with a name, at an int64 time.
abbrev pub IsSound : Call → Type 0
IsSound (registers worker_id now) = (is_empty worker_id ≡ false) × IsInt64 now
IsSound (beats worker_id now) = IsInt64 now
IsSound (leaves worker_id) = Unit
