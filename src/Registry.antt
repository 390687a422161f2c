-- ===== src/Registry.antt =====
-- internal/registry/registry.go and types.go. The clock is an argument: `now` is the Unix time of
-- a call that writes it, and the instant of `is_alive`.
pub mod Records
pub mod Liveness
pub mod Replay
pub mod ControlPlane
use fluffy_dollop.Base.{Bool, true, false, Option, none, some, List, [], ◌∷◌, ◌++◌, if◌then◌else◌}
use fluffy_dollop.Base.Int.{ℤ, pos, ◌-ℤ◌, ◌*ℤ◌, saturate64, ltb_ℤ}
use fluffy_dollop.Base.Text.{Text, lit, is_empty}
use fluffy_dollop.Go.Errors.{
  Error, plain, failed_to_register_worker, failed_to_heartbeat_worker, failed_to_deregister_worker,
  failed_to_get_worker, failed_to_list_worker_keys,
}
use fluffy_dollop.Go.Effect.{Result, ok, err, Io, pure, ◌>>=◌, ◌>>◌, wrapping, lift_result}
use fluffy_dollop.Go.Strconv.{format_int, parse_int}
use fluffy_dollop.Config.Types.{Duration}
use fluffy_dollop.Models.{Time}
use fluffy_dollop.Redis.{Redis, Fields, field}

-- The instants are Unix seconds: `time.Unix(sec, 0)`.
pub record WorkerInfo : Type 0 where
  pub worker_id : Text
  pub last_seen : ℤ
  pub started_at : ℤ

-- `time.Since(w.LastSeen) < threshold`; the difference of two instants saturates.
unfoldable pub is_alive : WorkerInfo → Duration → Time → Bool
is_alive w threshold now = ltb_ℤ (saturate64 (now -ℤ (w.last_seen *ℤ pos 1000000000))) threshold

abbrev pub worker_key_prefix : Text
worker_key_prefix = lit "worker:registry:"

abbrev pub worker_key : Text → Text
worker_key worker_id = worker_key_prefix ++ worker_id

-- `fields[name]` of a Go map: the empty string where there is none.
abbrev pub or_empty : Option Text → Text
or_empty none = []
or_empty (some v) = v

-- `fmt.Errorf` with `%q` of a text in which nothing needs an escape.
abbrev pub quoted : Text → Text
quoted s = lit "\"" ++ (s ++ lit "\"")

-- strconv.ParseInt, with the error's own message left out.
unfoldable pub parse_time : Text → Text → Result ℤ
parse_time message s = elim (parse_int s) [
  | some n ↦ ok n
  | none ↦ err (plain (message ++ quoted s))
]

abbrev pub parse_times : Text → Text → Text → Result WorkerInfo
parse_times worker_id seen started = elim (parse_time (lit "invalid last_seen ") seen) [
  | err e ↦ err e
  | ok last_seen ↦ elim (parse_time (lit "invalid started_at ") started) [
    | err e ↦ err e
    | ok started_at ↦
        ok (record { worker_id = worker_id; last_seen = last_seen; started_at = started_at })
  ]
]

unfoldable pub parse_worker_info : Fields → Result WorkerInfo
unfolding parse_time
parse_worker_info fields =
    let worker_id = or_empty (field (lit "worker_id") fields) in
    if is_empty worker_id
    then err (plain (lit "missing required field \"worker_id\""))
    else parse_times worker_id (or_empty (field (lit "last_seen") fields))
        (or_empty (field (lit "started_at") fields))

-- The error text names the worker too.
module _ (R : Redis) where
  open R use {State}

  unfoldable pub register : Text → ℤ → Io State (Unit {0})
  register worker_id now = do
    wrapping failed_to_register_worker (
        R.hset (worker_key worker_id) (
          (lit "worker_id", worker_id)
          ∷ (lit "last_seen", format_int now)
          ∷ (lit "started_at", format_int now)
          ∷ []))
    pure tt

  unfoldable pub heartbeat : Text → ℤ → Io State (Unit {0})
  heartbeat worker_id now = do
    wrapping failed_to_heartbeat_worker
        (R.hset (worker_key worker_id) ((lit "last_seen", format_int now) ∷ []))
    pure tt

  unfoldable pub deregister : Text → Io State (Unit {0})
  deregister worker_id =
      wrapping failed_to_deregister_worker (R.del (worker_key worker_id)) >> pure tt

  -- `nil, nil` for no fields.
  abbrev pub found : Fields → Result (Option WorkerInfo)
  found [] = ok none
  found (f ∷ fields) = elim (parse_worker_info (f ∷ fields)) [
    | ok info ↦ ok (some info)
    | err e ↦ err e
  ]

  unfoldable pub get_worker : Text → Io State (Option WorkerInfo)
  unfolding parse_worker_info
  get_worker worker_id = do
    fields ← wrapping failed_to_get_worker (R.hget_all (worker_key worker_id))
    lift_result (found fields)

  abbrev pub add_found : Result Fields → List WorkerInfo → List WorkerInfo
  add_found (err e) workers = workers
  add_found (ok fields) workers = elim (found fields) [
    | err e ↦ workers
    | ok o ↦ elim o [ none ↦ workers | some info ↦ info ∷ workers ]
  ]

  -- The loop over the keys: a worker that cannot be read or parsed is left out.
  unfoldable pub workers_at : List Text → State → List WorkerInfo × State
  unfolding parse_worker_info
  workers_at [] s = ([], s)
  workers_at (key ∷ keys) s =
      let (r, s') = R.hget_all key s in
      let (rest, s'') = workers_at keys s' in (add_found r rest, s'')

  unfoldable pub list_workers : Io State (List WorkerInfo)
  unfolding workers_at
  list_workers = do
    keys ← wrapping failed_to_list_worker_keys (R.keys (worker_key_prefix ++ lit "*"))
    λ s. let (workers, s') = workers_at keys s in (ok workers, s')
