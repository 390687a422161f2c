-- ===== src/Registry/Records.antt =====
-- The hash that registering and heartbeats leave of a worker.
use fluffy_dollop.Base.{◌≡◌, ◌∙◌, inl, inr, false, some, [], ◌∷◌, arith}
use fluffy_dollop.Base.Int.{ℤ, IsInt64}
use fluffy_dollop.Base.Text.{Text, lit, eq_text, is_empty}
use fluffy_dollop.Go.Effect.{Result-cases, ok}
use fluffy_dollop.Go.Strconv.{format_int}
use fluffy_dollop.Go.Strconv.Laws.{parse_int-format_int}
use fluffy_dollop.Redis.{Redis, Fields, field}
use fluffy_dollop.Redis.Hashes.{HashLaws, or_else}
use fluffy_dollop.Registry.{worker_key, parse_time, parse_worker_info, register, heartbeat}

-- The fields of a worker's hash.
abbrev pub seen_fields : Text → ℤ → ℤ → Fields
seen_fields worker_id last_seen started_at =
    (lit "worker_id", worker_id)
    ∷ (lit "last_seen", format_int last_seen)
    ∷ (lit "started_at", format_int started_at)
    ∷ []

parse_time-format_int :
    (message : Text) (n : ℤ) → IsInt64 n → parse_time message (format_int n) ≡ ok n
unfolding parse_time
parse_time-format_int message n small = ground (arith, parse_int-format_int n small)

pub parse_worker_info_of :
    (fields : Fields) (worker_id : Text) (seen started : ℤ)
    → is_empty worker_id ≡ false
    → IsInt64 seen
    → IsInt64 started
    → field (lit "worker_id") fields ≡ some worker_id
    → field (lit "last_seen") fields ≡ some (format_int seen)
    → field (lit "started_at") fields ≡ some (format_int started)
    → parse_worker_info fields
      ≡ ok (record { worker_id = worker_id; last_seen = seen; started_at = started })
unfolding parse_worker_info
parse_worker_info_of fields worker_id seen started named s64 t64 w s t =
    let seen_back = parse_time-format_int (lit "invalid last_seen ") seen s64 in
    let started_back = parse_time-format_int (lit "invalid started_at ") started t64 in ground arith

module _ (R : Redis) (H : HashLaws R) where
  open R use {State}
  open H use {hash}

  -- The registry's hash of the worker.
  abbrev pub IsRegistered : Text → ℤ → ℤ → State → Type 0
  IsRegistered worker_id seen started s =
      (hash s (worker_key worker_id) (lit "worker_id") ≡ some worker_id)
      × (hash s (worker_key worker_id) (lit "last_seen") ≡ some (format_int seen))
      × (hash s (worker_key worker_id) (lit "started_at") ≡ some (format_int started))

  abbrev pub own_fields : Text → ℤ → Fields
  own_fields worker_id now = seen_fields worker_id now now

  pub register_written :
      (worker_id : Text) (now : ℤ) (s : State)
      → (register R worker_id now s).0 ≡ ok tt
      → (n : ℤ) × ((R.hset (worker_key worker_id) (own_fields worker_id now) s).0 ≡ ok n)
        × ((register R worker_id now s).1
            ≡ (R.hset (worker_key worker_id) (own_fields worker_id now) s).1)
  unfolding register
  register_written worker_id now s h =
      elim (Result-cases (R.hset (worker_key worker_id) (own_fields worker_id now) s).0) [
        | inl (n, good) ↦ (n, good, ground arith)
        | inr (e, bad) ↦ ground arith
      ]

  pub register-IsRegistered :
      (worker_id : Text) (now : ℤ) (s : State)
      → (register R worker_id now s).0 ≡ ok tt
      → IsRegistered worker_id now now (register R worker_id now s).1
  unfolding field eq_text
  register-IsRegistered worker_id now s h =
      let (n, good, same) = register_written worker_id now s h in
      let write =
        λ (f : Text). H.hset_writes (worker_key worker_id) (own_fields worker_id now) s n f good in
      rw same (write (lit "worker_id"), write (lit "last_seen"), write (lit "started_at"))

  abbrev pub beat : ℤ → Fields
  beat now = (lit "last_seen", format_int now) ∷ []

  pub heartbeat_written :
      (worker_id : Text) (now : ℤ) (s : State)
      → (heartbeat R worker_id now s).0 ≡ ok tt
      → (n : ℤ) × ((R.hset (worker_key worker_id) (beat now) s).0 ≡ ok n)
        × ((heartbeat R worker_id now s).1 ≡ (R.hset (worker_key worker_id) (beat now) s).1)
  unfolding heartbeat
  heartbeat_written worker_id now s h =
      elim (Result-cases (R.hset (worker_key worker_id) (beat now) s).0) [
        | inl (n, good) ↦ (n, good, ground arith)
        | inr (e, bad) ↦ ground arith
      ]

  pub heartbeat_writes :
      (worker_id : Text) (now : ℤ) (s : State) (f : Text)
      → (heartbeat R worker_id now s).0 ≡ ok tt
      → hash (heartbeat R worker_id now s).1 (worker_key worker_id) f
        ≡ or_else (field f (beat now)) (hash s (worker_key worker_id) f)
  heartbeat_writes worker_id now s f h =
      let (n, good, same) = heartbeat_written worker_id now s h in
      rw same (H.hset_writes (worker_key worker_id) (beat now) s n f good)

  pub heartbeat-IsRegistered :
      (worker_id : Text) (seen started now : ℤ) (s : State)
      → IsRegistered worker_id seen started s
      → (heartbeat R worker_id now s).0 ≡ ok tt
      → IsRegistered worker_id now started (heartbeat R worker_id now s).1
  unfolding field eq_text
  heartbeat-IsRegistered worker_id seen started now s (w, l, t) h =
      let write = λ (f : Text). heartbeat_writes worker_id now s f h in
      (write (lit "worker_id") ∙ w, write (lit "last_seen"), write (lit "started_at") ∙ t)
