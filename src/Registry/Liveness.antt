-- ===== src/Registry/Liveness.antt =====
-- What the registry reports of a worker that registered and sends heartbeats.
use fluffy_dollop.Base.{
  ◌≡◌, ◌≢◌, refl, ap, sym, ◌∙◌, inl, inr, false, Option, none, some, List, [], ◌∷◌, arith,
}
use fluffy_dollop.Base.Int.{ℤ, IsInt64}
use fluffy_dollop.Base.Text.{Text, lit, eq_text, is_empty}
use fluffy_dollop.Go.Errors.{Error}
use fluffy_dollop.Go.Effect.{Result-cases, ok, err, Io, pure, ◌>>◌, then_ok, then_err}
use fluffy_dollop.Redis.{Redis, Fields, field}
use fluffy_dollop.Redis.Hashes.{HashLaws}
use fluffy_dollop.Registry.{
  WorkerInfo, worker_key, parse_worker_info, register, heartbeat, get_worker, found,
}
use fluffy_dollop.Registry.Records.{
  parse_worker_info_of, IsRegistered, register-IsRegistered, heartbeat_writes,
  heartbeat-IsRegistered,
}

pub some_ne_none : {v : Text} → some v ≢ none
some_ne_none h = ground arith

module _ (R : Redis) (H : HashLaws R) where
  open R use {State}
  open H use {hash}

  -- What GetWorker answers.
  pub get_worker-found :
      (worker_id : Text) (s : State) (fields : Fields)
      → (R.hget_all (worker_key worker_id) s).0 ≡ ok fields
      → (get_worker R worker_id s).0 ≡ found R fields
  unfolding get_worker
  get_worker-found worker_id s fields h = ground arith

  get_worker_fails :
      (worker_id : Text) (s : State) (e : Error) (o : Option WorkerInfo)
      → (R.hget_all (worker_key worker_id) s).0 ≡ err e
      → (get_worker R worker_id s).0 ≢ ok o
  unfolding get_worker
  get_worker_fails worker_id s e o h got = ground arith

  found_parsed :
      (fields : Fields) (info : WorkerInfo)
      → parse_worker_info fields ≡ ok info
      → found R fields ≡ ok (some info)
  unfolding parse_worker_info field
  found_parsed [] info h = ground arith
  found_parsed (f ∷ fields) info h = rw (h, found)

  pub get_registered :
      (worker_id : Text) (seen started : ℤ) (s : State) (fields : Fields)
      → is_empty worker_id ≡ false
      → IsInt64 seen
      → IsInt64 started
      → IsRegistered R H worker_id seen started s
      → (R.hget_all (worker_key worker_id) s).0 ≡ ok fields
      → (get_worker R worker_id s).0
        ≡ ok (some (record { worker_id = worker_id; last_seen = seen; started_at = started }))
  get_registered worker_id seen started s fields named s64 t64 (w, l, t) read =
      let back = λ (f : Text). H.hget_all_reads (worker_key worker_id) s fields f read in
      get_worker-found worker_id s fields read
      ∙ found_parsed fields _ (
          parse_worker_info_of fields worker_id seen started named s64 t64
            (back (lit "worker_id") ∙ w) (back (lit "last_seen") ∙ l) (back (lit "started_at") ∙ t))

  -- The worker's heartbeats at these times, all of which Redis answers.
  abbrev pub heartbeats : Text → List ℤ → Io State (Unit {0})
  heartbeats worker_id [] = pure tt
  heartbeats worker_id (now ∷ times) = heartbeat R worker_id now >> heartbeats worker_id times

  abbrev pub last_time : ℤ → List ℤ → ℤ
  last_time seen [] = seen
  last_time seen (now ∷ times) = last_time now times

  heartbeats-IsRegistered :
      (worker_id : Text) (seen started : ℤ) (times : List ℤ) (s : State)
      → IsRegistered R H worker_id seen started s
      → (heartbeats worker_id times s).0 ≡ ok tt
      → IsRegistered R H worker_id (last_time seen times) started (heartbeats worker_id times s).1
  heartbeats-IsRegistered worker_id seen started [] s known h = known
  heartbeats-IsRegistered worker_id seen started (now ∷ times) s known h =
      elim (Result-cases (heartbeat R worker_id now s).0) [
        | inr (e, bad) ↦
            let stops = then_err (heartbeat R worker_id now) (heartbeats worker_id times) s e bad in
            ground arith
        | inl (u, good) ↦
            let goes_on =
              then_ok (heartbeat R worker_id now) (heartbeats worker_id times) s u good in
            rw goes_on (
              heartbeats-IsRegistered worker_id now started times (heartbeat R worker_id now s).1
                (heartbeat-IsRegistered R H worker_id seen started now s known good)
                (ap (λ p. p.0) (sym goes_on) ∙ h))
      ]

  -- After a Register and any number of Heartbeats of a worker with a name, at int64 times, that
  -- Redis all answers, GetWorker, if Redis answers it too, returns the worker with the time of the
  -- last of these calls and the time of the registration.
  pub get_worker_reports :
      (worker_id : Text) (started : ℤ) (times : List ℤ) (s : State) (fields : Fields)
      → is_empty worker_id ≡ false
      → IsInt64 started
      → IsInt64 (last_time started times)
      → (register R worker_id started s).0 ≡ ok tt
      → (heartbeats worker_id times (register R worker_id started s).1).0 ≡ ok tt
      → (R.hget_all
          (worker_key worker_id)
          (heartbeats worker_id times (register R worker_id started s).1).1).0
        ≡ ok fields
      → (get_worker R worker_id (heartbeats worker_id times (register R worker_id started s).1).1).0
        ≡ ok (
            some (record {
              worker_id = worker_id;
              last_seen = last_time started times;
              started_at = started;
            }))
  get_worker_reports worker_id started times s fields named t64 s64 registered beaten read =
      get_registered worker_id (last_time started times) started
        (heartbeats worker_id times (register R worker_id started s).1).1 fields named s64 t64
        (heartbeats-IsRegistered worker_id started started times (register R worker_id started s).1
          (register-IsRegistered R H worker_id started s registered) beaten)
        read

  pub found_nameless :
      (fields : Fields) (o : Option WorkerInfo)
      → field (lit "worker_id") fields ≡ none
      → field (lit "last_seen") fields ≢ none
      → found R fields ≢ ok o
  unfolding parse_worker_info field
  found_nameless [] o nameless seen h = seen refl
  found_nameless (f ∷ fields) o nameless seen h = ground arith

  -- A heartbeat of a worker that has no record, after its Deregister say, leaves a record that
  -- GetWorker answers with an error, and not with a worker or with none.
  pub heartbeat_unregistered :
      (worker_id : Text) (now : ℤ) (s : State) (o : Option WorkerInfo)
      → hash s (worker_key worker_id) (lit "worker_id") ≡ none
      → (heartbeat R worker_id now s).0 ≡ ok tt
      → (get_worker R worker_id (heartbeat R worker_id now s).1).0 ≢ ok o
  unfolding field eq_text
  heartbeat_unregistered worker_id now s o absent h got =
      let write = λ (f : Text). heartbeat_writes R H worker_id now s f h in
      let s' = (heartbeat R worker_id now s).1 in
      elim (Result-cases (R.hget_all (worker_key worker_id) s').0) [
        | inr (e, bad) ↦ get_worker_fails worker_id s' e o bad got
        | inl (fields, read) ↦
            let back = λ (f : Text). H.hget_all_reads (worker_key worker_id) s' fields f read in
            found_nameless fields o (back (lit "worker_id") ∙ write (lit "worker_id") ∙ absent)
              (λ gone. some_ne_none (sym (back (lit "last_seen") ∙ write (lit "last_seen")) ∙ gone))
              (sym (get_worker-found worker_id s' fields read) ∙ got)
      ]
