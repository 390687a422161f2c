-- ===== src/Registry/Replay/Refinement.antt =====
-- The registry on Redis implements the replay of its calls.
use fluffy_dollop.Base.{◌≡◌, ◌≢◌, ap, sym, ◌∙◌, inl, inr, false, List, [], ◌∷◌, arith, Bool-cases}
use fluffy_dollop.Base.Int.{ℤ}
use fluffy_dollop.Base.Text.{Text, lit, eq_text, eq_text_iff, append_cancel}
use fluffy_dollop.Go.Effect.{Result-cases, ok, Io, pure, ◌>>◌, then_ok, then_err}
use fluffy_dollop.Go.Strconv.{format_int}
use fluffy_dollop.Redis.{Redis, Fields, field}
use fluffy_dollop.Redis.Hashes.{HashLaws, or_else}
use fluffy_dollop.Registry.{worker_key, worker_key_prefix, register, heartbeat, deregister}
use fluffy_dollop.Registry.Records.{
  seen_fields, beat, own_fields, register_written, heartbeat_written,
}
use fluffy_dollop.Registry.Replay.{
  Entry, absent, ghost, known, Call, registers, beats, leaves, seen_now, set_entry, apply_call,
  replay,
}

-- The fields that stand for an entry.
abbrev pub entry_fields : Text → Entry → Fields
entry_fields w absent = []
entry_fields w (ghost seen) = (lit "last_seen", format_int seen) ∷ []
entry_fields w (known seen started) = seen_fields w seen started

register_over :
    (w : Text) (now : ℤ) (e : Entry) (f : Text)
    → or_else (field f (seen_fields w now now)) (field f (entry_fields w e))
      ≡ field f (entry_fields w (known now now))
unfolding field
register_over w now absent f = ground arith
register_over w now (ghost seen) f = ground arith
register_over w now (known seen started) f = ground arith

beat_over :
    (w : Text) (now : ℤ) (e : Entry) (f : Text)
    → or_else (field f ((lit "last_seen", format_int now) ∷ [])) (field f (entry_fields w e))
      ≡ field f (entry_fields w (seen_now now e))
unfolding field
beat_over w now absent f = ground arith
beat_over w now (ghost seen) f = ground arith
beat_over w now (known seen started) f =
    ground (arith, eq_text_iff (lit "worker_id") f, eq_text_iff (lit "last_seen") f)

keys_apart : (v w : Text) → eq_text v w ≡ false → worker_key v ≢ worker_key w
keys_apart v w apart same =
    let equal = append_cancel worker_key_prefix v w same in ground (arith, eq_text_iff v w)

module _ (R : Redis) (H : HashLaws R) where
  open R use {State}
  open H use {hash}

  -- The hash of every worker's key stands for the worker's entry.
  abbrev pub Refines : (Text → Entry) → State → Type 0
  Refines m s = (w f : Text) → hash s (worker_key w) f ≡ field f (entry_fields w (m w))

  -- One call, at its time.
  abbrev pub make_call : Call → Io State (Unit {0})
  make_call (registers worker_id now) = register R worker_id now
  make_call (beats worker_id now) = heartbeat R worker_id now
  make_call (leaves worker_id) = deregister R worker_id

  abbrev pub make_calls : List Call → Io State (Unit {0})
  make_calls [] = pure tt
  make_calls (c ∷ calls) = make_call c >> make_calls calls

  -- A call that writes the key of a worker and leaves the others alone.
  set_entry-Refines :
      (m : Text → Entry) (worker_id : Text) (e : Entry) (s s' : State)
      → Refines m s
      → ((f : Text) → hash s' (worker_key worker_id) f ≡ field f (entry_fields worker_id e))
      → ((w f : Text)
          → worker_key worker_id ≢ worker_key w
          → hash s' (worker_key w) f ≡ hash s (worker_key w) f)
      → Refines (set_entry m worker_id e) s'
  set_entry-Refines m worker_id e s s' before own others w f =
      elim (Bool-cases (eq_text worker_id w)) [
        | inr apart ↦ rw apart (others w f (keys_apart worker_id w apart) ∙ before w f)
        | inl same ↦ rw (same, sym ((eq_text_iff worker_id w).0 same)) (own f)
      ]

  register-Refines :
      (m : Text → Entry) (worker_id : Text) (now : ℤ) (s : State)
      → Refines m s
      → (register R worker_id now s).0 ≡ ok tt
      → Refines (set_entry m worker_id (known now now)) (register R worker_id now s).1
  register-Refines m worker_id now s before h =
      let (n, good, same) = register_written R H worker_id now s h in
      let key = worker_key worker_id in
      rw same (
        set_entry-Refines m worker_id (known now now) s _ before
          (λ f.
            H.hset_writes key (own_fields R H worker_id now) s n f good
            ∙ ap (or_else (field f (own_fields R H worker_id now))) (before worker_id f)
            ∙ register_over worker_id now (m worker_id) f)
          (λ w f apart. H.hset_other key (own_fields R H worker_id now) s (worker_key w) f apart))

  heartbeat-Refines :
      (m : Text → Entry) (worker_id : Text) (now : ℤ) (s : State)
      → Refines m s
      → (heartbeat R worker_id now s).0 ≡ ok tt
      → Refines (set_entry m worker_id (seen_now now (m worker_id))) (heartbeat R worker_id now s).1
  heartbeat-Refines m worker_id now s before h =
      let (n, good, same) = heartbeat_written R H worker_id now s h in
      let key = worker_key worker_id in
      rw same (
        set_entry-Refines m worker_id (seen_now now (m worker_id)) s _ before
          (λ f.
            H.hset_writes key (beat R H now) s n f good
            ∙ ap (or_else (field f (beat R H now))) (before worker_id f)
            ∙ beat_over worker_id now (m worker_id) f)
          (λ w f apart. H.hset_other key (beat R H now) s (worker_key w) f apart))

  deregister_written :
      (worker_id : Text) (s : State)
      → (deregister R worker_id s).0 ≡ ok tt
      → (n : ℤ) × ((R.del (worker_key worker_id) s).0 ≡ ok n)
        × ((deregister R worker_id s).1 ≡ (R.del (worker_key worker_id) s).1)
  unfolding deregister
  deregister_written worker_id s h = elim (Result-cases (R.del (worker_key worker_id) s).0) [
    | inl (n, good) ↦ (n, good, ground arith)
    | inr (e, bad) ↦ ground arith
  ]

  deregister-Refines :
      (m : Text → Entry) (worker_id : Text) (s : State)
      → Refines m s
      → (deregister R worker_id s).0 ≡ ok tt
      → Refines (set_entry m worker_id absent) (deregister R worker_id s).1
  unfolding field
  deregister-Refines m worker_id s before h =
      let (n, good, same) = deregister_written worker_id s h in
      let key = worker_key worker_id in
      rw same (
        set_entry-Refines m worker_id absent s (R.del key s).1 before
          (λ f. H.del_clears key s n f good)
          (λ w f apart. H.del_hash_other key s (worker_key w) f apart))

  pub make_call-Refines :
      (c : Call) (m : Text → Entry) (s : State)
      → Refines m s
      → (make_call c s).0 ≡ ok tt
      → Refines (apply_call c m) (make_call c s).1
  make_call-Refines (registers worker_id now) m s before h =
      register-Refines m worker_id now s before h
  make_call-Refines (beats worker_id now) m s before h =
      heartbeat-Refines m worker_id now s before h
  make_call-Refines (leaves worker_id) m s before h = deregister-Refines m worker_id s before h

  pub make_calls-Refines :
      (calls : List Call) (m : Text → Entry) (s : State)
      → Refines m s
      → (make_calls calls s).0 ≡ ok tt
      → Refines (replay calls m) (make_calls calls s).1
  make_calls-Refines [] m s before h = before
  make_calls-Refines (c ∷ calls) m s before h = elim (Result-cases (make_call c s).0) [
    | inr (e, bad) ↦ let stops = then_err (make_call c) (make_calls calls) s e bad in ground arith
    | inl (u, good) ↦
        let goes_on = then_ok (make_call c) (make_calls calls) s u good in
        rw goes_on (
          make_calls-Refines calls (apply_call c m) (make_call c s).1
            (make_call-Refines c m s before good) (ap (λ p. p.0) (sym goes_on) ∙ h))
  ]
