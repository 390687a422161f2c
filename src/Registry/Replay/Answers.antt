-- ===== src/Registry/Replay/Answers.antt =====
-- What GetWorker answers after any sequence of calls.
use fluffy_dollop.Base.{
  ◌≡◌, refl, sym, ◌∙◌, inl, inr, false, none, List, [], ◌∷◌, All, arith, Bool-cases,
}
use fluffy_dollop.Base.Int.{ℤ, IsInt64}
use fluffy_dollop.Base.Text.{Text, lit, eq_text, eq_text_iff, is_empty}
use fluffy_dollop.Go.Effect.{Result-cases, ok}
use fluffy_dollop.Redis.{Redis, Fields, field}
use fluffy_dollop.Redis.Hashes.{HashLaws}
use fluffy_dollop.Registry.{worker_key, get_worker, found}
use fluffy_dollop.Registry.Liveness.{some_ne_none, get_registered, found_nameless, get_worker-found}
use fluffy_dollop.Registry.Replay.{
  Entry, absent, ghost, known, Call, registers, beats, leaves, seen_now, set_entry, apply_call,
  replay, Answers, IsSound,
}
use fluffy_dollop.Registry.Replay.Refinement.{entry_fields, make_calls, make_calls-Refines}

-- A registered worker has a name and int64 times.
abbrev pub IsEntry : Text → Entry → Type 0
IsEntry w absent = Unit
IsEntry w (ghost seen) = Unit
IsEntry w (known seen started) = (is_empty w ≡ false) × (IsInt64 seen × IsInt64 started)

set_entry-IsEntry :
    (m : Text → Entry) (worker_id : Text) (e : Entry) (w : Text)
    → IsEntry worker_id e
    → IsEntry w (m w)
    → IsEntry w (set_entry m worker_id e w)
set_entry-IsEntry m worker_id e w new old = elim (Bool-cases (eq_text worker_id w)) [
  | inr apart ↦ rw apart old
  | inl same ↦ rw (same, sym ((eq_text_iff worker_id w).0 same)) new
]

seen_now-IsEntry :
    (w : Text) (now : ℤ) (e : Entry) → IsInt64 now → IsEntry w e → IsEntry w (seen_now now e)
seen_now-IsEntry w now absent small before = tt
seen_now-IsEntry w now (ghost seen) small before = tt
seen_now-IsEntry w now (known seen started) small (named, (s64, t64)) = (named, (small, t64))

pub apply_call-IsEntry :
    (c : Call) (m : Text → Entry)
    → IsSound c
    → ((w : Text) → IsEntry w (m w))
    → (w : Text) → IsEntry w (apply_call c m w)
apply_call-IsEntry (registers worker_id now) m (named, small) before w =
    set_entry-IsEntry m worker_id (known now now) w (named, (small, small)) (before w)
apply_call-IsEntry (beats worker_id now) m small before w =
    set_entry-IsEntry m worker_id (seen_now now (m worker_id)) w
      (seen_now-IsEntry worker_id now (m worker_id) small (before worker_id)) (before w)
apply_call-IsEntry (leaves worker_id) m sound before w =
    set_entry-IsEntry m worker_id absent w tt (before w)

pub replay-IsEntry :
    (calls : List Call) (m : Text → Entry)
    → All IsSound calls
    → ((w : Text) → IsEntry w (m w))
    → (w : Text) → IsEntry w (replay calls m w)
replay-IsEntry [] m sound before w = before w
replay-IsEntry (c ∷ calls) m (here, rest) before w =
    replay-IsEntry calls (apply_call c m) rest (apply_call-IsEntry c m here before) w

module _ (R : Redis) (H : HashLaws R) where
  open R use {State}
  open H use {hash}

  found-none : (fields : Fields) → ((f : Text) → field f fields ≡ none) → found R fields ≡ ok none
  unfolding field
  found-none [] nothing = refl
  found-none ((k, v) ∷ fields) nothing =
      let same = (eq_text_iff k k).1 refl in let missing = nothing k in ground arith

  pub entry-Answers :
      (w : Text) (e : Entry) (s : State) (fields : Fields)
      → IsEntry w e
      → ((f : Text) → hash s (worker_key w) f ≡ field f (entry_fields w e))
      → (R.hget_all (worker_key w) s).0 ≡ ok fields
      → Answers w e (get_worker R w s).0
  unfolding field eq_text
  entry-Answers w absent s fields sound holds read =
      get_worker-found R H w s fields read
      ∙ found-none fields (λ f. H.hget_all_reads (worker_key w) s fields f read ∙ holds f)
  entry-Answers w (ghost seen) s fields sound holds read =
      let back = λ (f : Text). H.hget_all_reads (worker_key w) s fields f read ∙ holds f in
      elim (Result-cases (found R fields)) [
        | inr (e, bad) ↦ (e, get_worker-found R H w s fields read ∙ bad)
        | inl (o, good) ↦ absurd (
            found_nameless R H fields o (back (lit "worker_id"))
              (λ gone. some_ne_none (sym (back (lit "last_seen")) ∙ gone)) good)
      ]
  entry-Answers w (known seen started) s fields (named, (s64, t64)) holds read =
      get_registered R H w seen started s fields named s64 t64
        (holds (lit "worker_id"), holds (lit "last_seen"), holds (lit "started_at")) read

  -- From a registry without records, after any sequence of Register, Heartbeat and Deregister calls
  -- for workers with names at int64 times, all of which Redis answers, GetWorker, if Redis answers
  -- it too, answers what the replay of the calls says: no worker if it never called or has
  -- deregistered, an error after heartbeats alone, and otherwise the times of its last call and of
  -- its last registration, whatever the other workers called in between.
  pub get_worker-Answers :
      (calls : List Call) (s : State) (w : Text) (fields : Fields)
      → ((v f : Text) → hash s (worker_key v) f ≡ none)
      → All IsSound calls
      → (make_calls R H calls s).0 ≡ ok tt
      → (R.hget_all (worker_key w) (make_calls R H calls s).1).0 ≡ ok fields
      → Answers w (replay calls (λ _. absent) w) (get_worker R w (make_calls R H calls s).1).0
  unfolding field
  get_worker-Answers calls s w fields fresh sound made read =
      entry-Answers w (replay calls (λ _. absent) w) (make_calls R H calls s).1 fields
        (replay-IsEntry calls (λ _. absent) sound (λ v. tt) w)
        (make_calls-Refines R H calls (λ _. absent) s fresh made w) read
