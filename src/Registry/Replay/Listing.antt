-- ===== src/Registry/Replay/Listing.antt =====
-- What ListWorkers and the control plane's reconcile say of the workers.
use mathlib.Core.Path.{subst}
use fluffy_dollop.Base.{
  ◌+◌, length, ◌≡◌, refl, ◌∙◌, inl, inr, false, Bool-cases, Option, none, some, List, [], ◌∷◌, ◌++◌,
  All, In, arith,
}
use fluffy_dollop.Base.Int.{pos, ◌-ℤ◌, ◌*ℤ◌, ◌≤ℤ◌, saturate64}
use fluffy_dollop.Base.Text.{Text, lit}
use fluffy_dollop.Go.Effect.{Result, Result-cases, ok}
use fluffy_dollop.Config.Types.{Duration, RegistryConfig}
use fluffy_dollop.Models.{Time}
use fluffy_dollop.Redis.{Redis, Fields}
use fluffy_dollop.Redis.Hashes.{HashLaws, ListingLaws}
use fluffy_dollop.Registry.{
  WorkerInfo, is_alive, worker_key, worker_key_prefix, found, get_worker, add_found, workers_at,
  list_workers,
}
use fluffy_dollop.Registry.Liveness.{get_worker-found}
use fluffy_dollop.Registry.ControlPlane.{
  Report, listing_failed, reconciled, count_workers, Watch, reconcile,
}
use fluffy_dollop.Registry.Replay.{Entry, absent, ghost, known, Answers}
use fluffy_dollop.Registry.Replay.Refinement.{Refines}
use fluffy_dollop.Registry.Replay.Answers.{IsEntry, entry-Answers}

-- The entry of the worker that is reported.
abbrev pub Matches : (Text → Entry) → WorkerInfo → Type 0
Matches m info = m info.worker_id ≡ known info.last_seen info.started_at

answered_known :
    (w : Text) (e : Entry) (r : Result (Option WorkerInfo)) (info : WorkerInfo)
    → Answers w e r
    → r ≡ ok (some info)
    → (info.worker_id ≡ w) × (e ≡ known info.last_seen info.started_at)
answered_known w absent r info a h = ground arith
answered_known w (ghost seen) r info (e, bad) h = ground arith
answered_known w (known seen started) r info a h = ground arith

module _ (R : Redis) (H : HashLaws R) (L : ListingLaws R H) where
  open R use {State}

  abbrev BeginsKey : Text → Type 0
  BeginsKey key = (w : Text) × (key ≡ worker_key w)

  found-Matches :
      (m : Text → Entry) (w : Text) (s : State) (fields : Fields) (info : WorkerInfo)
      → Refines R H m s
      → IsEntry w (m w)
      → (R.hget_all (worker_key w) s).0 ≡ ok fields
      → found R fields ≡ ok (some info)
      → Matches m info
  found-Matches m w s fields info refines sound read h =
      let answers = entry-Answers R H w (m w) s fields sound (refines w) read in
      let (same, entry) =
        answered_known w (m w) (get_worker R w s).0 info answers
          (get_worker-found R H w s fields read ∙ h) in
      rw same entry

  hget_all-Refines :
      (m : Text → Entry) (key : Text) (s : State)
      → Refines R H m s
      → Refines R H m (R.hget_all key s).1
  hget_all-Refines m key s refines w f = L.hget_all_keeps key s (worker_key w) f ∙ refines w f

  add_found-Matches :
      (m : Text → Entry) (w : Text) (s : State) (workers : List WorkerInfo)
      → Refines R H m s
      → IsEntry w (m w)
      → All (Matches m) workers
      → All (Matches m) (add_found R (R.hget_all (worker_key w) s).0 workers)
  add_found-Matches m w s workers refines sound rest =
      elim (Result-cases (R.hget_all (worker_key w) s).0) [
        | inr (e, bad) ↦ rw bad rest
        | inl (fields, read) ↦ elim (Result-cases (found R fields)) [
          | inr (e, bad) ↦ rw (read, bad, add_found) rest
          | inl (none, nobody) ↦ rw (read, nobody, add_found) rest
          | inl (some info, somebody) ↦
              rw (read, somebody, add_found)
                (found-Matches m w s fields info refines sound read somebody, rest)
        ]
      ]

  add_found_at :
      (m : Text → Entry) (key w : Text) (s : State) (workers : List WorkerInfo)
      → key ≡ worker_key w
      → Refines R H m s
      → IsEntry w (m w)
      → All (Matches m) workers
      → All (Matches m) (add_found R (R.hget_all key s).0 workers)
  add_found_at m key w s workers e refines sound rest =
      rw e (add_found-Matches m w s workers refines sound rest)

  workers_at-Matches :
      (m : Text → Entry) (keys : List Text) (s : State)
      → Refines R H m s
      → ((w : Text) → IsEntry w (m w))
      → ((key : Text) → In key keys → BeginsKey key)
      → All (Matches m) (workers_at R keys s).0
  unfolding workers_at
  workers_at-Matches m [] s refines sound named = tt
  workers_at-Matches m (key ∷ keys) s refines sound named =
      let (w, e) = named key (inl refl) in
      let rest =
        workers_at-Matches m keys (R.hget_all key s).1 (hget_all-Refines m key s refines) sound
          (λ k there. named k (inr there)) in
      add_found_at m key w s (workers_at R keys (R.hget_all key s).1).0 e refines (sound w) rest

  list_workers_listed :
      (s : State) (keys : List Text) (workers : List WorkerInfo)
      → (R.keys (worker_key_prefix ++ lit "*") s).0 ≡ ok keys
      → (list_workers R s).0 ≡ ok workers
      → (workers_at R keys (R.keys (worker_key_prefix ++ lit "*") s).1).0 ≡ workers
  unfolding list_workers
  list_workers_listed s keys workers good listed = ground arith

  -- Every worker that ListWorkers reports is one that is registered, with its times.
  list_workers-Matches :
      (m : Text → Entry) (s : State) (workers : List WorkerInfo)
      → Refines R H m s
      → ((w : Text) → IsEntry w (m w))
      → (list_workers R s).0 ≡ ok workers
      → All (Matches m) workers
  unfolding list_workers
  list_workers-Matches m s workers refines sound listed =
      elim (Result-cases (R.keys (worker_key_prefix ++ lit "*") s).0) [
        | inr (e, bad) ↦ ground arith
        | inl (keys, good) ↦
            let all =
              workers_at-Matches m keys (R.keys (worker_key_prefix ++ lit "*") s).1
                (λ w f.
                  L.keys_reads (worker_key_prefix ++ lit "*") s (worker_key w) f ∙ refines w f)
                sound (λ key there. L.keys_begin worker_key_prefix s keys key good there) in
            subst (All (Matches m)) (list_workers_listed s keys workers good listed) all
      ]

-- The dead among the workers.
dead_among :
    (P : WorkerInfo → Type 0) (c : RegistryConfig) (now : Time) (workers : List WorkerInfo)
    → All P workers
    → All (λ i. P i × (is_alive i c.dead_threshold now ≡ false)) (count_workers c now workers).0
      × (length workers ≡ length (count_workers c now workers).0 + (count_workers c now workers).1)
unfolding count_workers
dead_among P c now [] all = (tt, refl)
dead_among P c now (i ∷ workers) (here, rest) =
    let (dead, counted) = dead_among P c now workers rest in
    elim (Bool-cases (is_alive i c.dead_threshold now)) [
      | inl alive ↦ rw alive (dead, omega (arith, counted))
      | inr silent ↦ rw silent (((here, silent), dead), omega (arith, counted))
    ]

-- The last heartbeat is at least the threshold ago, as time.Since measures it.
abbrev pub IsOverdue : Duration → Time → WorkerInfo → Type 0
IsOverdue threshold now info = threshold ≤ℤ saturate64 (now -ℤ (info.last_seen *ℤ pos 1000000000))

silent-IsOverdue :
    (threshold : Duration) (now : Time) (info : WorkerInfo)
    → is_alive info threshold now ≡ false
    → IsOverdue threshold now info
unfolding is_alive
silent-IsOverdue threshold now info silent = ground arith

pub All-map :
    {P Q : WorkerInfo → Type 0} (xs : List WorkerInfo)
    → ((i : WorkerInfo) → P i → Q i)
    → All P xs
    → All Q xs
All-map [] f all = tt
All-map (x ∷ xs) f (here, rest) = (f x here, All-map xs f rest)

-- The dead workers of the last report.
abbrev pub dead_in : Report → List WorkerInfo
dead_in (listing_failed e) = []
dead_in (reconciled dead total alive) = dead

abbrev pub last_dead : List Report → List WorkerInfo
last_dead [] = []
last_dead (report ∷ reports) = dead_in report

module _ (R : Redis) (H : HashLaws R) (L : ListingLaws R H) where
  pub reconcile_dead :
      (m : Text → Entry) (c : RegistryConfig) (now : Time) (w : Watch R)
      → Refines R H m w.redis
      → ((v : Text) → IsEntry v (m v))
      → All
          (λ i. Matches m i × (is_alive i c.dead_threshold now ≡ false))
          (last_dead (reconcile R c now w).reports)
  unfolding reconcile
  reconcile_dead m c now w refines sound = elim (Result-cases (list_workers R w.redis).0) [
    | inr (e, bad) ↦ rw (bad, reconcile) tt
    | inl (workers, listed) ↦
        rw (listed, reconcile)
          (dead_among (Matches m) c now workers
            (list_workers-Matches R H L m w.redis workers refines sound listed)).0
  ]

  -- Every worker that a reconcile reports as dead is registered, with the times of the report, and
  -- the time from its last heartbeat to the reconcile is at least the dead threshold: a time that is
  -- longer than a time.Duration holds counts as the longest one, and one that is before the earliest
  -- as the earliest.
  pub reconcile-Matches :
      (m : Text → Entry) (c : RegistryConfig) (now : Time) (w : Watch R)
      → Refines R H m w.redis
      → ((v : Text) → IsEntry v (m v))
      → All
          (λ i. Matches m i × IsOverdue c.dead_threshold now i)
          (last_dead (reconcile R c now w).reports)
  reconcile-Matches m c now w refines sound =
      All-map (last_dead (reconcile R c now w).reports)
        (λ i (matches, silent). (matches, silent-IsOverdue c.dead_threshold now i silent))
        (reconcile_dead m c now w refines sound)
