-- ===== src/Registry/ControlPlane/Standby.antt =====
-- A control plane that finds the lock taken.
use fluffy_dollop.Base.{
  ◌≡◌, ◌≢◌, refl, ap, ◌∙◌, inl, inr, true, Bool-cases, some, List, [], ◌∷◌, arith,
}
use fluffy_dollop.Base.Text.{Text, eq_text_iff}
use fluffy_dollop.Go.Errors.{Error, wrap, lost_control_plane_lock, lock_set_nx_failed}
use fluffy_dollop.Go.Effect.{Result-cases, ok, wrapping_ok, wrapping_state}
use fluffy_dollop.Config.Types.{RegistryConfig}
use fluffy_dollop.Models.{Time}
use fluffy_dollop.Redis.{Redis}
use fluffy_dollop.Redis.Laws.{KeyLaws}
use fluffy_dollop.Registry.ControlPlane.{
  lock_key, Event, cancelled, lock_tick, reconcile_tick, meanwhile, Watch, Outcome, failed, lead,
  renew_lock, acquire_lock, start_or, release_lock, wait_for_lock, start,
}

module _ (R : Redis) (K : KeyLaws R) where
  open K use {value}

  -- The key of the lock is there, whoever set it.
  abbrev pub IsLocked : R.State → Type 0
  IsLocked s = (holder : Text) × (value s lock_key ≡ some holder)

  acquire_locked :
      (c : RegistryConfig) (id : Text) (s : R.State)
      → IsLocked s
      → (acquire_lock R c id s).0 ≢ ok true
  unfolding acquire_lock
  acquire_locked c id s (holder, held) h =
      K.set_nx_present lock_key id holder c.lock_ttl s held
        (wrapping_ok lock_set_nx_failed (R.set_nx lock_key id c.lock_ttl) s true h)

  acquired-IsLocked :
      (c : RegistryConfig) (id : Text) (s : R.State)
      → (acquire_lock R c id s).0 ≡ ok true
      → IsLocked (acquire_lock R c id s).1
  unfolding acquire_lock
  acquired-IsLocked c id s h = (
    id,
    rw (wrapping_state lock_set_nx_failed (R.set_nx lock_key id c.lock_ttl) s) (
        K.set_nx_sets lock_key id c.lock_ttl s
          (wrapping_ok lock_set_nx_failed (R.set_nx lock_key id c.lock_ttl) s true h)),
  )

  -- `Start` on a lock that is there reconciles only if its standby does.
  start_or_locked :
      (wait : Watch R → Outcome × Watch R) (c : RegistryConfig) (id : Text) (now : Time)
      (events : List (Event R)) (w : Watch R)
      → ((v : Watch R) → (wait v).1.reports ≡ v.reports)
      → IsLocked w.redis
      → (start_or R wait c id now events w).1.reports ≡ w.reports
  start_or_locked wait c id now events w idle locked =
      elim (Result-cases (acquire_lock R c id w.redis).0) [
        | inr (e, bad) ↦ ground arith
        | inl (acquired, tried) ↦ elim (Bool-cases acquired) [
          | inl won ↦ elim (acquire_locked c id w.redis locked (tried ∙ ap ok won)) [ ]
          | inr lost ↦
              let idle' = idle (record w { redis = (acquire_lock R c id w.redis).1 }) in
              ground arith
        ]
      ]

  wait_for_lock_won :
      (c : RegistryConfig) (id : Text) (now : Time) (events : List (Event R)) (w : Watch R)
      → (acquire_lock R c id w.redis).0 ≡ ok true
      → (wait_for_lock R c id (lock_tick now ∷ events) w).1.reports
        ≡ (start_or R
            (λ v. wait_for_lock R c id events v)
            c
            id
            now
            events
            (record w { redis = (acquire_lock R c id w.redis).1 })).1.reports
  unfolding wait_for_lock
  wait_for_lock_won c id now events w tried = rw (tried, wait_for_lock)

  wait_for_lock_idle :
      (c : RegistryConfig) (id : Text) (events : List (Event R)) (w : Watch R)
      → (wait_for_lock R c id events w).1.reports ≡ w.reports
  unfolding wait_for_lock
  wait_for_lock_idle c id [] w = refl
  wait_for_lock_idle c id (cancelled ∷ events) w = refl
  wait_for_lock_idle c id (reconcile_tick t ∷ events) w = wait_for_lock_idle c id events w
  wait_for_lock_idle c id (meanwhile f ∷ events) w =
      wait_for_lock_idle c id events (record w { redis = f w.redis })
  wait_for_lock_idle c id (lock_tick now ∷ events) w =
      let w' : Watch R = record w { redis = (acquire_lock R c id w.redis).1 } in
      elim (Result-cases (acquire_lock R c id w.redis).0) [
        | inr (e, bad) ↦ let rest = wait_for_lock_idle c id events w' in ground arith
        | inl (acquired, tried) ↦ elim (Bool-cases acquired) [
          | inr lost ↦ let rest = wait_for_lock_idle c id events w' in ground arith
          | inl won ↦
              let again =
                start_or_locked (λ v. wait_for_lock R c id events v) c id now events w'
                  (λ v. wait_for_lock_idle c id events v)
                  (acquired-IsLocked c id w.redis (tried ∙ ap ok won)) in
              wait_for_lock_won c id now events w (tried ∙ ap ok won) ∙ again
        ]
      ]

  -- A control plane that starts while the lock is there never reconciles, whatever the events are:
  -- not even after the lock has gone away and it has taken the lock itself while waiting.
  pub start_locked_never_reconciles :
      (c : RegistryConfig) (id : Text) (now : Time) (events : List (Event R)) (w : Watch R)
      → IsLocked w.redis
      → (start R c id now events w).1.reports ≡ w.reports
  unfolding start
  start_locked_never_reconciles c id now events w locked =
      start_or_locked (λ v. wait_for_lock R c id events v) c id now events w
        (λ v. wait_for_lock_idle c id events v) locked

  renew_foreign :
      (c : RegistryConfig) (id holder : Text) (s : R.State)
      → value s lock_key ≡ some holder
      → holder ≢ id
      → (renew_lock R c id s).0 ≢ ok tt
  unfolding renew_lock
  renew_foreign c id holder s held other h = elim (Result-cases (R.get lock_key s).0) [
    | inr (e, bad) ↦ ground arith
    | inl (current, got) ↦
        let at_key = K.get_value lock_key current s got in ground (arith, eq_text_iff current id)
  ]

  -- A leader that finds the lock in another's name at a renewal ends with an error, and reconciles
  -- no more.
  pub lead_ends_on_loss :
      (c : RegistryConfig) (id holder : Text) (now : Time) (events : List (Event R)) (w : Watch R)
      → value w.redis lock_key ≡ some holder
      → holder ≢ id
      → ((e : Error) × ((lead R c id (lock_tick now ∷ events) w).0 ≡ failed e))
        × ((lead R c id (lock_tick now ∷ events) w).1.reports ≡ w.reports)
  unfolding lead
  lead_ends_on_loss c id holder now events w held other =
      elim (Result-cases (renew_lock R c id w.redis).0) [
        | inl (u, renewed) ↦ elim (renew_foreign c id holder w.redis held other renewed) [ ]
        | inr (e, bad) ↦ ((wrap lost_control_plane_lock e, ground arith), ground arith)
      ]

  -- Releasing the lock leaves it as it is where another holds it.
  pub release_keeps_foreign :
      (id holder : Text) (s : R.State)
      → value s lock_key ≡ some holder
      → holder ≢ id
      → value (release_lock R id s) lock_key ≡ some holder
  unfolding release_lock
  release_keeps_foreign id holder s held other =
      let kept = K.get_keeps lock_key s lock_key in
      elim (Result-cases (R.get lock_key s).0) [
        | inr (e, bad) ↦ ground arith
        | inl (current, got) ↦
            let at_key = K.get_value lock_key current s got in
            ground (arith, eq_text_iff current id)
      ]
