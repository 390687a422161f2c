-- ===== src/Worker/Reclaim/Lock.antt =====
-- The lock of a partition's reclaim.
use fluffy_dollop.Base.{
  ◌≡◌, ap, ◌∙◌, inl, inr, Bool, Bool-cases, Option, none, some, List, [], arith,
}
use fluffy_dollop.Base.Int.{ℤ, IsInt64}
use fluffy_dollop.Base.Text.{Text, lit, append_cancel}
use fluffy_dollop.Go.Errors.{Error, wrap, failed_to_acquire_reclaim_lock}
use fluffy_dollop.Go.Effect.{Result-cases, ok}
use fluffy_dollop.Go.Strconv.Laws.{format_int_injective}
use fluffy_dollop.Config.Types.{WorkerConfig}
use fluffy_dollop.Redis.{Redis}
use fluffy_dollop.Redis.Laws.{KeyLaws}
use fluffy_dollop.Queue.Types.{Json}
use fluffy_dollop.Queue.Consumer.{Consumer}
use fluffy_dollop.Worker.Reclaim.{reclaim_lock_key, try_reclaim}

-- Two partitions have one reclaim lock only if they are one.
pub reclaim_lock_key_injective :
    (m n : ℤ) → IsInt64 m → IsInt64 n → reclaim_lock_key m ≡ reclaim_lock_key n → m ≡ n
unfolding reclaim_lock_key
reclaim_lock_key_injective m n hm hn h =
    format_int_injective m n hm hn (append_cancel (lit "worker:reclaim:lock:") _ _ h)

module _ (R : Redis) (J : Json) (K : KeyLaws R) where
  open K use {value}

  -- While the lock of a partition's reclaim is held, a try hands no job on, has done nothing but
  -- the failed SETNX, and leaves the lock with its holder.
  pub try_reclaim_locked :
      (rounds : List Bool) (c : Consumer) (config : WorkerConfig) (worker_id holder : Text)
      (partition_id : ℤ) (s : R.State)
      → value s (reclaim_lock_key partition_id) ≡ some holder
      → ((e : Option Error) × ((try_reclaim R J rounds c config worker_id partition_id s).0
            ≡ some ([], e)))
        × ((try_reclaim R J rounds c config worker_id partition_id s).1
            ≡ (R.set_nx (reclaim_lock_key partition_id) worker_id config.reclaim_interval s).1)
        × (value
              (try_reclaim R J rounds c config worker_id partition_id s).1
              (reclaim_lock_key partition_id)
            ≡ some holder)
  unfolding try_reclaim
  try_reclaim_locked rounds c config worker_id holder partition_id s held =
      let key = reclaim_lock_key partition_id in
      let refused = K.set_nx_present key worker_id holder config.reclaim_interval s held in
      let kept = K.set_nx_keeps key worker_id holder config.reclaim_interval s held in
      elim (Result-cases (R.set_nx key worker_id config.reclaim_interval s).0) [
        | inr (e, bad) ↦ (
          (some (wrap failed_to_acquire_reclaim_lock e), ground arith),
          ground arith,
          ground arith,
        )
        | inl (acquired, tried) ↦ elim (Bool-cases acquired) [
          | inl won ↦ elim (refused (tried ∙ ap ok won)) [ ]
          | inr lost ↦ ((none, ground arith), ground arith, ground arith)
        ]
      ]
