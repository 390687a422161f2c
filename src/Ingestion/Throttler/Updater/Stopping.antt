-- ===== src/Ingestion/Throttler/Updater/Stopping.antt =====
-- That `Stop` ends the updater.
use fluffy_dollop.Base.{◌≡◌, ◌⊎◌, true, false, Option, some}
use fluffy_dollop.Base.Int.{ℤ, pos, quot_ℤ}
use fluffy_dollop.Go.Errors.{Error}
use fluffy_dollop.Go.Effect.{ok, err}
use fluffy_dollop.Redis.{Redis}
use fluffy_dollop.Queue.Consumer.{Consumer}
use fluffy_dollop.Ingestion.Throttler.Updater.{LastUpdate, Throttler}

module _ {Float : Type 0} where
  -- An updater runs only where it was started and not stopped.
  pub record IsOrderly (t : Throttler Float) : Type 0 where
    pub begun : t.updating ≡ true → t.started ≡ true
    pub ended : t.stopped ≡ true → t.updating ≡ false

  -- The metrics are those from before, or those that an update under way has read.
  abbrev pub KeepsOrStores : Option LastUpdate → Throttler Float → Throttler Float → Type 0
  KeepsOrStores under_way before after =
      (after.metrics ≡ before.metrics)
      ⊎ ((u : LastUpdate) × (depth : ℤ) × (under_way ≡ some u)
          × (u.depth ≡ ok depth)
          × (after.metrics.stream_depth ≡ depth)
          × (after.metrics.last_updated ≡ quot_ℤ u.now 1000000000)
          × (((pending : ℤ × ℤ) × (u.pending ≡ ok pending)
                × ((after.metrics.pending_count, after.metrics.oldest_message_age) ≡ pending))
              ⊎ ((e : Error) × (u.pending ≡ err e)
                  × (after.metrics.pending_count ≡ pos 0)
                  × (after.metrics.oldest_message_age ≡ pos 0))))
