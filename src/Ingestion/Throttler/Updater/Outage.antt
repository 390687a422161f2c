-- ===== src/Ingestion/Throttler/Updater/Outage.antt =====
-- What the throttler decides while Redis does not tell the depth.
use fluffy_dollop.Base.{ℕ, ◌+◌, ◌*◌, ◌^◌, ◌<◌, ◌≡◌, refl, ap, ◌∙◌, true, some, List, [], ◌∷◌, arith}
use fluffy_dollop.Base.Int.{pos, ltb_ℤ, saturate64, wrap64, ◌-ℤ◌, ◌*ℤ◌}
use fluffy_dollop.Go.Errors.{Error}
use fluffy_dollop.Go.Effect.{err}
use fluffy_dollop.Go.Float.{Float64}
use fluffy_dollop.Models.{Time}
use fluffy_dollop.Redis.{Redis}
use fluffy_dollop.Queue.Types.{Json}
use fluffy_dollop.Queue.Producer.{stream_length}
use fluffy_dollop.Ingestion.Throttler.{allow, staleness, decision}
use fluffy_dollop.Ingestion.Throttler.Updater.{
  Throttler, UpdateEvent, update_cancelled, update_tick, elsewhere, refresh, update_on,
  throttler_decision,
}

module _ (R : Redis) (J : Json) {Float : Type 0} where
  open R use {State}

  -- StreamLength returns an error.
  abbrev pub NoDepth : Throttler Float → State → Type 0
  NoDepth t s = (e : Error) × ((stream_length R J t.producer s).0 ≡ err e)

  -- It does so at every tick up to the end of the loop.
  abbrev pub Outage : List (UpdateEvent R) → Throttler Float → State → Type 0
  Outage [] t s = Unit
  Outage (update_cancelled ∷ events) t s = Unit
  Outage (update_tick asked now ∷ events) t s =
      NoDepth t s × Outage events t (stream_length R J t.producer s).1
  Outage (elsewhere f ∷ events) t s = Outage events t (f s)

  refresh-NoDepth :
      (asked now : Time) (t : Throttler Float) (s : State)
      → NoDepth t s
      → refresh R J asked now t s ≡ (t, (stream_length R J t.producer s).1)
  unfolding refresh
  refresh-NoDepth asked now t s (e, bad) = ground arith

  update_on-Outage :
      (events : List (UpdateEvent R)) (t : Throttler Float) (s : State)
      → Outage events t s
      → ((update_on R J events t s).0.metrics ≡ t.metrics)
        × ((update_on R J events t s).0.config ≡ t.config)
  unfolding update_on
  update_on-Outage [] t s out = (refl, refl)
  update_on-Outage (update_cancelled ∷ events) t s out = (refl, refl)
  update_on-Outage (elsewhere f ∷ events) t s out = update_on-Outage events t (f s) out
  update_on-Outage (update_tick asked now ∷ events) t s (here, rest) =
      rw (refresh-NoDepth asked now t s here, update_on)
        (update_on-Outage events t (stream_length R J t.producer s).1 rest)

-- The metrics of second `seen` are stale at a clock beyond twice the interval.
stale :
    (seen interval clock : ℕ)
    → seen * 1000000000 + 2 * interval < clock
    → clock < 2 ^ 63
    → ltb_ℤ (wrap64 (pos 2 *ℤ pos interval)) (saturate64 (pos clock -ℤ pos seen *ℤ pos 1000000000))
      ≡ true
unfolding wrap64 saturate64 ◌-ℤ◌ ◌*ℤ◌
stale seen interval clock late small = ground arith

module _ (R : Redis) (J : Json) (F : Float64) where
  open R use {State}
  open F use {Float}

  stale_allows :
      (t : Throttler Float) (seen interval clock : ℕ)
      → t.metrics.last_updated ≡ pos seen
      → t.config.metrics_update_interval ≡ pos interval
      → seen * 1000000000 + 2 * interval < clock
      → clock < 2 ^ 63
      → throttler_decision F (some t) (pos clock) ≡ (allow, pos 0)
  unfolding throttler_decision decision staleness
  stale_allows t seen interval clock at every late small =
      let old = stale seen interval clock late small in ground arith

  -- The throttler fails open: once StreamLength fails at every tick, whatever else happens, then
  -- more than two update intervals after the second of the last update every request is allowed,
  -- until the updater is stopped and after it. That is for a clock from 1970 on whose nanoseconds an
  -- int64 holds.
  pub update_on-allows :
      (events : List (UpdateEvent R)) (t : Throttler Float) (s : State) (seen interval clock : ℕ)
      → Outage R J events t s
      → t.metrics.last_updated ≡ pos seen
      → t.config.metrics_update_interval ≡ pos interval
      → seen * 1000000000 + 2 * interval < clock
      → clock < 2 ^ 63
      → throttler_decision F (some (update_on R J events t s).0) (pos clock) ≡ (allow, pos 0)
  update_on-allows events t s seen interval clock out at every late small =
      let (same, kept) = update_on-Outage R J events t s out in
      stale_allows (update_on R J events t s).0 seen interval clock
        (ap (λ m. m.last_updated) same ∙ at) (ap (λ c. c.metrics_update_interval) kept ∙ every) late
        small
