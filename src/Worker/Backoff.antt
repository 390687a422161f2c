-- ===== src/Worker/Backoff.antt =====
-- `exponentialBackoff` of internal/worker/worker.go.
pub mod Growth
use fluffy_dollop.Base.{List, [], ◌∷◌, if◌then◌else◌}
use fluffy_dollop.Base.Int.{ℤ, pos, ltb_ℤ, ◌+ℤ◌, wrap64}
use fluffy_dollop.Go.Float.{Float64}
use fluffy_dollop.Config.Types.{Duration}

pub record Backoff : Type 0 where
  pub current : Duration
  pub min : Duration
  pub max : Duration

unfoldable pub new_backoff : Duration → Duration → Backoff
new_backoff min max = record { current = min; min = min; max = max }

unfoldable pub reset : Backoff → Backoff
reset b = record b { current = b.min }

module _ (F : Float64) where
  open F use {Float, of_int, truncate, div, mul, sub}

  -- `time.Duration(float64(d) * 2)`.
  unfoldable pub double : Duration → Duration
  double d = truncate (mul (of_int d) (of_int (pos 2)))

  -- `random` is what rand.Float64 returns.
  unfoldable pub jitter : Duration → Float → Duration
  jitter d random = truncate (
      mul (mul (of_int d) (div (of_int (pos 1)) (of_int (pos 4))))
        (sub (mul random (of_int (pos 2))) (of_int (pos 1))))

  -- The delay of this round, and the backoff after it.
  unfoldable pub next : Backoff → Float → Duration × Backoff
  next b random =
      let doubled = double b.current in
      (
        wrap64 (b.current +ℤ jitter b.current random),
        record b { current = if ltb_ℤ b.max doubled then b.max else doubled },
      )

  -- The backoff after a run of failures with no success between them.
  unfoldable pub after_failures : List Float → Backoff → Backoff
  after_failures [] b = b
  after_failures (random ∷ rest) b = after_failures rest (next b random).1
