-- ===== src/Worker/Poll/Delays.antt =====
-- The delay that the poll loop has come to.
use fluffy_dollop.Base.{◌≡◌, false, List, [], ◌∷◌}
use fluffy_dollop.Go.Errors.{Error}
use fluffy_dollop.Go.Float.{Float64}
use fluffy_dollop.Queue.Consumer.{nothing, job, failed}
use fluffy_dollop.Worker.Backoff.{Backoff}
use fluffy_dollop.Worker.Poll.{Worker, PollEvent, poll_cancelled, consumed}

module _ (F : Float64) where
  -- The loop goes on after the event.
  abbrev pub GoesOn : PollEvent F → Type 0
  GoesOn poll_cancelled = ⊥
  GoesOn (consumed r random interrupted) = interrupted ≡ false

  -- `Consume` returned without an error, with a message or with none, and the loop goes on.
  abbrev pub IsSuccess : PollEvent F → Type 0
  IsSuccess poll_cancelled = ⊥
  IsSuccess (consumed (failed e) random interrupted) = ⊥
  IsSuccess (consumed nothing random interrupted) = interrupted ≡ false
  IsSuccess (consumed (job envelope id) random interrupted) = interrupted ≡ false

  -- `Consume` fails once with each error.
  abbrev pub failures : Error → List F.Float → List (PollEvent F)
  failures e [] = []
  failures e (random ∷ rest) = consumed (failed e) random false ∷ failures e rest
