-- ===== src/Go/Group.antt =====
-- golang.org/x/sync/errgroup as a parameter, and what its documentation says.
use fluffy_dollop.Base.{◌≡◌, Bool, true, Option, none}
use fluffy_dollop.Redis.Hashes.{or_else}
use fluffy_dollop.Go.Errors.{Error}

pub record ErrGroup : Type 1 where
  pub State : Type 0
  -- `WithContext`, given whether the parent is done
  pub with_context : Bool → State
  -- a function that was passed to `Go` returns
  pub returns : Option Error → State → State
  -- `Wait` returns, after all of them
  pub wait : State → Option Error × State
  -- whether the derived context is done
  pub done : State → Bool

pub record ErrGroupLaws (E : ErrGroup) : Type 0 where
  -- the first error that is not nil
  pub first : E.State → Option Error
  pub first_none : (parent : Bool) → first (E.with_context parent) ≡ none
  pub returns_first : (o : Option Error) (s : E.State) → first (E.returns o s) ≡ or_else (first s) o
  pub wait_first : (s : E.State) → (E.wait s).0 ≡ first s
  -- The derived context is cancelled the first time Wait returns.
  pub wait_cancels : (s : E.State) → E.done (E.wait s).1 ≡ true
