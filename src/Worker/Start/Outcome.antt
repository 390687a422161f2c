-- ===== src/Worker/Start/Outcome.antt =====
-- What Start returns when the health server fails.
use fluffy_dollop.Base.{◌≡◌, refl, ap, ◌∙◌, Bool, true, Option, none, some, List, [], ◌∷◌, arith}
use fluffy_dollop.Redis.Hashes.{or_else}
use fluffy_dollop.Go.Errors.{Error, wrap, health_server_failed}
use fluffy_dollop.Go.Group.{ErrGroup, ErrGroupLaws}
use fluffy_dollop.Worker.Start.{
  server_closed, serve_failed, Returned, poll_returned, reclaim_returned, registry_returned,
  job_returned, health_returned, error_of, all_return, report_if, health_start, start_worker,
}

-- The first failure of the health server, as an error of Start's.
abbrev pub first_failure : List Returned → Option Error
first_failure [] = none
first_failure (health_returned (serve_failed e) ∷ rs) = some (wrap health_server_failed e)
first_failure (health_returned server_closed ∷ rs) = first_failure rs
first_failure (poll_returned ∷ rs) = first_failure rs
first_failure (reclaim_returned ∷ rs) = first_failure rs
first_failure (registry_returned ∷ rs) = first_failure rs
first_failure (job_returned ∷ rs) = first_failure rs

first_failure-step :
    (r : Returned) (rs : List Returned)
    → or_else (error_of r) (first_failure rs) ≡ first_failure (r ∷ rs)
unfolding health_start
first_failure-step (health_returned (serve_failed e)) rs = refl
first_failure-step (health_returned server_closed) rs = refl
first_failure-step poll_returned rs = refl
first_failure-step reclaim_returned rs = refl
first_failure-step registry_returned rs = refl
first_failure-step job_returned rs = refl

or_else-right : (o : Option Error) → o ≡ or_else o none
or_else-right none = refl
or_else-right (some e) = refl

or_else_assoc : (a b c : Option Error) → or_else (or_else a b) c ≡ or_else a (or_else b c)
or_else_assoc none b c = refl
or_else_assoc (some e) b c = refl

module _ (E : ErrGroup) (L : ErrGroupLaws E) where
  all_return_first :
      (returned : List Returned) (s : E.State)
      → L.first (all_return E returned s) ≡ or_else (L.first s) (first_failure returned)
  unfolding health_start
  all_return_first [] s = or_else-right (L.first s)
  all_return_first (r ∷ rs) s =
      all_return_first rs (E.returns (error_of r) s)
      ∙ ap (λ o. or_else o (first_failure rs)) (L.returns_first (error_of r) s)
      ∙ or_else_assoc (L.first s) (error_of r) (first_failure rs)
      ∙ ap (or_else (L.first s)) (first_failure-step r rs)

  report_if_done : (o : Option Error) (b : Bool) → b ≡ true → report_if E o b ≡ none
  report_if_done none b h = refl
  report_if_done (some e) b h = ground arith

  -- Whatever its goroutines return, and in whatever order, Wait hands Start the first failure of the
  -- health server among what they return, say because its port is taken, and Start returns nil all
  -- the same, since Wait has cancelled the context that Start tests.
  pub start_hides_failure :
      (parent_done : Bool) (returned : List Returned)
      → ((E.wait (all_return E returned (E.with_context parent_done))).0 ≡ first_failure returned)
        × (start_worker E parent_done returned ≡ none)
  unfolding start_worker
  start_hides_failure parent_done returned = (
    L.wait_first _
        ∙ all_return_first returned (E.with_context parent_done)
        ∙ ap (λ o. or_else o (first_failure returned)) (L.first_none parent_done),
    report_if_done _ _ (L.wait_cancels _),
  )

  -- Start never returns an error.
  pub start_worker-none :
      (parent_done : Bool) (returned : List Returned) → start_worker E parent_done returned ≡ none
  unfolding start_worker
  start_worker-none parent_done returned = report_if_done _ _ (L.wait_cancels _)
