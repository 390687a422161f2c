-- ===== src/Health.antt =====
-- internal/health/aggregator.go, checker.go and http.go. What a check does is an argument: it
-- returns, panics, or is still at work when the context is done.
pub mod Readiness
pub mod Checkers
use fluffy_dollop.Base.{
  ℕ, ◌+◌, Bool, true, false, Option, none, some, List, [], ◌∷◌, ◌++◌, if◌then◌else◌,
}
use fluffy_dollop.Base.Text.{Text, lit}
use fluffy_dollop.Go.Errors.{Error, error_text}
use fluffy_dollop.Config.Types.{Duration}

pub data CheckOutcome : Type 0 where
  returned : Option Error → CheckOutcome
  -- with the value of the panic as `%v` prints it
  panicked : Text → CheckOutcome
  timed_out : CheckOutcome

-- One registered checker in one run: its name, what its check does, and how long it takes.
pub record Check : Type 0 where
  pub name : Text
  pub outcome : CheckOutcome
  pub elapsed : Duration

pub record CheckResult : Type 0 where
  pub name : Text
  pub healthy : Bool
  pub message : Text
  pub duration : Duration

pub record AggregatedHealth : Type 0 where
  pub status : Text
  pub checks : List CheckResult
  pub overall : Bool

abbrev result_of : Check → Bool → Text → CheckResult
result_of c healthy message = record {
  name = c.name;
  healthy = healthy;
  message = message;
  duration = c.elapsed;
}

unfoldable pub run_check_safe : Check → CheckResult
run_check_safe c = elim c.outcome [
  | returned e ↦ elim e [
    | none ↦ result_of c true []
    | some bad ↦ result_of c false (error_text bad)
  ]
  | panicked value ↦ result_of c false (lit "health check panicked: " ++ value)
  | timed_out ↦ result_of c false (lit "health check timeout")
]

-- Each goroutine writes the result at its checker's index.
unfoldable pub run_all : List Check → List CheckResult
unfolding run_check_safe
run_all [] = []
run_all (c ∷ checks) = run_check_safe c ∷ run_all checks

unfoldable pub check_overall_health : List CheckResult → Bool
check_overall_health [] = true
check_overall_health (r ∷ results) =
    let rest = check_overall_health results in if r.healthy then rest else false

unfoldable pub count_failed_checks : List CheckResult → ℕ
count_failed_checks [] = 0
count_failed_checks (r ∷ results) =
    let rest = count_failed_checks results in if r.healthy then rest else rest + 1

unfoldable pub check_all : List Check → AggregatedHealth
unfolding run_all check_overall_health
check_all checks =
    let results = run_all checks in
    let healthy = check_overall_health results in
    record {
      status = if healthy then lit "healthy" else lit "unhealthy";
      checks = results;
      overall = healthy;
    }

unfoldable pub check_liveness : AggregatedHealth
check_liveness = record { status = lit "healthy"; checks = []; overall = true }

-- The status and the body of the answer.
unfoldable pub handle_live : ℕ × AggregatedHealth
unfolding check_liveness
handle_live = (200, check_liveness)

unfoldable pub handle_ready : List Check → ℕ × AggregatedHealth
unfolding check_all
handle_ready checks = let result = check_all checks in (if result.overall then 200 else 503, result)
