-- ===== src/Health/Readiness.antt =====
-- When the service is ready.
use fluffy_dollop.Base.{◌≡◌, ◌↔◌, ◌⊎◌, true, none, List, [], ◌∷◌, All, arith}
use fluffy_dollop.Health.{
  returned, Check, CheckResult, run_check_safe, run_all, check_overall_health, count_failed_checks,
  check_all, handle_ready,
}

-- The check returns no error in time.
abbrev pub Passes : Check → Type 0
Passes c = c.outcome ≡ returned none

run_check_safe-Passes : (c : Check) → ((run_check_safe c).healthy ≡ true) ↔ Passes c
unfolding run_check_safe
run_check_safe-Passes c = ground arith

overall_iff :
    (checks : List Check) → (check_overall_health (run_all checks) ≡ true) ↔ All Passes checks
unfolding check_overall_health run_all
overall_iff [] = ground arith
overall_iff (c ∷ checks) = ground (arith, run_check_safe-Passes c, overall_iff checks)

-- The readiness endpoint answers 200 exactly if every registered check returns no error in time,
-- and 503 otherwise.
pub handle_ready_iff :
    (checks : List Check)
    → (((handle_ready checks).0 ≡ 200) ↔ All Passes checks)
      × (((handle_ready checks).0 ≡ 200) ⊎ ((handle_ready checks).0 ≡ 503))
unfolding handle_ready check_all
handle_ready_iff checks = ground (arith, overall_iff checks)

-- The overall health is good exactly if no failed check is counted.
pub overall-count_failed_checks :
    (results : List CheckResult)
    → (check_overall_health results ≡ true) ↔ (count_failed_checks results ≡ 0)
unfolding check_overall_health count_failed_checks
overall-count_failed_checks [] = ground arith
overall-count_failed_checks (r ∷ results) = ground (arith, overall-count_failed_checks results)
