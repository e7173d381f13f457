-- ===== src/Judging/Solutions.antt =====
-- When a run of sio/executors/common.py accepts a solution.
use sioworkers.Prelude.{◌≡◌, refl, Bool, true, false, ◌&&◌, ◌||◌, not, ok, subst, if◌then◌else◌}
use sioworkers.Judging.{
  Run, Fraction, Checker, is_ok_code, populate_environ, fake_run, run_solution, check,
}
use sioworkers.Judging.Verdicts.{Accepts, approves, check-Accepts}

checked_run-Accepts :
    (fraction : Fraction) (b check_output : Bool) (checker : Checker) (e : Run)
    → is_ok_code e.result_code ≡ b
    → Accepts
        (b && (not check_output || approves checker))
        (if b && check_output then check fraction checker e else ok e)
checked_run-Accepts fraction true true checker e h = check-Accepts fraction checker e
checked_run-Accepts fraction true false checker e h = h
checked_run-Accepts fraction false true checker e h = h
checked_run-Accepts fraction false false checker e h = h

-- Whenever a run ends with a result, the solution is accepted just if it ran to an end with OK, which
-- one that is its own output always does, and its output is not to be checked or the checking
-- program approves of it.
pub run_solution-accepts :
    (fraction : Fraction) (output_only check_output : Bool) (r : Run) (checker : Checker)
    (e q : Run)
    → run_solution fraction output_only check_output r checker e ≡ ok q
    → is_ok_code q.result_code
      ≡ ((output_only || is_ok_code r.result_code) && (not check_output || approves checker))
unfolding run_solution
run_solution-accepts fraction true check_output r checker e q h =
    subst (Accepts (not check_output || approves checker)) h
      (checked_run-Accepts fraction true check_output checker (populate_environ fake_run e) refl)
run_solution-accepts fraction false check_output r checker e q h =
    subst (Accepts (is_ok_code r.result_code && (not check_output || approves checker))) h (
      checked_run-Accepts fraction (is_ok_code r.result_code) check_output checker
        (populate_environ r e) refl)
