-- ===== src/Tests/Judged.antt =====
-- Runs of solutions, with a fraction reader that knows no fractions.
use sioworkers.Prelude.{true, ◌&&◌, ◌||◌, not, ℕ, ◌≡◌, refl, false, none, some, List, [], ◌∷◌}
use sioworkers.Prelude.Int.{pos}
use sioworkers.Judging.{
  run_solution, code_ok, said, Run, Fraction, own_checker, is_ok_code, says_ok, check, fill_result,
  read_verdict, output_to_fraction,
}
use sioworkers.Judging.Solutions.{run_solution-accepts}
use sioworkers.Judging.Verdicts.{fill_result-accepts, approves}

abbrev no_fraction : Fraction
no_fraction s = none

abbrev run : Run
run = record {
  exit_signal = none;
  real_time_killed = false;
  time_used = 20;
  mem_used = 300;
  result_code = code_ok;
  result_string = said [];
  result_percentage = none;
}

abbrev says_ok_line : List ℕ
says_ok_line = 79 ∷ 75 ∷ []

abbrev accepted : Run
accepted = record run { result_percentage = some (pos 100, 1) }

fill_result-accepts_example : is_ok_code accepted.result_code ≡ says_ok says_ok_line
unfolding fill_result output_to_fraction
fill_result-accepts_example =
    fill_result-accepts no_fraction run run says_ok_line [] [] accepted refl

run_solution-accepts_example : is_ok_code accepted.result_code ≡ (
    (false || is_ok_code run.result_code)
    && (not true || approves (own_checker 0 (says_ok_line ∷ []))))
unfolding run_solution check read_verdict output_to_fraction
run_solution-accepts_example =
    run_solution-accepts no_fraction false true run (own_checker 0 (says_ok_line ∷ [])) run accepted
      refl
