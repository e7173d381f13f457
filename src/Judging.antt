-- ===== src/Judging.antt =====
-- How a run of a solution is judged: checker.py, common.py, and the results of the processes and of
-- the interactor in interactive_common.py, of sio/executors. A text is the list of its bytes. What the
-- programs that are run return is an argument. `Fraction` stands for the constructor of Python's
-- fractions: the numerator and the denominator, or the exception that it raises.
pub mod Verdicts
pub mod Solutions
use sioworkers.Prelude.{
  ℕ, ◌-◌, ◌≡◌, Bool, true, false, not, ◌&&◌, ◌||◌, Option, none, some, List, [], ◌∷◌, ◌++◌, ltb,
  leb, ◌==◌, if◌then◌else◌, length, take, Result, ok, raised, Exception, index_error, checker_error,
  interactor_error, system_error, max, is_text,
}
use sioworkers.Prelude.Int.{ℤ, pos}

pub data Code : Type 0 where
  code_ok code_wa code_tle code_se : Code
  code_other : ℕ → Code

pub data Text : Type 0 where
  said : List ℕ → Text
  exited_prematurely interactor_limit_exceeded : Text

abbrev pub is_ok_code : Code → Bool
is_ok_code code_ok = true
is_ok_code c = false

abbrev pub is_tle : Code → Bool
is_tle code_tle = true
is_tle c = false

-- A dict of results: of a process, and, in its last three fields, of the environment.
pub record Run : Type 0 where
  pub exit_signal : Option ℕ
  pub real_time_killed : Bool
  pub time_used : ℕ
  pub mem_used : ℕ
  pub result_code : Code
  pub result_string : Text
  pub result_percentage : Option (ℤ × ℕ)

abbrev pub result_string_length_limit : ℕ
result_string_length_limit = 1024

-- `b'[...]'`
abbrev pub suffix : List ℕ
suffix = 91 ∷ 46 ∷ 46 ∷ 46 ∷ 93 ∷ []

-- `_limit_length`
unfoldable pub limit_length : List ℕ → List ℕ
limit_length s =
    if ltb result_string_length_limit (length s)
    then take (result_string_length_limit - length suffix) s ++ suffix
    else s

-- `line == b'OK'`
abbrev pub says_ok : List ℕ → Bool
says_ok line = is_text line (79 ∷ 75 ∷ [])

abbrev pub is_empty : List ℕ → Bool
is_empty [] = true
is_empty (x ∷ s) = false

abbrev pub Fraction : Type 0
Fraction = List ℕ → Option (ℤ × ℕ)

-- `output_to_fraction`: each exception of `Fraction` becomes a CheckerError.
abbrev pub checked : Option (ℤ × ℕ) → Result (ℤ × ℕ)
checked none = raised checker_error
checked (some q) = ok q

unfoldable pub output_to_fraction : Fraction → List ℕ → Result (ℤ × ℕ)
output_to_fraction fraction s = if is_empty s then ok (pos 100, 1) else checked (fraction s)

-- The end of checker.run, for the first three lines of the output, which are filled up with empty
-- ones. The exceptions of output_to_fraction are not caught here.
abbrev pub with_percentage : Run → Result (ℤ × ℕ) → Result Run
with_percentage e (ok q) = ok (record e { result_percentage = some q })
with_percentage e (raised x) = raised x

unfoldable pub read_verdict : Fraction → List ℕ → List ℕ → List ℕ → Run → Result Run
unfolding output_to_fraction limit_length
read_verdict fraction first second third e =
    if says_ok first
    then with_percentage
        (record e {
          result_code = code_ok;
          result_string = if is_empty second then e.result_string else said (limit_length second);
        })
        (output_to_fraction fraction third)
    else ok (record e {
      result_code = code_wa;
      result_string = said (limit_length second);
      result_percentage = some (pos 0, 1);
    })

-- `while len(output) < 3: output.append('')`, and then the three lines.
abbrev pub judge_lines : Fraction → List (List ℕ) → Run → Result Run
judge_lines fraction [] e = read_verdict fraction [] [] [] e
judge_lines fraction (a ∷ []) e = read_verdict fraction a [] [] e
judge_lines fraction (a ∷ b ∷ []) e = read_verdict fraction a b [] e
judge_lines fraction (a ∷ b ∷ c ∷ l) e = read_verdict fraction a b c e

-- The program that checks: the task's checker, which runs without a box; that checker where it is not
-- trusted, in PRoot; oicompare in a sandbox; or diff; with its return code and the lines that it prints.
pub data Checker : Type 0 where
  own_checker untrusted_checker oicompare : ℕ → List (List ℕ) → Checker
  diff : ℕ → Checker

-- `renv['stdout'][0]`
abbrev pub wrong_answer : List (List ℕ) → Run → Result Run
wrong_answer [] e = raised index_error
wrong_answer (line ∷ l) e = ok (record e {
  result_code = code_wa;
  result_string = said (limit_length line);
  result_percentage = some (pos 0, 1);
})

-- `run`: a CheckerError, or the ExecError of diff or of PRoot, becomes a SystemError. diff may return 1
-- without one. The run in PRoot has no `ignore_errors`: any return code but 0 is an ExecError.
unfoldable pub check : Fraction → Checker → Run → Result Run
unfolding read_verdict
check fraction (own_checker code lines) e =
    if leb 2 code then raised system_error else judge_lines fraction lines e
check fraction (untrusted_checker code lines) e =
    if code == 0 then judge_lines fraction lines e else raised system_error
check fraction (oicompare code lines) e =
    if code == 0
    then ok (record e { result_code = code_ok; result_percentage = some (pos 100, 1) })
    else if code == 1
    then wrong_answer lines e
    else raised system_error
check fraction (diff code) e =
    if leb 2 code
    then raised system_error
    else judge_lines fraction ((if code == 0 then 79 ∷ 75 ∷ [] else 87 ∷ 65 ∷ []) ∷ []) e

-- The loop over the processes of a solution: the first that did not end with OK counts, and
-- otherwise the greatest time and memory.
abbrev pub merge_runs : Run → List Run → Run
merge_runs r [] = r
merge_runs r (p ∷ ps) =
    if is_ok_code p.result_code
    then merge_runs
        (record r { time_used = max r.time_used p.time_used; mem_used = max r.mem_used p.mem_used })
        ps
    else p

abbrev pub choose_run : List Run → Result Run
choose_run [] = raised index_error
choose_run (p ∷ ps) = ok (merge_runs p (p ∷ ps))

abbrev pub sigpipe : ℕ
sigpipe = 13

abbrev pub is_sigpipe : Option ℕ → Bool
is_sigpipe none = false
is_sigpipe (some s) = s == sigpipe

-- `_fill_result`, for the three lines of the interactor.
unfoldable pub fill_result : Fraction → Run → Run → List ℕ → List ℕ → List ℕ → Result Run
fill_result fraction r i first second third =
    if not (is_empty first)
    then (if says_ok first
        then with_percentage
            (record r {
              result_code = code_ok;
              result_string = said (if is_empty second then [] else limit_length second);
            })
            (output_to_fraction fraction third)
        else ok (record r {
          result_code = code_wa;
          result_string = said (if is_empty second then [] else limit_length second);
          result_percentage = some (pos 0, 1);
        }))
    else if not (is_ok_code i.result_code)
        && not (is_tle i.result_code)
        && not (is_sigpipe i.exit_signal)
    then raised interactor_error
    else if not (is_ok_code r.result_code) && not (is_sigpipe r.exit_signal)
    then ok r
    else if is_sigpipe i.exit_signal
    then ok (record r { result_code = code_wa; result_string = exited_prematurely })
    else if i.real_time_killed
    then ok (record r { result_code = code_tle; result_string = interactor_limit_exceeded })
    else raised interactor_error

-- `_populate_environ` of sio/executors/common.py: what a run leaves in the environment.
abbrev pub percentage_or_zero : Option (ℤ × ℕ) → ℤ × ℕ
percentage_or_zero none = (pos 0, 1)
percentage_or_zero (some q) = q

abbrev pub populate_environ : Run → Run → Run
populate_environ r e = record e {
  time_used = r.time_used;
  mem_used = r.mem_used;
  result_code = r.result_code;
  result_string = r.result_string;
  result_percentage = some (percentage_or_zero r.result_percentage);
}

-- The run of a task where the solution is its output: nothing is run.
abbrev pub fake_run : Run
fake_run = record {
  exit_signal = none;
  real_time_killed = false;
  time_used = 0;
  mem_used = 0;
  result_code = code_ok;
  result_string = said (111 ∷ 107 ∷ []);
  result_percentage = none;
}

-- `run` of sio/executors/common.py, where `r` is what the executor returns: an output is checked only
-- if the run ended with OK.
unfoldable pub run_solution : Fraction → Bool → Bool → Run → Checker → Run → Result Run
unfolding check
run_solution fraction output_only check_output r checker e =
    let e' = populate_environ (if output_only then fake_run else r) e in
    if is_ok_code e'.result_code && check_output then check fraction checker e' else ok e'
