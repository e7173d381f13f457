-- ===== src/Executors/Process.antt =====
-- A run of a process: execute_command, BaseExecutor.__call__, UnprotectedExecutor and
-- DetailedUnprotectedExecutor of sio/workers/executors.py. What a started command does is an
-- argument, a function of its text.
pub mod Detailed
use sioworkers.Prelude.{
  ℕ, ◌+◌, ◌*◌, ◌%◌, Bool, true, false, not, ◌&&◌, ◌||◌, Option, none, some, List, [], ◌∷◌, ◌++◌,
  ltb, leb, ◌==◌, if◌then◌else◌, Result, ok, raised, exec_error, runtime_error, Exception, is_text,
  codes, take,
}
use sioworkers.Prelude.Int.{ℤ, pos, negsuc}
use sioworkers.Executors.Quoting.{
  is_set, Args, plain, noquote, nested, cons, nil, Command, words, text, shellquote, ulimit,
}

abbrev pub same_ℤ : ℤ → ℤ → Bool
same_ℤ (pos m) (pos n) = m == n
same_ℤ (negsuc m) (negsuc n) = m == n
same_ℤ a b = false

-- `code in codes`
abbrev pub any_ℤ : ℤ → List ℤ → Bool
any_ℤ a [] = false
any_ℤ a (b ∷ l) = if same_ℤ a b then true else any_ℤ a l

pub data Code : Type 0 where
  code_ok code_rv code_re code_tle code_mle code_ole code_se : Code

-- `result_string`; `of_error` is the text of an exception.
pub data Text : Type 0 where
  said : List ℕ → Text
  of_error : Exception → Text
  time_limit_exceeded real_time_limit_exceeded fine : Text
  exited_due_to_signal : ℕ → Text
  exited_with_code : ℤ → Text

-- What a started command does: its return code, how long it took in ms, whether it was still running
-- when a timer for the real time limit went off, its output, what is read of the last `user` line on
-- its stderr, for bash's `time`, and the two lines of a supervisor's report, the first split into
-- words. To read the time raises ValueError where the stderr is not UTF-8, or its number no number.
pub record Outcome : Type 0 where
  pub rc : ℤ
  pub elapsed : ℕ
  pub overran : Bool
  pub printed : List ℕ
  pub user_time : Result (Option ℕ)
  pub status : List (List ℕ)
  pub message : List ℕ

abbrev pub System : Type 0
System = List ℕ → Outcome

pub record Kwargs : Type 0 where
  pub mem_limit : Option ℕ
  pub time_limit : Option ℕ
  pub real_time_limit : Option ℕ
  pub output_limit : Option ℕ
  pub ignore_errors : Bool
  pub extra_ignore_errors : List ℤ
  pub capture_output : Bool
  pub split_lines : Bool

-- `renv`; a key that is missing is none.
pub record Renv : Type 0 where
  pub return_code : Option ℤ
  pub supervisor_return_code : Option ℤ
  pub real_time_used : ℕ
  pub real_time_killed : Bool
  pub stdout : List (List ℕ)
  pub time_used : Option ℤ
  pub mem_used : Option ℤ
  pub num_syscalls : Option ℤ
  pub result_code : Option Code
  pub result_string : Option Text
  pub exit_signal : Option ℤ

abbrev pub no_renv : Renv
no_renv = record {
  return_code = none;
  supervisor_return_code = none;
  real_time_used = 0;
  real_time_killed = false;
  stdout = [];
  time_used = none;
  mem_used = none;
  num_syscalls = none;
  result_code = none;
  result_string = none;
  exit_signal = none;
}

-- `split(b'\n')`
abbrev pub in_first_line : ℕ → List (List ℕ) → List (List ℕ)
in_first_line c [] = (c ∷ []) ∷ []
in_first_line c (line ∷ l) = (c ∷ line) ∷ l

abbrev pub lines_of : List ℕ → List (List ℕ)
lines_of [] = [] ∷ []
lines_of (c ∷ s) = let rest = lines_of s in if c == b'\n' then [] ∷ rest else in_first_line c rest

-- `stdout.read(output_limit or -1)`
abbrev pub read_output : Option ℕ → List ℕ → List ℕ
read_output none s = s
read_output (some n) s = if n == 0 then s else take n s

abbrev pub captured : Kwargs → List ℕ → List (List ℕ)
captured k s =
    if not k.capture_output
    then []
    else if k.split_lines
    then lines_of (read_output k.output_limit s)
    else read_output k.output_limit s ∷ []

-- `rc and not ignore_errors and rc not in extra_ignore_errors`
abbrev pub fails : Kwargs → ℤ → Bool
fails k rc = not (same_ℤ rc (pos 0)) && not k.ignore_errors && not (any_ℤ rc k.extra_ignore_errors)

abbrev pub renv_of : Kwargs → Outcome → Renv
renv_of k o = record no_renv {
  return_code = some o.rc;
  real_time_used = o.elapsed;
  real_time_killed = is_set k.real_time_limit && o.overran;
  stdout = captured k o.printed;
}

-- `execute_command`
unfoldable pub execute_command : System → Command → Kwargs → Result Renv
unfolding shellquote
execute_command start command k =
    let o = start (shellquote command) in
    if fails k o.rc then raised exec_error else ok (renv_of k o)

-- The entries of `environ`, in its order; a value may be None.
abbrev pub Environ : Type 0
Environ = List (List ℕ × Option ℕ)

-- `environ.get(key, default)`
abbrev pub get : List ℕ → Option ℕ → Environ → Option ℕ
get key default [] = default
get key default (item ∷ environ) = if is_text item.0 key then item.1 else get key default environ

abbrev pub is_empty : Environ → Bool
is_empty [] = true
is_empty (item ∷ environ) = false

-- The limits of `BaseExecutor.__call__`.
unfoldable pub take_limits : Environ → List ℕ → Kwargs → Kwargs
take_limits environ prefix k = if is_empty environ then k else record k {
  mem_limit = get (prefix ++ codes "mem_limit") k.mem_limit environ;
  time_limit = get (prefix ++ codes "time_limit") k.time_limit environ;
  real_time_limit = get (prefix ++ codes "real_time_limit") k.real_time_limit environ;
  output_limit = get (prefix ++ codes "output_limit") k.output_limit environ;
}

-- A text is a command that is not quoted.
abbrev pub as_args : Command → Args
as_args (words args) = args
as_args (text s) = cons (noquote s) nil

-- `BaseExecutor.__call__`, over the method `_execute` of a class.
unfoldable pub call_executor :
    (Args → Kwargs → Result Renv) → Environ → List ℕ → Command → Kwargs → Result Renv
unfolding take_limits
call_executor execute environ prefix command k =
    execute (as_args command) (take_limits environ prefix k)

-- n times the time limit, where no real time limit is given.
abbrev pub default_real_time : ℕ → Option ℕ → Option ℕ → Option ℕ
default_real_time n none r = r
default_real_time n (some t) (some r) = some r
default_real_time n (some t) none = if t == 0 then none else some (n * t)

-- `UnprotectedExecutor._execute`
unfoldable pub execute_unprotected : System → Args → Kwargs → Result Renv
unfolding execute_command ulimit
execute_unprotected start command k =
    execute_command start (words (ulimit k.mem_limit k.time_limit command))
      (record k { real_time_limit = default_real_time 2 k.time_limit k.real_time_limit })

-- `time_used` of DetailedUnprotectedExecutor.
abbrev pub measured : Result (Option ℕ) → Renv → Result ℕ
measured (raised e) r = raised e
measured (ok (some t)) r = ok t
measured (ok none) r = if r.real_time_killed then ok r.real_time_used else raised runtime_error

-- `time_used >= 0.95 * time_limit`
abbrev pub over_time : Option ℕ → ℕ → Bool
over_time none t = false
over_time (some limit) t = leb (95 * limit) (100 * t)

abbrev pub classify_exit : Option ℤ → Renv → Renv
classify_exit none r = r
classify_exit (some (negsuc n)) r = record r {
  result_code = some code_re;
  result_string = some (exited_with_code (negsuc n));
}
classify_exit (some (pos n)) r =
    if n == 0
    then record r { result_code = some code_ok; result_string = some fine }
    else if ltb 128 n
    then record r {
      result_code = some code_re;
      result_string = some (exited_due_to_signal (n % 128));
      exit_signal = some (pos (n % 128));
    }
    else record r { result_code = some code_re; result_string = some (exited_with_code (pos n)) }

abbrev pub classify : Option ℕ → ℕ → Renv → Renv
classify limit t r =
    if over_time limit t
    then record r { result_code = some code_tle; result_string = some time_limit_exceeded }
    else if r.real_time_killed
    then record r { result_code = some code_tle; result_string = some real_time_limit_exceeded }
    else classify_exit r.return_code r

abbrev pub with_time : Option ℕ → Renv → Result ℕ → Result Renv
with_time limit r (raised e) = raised e
with_time limit r (ok t) = ok (record (classify limit t r) {
  time_used = some (pos t);
  mem_used = some (pos 0);
  num_syscalls = some (pos 0);
})

abbrev pub detail : System → List ℕ → Option ℕ → Result Renv → Result Renv
detail start command limit (raised e) = raised e
detail start command limit (ok r) = with_time limit r (measured (start command).user_time r)

abbrev pub timed : Args → Args
timed command =
    cons (plain (codes "bash"))
      (cons (plain (codes "-c")) (cons (nested (cons (noquote (codes "time")) command)) nil))

-- `DetailedUnprotectedExecutor._execute`
unfoldable pub execute_detailed : System → Args → Kwargs → Result Renv
unfolding execute_unprotected
execute_detailed start command k =
    detail start (shellquote (words (ulimit k.mem_limit k.time_limit (timed command)))) k.time_limit
      (execute_unprotected start (timed command) k)
