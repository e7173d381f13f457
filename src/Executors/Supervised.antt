-- ===== src/Executors/Supervised.antt =====
-- _SIOSupervisedExecutor of sio/workers/executors.py, and SupervisedExecutor over it. `int` stands for
-- Python's `int` on a word, none where it raises ValueError.
pub mod Verdict
use sioworkers.Prelude.{
  is_utf8, all_utf8, require, ℕ, ◌+◌, ◌-◌, ◌*◌, Bool, true, false, not, ◌&&◌, Option, none, some,
  List, [], ◌∷◌, ◌++◌, ltb, leb, ◌==◌, if◌then◌else◌, Result, ok, raised, exec_error, value_error,
  index_error, Exception, is_text, codes, length, drop, starts_with, Action, pure, raise, lift,
  or_raise, modify, gets, ◌>>=◌, ◌>>◌, get_elem?,
}
use sioworkers.Prelude.Int.{ℤ, pos, negsuc, ltb_ℤ, ◌-ℤ◌}
use sioworkers.Executors.Quoting.{
  Args, plain, noquote, cons, nil, words, append_args, plains, ceil_ms2s, is_set,
}
use sioworkers.Executors.Process.{
  System, Kwargs, Renv, Outcome, no_renv, Code, code_ok, code_rv, code_re, code_tle, code_mle,
  code_ole, code_se, Text, said, of_error, same_ℤ, any_ℤ, execute_command,
}

-- `_supervisor_codes`
abbrev pub supervisor_code : ℤ → Code
supervisor_code (negsuc n) = code_re
supervisor_code (pos n) =
    if n == 0
    then code_ok
    else if n == 120
    then code_ole
    else if n == 121
    then code_rv
    else if n == 124
    then code_mle
    else if n == 125
    then code_tle
    else code_re

abbrev pub is_ok_code : Code → Bool
is_ok_code code_ok = true
is_ok_code c = false

abbrev pub is_re_code : Code → Bool
is_re_code code_re = true
is_re_code c = false

-- `_supervisor_result_to_code`, of an integer.
unfoldable pub supervisor_result_to_code : ℤ → Code × ℤ
unfolding ◌-ℤ◌
supervisor_result_to_code c =
    let code = supervisor_code c in
    (code, if ltb_ℤ (pos 200) c then c -ℤ pos 200 else if is_ok_code code then pos 0 else negsuc 0)

abbrev pub default_memory_limit : ℕ
default_memory_limit = 65536

abbrev pub default_output_limit : ℕ
default_output_limit = 52428800

abbrev pub default_time_limit : ℕ
default_time_limit = 30000

abbrev pub real_time_limit_multiplier : ℕ
real_time_limit_multiplier = 64

abbrev pub real_time_limit_addend : ℕ
real_time_limit_addend = 1000

-- `limit or default`
abbrev pub limit_or : Option ℕ → ℕ → ℕ
limit_or none d = d
limit_or (some n) d = if n == 0 then d else n

-- The real time limit; 0 asks for none.
abbrev pub hard_limit : Option ℕ → ℕ → Option ℕ
hard_limit none time = some (real_time_limit_multiplier * time + real_time_limit_addend)
hard_limit (some r) time = if r == 0 then some 0 else some (r + real_time_limit_addend)

unfoldable pub supervised_limits : Kwargs → Kwargs
supervised_limits k =
    let time = limit_or k.time_limit default_time_limit in
    record k {
      mem_limit = some (limit_or k.mem_limit default_memory_limit);
      time_limit = some time;
      output_limit = some (limit_or k.output_limit default_output_limit);
      real_time_limit = hard_limit k.real_time_limit time;
    }

-- `_execute_supervisor` of this class: HARD_LIMIT in seconds, and twice that outside. The process has
-- no HARD_LIMIT of its own, and the other limits go to the supervisor in its environment.
abbrev pub outer_limit : Option ℕ → Option ℕ
outer_limit r = elim r [
  | none ↦ none
  | some n ↦ if n == 0 then some 0 else some (2 * (1000 * ceil_ms2s n))
]

unfoldable pub execute_supervisor : System → Args → Kwargs → Result Renv
unfolding execute_command
execute_supervisor start command k =
    execute_command start (words command)
      (record k { ignore_errors = true; real_time_limit = outer_limit k.real_time_limit })

abbrev pub ReadInt : Type 0
ReadInt = List ℕ → Option ℤ

-- `status_line[num]`, as an integer.
abbrev pub word_at : List (List ℕ) → ℕ → Action Renv (List ℕ)
word_at status num = or_raise (get_elem? status num) index_error

abbrev pub number_at : ReadInt → List (List ℕ) → ℕ → Action Renv ℤ
number_at int status num = word_at status num >>= λ w. or_raise (int w) value_error

abbrev pub oiaug_codes : List (List ℕ × Code)
oiaug_codes =
    (codes "OK", code_ok)
    ∷ (codes "RV", code_rv)
    ∷ (codes "RE", code_re)
    ∷ (codes "TLE", code_tle)
    ∷ (codes "MLE", code_mle)
    ∷ (codes "OLE", code_ole)
    ∷ []

abbrev pub find_code : List (List ℕ × Code) → List ℕ → Option Code
find_code [] w = none
find_code (item ∷ l) w = if is_text w item.0 then some item.1 else find_code l w

-- The codes that a report has: in words, or in the number of the supervisor.
abbrev pub decode : Option Code → ℤ → Code × ℤ
decode (some code) c = (code, c)
decode none c = supervisor_result_to_code c

-- The words of a report: the numbers that were read stay if a later one is missing.
unfoldable pub read_words : ReadInt → List (List ℕ) → List ℕ → Action Renv (Code × ℤ)
read_words int status message =
    modify (λ r. record r { result_string = some (said message) })
    >> number_at int status 1
    >>= λ c. number_at int status 2 >>= λ t.
        modify (λ r. record r { time_used = some t }) >> number_at int status 4 >>= λ m.
        modify (λ r. record r { mem_used = some m }) >> number_at int status 5 >>= λ n.
        modify (λ r. record r { num_syscalls = some n }) >> word_at status 0 >>= λ w.
        pure (decode (find_code oiaug_codes w) c)

-- The report, whose first line is decoded first.
unfoldable pub read_if : ReadInt → Bool → List (List ℕ) → List ℕ → Action Renv (Code × ℤ)
unfolding read_words
read_if int true status message = read_words int status message
read_if int false status message = raise value_error

unfoldable pub read_report : ReadInt → List (List ℕ) → List ℕ → Action Renv (Code × ℤ)
unfolding read_if
read_report int status message = read_if int (all_utf8 status) status message

-- The supervisor's own end.
abbrev pub check_supervisor : List ℤ → Option ℤ → Bool → Action Renv (Unit {0})
check_supervisor extra rc killed = if killed then raise exec_error else elim rc [
  | none ↦ pure tt
  | some c ↦ if not (same_ℤ c (pos 0)) && not (any_ℤ c extra) then raise exec_error else pure tt
]

abbrev pub take_return_code : Renv → Renv
take_return_code r = record r { supervisor_return_code = r.return_code; return_code = none }

-- The `try` of `_execute`, over what `_execute_supervisor` returns.
unfoldable pub supervise : ReadInt → Kwargs → Outcome → Result Renv → Action Renv (Code × ℤ)
unfolding read_report
supervise int k o returned = lift returned >>= λ r.
    modify (λ s. take_return_code r)
    >> check_supervisor k.extra_ignore_errors r.return_code r.real_time_killed
    >> read_report int o.status o.message

abbrev pub or_zero : Option ℤ → Option ℤ
or_zero none = some (pos 0)
or_zero (some n) = some n

-- The `except` of `_execute`.
abbrev pub system_error_of : Exception → Renv → Renv
system_error_of e r = record r {
  time_used = or_zero r.time_used;
  mem_used = or_zero r.mem_used;
  num_syscalls = or_zero r.num_syscalls;
  result_string = some (of_error e);
}

abbrev pub settled : Result (Code × ℤ) × Renv → Code × ℤ × Renv
settled (ok c, r) = (c.0, c.1, r)
settled (raised e, r) = (code_se, negsuc 0, system_error_of e r)

abbrev pub signal_prefix : List ℕ
signal_prefix = codes "process exited due to signal"

abbrev pub signal_in : ReadInt → List ℕ → Result (Option ℤ)
signal_in int s =
    if starts_with s signal_prefix
    then elim (int (drop (length signal_prefix + 1) s)) [
      | none ↦ raised value_error
      | some n ↦ ok (some n)
    ]
    else ok none

-- The signal that a message tells of, which is decoded first; the text of an exception tells of none.
abbrev pub signal_of : ReadInt → Option Text → Result (Option ℤ)
signal_of int (some (said s)) = if is_utf8 s then signal_in int s else raised value_error
signal_of int t = ok none

-- `result_code != 'OK' and not ignore_errors and not (…)`
abbrev pub refuses : Kwargs → Code → ℤ → Bool
refuses k code exit =
    not (is_ok_code code)
    && not k.ignore_errors
    && not (is_re_code code && any_ℤ exit k.extra_ignore_errors)

abbrev pub give_result : Kwargs → Code → ℤ → Renv → Result (Option ℤ) → Result Renv
give_result k code exit r (raised e) = raised e
give_result k code exit r (ok signal) =
    if refuses k code exit
    then raised exec_error
    else ok (record r { result_code = some code; return_code = some exit; exit_signal = signal })

abbrev pub conclude : ReadInt → Kwargs → Code × ℤ × Renv → Result Renv
conclude int k end = give_result k end.0 end.1 end.2 (signal_of int end.2.result_string)

-- `_execute`, over `_execute_supervisor` and what the command that it starts does.
unfoldable pub execute_supervised :
    ReadInt → (Kwargs → Result Renv) → Outcome → Kwargs → Result Renv
unfolding supervise supervised_limits
execute_supervised int run o k =
    conclude int k (settled (supervise int k o (run (supervised_limits k)) no_renv))
