-- ===== src/Executors/Sio2jail.antt =====
-- The command lines of Sio2JailExecutor and SupervisedExecutor of sio/workers/executors.py.
use sioworkers.Prelude.{
  ℕ, ◌*◌, ◌/◌, Bool, true, Option, none, some, List, [], ◌∷◌, ◌++◌, if◌then◌else◌, codes, str,
  is_text, Result,
}
use sioworkers.Paths.{path_join}
use sioworkers.Executors.Quoting.{
  Args, plain, noquote, cons, nil, words, append_args, plains, is_set, shellquote,
}
use sioworkers.Executors.Process.{System, Kwargs, Renv, execute_command}
use sioworkers.Executors.Supervised.{
  supervised_limits, ReadInt, limit_or, execute_supervisor, execute_supervised,
}

abbrev pub instructions_per_virtual_second : ℕ
instructions_per_virtual_second = 2000000000

-- A bind: what, where and mode.
abbrev pub Bind : Type 0
Bind = List ℕ × List ℕ × List ℕ

abbrev pub colon : List ℕ
colon = b':' ∷ []

abbrev pub bind_options : List Bind → List (List ℕ)
bind_options [] = []
bind_options (b ∷ binds) = codes "-b" ∷ (b.0 ++ colon ++ b.1 ++ colon ++ b.2) ∷ bind_options binds

-- An executor: the path of its chroot and of its tool, and what it measures.
pub record Jail : Type 0 where
  pub chroot_path : List ℕ
  pub tool_path : List ℕ
  pub measure_real_time : Bool

-- What a call has besides: `binds`, `no_bind_binary`, and `fake_time` of its environment.
pub record Extras : Type 0 where
  pub binds : List Bind
  pub no_bind_binary : Bool
  pub fake_time : Option (List ℕ)

-- The amounts, which the method `_execute` has set.
abbrev pub amount : Option ℕ → ℕ
amount n = limit_or n 0

abbrev pub instruction_limit : ℕ → ℕ
instruction_limit time = time * instructions_per_virtual_second / 1000

abbrev pub measuring : Jail → Kwargs → List (List ℕ)
measuring j k =
    if j.measure_real_time
    then codes "-o" ∷ codes "oireal" ∷ []
    else codes "--instruction-count-limit" ∷ str (instruction_limit (amount k.time_limit)) ∷ []

-- `real_time_limit`: the time limit itself, if real time is measured.
abbrev pub jail_real_time : Jail → Kwargs → Option ℕ
jail_real_time j k = if j.measure_real_time then k.time_limit else k.real_time_limit

abbrev pub real_time_options : Option ℕ → List (List ℕ)
real_time_options r =
    if is_set r then codes "--rtimelimit" ∷ (str (amount r) ++ codes "ms") ∷ [] else []

abbrev pub fake_time_options : Option (List ℕ) → List (List ℕ)
fake_time_options none = []
fake_time_options (some t) = if is_text t (codes "off") then [] else codes "--fake-time" ∷ t ∷ []

unfoldable pub jail_options : Jail → Extras → Kwargs → List (List ℕ)
jail_options j x k =
    codes "-f"
    ∷ codes "3"
    ∷ codes "-s"
    ∷ codes "-b"
    ∷ (j.chroot_path ++ codes ":/:ro")
    ∷ (bind_options x.binds
        ++ (if x.no_bind_binary then codes "-B" ∷ [] else [])
        ++ (codes "--memory-limit" ∷ (str (amount k.mem_limit) ++ codes "K") ∷ [])
        ++ measuring j k
        ++ real_time_options (jail_real_time j k)
        ++ (codes "--output-limit" ∷ (str (amount k.output_limit) ++ codes "B") ∷ [])
        ++ fake_time_options x.fake_time)

-- Twice the limit of the tool, outside of it.
abbrev pub jail_outer_limit : Option ℕ → Option ℕ → Option ℕ
jail_outer_limit r given = if is_set r then some (2 * amount r) else given

abbrev pub jail_command : Jail → Extras → Kwargs → Args → Args
jail_command j x k command =
    append_args
      (plains (path_join j.tool_path (codes "sio2jail") ∷ (jail_options j x k ++ codes "--" ∷ [])))
      command

-- `Sio2JailExecutor._execute_supervisor`
unfoldable pub execute_jail : System → Jail → Extras → Args → Kwargs → Result Renv
unfolding jail_options execute_command
execute_jail start j x command k =
    execute_command start (words (jail_command j x k command)) (record k {
      ignore_errors = true;
      real_time_limit = jail_outer_limit (jail_real_time j k) k.real_time_limit;
    })

-- The command with the descriptor for the report.
abbrev pub with_report : List ℕ → Args → Args
with_report file command = append_args command (cons (noquote (codes "3>")) (cons (plain file) nil))

-- A call of a Sio2JailExecutor, whose method `_execute` is that of _SIOSupervisedExecutor.
unfoldable pub run_jail : ReadInt → System → Jail → Extras → List ℕ → Args → Kwargs → Result Renv
unfolding execute_jail execute_supervised supervised_limits
run_jail int start j x file command k =
    let o =
      start
        (shellquote (words (jail_command j x (supervised_limits k) (with_report file command)))) in
    execute_supervised int (execute_jail start j x (with_report file command)) o k

-- The options of a SupervisedExecutor and of its call.
pub record Supervision : Type 0 where
  pub rpath : List ℕ
  pub allow_local_open : Bool
  pub ignore_return : Bool
  pub java_path : Option (List ℕ)

abbrev pub java_options : Option (List ℕ) → List (List ℕ)
java_options none = []
java_options (some p) = codes "-j" ∷ path_join p (codes "usr/bin/java") ∷ []

unfoldable pub supervisor_options : Supervision → List (List ℕ)
supervisor_options s =
    codes "-q"
    ∷ codes "-f"
    ∷ codes "3"
    ∷ ((if s.allow_local_open then codes "-l" ∷ [] else [])
        ++ (if s.ignore_return then codes "-R" ∷ [] else [])
        ++ java_options s.java_path)

abbrev pub supervisor_command : Supervision → Args → Args
supervisor_command s command =
    append_args (plains (path_join s.rpath (codes "bin/supervisor") ∷ supervisor_options s)) command

-- `SupervisedExecutor._execute`
unfoldable pub run_supervisor :
    ReadInt → System → Supervision → List ℕ → Args → Kwargs → Result Renv
unfolding supervisor_options execute_supervisor execute_supervised
run_supervisor int start s file command k =
    let c = with_report file (supervisor_command s command) in
    execute_supervised int (execute_supervisor start c) (start (shellquote (words c))) k
