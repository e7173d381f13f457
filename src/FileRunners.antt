-- ===== src/FileRunners.antt =====
-- sio/workers/file_runners.py: the wrappers that run a compiled file by its kind in an executor. The
-- executor is an argument, as is the place of a file as the executor sees it.
pub mod Limits
use sioworkers.Prelude.{
  ℕ, ◌≡◌, refl, Bool, true, false, not, Option, none, some, List, [], ◌∷◌, ◌++◌, ◌==◌, ◌&&◌, ◌||◌,
  Result, ok, raised, Action, ◌>>◌, ◌>>=◌, lift, pure, raise, codes, str, is_text, if◌then◌else◌,
  key_error, system_error, assertion_error,
}
use sioworkers.Paths.{is_abs, path_join}
use sioworkers.Executors.Quoting.{Args, plain, cons, nil, append_args, words}
use sioworkers.Executors.Process.{Environ, get, Kwargs, Renv, call_executor}
use sioworkers.Executors.Proot.{Env, env_get, env_set}
use sioworkers.FileTracker.{World, Files, download, set_key}

pub data Executor : Type 0 where
  unprotected detailed_unprotected proot proot_32bit : Executor
  sio2jail real_time_sio2jail supervised other_executor : Executor

pub data Wrapper : Type 0 where
  no_op executable_file java java_sio : Wrapper

abbrev pub same_executor : Executor → Executor → Bool
same_executor unprotected unprotected = true
same_executor detailed_unprotected detailed_unprotected = true
same_executor proot proot = true
same_executor proot_32bit proot_32bit = true
same_executor sio2jail sio2jail = true
same_executor real_time_sio2jail real_time_sio2jail = true
same_executor supervised supervised = true
same_executor other_executor other_executor = true
same_executor a b = false

abbrev pub handled_exec_mode : Wrapper → List ℕ
handled_exec_mode no_op = codes "executable"
handled_exec_mode executable_file = codes "executable"
handled_exec_mode java = codes "java"
handled_exec_mode java_sio = codes "java"

abbrev pub handled_executors : Wrapper → List Executor
handled_executors no_op = []
handled_executors executable_file =
    unprotected ∷ detailed_unprotected ∷ proot ∷ sio2jail ∷ real_time_sio2jail ∷ supervised ∷ []
handled_executors java = unprotected ∷ detailed_unprotected ∷ proot ∷ proot_32bit ∷ []
handled_executors java_sio = supervised ∷ []

abbrev pub handles : Executor → List Executor → Bool
handles x [] = false
handles x (y ∷ l) = same_executor x y || handles x l

-- What `register_subclass` left for a mode and a type: the last class that handles both.
abbrev pub registered : List Wrapper → List ℕ → Executor → Option Wrapper
registered [] mode x = none
registered (w ∷ l) mode x =
    let later = registered l mode x in
    elim later [
      | some v ↦ some v
      | none ↦
          if is_text (handled_exec_mode w) mode && handles x (handled_executors w)
          then some w
          else none
    ]

abbrev pub wrappers : List Wrapper
wrappers = no_op ∷ executable_file ∷ java ∷ java_sio ∷ []

abbrev pub found : Option Wrapper → Result Wrapper
found none = raised system_error
found (some w) = ok w

-- `get_file_runner`; what is no mode at all is 'executable'.
unfoldable pub get_file_runner : Executor → Option (List ℕ) → Result Wrapper
get_file_runner x none = found (registered wrappers (codes "executable") x)
get_file_runner x (some mode) = found (registered wrappers mode x)

-- The keys of `exec_info` that runners read.
pub record Info : Type 0 where
  pub preferred_filename : Option (List ℕ)
  pub main_class : Option (List ℕ)

abbrev pub or_text : Option (List ℕ) → List ℕ → List ℕ
or_text none s = s
or_text (some t) s = t

-- `preferred_filename`
unfoldable pub filename_for : Wrapper → Info → List ℕ
filename_for no_op info = or_text info.preferred_filename (codes "exe")
filename_for executable_file info = codes "exe"
filename_for java info = or_text info.main_class (codes "a") ++ codes ".jar"
filename_for java_sio info = or_text info.main_class (codes "a") ++ codes ".jar"

-- `environ.pop(key, default)`
abbrev pub without : List ℕ → Environ → Environ
without key [] = []
without key (item ∷ environ) =
    let rest = without key environ in if is_text item.0 key then rest else item ∷ rest

-- `if mem_limit`
abbrev pub jvm_options : Option ℕ → List (List ℕ)
jvm_options none = []
jvm_options (some n) =
    if n == 0
    then []
    else (codes "-Xmx" ++ str n ++ codes "k")
      ∷ (codes "-Xms" ++ str n ++ codes "k")
      ∷ (codes "-Xss" ++ str n ++ codes "k")
      ∷ []

abbrev pub without_limit : Option ℕ → Kwargs → Kwargs
without_limit none k = k
without_limit (some n) k = if n == 0 then k else record k { mem_limit = none }

abbrev pub in_front : List (List ℕ) → Args → Args
in_front [] rest = rest
in_front (s ∷ l) rest = cons (plain s) (in_front l rest)

-- An entry point or a class whose name is empty is none.
abbrev pub non_empty : Option (List ℕ) → Option (List ℕ)
non_empty none = none
non_empty (some []) = none
non_empty (some (c ∷ s)) = some (c ∷ s)

abbrev pub entry_or_main : Option (List ℕ) → Option (List ℕ) → Option (List ℕ)
entry_or_main (some e) main = some e
entry_or_main none main = main

abbrev pub java_target : Option (List ℕ) → List ℕ → Args → Args
java_target (some e) file args =
    cons (plain (codes "-classpath")) (cons (plain file) (cons (plain e) args))
java_target none file args = cons (plain (codes "-jar")) (cons (plain file) args)

abbrev pub executable_command : List ℕ → Args → Args
executable_command file args = cons (plain (if is_abs file then file else codes "./" ++ file)) args

-- What an executor is called with.
pub record Call : Type 0 where
  pub command : Args
  pub kwargs : Kwargs
  pub limits : Environ
  pub java_sandbox : Option (List ℕ)

-- How a wrapper is called: the keys of `exec_info`, the file as the executor sees it, the entry point,
-- and what is passed on to the executor.
pub record Use : Type 0 where
  pub info : Info
  pub place : List ℕ → List ℕ
  pub entry_point : Option (List ℕ)
  pub prefix : Option (List ℕ)
  pub kwargs : Kwargs

-- The key of the limit that Java takes away.
abbrev pub java_key : Use → List ℕ
java_key u = or_text u.prefix (codes "exec") ++ codes "mem_limit"

abbrev pub java_limit : Use → Environ → Option ℕ
java_limit u environ = get (java_key u) u.kwargs.mem_limit environ

abbrev pub java_command : Use → Option ℕ → List ℕ → Args → Args
java_command u limit file args = cons (plain (codes "java")) (
    in_front (jvm_options limit) (
      java_target (entry_or_main (non_empty u.entry_point) (non_empty u.info.main_class))
        (u.place file) args))

-- The calls that the wrappers make; only Java takes the limit of memory away, from the environment too.
unfoldable pub call_of : Wrapper → Use → Environ → List ℕ → Args → Call
call_of no_op u environ file args = record {
  command = cons (plain file) args;
  kwargs = u.kwargs;
  limits = environ;
  java_sandbox = none;
}
call_of executable_file u environ file args = record {
  command = executable_command file args;
  kwargs = u.kwargs;
  limits = environ;
  java_sandbox = none;
}
call_of java u environ file args = record {
  command = java_command u (java_limit u environ) file args;
  kwargs = without_limit (java_limit u environ) u.kwargs;
  limits = without (java_key u) environ;
  java_sandbox = none;
}
call_of java_sio u environ file args = record {
  command = cons (plain file) args;
  kwargs = u.kwargs;
  limits = environ;
  java_sandbox = some (codes "compiler-java.1_8");
}

-- The files that go beside the one that runs.
abbrev pub extra_key : List ℕ
extra_key = codes "_extra_execution_file"

abbrev pub env_del : List ℕ → Env → Env
env_del key [] = []
env_del key (item ∷ env) =
    let rest = env_del key env in if is_text item.0 key then rest else item ∷ rest

abbrev pub del_key : List ℕ → Action Files (Unit {0})
del_key key f = (ok tt, record f { environ = env_del key f.environ })

abbrev pub fetch_beside : World → List ℕ → List (List ℕ × List ℕ) → Action Files (Unit {0})
fetch_beside w dest [] = pure tt
fetch_beside w dest (item ∷ l) =
    set_key extra_key item.1
    >> download w extra_key (some (path_join dest item.0)) false
    >> del_key extra_key
    >> fetch_beside w dest l

abbrev pub refuse_key : Result (List ℕ) → Action Files (Unit {0})
refuse_key (ok s) = raise assertion_error
refuse_key (raised e) = pure tt

abbrev pub check_key : Action Files (Unit {0})
check_key f = refuse_key (env_get extra_key f.environ) f

-- `_download_extra_execution_files`
unfoldable pub download_extra : World → List ℕ → List (List ℕ × List ℕ) → Action Files (Unit {0})
unfolding download
download_extra w dest files = check_key >> fetch_beside w dest files

-- What an executor answers to a call.
abbrev pub answer : (Option (List ℕ) → Args → Kwargs → Result Renv) → Use → Call → Result Renv
answer execute u c =
    call_executor (execute c.java_sandbox) c.limits (or_text u.prefix []) (words c.command) c.kwargs

-- `__call__` of a wrapper
unfoldable pub run_file :
    World
    → (Option (List ℕ) → Args → Kwargs → Result Renv)
    → List ℕ
    → List (List ℕ × List ℕ)
    → Wrapper
    → Use
    → Environ
    → List ℕ
    → Args
    → Action Files Renv
unfolding download_extra call_of call_executor
run_file w execute dest files wrapper u environ file args =
    download_extra w dest files >> lift (answer execute u (call_of wrapper u environ file args))
