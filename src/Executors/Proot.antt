-- ===== src/Executors/Proot.antt =====
-- SandboxExecutor and PRootExecutor of sio/workers/executors.py. A PRootExecutor keeps its options
-- over its calls; they are the state here. The files that exist are an argument.
pub mod Leaks
use sioworkers.Prelude.{
  ℕ, ◌*◌, Bool, true, false, not, ◌||◌, Option, none, some, List, [], ◌∷◌, ◌++◌, ◌==◌,
  if◌then◌else◌, codes, is_text, Result, ok, raised, Exception, Action, pure, raise, gets, lift,
  modify, ◌>>=◌, ◌>>◌, key_error, index_error, type_error, runtime_error,
}
use sioworkers.Paths.{sep, path_join, path_join_abs}
use sioworkers.Executors.Quoting.{
  Args, Arg, plain, noquote, nested, cons, nil, append_args, plains, is_set,
}
use sioworkers.Executors.Process.{System, Kwargs, Renv, execute_unprotected, default_real_time}
use sioworkers.Executors.Sio2jail.{Bind, colon}

abbrev pub Texts : Type 0
Texts = List (List ℕ)

-- The environment that a process gets.
abbrev pub Env : Type 0
Env = List (List ℕ × List ℕ)

-- `env[key]`
abbrev pub env_get : List ℕ → Env → Result (List ℕ)
env_get key [] = raised key_error
env_get key (item ∷ env) = if is_text item.0 key then ok item.1 else env_get key env

-- `env[key] = text`
abbrev pub env_set : List ℕ → List ℕ → Env → Env
env_set key text [] = (key, text) ∷ []
env_set key text (item ∷ env) =
    let rest = env_set key text env in if is_text item.0 key then (key, text) ∷ env else item ∷ rest

-- `_env_paths`
abbrev pub env_paths : List ℕ → List ℕ → List ℕ
env_paths path suffix =
    path_join path suffix ++ colon ++ path_join (path_join path (codes "usr")) suffix

unfoldable pub sandbox_env : List ℕ → Bool → Env → Result Env
sandbox_env path patched env = elim (env_get (codes "PATH") env) [
  | raised e ↦ raised e
  | ok old ↦
      (let e = env_set (codes "PATH") (env_paths path (codes "bin") ++ colon ++ old) env in
        ok (
          if patched
          then e
          else env_set (codes "LD_LIBRARY_PATH") (env_paths path (codes "lib")) e))
]

-- `command[0]`, put under the sandbox if it is relative.
abbrev pub place_text : List ℕ → List ℕ → Result (List ℕ)
place_text path [] = raised index_error
place_text path (c ∷ s) = ok (if c == sep then c ∷ s else path_join path (c ∷ s))

abbrev pub with_first : (List ℕ → Arg) → Args → Result (List ℕ) → Result Args
with_first arg rest (ok s) = ok (cons (arg s) rest)
with_first arg rest (raised e) = raised e

-- A joined text is one that is quoted, whatever it was before.
unfoldable pub place_command : Bool → List ℕ → Args → Result Args
place_command true path command = ok command
place_command false path nil = raised index_error
place_command false path (cons (plain s) rest) = with_first plain rest (place_text path s)
place_command false path (cons (noquote []) rest) = raised index_error
place_command false path (cons (noquote (c ∷ s)) rest) =
    ok (cons (if c == sep then noquote (c ∷ s) else plain (path_join path (c ∷ s))) rest)
place_command false path (cons (nested args) rest) = raised type_error

-- `SandboxExecutor._execute`
abbrev pub run_placed : (Env → System) → Result Args → Result Env → Kwargs → Result Renv
run_placed start (raised e) env k = raised e
run_placed start (ok command) (raised e) k = raised e
run_placed start (ok command) (ok env) k = execute_unprotected (start env) command k

unfoldable pub execute_sandboxed :
    (Env → System) → List ℕ → Bool → Bool → Args → Env → Kwargs → Result Renv
unfolding place_command sandbox_env execute_unprotected
execute_sandboxed start path patched use_path command env k =
    run_placed start (place_command use_path path command) (sandbox_env path patched env) k

-- A PRootExecutor with the world around it: the paths of its chroot and its tool, the directory of the
-- job, the sandbox's shell before it was patched if it has one, and the files that exist and run.
pub record Proot : Type 0 where
  pub chroot_path : List ℕ
  pub tool_path : List ℕ
  pub tempcwd : List ℕ
  pub unpatched_sh : List ℕ
  pub patched : Bool
  pub exists : List ℕ → Bool
  pub is_exe : List ℕ → Bool

abbrev pub rpath : List ℕ
rpath = sep ∷ []

-- `rcwd('')`
abbrev pub rcwd : List ℕ
rcwd = codes "/tmp/"

abbrev pub opt : List ℕ → List ℕ → Texts
opt o s = o ∷ s ∷ []

-- `_bind_opt`
unfoldable pub bind_opt : Proot → List ℕ → List ℕ → Bool → Result (Option Texts)
unfolding path_join_abs
bind_opt p what place force =
    let inside = path_join_abs rpath place in
    if not (p.exists what)
    then raised runtime_error
    else if force || not (p.exists (path_join_abs p.chroot_path inside))
    then ok (some (opt (codes "-b") (what ++ colon ++ inside)))
    else ok none

abbrev pub add_options : Texts → Action Texts (Unit {0})
add_options l = modify (λ options. options ++ l)

-- `_bind`
abbrev pub keep_bind : Option Texts → Action Texts Bool
keep_bind none = pure false
keep_bind (some l) = add_options l >> pure true

unfoldable pub bind : Proot → List ℕ → List ℕ → Bool → Action Texts Bool
unfolding bind_opt
bind p what place force = lift (bind_opt p what place force) >>= keep_bind

abbrev pub sh_target : List ℕ
sh_target = codes "/bin/sh"

-- The shell: the tool's where the sandbox has none, and else its own before it was patched.
abbrev pub bind_shell : Proot → Bool → Bool → Action Texts Bool
bind_shell p false unpatched = bind p (path_join_abs p.tool_path sh_target) sh_target true
bind_shell p true false = pure false
bind_shell p true true = bind p p.unpatched_sh sh_target true

-- `_tool_init`, with the options that it leaves.
unfoldable pub proot_options : Proot → Action Texts (Unit {0})
unfolding bind path_join_abs
proot_options p =
    modify (λ options. [])
    >> add_options (opt (codes "-v") (codes "-1"))
    >> add_options (opt (codes "-r") p.chroot_path)
    >> bind_shell p (p.is_exe (path_join_abs p.chroot_path sh_target)) (p.exists p.unpatched_sh)
    >> bind p (path_join p.tool_path (codes "lib")) (codes "lib") false
    >> bind p p.tempcwd rcwd true
    >> add_options (opt (codes "-w") (path_join_abs rpath rcwd))

-- The binds of a call, which go into the very list of the executor.
abbrev pub add_bind : Proot → Bind → Action Texts (Unit {0})
add_bind p b = lift (bind_opt p b.0 b.1 true) >>= λ o. elim o [
  | none ↦ raise type_error
  | some l ↦ add_options l
]

unfoldable pub add_binds : Proot → List Bind → Action Texts (Unit {0})
unfolding bind_opt
add_binds p [] = pure tt
add_binds p (b ∷ binds) = add_bind p b >> add_binds p binds

abbrev pub proot_command : Texts → Args → Args
proot_command options command =
    append_args (plains (codes "proot/proot" ∷ (options ++ sh_target ∷ codes "-c" ∷ [])))
      (cons (nested command) nil)

-- `PRootExecutor._execute`, after the binds.
abbrev pub run_proot : (Env → System) → Proot → Texts → Args → Env → Kwargs → Action Texts Renv
run_proot start p more command env k = add_options more >> gets (λ options. options) >>= λ options.
    lift (
      execute_sandboxed start p.tool_path p.patched false (proot_command options command) env
        (record k { real_time_limit = default_real_time 3 k.time_limit k.real_time_limit }))

unfoldable pub execute_proot :
    (Env → System) → Proot → List Bind → Texts → Args → Env → Kwargs → Action Texts Renv
unfolding add_binds execute_sandboxed
execute_proot start p binds more command env k =
    add_binds p binds >> run_proot start p more command env k
