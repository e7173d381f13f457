-- ===== src/Executors/Proot/Leaks.antt =====
-- What stays of a call of a PRootExecutor for the next one, and what a text command becomes.
use sioworkers.Prelude.{
  ◌≢◌, arith, codes, ℕ, ◌≡◌, refl, ap, ◌∙◌, sym, true, false, some, List, [], ◌∷◌, ◌++◌,
  append_assoc, append-nil, ok, Result, ◌>>=◌,
}
use sioworkers.Paths.{sep, path_join, path_join_abs}
use sioworkers.Executors.Quoting.{Args, plain, cons, nil, words, text, shellquote}
use sioworkers.Executors.Quoting.Words.{shell_words, shellquote-words}
use sioworkers.Executors.Process.{System, Kwargs, Renv, default_real_time, as_args}
use sioworkers.Executors.Sio2jail.{Bind, colon}
use sioworkers.Executors.Proot.{
  run_proot, codes, Proot, Texts, Env, bind_opt, add_bind, add_binds, execute_proot,
  execute_sandboxed, proot_command, place_command, rpath,
}

abbrev pub Bindable : Proot → List Bind → Type 0
Bindable p [] = Unit {0}
Bindable p (b ∷ binds) = (p.exists b.0 ≡ true) × Bindable p binds

-- The options that the binds of a call stand for; their modes count for nothing.
abbrev pub binding : List Bind → Texts
binding [] = []
binding (b ∷ binds) = (codes "-b" ∷ (b.0 ++ colon ++ path_join_abs rpath b.1) ∷ []) ++ binding binds

add_bind_lem :
    (p : Proot) (b : Bind) (o : Texts)
    → p.exists b.0 ≡ true
    → add_bind p b o ≡ (ok tt, o ++ (codes "-b" ∷ (b.0 ++ colon ++ path_join_abs rpath b.1) ∷ []))
unfolding bind_opt
add_bind_lem p b o h = rw h refl

abbrev then_binds : Proot → List Bind → Result (Unit {0}) × Texts → Result (Unit {0}) × Texts
then_binds p binds end = ((λ o. end) >>= λ u. add_binds p binds) end.1

add_binds_lem :
    (p : Proot) (binds : List Bind) (o : Texts)
    → Bindable p binds
    → add_binds p binds o ≡ (ok tt, o ++ binding binds)
unfolding add_binds
add_binds_lem p [] o h = ap (λ l. (ok tt, l)) (sym (append-nil o))
add_binds_lem p (b ∷ binds) o h =
    ap (then_binds p binds) (add_bind_lem p b o h.0)
    ∙ add_binds_lem p binds _ h.1
    ∙ ap (λ l. (ok tt, l)) (append_assoc o _ (binding binds))

-- What a call runs, with the options that it has by then.
abbrev pub run_with : (Env → System) → Proot → Args → Env → Kwargs → Texts → Result Renv × Texts
run_with start p command env k o = (
  execute_sandboxed start p.tool_path p.patched false (proot_command o command) env
      (record k { real_time_limit = default_real_time 3 k.time_limit k.real_time_limit }),
  o,
)

abbrev then_run :
    (Env → System)
    → Proot
    → Texts
    → Args
    → Env
    → Kwargs
    → Result (Unit {0}) × Texts
    → Result Renv × Texts
then_run start p more command env k end =
    ((λ o. end) >>= λ u. run_proot start p more command env k) end.1

execute_proot_lem :
    (start : Env → System) (p : Proot) (binds : List Bind) (more : Texts) (command : Args)
    (env : Env) (k : Kwargs) (o : Texts)
    → Bindable p binds
    → execute_proot start p binds more command env k o
      ≡ run_with start p command env k (o ++ binding binds ++ more)
unfolding execute_proot
execute_proot_lem start p binds more command env k o h =
    ap (then_run start p more command env k) (add_binds_lem p binds o h)

-- A call of a PRootExecutor runs with the binds and options of the calls before it too: they stay in
-- the executor, also when the run failed.
pub execute_proot-leaks :
    (start : Env → System) (p : Proot) (binds binds' : List Bind) (more more' : Texts)
    (command command' : Args) (env env' : Env) (k k' : Kwargs) (o : Texts)
    → Bindable p binds
    → Bindable p binds'
    → let first = execute_proot start p binds more command env k o in
      let own = binding binds ++ more in
      let own' = binding binds' ++ more' in
      execute_proot start p binds' more' command' env' k' first.1
      ≡ run_with start p command' env' k' ((o ++ own) ++ own')
execute_proot-leaks start p binds binds' more more' command command' env env' k k' o h h' =
    ap (λ end. execute_proot start p binds' more' command' env' k' end.1)
      (execute_proot_lem start p binds more command env k o h)
    ∙ (execute_proot_lem start p binds' more' command' env' k' (o ++ binding binds ++ more) h'
        ∙ ap (run_with start p command' env' k') (
            append_assoc (o ++ binding binds ++ more) (binding binds') more'
            ∙ ap (λ l. l ++ (binding binds' ++ more')) (append_assoc o (binding binds) more)))

-- A command that is a text, and whose first character is no slash, is one quoted word for the shell
-- when a SandboxExecutor runs it, with the path of the sandbox in front.
pub text_command-quoted :
    (path : List ℕ) (c : ℕ) (s : List ℕ)
    → c ≢ sep
    → (args : Args) × (place_command false path (as_args (text (c ∷ s))) ≡ ok args)
      × (shell_words (shellquote (words args)) ≡ some (path_join path (c ∷ s) ∷ []))
unfolding place_command
text_command-quoted path c s h = (
  cons (plain (path_join path (c ∷ s))) nil,
  ground arith,
  shellquote-words (cons (plain (path_join path (c ∷ s))) nil) (tt, tt),
)
