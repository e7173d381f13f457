-- ===== src/Compilers/Running.antt =====
-- The parts of a compilation before its result, where the executor, the file tracker and the file
-- system answer.
use sioworkers.Prelude.{
  ℕ, ◌≡◌, refl, Bool, true, false, not, none, some, List, [], ◌∷◌, ◌++◌, Result, ok, raised, Action,
  Ends, Ends-bind, Ends-weaken, arith, sym, subst, ltb, codes, ◌>>=◌, ◌>>◌, lift,
}
use sioworkers.Prelude.Int.{pos}
use sioworkers.Executors.Quoting.{words, Args}
use sioworkers.Executors.Process.{take_limits, call_executor, Kwargs, Renv, same_ℤ}
use sioworkers.Executors.Proot.{Env}
use sioworkers.FileTracker.{Files}
use sioworkers.FileTracker.Working.{Uploaded, is_ok, fetch_extra-Ends}
use sioworkers.Compilers.{
  rstrip_sep, put_extracted, tempcwd, basename, Job, Host, Compiler, Request, fetch_extra,
  fetch_all, put_tmp, put_files, on_tmp, compiled, compilation_error, ExecInfo, executable,
  java_class, c_style, system_fpc, sandboxed_fpc, java, process_extra_files, extract_all,
  fetch_archive, lang_option, by_path,
}
use sioworkers.Compilers.Driver.{
  replace_from, write_config, make_cmdline, defaults, with_output, jar_command, note_run, execute,
  make_jar, go_on, configure, run_in_executor, output_path, has_error,
}

-- Whether an executor gave a return code.
abbrev pub answers : Result Renv → Bool
answers (raised e) = false
answers (ok v) = elim v.return_code [ none ↦ false | some n ↦ true ]

abbrev pub is_error : Result Renv → Bool
is_error (raised e) = false
is_error (ok v) = elim v.return_code [ none ↦ false | some n ↦ not (same_ℤ n (pos 0)) ]

-- Whether the last command ended with an error.
abbrev pub last_fails : List (Args × Result Renv) → Bool
last_fails [] = false
last_fails (x ∷ []) = is_error x.1
last_fails (x ∷ y ∷ l) = last_fails (y ∷ l)

pub last_fails-append :
    (l : List (Args × Result Renv)) (c : Args) (a : Result Renv)
    → last_fails (l ++ (c, a) ∷ []) ≡ is_error a
last_fails-append [] c a = refl
last_fails-append (x ∷ []) c a = refl
last_fails-append (x ∷ y ∷ l) c a = last_fails-append (y ∷ l) c a

abbrev pub exceeds : ℕ → Result ℕ → Bool
exceeds limit (raised e) = false
exceeds limit (ok n) = ltb limit n

abbrev pub too_large : Host → Compiler → Request → Bool
too_large h c r = elim r.result_size_limit [
  | none ↦ false
  | some limit ↦ exceeds limit (h.size (output_path h c))
]

abbrev pub info_for : Compiler → List ℕ → ExecInfo
info_for c name = elim c.kind [
  | c_style compiler ↦ executable
  | system_fpc ↦ executable
  | sandboxed_fpc ↦ executable
  | java ↦ java_class name (name ++ codes ".jar")
]

-- What a job has that was rejected, or not.
abbrev pub Judged : (Files → Type 0) → Bool → ExecInfo → Env → Job → Type 0
Judged P true info env k = (k.result_code ≡ some compilation_error) × ((k.files).environ ≡ env)
Judged P false info env k =
    (k.result_code ≡ some compiled) × ((k.exec_info ≡ some info) × P k.files)

-- The file that was compiled is stored, and its key has its name.
abbrev pub OutputStored : Host → Compiler → List ℕ → Files → Type 0
OutputStored h c name = Uploaded h.world (codes "out_file") (output_path h c) name

-- The commands of a compilation ended with this one.
abbrev pub Ran : Env → Renv → Job → Type 0
Ran env v k =
    ((k.files).environ ≡ env) × ((last_fails k.ran ≡ is_error (ok v)) × (answers (ok v) ≡ true))

abbrev pub Same : {A : Type 0} → Env → Result A × Job → Type 0
Same env end = Ends (λ a k. (k.files).environ ≡ env) (λ k. ⊥) end

pub Same-put_tmp :
    {A : Type 0} (j : Job) (env : Env) (end : Result A × Files)
    → (j.files).environ ≡ env
    → Ends (λ a g. Unit {0}) (λ g. ⊥) end
    → Same env (put_tmp j end)
Same-put_tmp j env (ok a, f) e h = e
Same-put_tmp j env (raised x, f) e h = h

pub Same-put_files :
    {A : Type 0} (j : Job) (env : Env) (end : Result A × Files)
    → Ends (λ a g. g.environ ≡ env) (λ g. ⊥) end
    → Same env (put_files j end)
Same-put_files j env (ok a, f) h = h
Same-put_files j env (raised x, f) h = h

pub Same-bind :
    {A B : Type 0} (env : Env) (R : B → Job → Type 0) (first : Result A × Job)
    (rest : A → Action Job B)
    → Same env first
    → ((a : A) (s : Job) → (s.files).environ ≡ env → Ends R (λ k. ⊥) (rest a s))
    → Ends R (λ k. ⊥) (((λ s. first) >>= rest) first.1)
Same-bind env R first rest h k =
    Ends-bind (λ a k. (k.files).environ ≡ env) (λ k. ⊥) R (λ k. ⊥) first rest h k (λ s z. z)

pub note_run-Ends :
    (args : Args) (answer : Result Renv) (j : Job) (env : Env)
    → (j.files).environ ≡ env
    → answers answer ≡ true
    → Ends (Ran env) (λ k. ⊥) (note_run args answer j)
note_run-Ends args (ok v) j env e h = (e, (last_fails-append j.ran args (ok v), h))
note_run-Ends args (raised x) j env e h = grind arith

-- The size of the file decides, then an upload.
pub Same-of :
    {A : Type 0} (env : Env) (R : A → Job → Type 0) (end : Result A × Job)
    → Ends R (λ k. ⊥) end
    → ((a : A) (k : Job) → R a k → (k.files).environ ≡ env)
    → Same env end
Same-of env R end h g =
    Ends-weaken R (λ k. ⊥) (λ a k. (k.files).environ ≡ env) (λ k. ⊥) end h g (λ k z. z)

pub Same-lift :
    {A : Type 0} (o : Result A) (j : Job) (env : Env)
    → (j.files).environ ≡ env
    → is_ok o ≡ true
    → Same env (lift o j)
Same-lift (ok a) j env e h = e
Same-lift (raised x) j env e h = grind arith

pub has_error_lem : (v : Renv) → answers (ok v) ≡ true → has_error v ≡ ok (is_error (ok v))
has_error_lem v h = ground arith

-- A host that answers.
module _ (h : Host) (c : Compiler) (r : Request)
    (gets : (a b : List ℕ) → is_ok ((h.world).get_file a b) ≡ true)
    (copies : (a b : List ℕ) → is_ok ((h.world).copy a b) ≡ true)
    (puts : (a b : List ℕ) → is_ok ((h.world).put_file a b) ≡ true) (enters : is_ok h.enter ≡ true)
    (config : is_ok h.config_template ≡ true) (sizes : (p : List ℕ) → is_ok (h.size p) ≡ true)
    (names : (p : List ℕ) → is_ok (h.names_in p) ≡ true)
    (calls : (l : List (Args × Result Renv)) (a : Args) (k : Kwargs)
      → answers (h.call l a k) ≡ true) where
  execute-Ends :
      (args : Args) (j : Job) (env : Env)
      → (j.files).environ ≡ env
      → Ends (λ v k. Ran env v k) (λ k. ⊥) (execute h c r args j)
  unfolding execute
  execute-Ends args j env e =
      note_run-Ends args
        (call_executor (h.call j.ran) r.limits (codes "compilation_") (words args) (defaults c)) j
        env e (calls j.ran args (take_limits r.limits (codes "compilation_") (defaults c)))

  -- The jar is made if javac had no error.
  make_jar-Ends :
      (v : Renv) (b : Bool) (j : Job) (env : Env)
      → Ran env v j
      → Ends (Ran env) (λ k. ⊥) (make_jar h c r v b j)
  make_jar-Ends v true j env e = e
  make_jar-Ends v false j env e =
      Ends-bind (Ran env) (λ k. ⊥) (Ran env) (λ k. ⊥) (execute h c r (jar_command h c) j)
        (λ v2 s. (ok (with_output v.stdout v2), s)) (execute-Ends (jar_command h c) j env e.0)
        (λ a s z. z) (λ s z. z)

  go_on-Ends :
      (v : Renv) (j : Job) (env : Env) → Ran env v j → Ends (Ran env) (λ k. ⊥) (go_on h c r v j)
  go_on-Ends v j env e =
      subst (λ o. Ends (Ran env) (λ k. ⊥) ((lift o >>= make_jar h c r v) j))
        (sym (has_error_lem v e.1.1)) (make_jar-Ends v (is_error (ok v)) j env e)

  fetch_all-Ends :
      (key : List ℕ) (l : List (List ℕ × List ℕ)) (f : Files)
      → Ends (λ u g. Unit {0}) (λ g. ⊥) (fetch_all h key l f)
  unfolding fetch_all
  fetch_all-Ends key [] f = tt
  fetch_all-Ends key (item ∷ l) f =
      Ends-bind (λ u g. Unit {0}) (λ g. ⊥) (λ u g. Unit {0}) (λ g. ⊥)
        (fetch_extra h key item.1 (basename item.0) f) (λ u. fetch_all h key l)
        (fetch_extra-Ends h.world gets copies puts key item.1 (basename item.0) f)
        (λ u g z. fetch_all-Ends key l g) (λ g z. z)

  extra-Ends :
      (key : List ℕ) (l : List (List ℕ × List ℕ)) (j : Job) (env : Env)
      → (j.files).environ ≡ env
      → Same env (on_tmp (fetch_all h key l) j)
  extra-Ends key l j env e =
      Same-put_tmp j env (fetch_all h key l (record (j.files) { environ = j.tmp })) e
        (fetch_all-Ends key l (record (j.files) { environ = j.tmp }))

  archive-Ends :
      (path : List ℕ) (j : Job) (env : Env)
      → (j.files).environ ≡ env
      → Same env (fetch_archive h path j)
  archive-Ends [] j env e = e
  archive-Ends (x ∷ s) j env e =
      let key = codes "additional_archive" in
      let before = record (j.files) { environ = j.tmp } in
      Same-bind env (λ a k. (k.files).environ ≡ env)
        (on_tmp (fetch_extra h key (x ∷ s) (basename (x ∷ s))) j)
        (λ u. extract_all h (basename (x ∷ s)))
        (Same-put_tmp j env (fetch_extra h key (x ∷ s) (basename (x ∷ s)) before) e
          (fetch_extra-Ends h.world gets copies puts key (x ∷ s) (basename (x ∷ s)) before))
        (λ u k z.
          let place = tempcwd (h.world).tmpdir (some (basename (x ∷ s))) in
          Same-bind env (λ a k. (k.files).environ ≡ env) (lift (h.names_in place) k)
            (put_extracted h) (Same-lift (h.names_in place) k env z (names place)) (λ l k z. z))

  pub process_extra_files-Ends :
      (j : Job) (env : Env) → (j.files).environ ≡ env → Same env (process_extra_files h c r j)
  unfolding process_extra_files
  process_extra_files-Ends j env e =
      let includes = by_path (lang_option r.additional_includes c.lang) in
      let sources = by_path (lang_option r.additional_sources c.lang) in
      let include_key = codes "additional_include" in
      let source_key = codes "additional_source" in
      let extra_key = codes "extra_file" in
      let Q : Unit {0} → Job → Type 0 = λ a k. (k.files).environ ≡ env in
      Same-bind env Q
        ((on_tmp (fetch_all h include_key includes)
            >> on_tmp (fetch_all h source_key sources)
            >> on_tmp (fetch_all h extra_key r.extra_files))
          j)
        (λ u. fetch_archive h r.additional_archive)
        (Same-bind env Q
          ((on_tmp (fetch_all h include_key includes) >> on_tmp (fetch_all h source_key sources)) j)
          (λ u. on_tmp (fetch_all h extra_key r.extra_files))
          (Same-bind env Q (on_tmp (fetch_all h include_key includes) j)
            (λ u. on_tmp (fetch_all h source_key sources)) (extra-Ends include_key includes j env e)
            (λ u k z. extra-Ends source_key sources k env z))
          (λ u k z. extra-Ends extra_key r.extra_files k env z))
        (λ u k z. archive-Ends r.additional_archive k env z)

  pub run_in_executor-Ends :
      (file : List ℕ) (j : Job) (env : Env)
      → (j.files).environ ≡ env
      → Ends (Ran env) (λ k. ⊥) (run_in_executor h c r file j)
  unfolding run_in_executor
  run_in_executor-Ends file j env e =
      let args = make_cmdline h c r file in
      elim c.kind
        as (λ kind.
          Ends (Ran env) (λ k. ⊥)
            ((elim kind as (λ x. Action Job Renv) [
              | c_style compiler ↦ execute h c r args
              | system_fpc ↦ execute h c r args
              | sandboxed_fpc ↦ configure h >> execute h c r args
              | java ↦ execute h c r args >>= go_on h c r
            ])
              j)) [
                | c_style compiler ↦ execute-Ends args j env e
                | system_fpc ↦ execute-Ends args j env e
                | sandboxed_fpc ↦
                    Same-bind env (Ran env) (configure h j) (λ u. execute h c r args)
                      (Same-bind env (λ u k. (k.files).environ ≡ env) (lift h.config_template j)
                        (λ text.
                          write_config (replace_from (codes "__DIR__") (rstrip_sep h.rpath) 0 text))
                        (Same-lift h.config_template j env e config) (λ text k z. z))
                      (λ u k z. execute-Ends args k env z)
                | java ↦
                    Ends-bind (Ran env) (λ k. ⊥) (Ran env) (λ k. ⊥) (execute h c r args j)
                      (go_on h c r) (execute-Ends args j env e) (λ v k z. go_on-Ends v k env z)
                      (λ k z. z)
              ]
