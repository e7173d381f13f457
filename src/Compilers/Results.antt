-- ===== src/Compilers/Results.antt =====
-- What a compilation ends with, where the executor, the file tracker and the file system answer.
use sioworkers.Prelude.{
  ℕ, ◌≡◌, refl, Bool, true, false, ◌||◌, Option, none, some, List, ◌++◌, Result, ok, raised, Ends,
  Ends-bind, Ends-weaken, arith, sym, ap, subst, ◌∙◌, ltb, codes, ◌>>=◌, ◌>>◌, lift,
}
use sioworkers.Executors.Quoting.{Args}
use sioworkers.Executors.Process.{Kwargs, Renv}
use sioworkers.Executors.Proot.{Env, env_get}
use sioworkers.FileTracker.{Files, download, upload}
use sioworkers.FileTracker.Working.{is_ok, download-Ends, upload-Uploaded}
use sioworkers.Compilers.{
  Job, Host, Compiler, Request, put_files, on_files, compiled, ExecInfo, executable, java_class,
  c_style, system_fpc, sandboxed_fpc, java, process_extra_files,
}
use sioworkers.Compilers.Driver.{
  postprocess_all, upload_output, run_compiler, joined, run_in_executor, is_too_large, judge_size,
  judge, postprocess, output_path, compile, name_class, info_of_class, class_name, make_filename,
}
use sioworkers.Compilers.Running.{
  answers, is_error, last_fails, exceeds, too_large, info_for, Judged, OutputStored, Ran, Same-bind,
  Same-put_files, Same-lift, has_error_lem, process_extra_files-Ends, run_in_executor-Ends,
}

-- A jar is told by its class.
name_class-Ends :
    (P : Files → Type 0) (name : List ℕ) (b : Bool) (env : Env) (k : Job)
    → Judged P b executable env k
    → Ends
        (λ u s.
          Judged P b (java_class name (name ++ codes ".jar")) env s
          × (last_fails s.ran ≡ last_fails k.ran))
        (λ s. ⊥)
        (name_class k.result_code name k)
name_class-Ends P name true env k e =
    subst
      (λ o.
        Ends
          (λ u s.
            Judged P true (java_class name (name ++ codes ".jar")) env s
            × (last_fails s.ran ≡ last_fails k.ran))
          (λ s. ⊥) (name_class o name k))
      (sym e.0) (e, refl)
name_class-Ends P name false env k e =
    subst
      (λ o.
        Ends
          (λ u s.
            Judged P false (java_class name (name ++ codes ".jar")) env s
            × (last_fails s.ran ≡ last_fails k.ran))
          (λ s. ⊥) (name_class o name k))
      (sym e.0) ((e.0, (refl, e.1.1)), refl)

info_of_class-Ends :
    (P : Files → Type 0) (c : Compiler) (name : List ℕ) (b : Bool) (env : Env) (k : Job)
    → Judged P b executable env k
    → Ends
        (λ u s. Judged P b (info_for c name) env s × (last_fails s.ran ≡ last_fails k.ran))
        (λ s. ⊥)
        (info_of_class c name k)
info_of_class-Ends P c name b env k e =
    elim c.kind
      as (λ kind.
        Ends
          (λ u s.
            Judged P b
              (elim kind as (λ x. ExecInfo) [
                | c_style compiler ↦ executable
                | system_fpc ↦ executable
                | sandboxed_fpc ↦ executable
                | java ↦ java_class name (name ++ codes ".jar")
              ])
              env s
            × (last_fails s.ran ≡ last_fails k.ran))
          (λ s. ⊥)
          (elim kind as (λ x. Result (Unit {0}) × Job) [
            | c_style compiler ↦ (ok tt, k)
            | system_fpc ↦ (ok tt, k)
            | sandboxed_fpc ↦ (ok tt, k)
            | java ↦ name_class k.result_code name k
          ])) [
            | c_style compiler ↦ (e, refl)
            | system_fpc ↦ (e, refl)
            | sandboxed_fpc ↦ (e, refl)
            | java ↦ name_class-Ends P name b env k e
          ]

abbrev Stored : (Files → Type 0) → Job → Job → Type 0
Stored P j k =
    P k.files
    × ((k.result_code ≡ j.result_code)
        × ((k.exec_info ≡ j.exec_info) × (last_fails k.ran ≡ last_fails j.ran)))

put_files-Stored :
    (P : Files → Type 0) (j : Job) (end : Result (List ℕ) × Files)
    → Ends (λ d g. P g) (λ g. ⊥) end
    → Ends (λ d k. Stored P j k) (λ k. ⊥) (put_files j end)
put_files-Stored P j (ok d, f) h = (h, (refl, (refl, refl)))
put_files-Stored P j (raised x, f) h = h

-- A host that answers.
module _ (h : Host) (c : Compiler) (r : Request)
    (gets : (a b : List ℕ) → is_ok ((h.world).get_file a b) ≡ true)
    (copies : (a b : List ℕ) → is_ok ((h.world).copy a b) ≡ true)
    (puts : (a b : List ℕ) → is_ok ((h.world).put_file a b) ≡ true) (enters : is_ok h.enter ≡ true)
    (config : is_ok h.config_template ≡ true) (sizes : (p : List ℕ) → is_ok (h.size p) ≡ true)
    (names : (p : List ℕ) → is_ok (h.names_in p) ≡ true)
    (calls : (l : List (Args × Result Renv)) (a : Args) (k : Kwargs)
      → answers (h.call l a k) ≡ true) where
  is_too_large_lem : is_too_large h c r ≡ ok (too_large h c r)
  is_too_large_lem = choose r.result_size_limit
    where
      choose :
          (o : Option ℕ)
          → (elim o as (λ x. Result Bool) [
            | none ↦ ok false
            | some limit ↦ elim (h.size (output_path h c)) as (λ x. Result Bool) [
              | raised e ↦ raised e
              | ok n ↦ ok (ltb limit n)
            ]
          ])
            ≡ ok (elim o as (λ x. Bool) [
              | none ↦ false
              | some limit ↦ exceeds limit (h.size (output_path h c))
            ])
      choose none = refl
      choose (some limit) = ground (arith, sizes (output_path h c))

  judge_size-Ends :
      (t : Bool) (j : Job) (env : Env) (name : List ℕ)
      → (j.files).environ ≡ env
      → env_get (codes "out_file") env ≡ ok name
      → Ends
          (λ u k.
            Judged (OutputStored h c name) t executable env k
            × (last_fails k.ran ≡ last_fails j.ran))
          (λ k. ⊥)
          (judge_size h c t j)
  judge_size-Ends true j env name e n = ((refl, e), refl)
  judge_size-Ends false j env name e n =
      let now : Job = record j { result_code = some compiled; exec_info = some executable } in
      Ends-bind (λ d k. Stored (OutputStored h c name) now k) (λ k. ⊥)
        (λ u k.
          Judged (OutputStored h c name) false executable env k
          × (last_fails k.ran ≡ last_fails j.ran))
        (λ k. ⊥) (upload_output h c now) (λ d k. (ok tt, k))
        (put_files-Stored (OutputStored h c name) now
          (upload h.world (codes "out_file") (output_path h c) none now.files)
          (upload-Uploaded h.world gets copies puts (codes "out_file") (output_path h c) name
            now.files (ap (env_get (codes "out_file")) e ∙ n)))
        (λ d k z. ((z.1.0, (z.1.1.0, z.0)), z.1.1.1)) (λ k z. z)

  judge-Ends :
      (b : Bool) (j : Job) (env : Env) (name : List ℕ)
      → (j.files).environ ≡ env
      → env_get (codes "out_file") env ≡ ok name
      → last_fails j.ran ≡ b
      → Ends
          (λ u k.
            Judged (OutputStored h c name) (b || too_large h c r) executable env k
            × (last_fails k.ran ≡ b))
          (λ k. ⊥)
          (judge h c r b j)
  judge-Ends true j env name e n l = ((refl, e), l)
  judge-Ends false j env name e n l =
      subst
        (λ o.
          Ends
            (λ u k.
              Judged (OutputStored h c name) (too_large h c r) executable env k
              × (last_fails k.ran ≡ false))
            (λ k. ⊥) ((lift o >>= judge_size h c) j))
        (sym is_too_large_lem)
        (Ends-weaken
          (λ u k.
            Judged (OutputStored h c name) (too_large h c r) executable env k
            × (last_fails k.ran ≡ last_fails j.ran))
          (λ k. ⊥)
          (λ u k.
            Judged (OutputStored h c name) (too_large h c r) executable env k
            × (last_fails k.ran ≡ false))
          (λ k. ⊥) (judge_size h c (too_large h c r) j)
          (judge_size-Ends (too_large h c r) j env name e n) (λ u k z. (z.0, z.1 ∙ l)) (λ k z. z))

  -- The last command and the size decide; a file that is accepted is stored.
  postprocess-Ends :
      (v : Renv) (class : List ℕ) (j : Job) (env : Env) (name : List ℕ)
      → Ran env v j
      → env_get (codes "out_file") env ≡ ok name
      → Ends
          (λ u k.
            Judged
              (OutputStored h c name)
              (last_fails k.ran || too_large h c r)
              (info_for c class)
              env
              k)
          (λ k. ⊥)
          (postprocess h c r class v j)
  unfolding postprocess
  postprocess-Ends v class j env name e n =
      let b = is_error (ok v) in
      let now : Job = record j { compiler_output = some (h.utf (joined v.stdout)) } in
      let Q : Unit {0} → Job → Type 0 = λ u k.
        Judged (OutputStored h c name) (b || too_large h c r) executable env k
        × (last_fails k.ran ≡ b) in
      Ends-bind Q (λ k. ⊥)
        (λ u k.
          Judged (OutputStored h c name) (last_fails k.ran || too_large h c r) (info_for c class)
            env k)
        (λ k. ⊥) (postprocess_all h c r v j) (λ u. info_of_class c class)
        (subst (λ o. Ends Q (λ k. ⊥) ((lift o >>= judge h c r) now)) (sym (has_error_lem v e.1.1))
          (judge-Ends b now env name e.0 n e.1.0))
        (λ u k z.
          Ends-weaken
            (λ u s.
              Judged (OutputStored h c name) (b || too_large h c r) (info_for c class) env s
              × (last_fails s.ran ≡ last_fails k.ran))
            (λ s. ⊥)
            (λ u s.
              Judged (OutputStored h c name) (last_fails s.ran || too_large h c r)
                (info_for c class) env s)
            (λ s. ⊥) (info_of_class c class k)
            (info_of_class-Ends (OutputStored h c name) c class (b || too_large h c r) env k z.0)
            (λ u s y.
              subst
                (λ x.
                  Judged (OutputStored h c name) (x || too_large h c r) (info_for c class) env s)
                (sym (y.1 ∙ z.1)) y.0)
            (λ s y. y))
        (λ k z. z)

  run_compiler-Ends :
      (j : Job) (source name : List ℕ)
      → env_get (codes "source_file") (j.files).environ ≡ ok source
      → env_get (codes "out_file") (j.files).environ ≡ ok name
      → Ends
          (λ u k.
            Judged
              (OutputStored h c name)
              (last_fails k.ran || too_large h c r)
              (info_for c (class_name r source))
              (j.files).environ
              k)
          (λ k. ⊥)
          (run_compiler h c r source j)
  run_compiler-Ends j source name s n =
      let env = (j.files).environ in
      let file = make_filename c r source in
      let Q : Unit {0} → Job → Type 0 = λ a k. (k.files).environ ≡ env in
      let fetch_source = on_files (download h.world (codes "source_file") (some file) false) in
      Ends-bind (Ran env) (λ k. ⊥)
        (λ u k.
          Judged (OutputStored h c name) (last_fails k.ran || too_large h c r)
            (info_for c (class_name r source)) env k)
        (λ k. ⊥)
        ((fetch_source >> process_extra_files h c r >> lift h.enter >> run_in_executor h c r file)
          j)
        (postprocess h c r (class_name r source))
        (Same-bind env (Ran env) ((fetch_source >> process_extra_files h c r >> lift h.enter) j)
          (λ u. run_in_executor h c r file)
          (Same-bind env Q ((fetch_source >> process_extra_files h c r) j) (λ u. lift h.enter)
            (Same-bind env Q (fetch_source j) (λ u. process_extra_files h c r)
              (Same-put_files j env
                (download h.world (codes "source_file") (some file) false j.files)
                (download-Ends h.world gets copies puts (codes "source_file") source (some file)
                  j.files s))
              (λ u k z.
                process_extra_files-Ends h c r gets copies puts enters config sizes names calls k
                  env z))
            (λ u k z. Same-lift h.enter k env z enters))
          (λ u k z.
            run_in_executor-Ends h c r gets copies puts enters config sizes names calls file k env
              z))
        (λ v k z. postprocess-Ends v (class_name r source) k env name z n) (λ k z. z)

  -- Where everything answers and both files have keys, a compilation comes to an end. It is rejected
  -- just if its last command has an error or the compiled file is larger than the limit, and then the
  -- keys are as they were. Otherwise the file went to the file tracker, or to the directory of the
  -- start where none is used, its key has the name that it got, and the way to run it is that of the
  -- class.
  pub compile-Judged :
      (j : Job) (source name : List ℕ)
      → env_get (codes "source_file") (j.files).environ ≡ ok source
      → env_get (codes "out_file") (j.files).environ ≡ ok name
      → Ends
          (λ u k.
            Judged
              (OutputStored h c name)
              (last_fails k.ran || too_large h c r)
              (info_for c (class_name r source))
              (j.files).environ
              k)
          (λ k. ⊥)
          (compile h c r j)
  unfolding compile
  compile-Judged j source name s n =
      let now : Job = record j { tmp = (j.files).environ } in
      subst
        (λ o.
          Ends
            (λ u k.
              Judged (OutputStored h c name) (last_fails k.ran || too_large h c r)
                (info_for c (class_name r source)) (j.files).environ k)
            (λ k. ⊥) ((lift o >>= run_compiler h c r) now))
        (sym s) (run_compiler-Ends now source name s n)
