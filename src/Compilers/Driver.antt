-- ===== src/Compilers/Driver.antt =====
-- A compilation: Compiler.compile of sio/compilers/common.py with what the classes override, and run
-- of job.py and output.py.
use sioworkers.Prelude.{
  starts_with, suc, zero, ◌-◌, ℕ, ◌*◌, Bool, true, false, not, Option, none, some, List, [], ◌∷◌,
  ◌++◌, ◌==◌, ◌&&◌, ◌||◌, Result, ok, raised, Action, ◌>>◌, ◌>>=◌, lift, pure, codes, if◌then◌else◌,
  key_error, ltb, length,
}
use sioworkers.Prelude.Int.{pos}
use sioworkers.Paths.{basename, tempcwd}
use sioworkers.Executors.Quoting.{Args, plain, cons, nil, words}
use sioworkers.Executors.Process.{Kwargs, Renv, call_executor, same_ℤ}
use sioworkers.Executors.Proot.{env_get}
use sioworkers.FileTracker.{download, upload}
use sioworkers.Compilers.{
  rstrip_sep, lang_option, Compiler, c_style, system_fpc, sandboxed_fpc, java, Request, Job, Host,
  ResultCode, compiled, compilation_error, ExecInfo, executable, java_class, on_files,
  process_extra_files,
}

-- `os.path.splitext` of a name: a dot that only dots come before does not count.
abbrev pub has_dot : List ℕ → Bool
has_dot [] = false
has_dot (c ∷ s) = (c == b'.') || has_dot s

abbrev pub extension : Bool → List ℕ → List ℕ
extension seen [] = []
extension seen (c ∷ s) =
    let rest = extension (seen || not (c == b'.')) s in
    if (c == b'.') && seen && not (has_dot s) then c ∷ s else rest

abbrev pub root : Bool → List ℕ → List ℕ
root seen [] = []
root seen (c ∷ s) =
    let rest = root (seen || not (c == b'.')) s in
    if (c == b'.') && seen && not (has_dot s) then [] else c ∷ rest

abbrev pub or_else : Option (List ℕ) → List ℕ → List ℕ
or_else none s = s
or_else (some t) s = t

-- `class_name` of JavaCompiler.
abbrev pub class_name : Request → List ℕ → List ℕ
class_name r source_file = or_else r.problem_short_name (root false (basename source_file))

-- `_make_filename`
unfoldable pub make_filename : Compiler → Request → List ℕ → List ℕ
make_filename c r source_file = elim c.kind [
  | c_style compiler ↦ codes "a." ++ c.lang
  | system_fpc ↦ codes "a." ++ c.lang
  | sandboxed_fpc ↦ codes "a." ++ c.lang
  | java ↦ class_name r source_file ++ codes ".java"
]

abbrev pub place_all : Host → List (List ℕ) → Args
place_all h [] = nil
place_all h (p ∷ l) = cons (plain (h.rcwd (basename p))) (place_all h l)

abbrev pub plain_all : List (List ℕ) → Args → Args
plain_all [] rest = rest
plain_all (s ∷ l) rest = cons (plain s) (plain_all l rest)

abbrev pub extra_args : Compiler → Request → List (List ℕ)
extra_args c r = lang_option r.extra_compilation_args c.lang

abbrev pub more_sources : Host → Compiler → Request → Args
more_sources h c r = place_all h (lang_option r.additional_sources c.lang)

-- `_make_cmdline`, and the first command of JavaCompiler.
unfoldable pub make_cmdline : Host → Compiler → Request → List ℕ → Args
make_cmdline h c r source_file = elim c.kind [
  | c_style compiler ↦ cons (plain compiler) (
      cons (plain (h.rcwd source_file)) (
        cons (plain (codes "-o")) (
          cons (plain (h.rcwd c.output_file))
            (plain_all (c.options ++ extra_args c r) (more_sources h c r)))))
  | system_fpc ↦
      cons (plain (codes "fpc"))
        (cons (plain (h.rcwd (codes "a.pas"))) (plain_all (c.options ++ extra_args c r) nil))
  | sandboxed_fpc ↦
      cons (plain (codes "fpc"))
        (cons (plain (codes "a.pas")) (plain_all (c.options ++ extra_args c r) nil))
  | java ↦ cons (plain (codes "javac")) (
      cons (plain (codes "-J-Xss32M"))
        (plain_all (extra_args c r) (cons (plain (h.rcwd source_file)) (more_sources h c r))))
]

-- The keyword arguments of `_execute`; a JavaCompiler sets no limit of memory.
abbrev pub mem_limit_of : Compiler → Option ℕ
mem_limit_of c = elim c.kind [
  | c_style compiler ↦ some (512 * 1024)
  | system_fpc ↦ some (512 * 1024)
  | sandboxed_fpc ↦ some (512 * 1024)
  | java ↦ none
]

abbrev pub defaults : Compiler → Kwargs
defaults c = record {
  mem_limit = mem_limit_of c;
  time_limit = some 30000;
  real_time_limit = none;
  output_limit = some (5 * 1024);
  ignore_errors = true;
  extra_ignore_errors = [];
  capture_output = true;
  split_lines = false;
}

abbrev pub note_run : Args → Result Renv → Action Job Renv
note_run cmdline answer j = (answer, record j { ran = j.ran ++ (cmdline, answer) ∷ [] })

-- `_execute`
unfoldable pub execute : Host → Compiler → Request → Args → Action Job Renv
unfolding call_executor
execute h c r cmdline j =
    note_run cmdline
      (call_executor (h.call j.ran) r.limits (codes "compilation_") (words cmdline) (defaults c)) j

-- `if renv['return_code']`
abbrev pub has_error : Renv → Result Bool
has_error v = elim v.return_code [ none ↦ raised key_error | some n ↦ ok (not (same_ℤ n (pos 0))) ]

abbrev pub joined : List (List ℕ) → List ℕ
joined [] = []
joined (s ∷ l) = s ++ joined l

abbrev pub with_output : List (List ℕ) → Renv → Renv
with_output before v = record v { stdout = (joined before ++ joined v.stdout) ∷ [] }

abbrev pub jar_command : Host → Compiler → Args
jar_command h c =
    cons (plain (codes "jar"))
      (cons (plain (codes "cf")) (cons (plain c.output_file) (plain_all h.classes nil)))

abbrev pub make_jar : Host → Compiler → Request → Renv → Bool → Action Job Renv
make_jar h c r v true = pure v
make_jar h c r v false = execute h c r (jar_command h c) >>= λ v2. pure (with_output v.stdout v2)

abbrev pub go_on : Host → Compiler → Request → Renv → Action Job Renv
go_on h c r v = lift (has_error v) >>= make_jar h c r v

-- `replace(p, new)`, where n characters of a place that was found are still to be left out.
abbrev pub replace_from : List ℕ → List ℕ → ℕ → List ℕ → List ℕ
replace_from p new n [] = []
replace_from p new (suc n) (c ∷ s) = replace_from p new n s
replace_from p new zero (c ∷ s) = elim (starts_with (c ∷ s) p) [
  | true ↦ new ++ replace_from p new (length p - 1) s
  | false ↦ c ∷ replace_from p new 0 s
]

abbrev pub write_config : List ℕ → Action Job (Unit {0})
write_config text j = (ok tt, record j { config = some text })

-- The configuration of fpc in a sandbox.
abbrev pub configure : Host → Action Job (Unit {0})
configure h = lift h.config_template >>= λ text.
    write_config (replace_from (codes "__DIR__") (rstrip_sep h.rpath) 0 text)

-- `_run_in_executor`
unfoldable pub run_in_executor : Host → Compiler → Request → List ℕ → Action Job Renv
unfolding execute make_cmdline
run_in_executor h c r file = elim c.kind [
  | c_style compiler ↦ execute h c r (make_cmdline h c r file)
  | system_fpc ↦ execute h c r (make_cmdline h c r file)
  | sandboxed_fpc ↦ configure h >> execute h c r (make_cmdline h c r file)
  | java ↦ execute h c r (make_cmdline h c r file) >>= go_on h c r
]

abbrev pub output_path : Host → Compiler → List ℕ
output_path h c = tempcwd h.world.tmpdir (some c.output_file)

-- Whether there is a limit and the compiled file is larger.
abbrev pub is_too_large : Host → Compiler → Request → Result Bool
is_too_large h c r = elim r.result_size_limit [
  | none ↦ ok false
  | some limit ↦ elim (h.size (output_path h c)) [ raised e ↦ raised e | ok n ↦ ok (ltb limit n) ]
]

abbrev pub set_output : List ℕ → Action Job (Unit {0})
set_output s j = (ok tt, record j { compiler_output = some s })

abbrev pub set_code : ResultCode → Action Job (Unit {0})
set_code code j = (ok tt, record j { result_code = some code })

abbrev pub set_info : ExecInfo → Action Job (Unit {0})
set_info info j = (ok tt, record j { exec_info = some info })

abbrev pub upload_output : Host → Compiler → Action Job (List ℕ)
upload_output h c = on_files (upload h.world (codes "out_file") (output_path h c) none)

-- What `_postprocess` does once it knows of errors, and whether the file is too large.
abbrev pub judge_size : Host → Compiler → Bool → Action Job (Unit {0})
judge_size h c true =
    set_code compilation_error >> set_output (codes "Compiled file size limit exceeded.")
judge_size h c false = set_code compiled >> set_info executable >> upload_output h c >> pure tt

abbrev pub judge : Host → Compiler → Request → Bool → Action Job (Unit {0})
judge h c r true = set_code compilation_error
judge h c r false = lift (is_too_large h c r) >>= judge_size h c

abbrev pub postprocess_all : Host → Compiler → Request → Renv → Action Job (Unit {0})
postprocess_all h c r v = set_output (h.utf (joined v.stdout)) >> lift (has_error v) >>= judge h c r

-- A jar is run by the name of its class.
abbrev pub name_class : Option ResultCode → List ℕ → Action Job (Unit {0})
name_class (some compiled) name = set_info (java_class name (name ++ codes ".jar"))
name_class (some compilation_error) name = pure tt
name_class none name = pure tt

abbrev pub info_of_class : Compiler → List ℕ → Action Job (Unit {0})
info_of_class c name j = elim c.kind [
  | c_style compiler ↦ (ok tt, j)
  | system_fpc ↦ (ok tt, j)
  | sandboxed_fpc ↦ (ok tt, j)
  | java ↦ name_class j.result_code name j
]

-- `_postprocess`
unfoldable pub postprocess : Host → Compiler → Request → List ℕ → Renv → Action Job (Unit {0})
unfolding upload tempcwd
postprocess h c r name v = postprocess_all h c r v >> info_of_class c name

abbrev pub start_copy : Action Job (Unit {0})
start_copy j = (ok tt, record j { tmp = (j.files).environ })

abbrev pub source_of_job : Action Job (List ℕ)
source_of_job j = (env_get (codes "source_file") (j.files).environ, j)

abbrev pub run_compiler : Host → Compiler → Request → List ℕ → Action Job (Unit {0})
run_compiler h c r source =
    on_files (download h.world (codes "source_file") (some (make_filename c r source)) false)
    >> process_extra_files h c r
    >> lift h.enter
    >> run_in_executor h c r (make_filename c r source)
    >>= postprocess h c r (class_name r source)

-- `compile`
unfoldable pub compile : Host → Compiler → Request → Action Job (Unit {0})
unfolding make_filename process_extra_files run_in_executor postprocess download
compile h c r = start_copy >> source_of_job >>= run_compiler h c r
