-- ===== src/Compilers/Jobs.antt =====
-- The jobs of compilation: run of sio/compilers/job.py, which chooses a compiler by the key or by the
-- extension of the source, and run of output.py. Letters are those of ASCII.
use sioworkers.Prelude.{
  ℕ, ◌+◌, false, Option, none, some, List, [], ◌∷◌, ◌++◌, ◌==◌, ◌&&◌, Result, ok, raised, Action,
  ◌>>◌, ◌>>=◌, pure, raise, codes, if◌then◌else◌, leb, assertion_error,
}
use sioworkers.Paths.{basename}
use sioworkers.Executors.Proot.{env_get}
use sioworkers.FileTracker.{set_key}
use sioworkers.Compilers.{Job, ResultCode, compiled, output_only, on_files}
use sioworkers.Compilers.Driver.{extension, set_code, set_output, set_info}

-- `lower`
abbrev pub lower : List ℕ → List ℕ
lower [] = []
lower (c ∷ s) = (if leb 65 c && leb c 90 then c + 32 else c) ∷ lower s

abbrev pub without_first : List ℕ → List ℕ
without_first [] = []
without_first (c ∷ s) = s

-- `split('.')[0]`
abbrev pub until_dot : List ℕ → List ℕ
until_dot [] = []
until_dot (c ∷ s) = let rest = until_dot s in if c == b'.' then [] else c ∷ rest

abbrev pub default_name : List ℕ → List ℕ
default_name source = codes "default-" ++ lower (without_first (extension false (basename source)))

-- The key `compiler`, which is set if it was not there.
abbrev pub set_default : Result (List ℕ) → Action Job (List ℕ)
set_default (ok source) = on_files (set_key (codes "compiler") (default_name source))
set_default (raised e) = raise e

abbrev pub choose_compiler : Result (List ℕ) → Result (List ℕ) → Action Job (List ℕ)
choose_compiler (ok name) source = pure name
choose_compiler (raised e) source = set_default source

abbrev pub compiler_of : Action Job (List ℕ)
compiler_of j =
    choose_compiler (env_get (codes "compiler") (j.files).environ)
      (env_get (codes "source_file") (j.files).environ) j

-- `first_entry_point`: what it finds returns an environment.
abbrev pub Compilers : Type 0
Compilers = List ℕ → Result (Action Job Job)

abbrev pub call_compiler : Result (Action Job Job) → Action Job Job
call_compiler (ok f) = f
call_compiler (raised e) = raise e

-- The two assertions.
abbrev pub check_code : Option ResultCode → Job → Action Job Job
check_code (some code) e = pure e
check_code none e = raise assertion_error

abbrev pub check_output : Option (List ℕ) → Job → Action Job Job
check_output (some s) e = check_code e.result_code e
check_output none e = raise assertion_error

abbrev pub check_keys : Job → Action Job Job
check_keys e = check_output e.compiler_output e

-- `run` of job.py
unfoldable pub run : Compilers → Action Job Job
run find = compiler_of >>= (λ name. call_compiler (find (until_dot name))) >>= check_keys

-- `run` of output.py
unfoldable pub run_output : Action Job (Unit {0})
run_output =
    set_code compiled
    >> set_output (codes "Compilation omitted (output provided).")
    >> set_info output_only
    >> (λ j. (env_get (codes "source_file") (j.files).environ, j))
    >>= λ source. on_files (set_key (codes "out_file") source) >> pure tt
