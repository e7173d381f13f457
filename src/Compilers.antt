-- ===== src/Compilers.antt =====
-- sio/compilers: common.py with the classes of gcc.py, system_gcc.py, fpc.py, system_fpc.py, java.py
-- and system_java.py, and the functions run of job.py and output.py. The executor is an argument: it
-- answers a command by what it answered before. So are the file system, the file tracker and archives.
pub mod Driver
pub mod Running
pub mod Results
pub mod Jobs
use sioworkers.Prelude.{
  starts_with, not, ◌||◌, ◌>>=◌, lift, ℕ, ◌*◌, Bool, true, false, Option, none, some, List, [], ◌∷◌,
  ◌++◌, ◌==◌, ◌&&◌, Result, ok, raised, Action, ◌>>◌, pure, codes, is_text, if◌then◌else◌,
}
use sioworkers.Paths.{rstrip_sep, tempcwd, path_join, basename}
use sioworkers.Executors.Quoting.{plain, cons, nil, Args}
use sioworkers.Executors.Process.{Environ, Kwargs, Renv}
use sioworkers.Executors.Proot.{Env}
use sioworkers.FileTracker.{World, Files, download, set_key}

-- A value of an option: for all languages, or one for each.
pub data Choice : Type 0 where
  one : List ℕ → Choice
  several : List (List ℕ) → Choice

pub data LangOption : Type 0 where
  absent : LangOption
  for_all : Choice → LangOption
  by_lang : List (List ℕ × Choice) → LangOption

abbrev pub as_list : Choice → List (List ℕ)
as_list (one s) = s ∷ []
as_list (several l) = l

abbrev pub of_lang : List ℕ → List (List ℕ × Choice) → List (List ℕ)
of_lang lang [] = []
of_lang lang (item ∷ l) =
    let rest = of_lang lang l in if is_text item.0 lang then as_list item.1 else rest

-- `_lang_option`
abbrev pub lang_option : LangOption → List ℕ → List (List ℕ)
lang_option absent lang = []
lang_option (for_all c) lang = as_list c
lang_option (by_lang l) lang = of_lang lang l

-- What differs between the classes: the methods that they override.
pub data Kind : Type 0 where
  c_style : List ℕ → Kind
  system_fpc sandboxed_fpc java : Kind

pub record Compiler : Type 0 where
  pub kind : Kind
  pub lang : List ℕ
  pub output_file : List ℕ
  pub options : List (List ℕ)

pub data ResultCode : Type 0 where
  compiled compilation_error : ResultCode

pub data ExecInfo : Type 0 where
  executable output_only : ExecInfo
  java_class : List ℕ → List ℕ → ExecInfo

-- The keys that a compiler only reads, and the limits with the prefix `compilation_`.
pub record Request : Type 0 where
  pub extra_compilation_args : LangOption
  pub additional_includes : LangOption
  pub additional_sources : LangOption
  pub extra_files : List (List ℕ × List ℕ)
  pub additional_archive : List ℕ
  pub problem_short_name : Option (List ℕ)
  pub result_size_limit : Option ℕ
  pub limits : Environ

-- The environment of the job with the transfers so far, the texts of its copy `tmp_environ`, the
-- commands with their answers, the names taken from archives, and the configuration of fpc.
pub record Job : Type 0 where
  pub files : Files
  pub tmp : Env
  pub ran : List (Args × Result Renv)
  pub extracted : List (List ℕ)
  pub config : Option (List ℕ)
  pub compiler_output : Option (List ℕ)
  pub result_code : Option ResultCode
  pub exec_info : Option ExecInfo

-- What answers: an executor that keeps what it ran, the sizes of files, the names in an archive, the
-- real paths, the paths that exist after some names were extracted, `glob`, and the replacement of
-- what is not UTF-8.
pub record Host : Type 0 where
  pub world : World
  pub enter : Result (Unit {0})
  pub call : List (Args × Result Renv) → Args → Kwargs → Result Renv
  pub rcwd : List ℕ → List ℕ
  pub rpath : List ℕ
  pub config_template : Result (List ℕ)
  pub size : List ℕ → Result ℕ
  pub names_in : List ℕ → Result (List (List ℕ))
  pub real_path : List ℕ → List ℕ
  pub exists_after : List (List ℕ) → List ℕ → Bool
  pub classes : List (List ℕ)
  pub utf : List ℕ → List ℕ

abbrev pub put_files : {A : Type 0} → Job → Result A × Files → Result A × Job
put_files j (r, f) = (r, record j { files = f })

abbrev pub on_files : {A : Type 0} → Action Files A → Action Job A
on_files act j = put_files j (act j.files)

abbrev pub put_tmp : {A : Type 0} → Job → Result A × Files → Result A × Job
put_tmp j (r, f) =
    (r, record j { tmp = f.environ; files = record (j.files) { transfers = f.transfers } })

abbrev pub on_tmp : {A : Type 0} → Action Files A → Action Job A
on_tmp act j = put_tmp j (act (record (j.files) { environ = j.tmp }))

-- A key of `tmp_environ` is set and downloaded.
abbrev pub fetch_extra : Host → List ℕ → List ℕ → List ℕ → Action Files (List ℕ)
fetch_extra h key path dest = set_key key path >> download h.world key (some dest) false

unfoldable pub fetch_all : Host → List ℕ → List (List ℕ × List ℕ) → Action Files (Unit {0})
fetch_all h key [] = pure tt
fetch_all h key (item ∷ l) = fetch_extra h key item.1 (basename item.0) >> fetch_all h key l

-- Files that are named as their paths are.
abbrev pub by_path : List (List ℕ) → List (List ℕ × List ℕ)
by_path [] = []
by_path (p ∷ l) = (p, p) ∷ by_path l

-- `_extract_all`: a name is passed by if a file is there, or if it leads out of the directory.
unfoldable pub extract : Host → List (List ℕ) → List (List ℕ) → List (List ℕ)
extract h [] before = before
extract h (name ∷ names) before =
    let path = h.real_path (path_join h.world.tmpdir (rstrip_sep name)) in
    extract h names (
      if h.exists_after before path || not (starts_with path h.world.tmpdir)
      then before
      else before ++ name ∷ [])

abbrev pub put_extracted : Host → List (List ℕ) → Action Job (Unit {0})
put_extracted h names j = (ok tt, record j { extracted = extract h names j.extracted })

abbrev pub extract_all : Host → List ℕ → Action Job (Unit {0})
extract_all h path = lift (h.names_in (tempcwd h.world.tmpdir (some path))) >>= put_extracted h

abbrev pub fetch_archive : Host → List ℕ → Action Job (Unit {0})
fetch_archive h [] = pure tt
fetch_archive h (c ∷ s) =
    on_tmp (fetch_extra h (codes "additional_archive") (c ∷ s) (basename (c ∷ s)))
    >> extract_all h (basename (c ∷ s))

-- `_process_extra_files`
unfoldable pub process_extra_files : Host → Compiler → Request → Action Job (Unit {0})
unfolding fetch_all extract tempcwd
process_extra_files h c r =
    on_tmp (
      fetch_all h (codes "additional_include") (by_path (lang_option r.additional_includes c.lang)))
    >> on_tmp (
        fetch_all h (codes "additional_source") (by_path (lang_option r.additional_sources c.lang)))
    >> on_tmp (fetch_all h (codes "extra_file") r.extra_files)
    >> fetch_archive h r.additional_archive
