-- ===== src/Generating.antt =====
-- sio/executors/ingen.py: a program that makes files, and the upload of those whose names match. The
-- executor, what it leaves in the directory and the regular expression are arguments.
pub mod Collected
use sioworkers.Prelude.{
  ℕ, ◌*◌, Bool, true, false, Option, none, some, List, [], ◌∷◌, ◌++◌, if◌then◌else◌, Result, ok,
  raised, Action, ◌>>◌, ◌>>=◌, pure, lift, codes, key_error, os_error,
}
use sioworkers.Prelude.Int.{ℤ, pos}
use sioworkers.Paths.{path_join}
use sioworkers.Executors.Quoting.{Args, plain, cons, nil, words}
use sioworkers.Executors.Process.{Environ, Kwargs, Renv, call_executor, same_ℤ}
use sioworkers.Executors.Proot.{Env}
use sioworkers.FileTracker.{flag, World, Files, download, upload}

-- What a job gets: its limits, whether names match `re_string`, and where the files are put.
pub record Request : Type 0 where
  pub limits : Environ
  pub matches : List ℕ → Bool
  pub collected_files_path : Result (List ℕ)

-- The executor that was chosen, its path of the program, and the names in the directory after the run.
pub record Machine : Type 0 where
  pub enter : Result (Unit {0})
  pub execute : Args → Kwargs → Result Renv
  pub program : List ℕ
  pub listing : List (List ℕ)

abbrev pub collected_name : List ℕ → List ℕ → List ℕ
collected_name path name = path ++ codes "/" ++ name

-- `_collect_and_upload`, over the names in the directory; the keys are those of `collected_files`,
-- where `use_filetracker` is not set.
unfoldable pub collect : World → (List ℕ → Bool) → List ℕ → List (List ℕ) → Action Files (Unit {0})
collect w matches path [] = pure tt
collect w matches path (name ∷ names) =
    let rest = collect w matches path names in
    if matches name
    then (upload w name (path_join w.tmpdir name) (some (collected_name path name)) >> rest)
    else rest

abbrev pub ingen_kwargs : Kwargs
ingen_kwargs = record {
  mem_limit = some (256 * 1024);
  time_limit = some (600 * 1000);
  real_time_limit = none;
  output_limit = some (10 * 1024);
  ignore_errors = true;
  extra_ignore_errors = [];
  capture_output = true;
  split_lines = true;
}

-- What is returned: the results of the run, and `collected_files` if it is there.
pub record Generated : Type 0 where
  pub renv : Renv
  pub collected_files : Option Env

-- The uploads go on with the transfers of the job, and keys of their own.
abbrev pub with_collected : Renv → Files → Result (Unit {0}) × Files → Result Generated × Files
with_collected v f (ok u, g) = (
  ok (record { renv = v; collected_files = some g.environ }),
  record f { transfers = g.transfers },
)
with_collected v f (raised e, g) = (raised e, record f { transfers = g.transfers })

-- The world for an environment without `use_filetracker`.
abbrev pub tracked : World → World
tracked w = record w { mode = flag true }

abbrev pub collect_all : World → Request → Machine → Renv → List ℕ → Action Files Generated
collect_all w r m v path f =
    with_collected v f (collect (tracked w) r.matches path m.listing (record f { environ = [] }))

abbrev pub ended_well : Renv → Result Bool
ended_well v = elim v.return_code [ none ↦ raised key_error | some n ↦ ok (same_ℤ n (pos 0)) ]

abbrev pub after_run : World → Request → Machine → Renv → Bool → Action Files Generated
after_run w r m v true = lift r.collected_files_path >>= collect_all w r m v
after_run w r m v false = pure (record { renv = v; collected_files = none })

abbrev pub run_program : Request → Machine → Result Renv
run_program r m =
    call_executor m.execute r.limits (codes "ingen_") (words (cons (plain m.program) nil))
      ingen_kwargs

abbrev pub after : World → Request → Machine → Renv → Action Files Generated
after w r m v = lift (ended_well v) >>= after_run w r m v

-- `_run_in_executor`
unfoldable pub run_in_executor : World → Request → Machine → Action Files Generated
unfolding collect call_executor
run_in_executor w r m = lift m.enter >> lift (run_program r m) >>= after w r m

-- `run`
unfoldable pub run : World → Request → Machine → Action Files Generated
unfolding run_in_executor download
run w r m = download w (codes "exe_file") (some (codes "ingen")) true >> run_in_executor w r m
