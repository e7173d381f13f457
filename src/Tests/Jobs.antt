-- ===== src/Tests/Jobs.antt =====
-- Jobs: an entry point that fails after a filter, one that returns, and a file that goes to the file
-- tracker and comes back.
use sioworkers.Prelude.{
  zero, suc, ℕ, ◌≡◌, refl, true, false, some, none, [], ◌∷◌, ok, raise, failure, codes, Result,
  Ends,
}
use sioworkers.Runner.{
  run_filters, attempt, Environ, EntryPoints, EntryPoint, new_object, run, call_entry, job_of,
  success,
}
use sioworkers.Runner.Failures.{job_if, NoFailure, error_of, After, run-NoFailure, run_job}
use sioworkers.FileTracker.{World, Files, flag, upload, download}
use sioworkers.FileTracker.Transfers.{Stored, Fetched, download-upload}

abbrev environ : Environ
environ = record {
  filetracker_url = some (codes "http://files");
  prefilters = [];
  postfilters = [];
  job_type = some 1;
  worker = none;
  result = none;
  rest = (7, 7) ∷ [];
}

abbrev job : ℕ → Result EntryPoint
job zero = ok (raise failure)
job (suc zero) = ok (λ e. (ok (new_object (record e { rest = [] })), e))
job (suc (suc n)) = ok (raise failure)

-- Any file tracker can be reached. Filter 0 raises Failure; job 1 returns a new environment, job 2 raises Failure.
abbrev entry_points : EntryPoints
entry_points = record {
  init_instance = λ url. ok tt;
  filters = λ f. ok (raise failure);
  jobs = job;
}

run-NoFailure_example :
    NoFailure (error_of (run entry_points 9 (record environ { prefilters = 0 ∷ [] })))
run-NoFailure_example = run-NoFailure entry_points 9 (record environ { prefilters = 0 ∷ [] })

run_job_example :
    run entry_points 9 environ
    ≡ After (job_if (ok tt) (call_entry (job_of entry_points (some 1))) environ 9) 9
run_job_example = run_job entry_points 9 environ refl refl

-- The environment that the job returned has the result; what it did not take over is gone.
returned :
    run entry_points 9 environ
    ≡ (ok tt, record environ { worker = some 9; result = some success; rest = [] })
unfolding run attempt run_filters
returned = refl

abbrev store : World
store = record {
  tmpdir = codes "/tmp/1";
  original_cwd = codes "/root";
  mode = flag true;
  exists = λ p. false;
  same_file = λ p q. false;
  copy = λ p q. ok tt;
  get_file = λ p q. ok tt;
  put_file = λ p q. ok (codes "/a/b@1");
}

abbrev files : Files
files = record { environ = []; transfers = [] }

download-upload_example :
    Ends
      (λ name g.
        Stored store (codes "exe") (codes "out") (some (codes "/a/b")) files name g
        × Ends
            (Fetched store none name)
            (λ h. h.environ ≡ g.environ)
            (download store (codes "exe") none false g))
      (λ g. g.environ ≡ [])
      (upload store (codes "exe") (codes "out") (some (codes "/a/b")) files)
download-upload_example =
    download-upload store (codes "exe") (codes "out") (some (codes "/a/b")) none files refl
