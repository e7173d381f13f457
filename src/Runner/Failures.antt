-- ===== src/Runner/Failures.antt =====
-- What becomes of the exceptions of a job and of its filters.
use sioworkers.Prelude.{
  ◌>>◌, ℕ, ◌≡◌, refl, ap, ◌∙◌, Bool, true, false, Option, none, some, List, [], Result, ok, raised,
  Exception, arith, if◌then◌else◌,
}
use sioworkers.Runner.{
  update, set_result, add_meta, do_job, Environ, EntryPoints, Returned, same_object, content,
  connected, EntryPoint, prefilter, success, failed, run, attempt, recover, forgive, postfilter,
  is_failure, call_entry, job_of, run_filters, assign,
}

-- The exception of a run, if it raises one.
abbrev pub error_of : {S A : Type 0} → Result A × S → Option Exception
error_of (ok a, s) = none
error_of (raised x, s) = some x

abbrev pub NoFailure : Option Exception → Type 0
NoFailure none = Unit {0}
NoFailure (some x) = is_failure x ≡ false

forgive-NoFailure : (end : Result (Unit {0}) × Environ) → NoFailure (error_of (forgive end))
forgive-NoFailure (ok a, e) = tt
forgive-NoFailure (raised x, e) = ground arith

recover-NoFailure :
    (ep : EntryPoints) (end : Result (Unit {0}) × Environ) → NoFailure (error_of (recover ep end))
recover-NoFailure ep (ok a, e) = tt
recover-NoFailure ep (raised x, e) = chosen (is_failure x) refl
  where
    chosen :
        (b : Bool)
        → is_failure x ≡ b
        → NoFailure (
            error_of (
              if b
              then forgive (postfilter ep (record e { result = some (failed x) }))
              else (raised x, e)))
    chosen true h = forgive-NoFailure (postfilter ep (record e { result = some (failed x) }))
    chosen false h = h

-- What `run` leaves of a job without filters that ended so.
abbrev pub After : Result Returned × Environ → ℕ → Result (Unit {0}) × Environ
After (ok r, e) node = (ok tt, record (content r e) { result = some success })
After (raised x, e) node =
    if is_failure x then (ok tt, record e { result = some (failed x) }) else (raised x, e)

abbrev pub NoPostfilters : Result Returned × Environ → Type 0
NoPostfilters (ok r, e) = (content r e).postfilters ≡ []
NoPostfilters (raised x, e) = e.postfilters ≡ []

-- A Failure of a job or of a filter never comes out of `run`.
pub run-NoFailure :
    (ep : EntryPoints) (node : ℕ) (e : Environ) → NoFailure (error_of (run ep node e))
unfolding run
run-NoFailure ep node e = recover-NoFailure ep (attempt ep node e)

-- A list of filters that is empty changes nothing.
no_filters :
    (ep : EntryPoints) (fs : List ℕ) (e : Environ)
    → fs ≡ []
    → update (run_filters ep fs same_object) e ≡ (ok tt, e)
unfolding run_filters
no_filters ep fs e h = rw h refl

-- The run from the job on.
abbrev from_job : EntryPoints → Result Returned × Environ → Result (Unit {0}) × Environ
from_job ep end = recover ep (((λ s. assign end) >> set_result success >> postfilter ep) end.1)

from_job_lem :
    (ep : EntryPoints) (node : ℕ) (end : Result Returned × Environ)
    → NoPostfilters end
    → from_job ep end ≡ After end node
unfolding run_filters
from_job_lem ep node (ok r, e) n =
    ap (recover ep)
      (no_filters ep (content r e).postfilters (record (content r e) { result = some success }) n)
from_job_lem ep node (raised x, e) n =
    ap (λ end. if is_failure x then forgive end else (raised x, e))
      (no_filters ep e.postfilters (record e { result = some (failed x) }) n)

abbrev from_start : EntryPoints → ℕ → Result (Unit {0}) × Environ → Result (Unit {0}) × Environ
from_start ep node end =
    recover ep
      (((λ s. end) >> add_meta node >> do_job ep >> set_result success >> postfilter ep) end.1)

-- The job, if the file tracker can be reached.
abbrev pub job_if : Result (Unit {0}) → EntryPoint → Environ → ℕ → Result Returned × Environ
job_if (ok u) f e node = f (record e { worker = some node })
job_if (raised x) f e node = (raised x, e)

abbrev from_connect : EntryPoints → ℕ → Result (Unit {0}) → Environ → Result (Unit {0}) × Environ
from_connect ep node c e = recover ep (
    ((λ s. (c, s))
        >> prefilter ep
        >> add_meta node
        >> do_job ep
        >> set_result success
        >> postfilter ep)
      e)

from_connect_lem :
    (ep : EntryPoints) (node : ℕ) (c : Result (Unit {0})) (e : Environ)
    → e.prefilters ≡ []
    → NoPostfilters (job_if c (call_entry (job_of ep e.job_type)) e node)
    → from_connect ep node c e ≡ After (job_if c (call_entry (job_of ep e.job_type)) e node) node
unfolding run_filters
from_connect_lem ep node (ok u) e h n =
    ap (from_start ep node) (no_filters ep e.prefilters e h)
    ∙ from_job_lem ep node (call_entry (job_of ep e.job_type) (record e { worker = some node })) n
from_connect_lem ep node (raised x) e h n = from_job_lem ep node (raised x, e) n

-- Without filters: a job that returns gives SUCCESS in the environment that it returned, one that
-- raises Failure gives FAILURE, and any other exception goes on. Where the file tracker cannot be
-- reached, the job is not run, and it is as if it had raised that exception.
pub run_job :
    (ep : EntryPoints) (node : ℕ) (e : Environ)
    → e.prefilters ≡ []
    → let end =
        job_if (connected ep e.filetracker_url) (call_entry (job_of ep e.job_type)) e node in
      NoPostfilters end → run ep node e ≡ After end node
unfolding run attempt run_filters
run_job ep node e h n = from_connect_lem ep node (connected ep e.filetracker_url) e h n
