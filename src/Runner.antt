-- ===== src/Runner.antt =====
-- sio/workers/runner.py: a job with its filters. What an entry point does is an argument: it changes
-- the environment that it gets, and returns that very object or a new one, or raises. So is what
-- `init_instance` of sio/workers/ft.py does with the URL of the file tracker. The temporary directory
-- that `run` works in is not modelled: it is made before, and removed after, what is modelled here.
pub mod Failures
use sioworkers.Prelude.{
  ◌>>◌, ℕ, Bool, true, false, Option, none, some, List, [], ◌∷◌, ◌++◌, if◌then◌else◌, Result, ok,
  raised, Exception, failure, key_error, Action, pure, raise,
}

pub data Outcome : Type 0 where
  success : Outcome
  failed : Exception → Outcome

-- An environment: the keys that `run` reads and writes, and the rest. `filetracker_url` is none too
-- where the key has an empty text.
pub record Environ : Type 0 where
  pub filetracker_url : Option (List ℕ)
  pub prefilters : List ℕ
  pub postfilters : List ℕ
  pub job_type : Option ℕ
  pub worker : Option ℕ
  pub result : Option Outcome
  pub rest : List (ℕ × ℕ)

-- What is returned: the object that was given, or a new one.
pub data Returned : Type 0 where
  same_object : Returned
  new_object : Environ → Returned

abbrev pub EntryPoint : Type 0
EntryPoint = Action Environ Returned

-- `init_instance`, and `first_entry_point` for filters and for jobs: they may raise too.
pub record EntryPoints : Type 0 where
  pub init_instance : List ℕ → Result (Unit {0})
  pub filters : ℕ → Result EntryPoint
  pub jobs : ℕ → Result EntryPoint

-- The call of what `first_entry_point` gives.
abbrev pub call_entry : Result EntryPoint → EntryPoint
call_entry (raised e) = raise e
call_entry (ok f) = f

-- The object behind a variable, where `outer` is what the caller has.
abbrev pub content : Returned → Environ → Environ
content same_object outer = outer
content (new_object e) outer = e

abbrev pub after_call : Returned → Environ → Result Returned × Environ → Result Returned × Environ
after_call same_object outer (ok same_object, e) = (ok same_object, e)
after_call same_object outer (ok (new_object n), e) = (ok (new_object n), e)
after_call (new_object m) outer (ok same_object, e) = (ok (new_object e), outer)
after_call (new_object m) outer (ok (new_object n), e) = (ok (new_object n), outer)
after_call same_object outer (raised x, e) = (raised x, e)
after_call (new_object m) outer (raised x, e) = (raised x, outer)

abbrev pub call_on : EntryPoint → Returned → EntryPoint
call_on f current outer = after_call current outer (f (content current outer))

-- The loop of `_run_filters`, over the list that the environment has when it starts.
abbrev pub next_filter :
    (Returned → EntryPoint) → Result Returned × Environ → Result Returned × Environ
next_filter next (ok r, outer) = next r outer
next_filter next (raised x, outer) = (raised x, outer)

unfoldable pub run_filters : EntryPoints → List ℕ → Returned → EntryPoint
run_filters ep [] current outer = (ok current, outer)
run_filters ep (f ∷ fs) current outer =
    next_filter (run_filters ep fs) (call_on (call_entry (ep.filters f)) current outer)

-- `environ = f(environ)` in `run`: the variable has the new object, or still the old one.
abbrev pub assign : Result Returned × Environ → Result (Unit {0}) × Environ
assign (ok r, e) = (ok tt, content r e)
assign (raised x, e) = (raised x, e)

abbrev pub update : EntryPoint → Action Environ (Unit {0})
update f e = assign (f e)

abbrev pub prefilter : EntryPoints → Action Environ (Unit {0})
prefilter ep e = update (run_filters ep e.prefilters same_object) e

abbrev pub postfilter : EntryPoints → Action Environ (Unit {0})
postfilter ep e = update (run_filters ep e.postfilters same_object) e

-- `_add_meta`
abbrev pub add_meta : ℕ → Action Environ (Unit {0})
add_meta node e = (ok tt, record e { worker = some node })

-- `environ['job_type']`
abbrev pub job_of : EntryPoints → Option ℕ → Result EntryPoint
job_of ep none = raised key_error
job_of ep (some j) = ep.jobs j

abbrev pub do_job : EntryPoints → Action Environ (Unit {0})
do_job ep e = update (call_entry (job_of ep e.job_type)) e

abbrev pub set_result : Outcome → Action Environ (Unit {0})
set_result o e = (ok tt, record e { result = some o })

-- `if environ.get('filetracker_url', None): init_instance(...)`
abbrev pub connected : EntryPoints → Option (List ℕ) → Result (Unit {0})
connected ep none = ok tt
connected ep (some url) = ep.init_instance url

abbrev pub connect : EntryPoints → Action Environ (Unit {0})
connect ep e = (connected ep e.filetracker_url, e)

-- The body of the `try` of `run`.
unfoldable pub attempt : EntryPoints → ℕ → Action Environ (Unit {0})
unfolding run_filters
attempt ep node =
    connect ep >> prefilter ep >> add_meta node >> do_job ep >> set_result success >> postfilter ep

abbrev pub is_failure : Exception → Bool
is_failure failure = true
is_failure e = false

-- `except Failure: pass`
abbrev pub forgive : Result (Unit {0}) × Environ → Result (Unit {0}) × Environ
forgive (ok a, e) = (ok a, e)
forgive (raised x, e) = if is_failure x then (ok tt, e) else (raised x, e)

-- `except Failure` of `run`, with `_save_failure`.
abbrev pub recover : EntryPoints → Result (Unit {0}) × Environ → Result (Unit {0}) × Environ
recover ep (ok a, e) = (ok a, e)
recover ep (raised x, e) =
    if is_failure x
    then forgive (postfilter ep (record e { result = some (failed x) }))
    else (raised x, e)

unfoldable pub run : EntryPoints → ℕ → Action Environ (Unit {0})
unfolding attempt run_filters
run ep node e = recover ep (attempt ep node e)
