-- ===== src/Tests/Manager.antt =====
-- The worker manager with two workers, and two connections of one name.
use sioworkers.Prelude.{
  ℕ, ok, ◌≡◌, refl, true, false, none, some, List, [], ◌∷◌, lookup, raised, key_error,
}
use sioworkers.WorkerManager.{
  run_on_worker, completes_older, finish_new_worker, step, Info, Event, begins, finishes, loses,
  runs, completes, success, run, new_manager, worker_lost,
}
use sioworkers.WorkerManager.Objects.{AllOk}
use sioworkers.WorkerManager.Invariant.{AreNew, run-never_crashes}
use sioworkers.WorkerManager.Reconnect.{double_connection}
use sioworkers.Ram.{Env}
use sioworkers.Tests.Workers.{checked_exec}

abbrev pub strong : Info
strong = record { concurrency = 2; available_ram_mb = 2048; can_run_cpu_exec = true }

abbrev connect : List Event
connect = begins 5 50 ∷ finishes 5 50 [] (some strong) ∷ []

abbrev session : List Event
session =
    begins 5 50
    ∷ finishes 5 50 [] (some strong)
    ∷ runs 5 checked_exec
    ∷ completes 1 success
    ∷ loses 5
    ∷ []

run-never_crashes_example :
    ((run session new_manager).crashed ≡ false) × AllOk (lookup 0 (run session new_manager).objects)
unfolding AreNew step finish_new_worker sioworkers.WorkerManager.begin_new_worker new_manager
run-never_crashes_example = run-never_crashes session 0 (tt, (tt, (refl, (tt, (tt, tt)))))

-- Two calls for task 1 on worker 5: the answer to one frees a place, and the other one answers while
-- an exclusive job runs.
abbrev virtual : ℕ → Env
virtual tid = record checked_exec { task_id = tid; job_type = "ping" }

crashes_on_old_call :
    (run
      (begins 5 50
        ∷ finishes 5 50 [] (some strong)
        ∷ begins 6 60
        ∷ finishes 6 60 [] (some strong)
        ∷ runs 5 (virtual 1)
        ∷ runs 5 (virtual 1)
        ∷ completes_older 0 success
        ∷ runs 5 (record checked_exec { task_id = 2 })
        ∷ runs 6 (virtual 1)
        ∷ completes_older 0 success
        ∷ [])
      new_manager).crashed
    ≡ true
unfolding run step new_manager sioworkers.WorkerManager.begin_new_worker finish_new_worker
    sioworkers.WorkerManager.run_on_worker sioworkers.WorkerManager.complete_older
    sioworkers.Scheduler.Task.is_real_cpu
crashes_on_old_call = refl

double_connection_example :
    let begun = run (begins 5 50 ∷ begins 5 51 ∷ []) new_manager in
    let accepted = finish_new_worker 5 50 [] (some strong) begun in
    let replaced = finish_new_worker 5 51 [] (some strong) accepted.1 in
    let n = step (loses 5) replaced.1 in
    (accepted.0 ≡ ok tt)
    × (lookup 5 accepted.1.workers ≡ some 50)
    × (replaced.0 ≡ ok tt)
    × (lookup 5 replaced.1.workers ≡ some 51)
    × (lookup 5 n.workers ≡ none)
    × (n.dropped ≡ new_manager.dropped)
    × ((worker_lost 5 n).0 ≡ raised key_error)
unfolding new_manager
double_connection_example = double_connection 5 50 51 strong strong new_manager refl tt tt
