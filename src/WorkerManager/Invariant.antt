-- ===== src/WorkerManager/Invariant.antt =====
-- What holds of the worker manager of workermanager.py whatever happens to it, and what runOnWorker
-- refuses.
use sioworkers.Prelude.{
  ℕ, ◌≡◌, refl, ◌≤◌, inl, inr, true, false, some, List, [], ◌∷◌, arith, length, lookup,
  lookup-insert, Bool-cases, ok, raised, ◌↔◌, runtime_error, ◌⊎◌,
}
use sioworkers.Ram.{Env}
use sioworkers.Scheduler.Task.{is_real_cpu}
use sioworkers.WorkerManager.{Manager, run_on_worker, refuses, Event, step, run, new_manager}
use sioworkers.WorkerManager.Data.{Worker}
use sioworkers.WorkerManager.Objects.{AllOk, holds, Inv, contains-add_to_set}
use sioworkers.WorkerManager.Steps.{step-Inv, IsNew}

-- Each job that is sent is of a task without an unanswered call.
unfoldable pub AreNew : List Event → Manager → Type 0
AreNew [] m = Unit {0}
AreNew (e ∷ es) m = IsNew e m × AreNew es (step e m)

pub run-Inv : (es : List Event) (m : Manager) → AreNew es m → Inv m → Inv (run es m)
unfolding run AreNew
run-Inv [] m n h = h
run-Inv (e ∷ es) m n h = run-Inv es (step e m) n.1 (step-Inv e m n.0 h)

pub new_manager-Inv : Inv new_manager
unfolding new_manager
new_manager-Inv = record {
  objects_ok = λ r. tt;
  calls_held = λ tid. tt;
  fresh = λ r l. refl;
  deferreds_dict = tt;
  running = refl;
  single = refl;
}

-- Whatever happens to a manager that starts with no workers, in any order, if no job is sent for a
-- task whose call has not been answered: it is never crashed as the code does when the impossible
-- happened, and no worker object ever has more tasks than its concurrency, or one that runs a cpu-exec
-- job another task beside it or no leave to run it.
pub run-never_crashes :
    (es : List Event) (r : ℕ)
    → AreNew es new_manager
    → ((run es new_manager).crashed ≡ false) × AllOk (lookup r (run es new_manager).objects)
run-never_crashes es r new =
    let h = run-Inv es new_manager new new_manager-Inv in (h.running, h.objects_ok r)

-- The worker runs an exclusive job, or has no place left, or the job is exclusive and the worker has
-- a task or may not run it.
abbrev pub Refused : Worker → Env → Type 0
Refused w task =
    (w.is_running_cpu_exec ≡ true)
    ⊎ (w.concurrency ≤ length w.tasks)
    ⊎ ((is_real_cpu task.job_type ≡ true) × ((¬ (w.tasks ≡ [])) ⊎ (w.can_run_cpu_exec ≡ false)))

refuses_iff : (w : Worker) (task : Env) → (refuses w task ≡ true) ↔ Refused w task
unfolding refuses
refuses_iff w task = ground arith

-- What runOnWorker does on a connected worker: it refuses the job with RuntimeError and changes
-- nothing, just if the worker runs an exclusive job, or has no place left, or the job is exclusive
-- and the worker has a task or may not run it. Otherwise it succeeds, the task is among the worker's
-- and an unanswered call on the worker's connection is kept for it.
pub run_on_worker_cases :
    (name connection r : ℕ) (w : Worker) (task : Env) (m : Manager)
    → lookup name m.workers ≡ some connection
    → lookup name m.worker_data ≡ some r
    → lookup r m.objects ≡ some w
    → (Refused w task × (run_on_worker name task m ≡ (raised runtime_error, m)))
      ⊎ ((¬ Refused w task)
          × ((run_on_worker name task m).0 ≡ ok tt)
          × (lookup task.task_id (run_on_worker name task m).1.deferreds
              ≡ some (record { worker = name; connection = connection; object = r }))
          × (holds task.task_id (lookup r (run_on_worker name task m).1.objects) ≡ true))
unfolding run_on_worker
run_on_worker_cases name connection r w task m e f g = elim (Bool-cases (refuses w task)) [
  | inl x ↦ inl ((refuses_iff w task).0 x, rw (e, f, g, x) refl)
  | inr x ↦ inr (
    (λ y. let t = (refuses_iff w task).1 y in cc),
    rw (e, f, g, x) refl,
    rw (e, f, g, x) (rw (lookup-insert task.task_id task.task_id _ m.deferreds) (ground arith)),
    rw (e, f, g, x)
        (rw (lookup-insert r r _ m.objects)
          (ground (arith, contains-add_to_set task.task_id task.task_id w.tasks))),
  )
]
