-- ===== src/Scheduler/Worker/Accounts.antt =====
-- A worker's counters against the tasks that it runs.
use sioworkers.Prelude.{
  ℕ, suc, ◌+◌, ◌≤◌, ◌<◌, ◌≡◌, refl, ◌⊎◌, Bool, true, false, List, [], ◌∷◌, arith, if◌then◌else◌,
  length, ok, raised, assertion_error,
}
use sioworkers.Prelude.Inserted.{Inserted, here, there}
use sioworkers.Scheduler.Task.{TaskInfo}
use sioworkers.Scheduler.Worker.{WorkerInfo, attach_task, detach_task}

abbrev pub sum_ram : List TaskInfo → ℕ
sum_ram [] = 0
sum_ram (t ∷ ts) = t.required_ram_mb + sum_ram ts

abbrev pub any_real : List TaskInfo → Bool
any_real [] = false
any_real (t ∷ ts) = if t.real_cpu then true else any_real ts

-- The counters are those of the tasks `ts`, and within the worker's limits; a real-cpu task is
-- alone, on a worker that may run it.
pub record Holds (w : WorkerInfo) (ts : List TaskInfo) : Type 0 where
  pub running : w.running_tasks ≡ length ts
  pub used : w.used_ram_mb ≡ sum_ram ts
  pub real : w.is_running_real_cpu ≡ any_real ts
  pub slots : length ts ≤ w.concurrency
  pub ram : sum_ram ts ≤ w.total_ram_mb
  pub alone : any_real ts ≡ true → (length ts ≡ 1) × (w.cpu_enabled ≡ true)

-- A worker has room for a task.
pub record HasRoom (w : WorkerInfo) (t : TaskInfo) : Type 0 where
  pub free_slot : w.running_tasks < w.concurrency
  pub free_ram : w.used_ram_mb + t.required_ram_mb ≤ w.total_ram_mb
  pub not_exclusive : w.is_running_real_cpu ≡ false
  pub real_fits : t.real_cpu ≡ true → (w.cpu_enabled ≡ true) × (w.running_tasks ≡ 0)

-- Attaching a task either succeeds, on a worker that has room for it, or fails an assertion on one
-- that has not and leaves the worker as it was.
pub attach_task_cases :
    (t : TaskInfo) (w : WorkerInfo)
    → (HasRoom w t × ((attach_task t w).0 ≡ ok tt))
      ⊎ ((¬ HasRoom w t) × (attach_task t w ≡ (raised assertion_error, w)))
unfolding attach_task
attach_task_cases t w = ground arith

pub attach_task-Holds :
    (t : TaskInfo) (w : WorkerInfo) (ts : List TaskInfo)
    → Holds w ts
    → HasRoom w t
    → ((attach_task t w).0 ≡ ok tt) × Holds (attach_task t w).1 (t ∷ ts)
unfolding attach_task
attach_task-Holds t w ts h r = ground arith

sum_ram-Inserted :
    (t : TaskInfo) {l m : List TaskInfo}
    → Inserted t l m
    → sum_ram m ≡ t.required_ram_mb + sum_ram l
sum_ram-Inserted t here = refl
sum_ram-Inserted t (there i) = omega (arith, sum_ram-Inserted t i)

length-Inserted : {t : TaskInfo} {l m : List TaskInfo} → Inserted t l m → length m ≡ suc (length l)
length-Inserted here = refl
length-Inserted (there i) = omega (arith, length-Inserted i)

any_real-Inserted :
    (t : TaskInfo) {l m : List TaskInfo} → Inserted t l m → any_real m ≡ false → any_real l ≡ false
any_real-Inserted t here e = ground arith
any_real-Inserted t (there {y = y} i) e = ground (arith, any_real-Inserted t i)

any_real-nil : (l : List TaskInfo) → length l ≡ 0 → any_real l ≡ false
any_real-nil [] e = refl
any_real-nil (t ∷ l) e = absurd (omega arith)

-- Whichever of its tasks a worker gives up, no assertion fails and the counters stay right.
pub detach_task-Holds :
    (t : TaskInfo) (w : WorkerInfo) (ts rest : List TaskInfo)
    → Holds w ts
    → Inserted t rest ts
    → ((detach_task t w).0 ≡ ok tt) × Holds (detach_task t w).1 rest
unfolding detach_task
detach_task-Holds t w ts rest h i =
    ground
      (arith, sum_ram-Inserted t i, length-Inserted i, any_real-Inserted t i, any_real-nil rest)

-- A worker that has room for a task is the same again after the task has come and gone.
pub detach_task-attach_task :
    (t : TaskInfo) (w : WorkerInfo) → HasRoom w t → detach_task t (attach_task t w).1 ≡ (ok tt, w)
unfolding attach_task detach_task
detach_task-attach_task t w r = ground arith
