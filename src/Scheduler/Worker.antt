-- ===== src/Scheduler/Worker.antt =====
-- WorkerInfo of sio/sioworkersd/scheduler/prioritizing.py: the scheduler's view of one worker.
-- Amounts of RAM are numbers of 1024ths of a MiB (see Ram).
pub mod Accounts
use sioworkers.Prelude.{
  ℕ, suc, ◌+◌, ◌-◌, ◌*◌, ◌≤◌, ◌<◌, ◌≡◌, Bool, true, false, not, List, [], ◌∷◌, Option, none, some,
  arith, ltb, leb, ◌==◌, if◌then◌else◌, Action, Result, ok, raised, assertion_error, pure, gets,
  modify, require, ◌>>=◌, ◌>>◌,
}
use sioworkers.WorkerManager.Data.{Worker}
use sioworkers.Scheduler.Task.{TaskInfo}

pub record WorkerInfo : Type 0 where
  pub id : ℕ
  pub concurrency : ℕ
  pub total_ram_mb : ℕ
  pub cpu_enabled : Bool
  pub is_running_real_cpu : Bool
  pub running_tasks : ℕ
  pub used_ram_mb : ℕ

pub data QueueName : Type 0 where
  any_cpu vcpu_only : QueueName

-- The constructor: a new worker runs nothing. The manager counts whole MiB.
unfoldable pub new_worker : ℕ → Worker → Result WorkerInfo
new_worker wid wdata =
    if ltb 0 wdata.concurrency
    then (if ltb 0 wdata.available_ram_mb
        then (if wdata.is_running_cpu_exec then raised assertion_error else fresh wdata.tasks)
        else raised assertion_error)
    else raised assertion_error
  where
    fresh : List ℕ → Result WorkerInfo
    fresh [] = ok (record {
      id = wid;
      concurrency = wdata.concurrency;
      total_ram_mb = wdata.available_ram_mb * 1024;
      cpu_enabled = wdata.can_run_cpu_exec;
      is_running_real_cpu = false;
      running_tasks = 0;
      used_ram_mb = 0;
    })
    fresh (t ∷ ts) = raised assertion_error

unfoldable pub get_queue_name : WorkerInfo → Option QueueName
get_queue_name w =
    if w.is_running_real_cpu
    then none
    else if w.running_tasks == w.concurrency
    then none
    else if w.cpu_enabled
    then some any_cpu
    else some vcpu_only

unfoldable pub get_available_ram : WorkerInfo → ℕ
get_available_ram w = w.total_ram_mb - w.used_ram_mb

unfoldable pub get_available_vcpu_slots : WorkerInfo → ℕ
get_available_vcpu_slots w = if w.is_running_real_cpu then 0 else w.concurrency - w.running_tasks

-- Its three assertions, then those for a real-cpu task, then the counts.
unfoldable pub attach_task : TaskInfo → Action WorkerInfo (Unit {0})
attach_task task = do
  w ← gets (λ w. w)
  require (ltb w.running_tasks w.concurrency) assertion_error
  require (leb (w.used_ram_mb + task.required_ram_mb) w.total_ram_mb) assertion_error
  require (not w.is_running_real_cpu) assertion_error
  if task.real_cpu
      then (require w.cpu_enabled assertion_error
          >> require (w.running_tasks == 0) assertion_error
          >> modify (λ w. record w { is_running_real_cpu = true }))
      else pure tt
  modify (λ w. record w {
    used_ram_mb = w.used_ram_mb + task.required_ram_mb;
    running_tasks = w.running_tasks + 1;
  })

unfoldable pub detach_task : TaskInfo → Action WorkerInfo (Unit {0})
detach_task task = do
  w ← gets (λ w. w)
  require (leb 1 w.running_tasks) assertion_error
  require (if w.running_tasks == 1 then true else not w.is_running_real_cpu) assertion_error
  require (leb task.required_ram_mb w.used_ram_mb) assertion_error
  modify (λ w. record w {
    used_ram_mb = w.used_ram_mb - task.required_ram_mb;
    running_tasks = w.running_tasks - 1;
    is_running_real_cpu = false;
  })
