-- ===== src/Tests/Workers.antt =====
-- A worker's counters, and the choice of a worker.
use sioworkers.Prelude.{◌*◌, ◌≡◌, refl, true, none, some, List, [], ◌∷◌, ok, arith}
use sioworkers.Prelude.Inserted.{here}
use sioworkers.Scheduler.Worker.{
  WorkerInfo, get_available_ram, get_available_vcpu_slots, attach_task, detach_task,
}
use sioworkers.Scheduler.Worker.Accounts.{Holds, HasRoom, attach_task-Holds, detach_task-Holds}
use sioworkers.Scheduler.Selection.{get_best_worker_for_virtual_cpu_task}
use sioworkers.Ram.{Env}
use sioworkers.Tests.Samples.{urgent, later, worker}

abbrev busy : WorkerInfo
busy = worker 1 1024 1 64

busy-Holds : Holds busy (urgent ∷ [])
busy-Holds = record {
  running = refl;
  used = refl;
  real = refl;
  slots = omega arith;
  ram = omega arith;
  alone = λ e. cc;
}

busy-HasRoom : HasRoom busy later
busy-HasRoom = record {
  free_slot = omega arith;
  free_ram = omega arith;
  not_exclusive = refl;
  real_fits = λ e. cc;
}

attach_task-Holds_example :
    ((attach_task later busy).0 ≡ ok tt) × Holds (attach_task later busy).1 (later ∷ urgent ∷ [])
attach_task-Holds_example = attach_task-Holds later busy (urgent ∷ []) busy-Holds busy-HasRoom

detach_task-Holds_example :
    ((detach_task urgent busy).0 ≡ ok tt) × Holds (detach_task urgent busy).1 []
detach_task-Holds_example = detach_task-Holds urgent busy (urgent ∷ []) [] busy-Holds here

abbrev pool : List WorkerInfo
pool = worker 2 512 0 0 ∷ worker 3 2048 0 0 ∷ busy ∷ []

-- A busy worker is preferred to an idle one, and a real-cpu task wants an idle one.
chosen_for_virtual : get_best_worker_for_virtual_cpu_task pool (100 * 1024) true ≡ some busy
unfolding get_best_worker_for_virtual_cpu_task get_available_ram get_available_vcpu_slots
chosen_for_virtual = refl

abbrev pub checked_exec : Env
checked_exec = record {
  task_id = 1;
  job_type = "cpu-exec";
  contest_uid = 7;
  task_priority = none;
  check_output = true;
  limits = ("exec_mem_limit", 32 * 1024) ∷ [];
}
