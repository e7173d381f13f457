-- ===== src/Tests/Tasks.antt =====
-- The worker's end, the server's list of connections, and the task manager, at small inputs.
use sioworkers.Prelude.{
  ◌≤◌, ◌≡◌, refl, inr, true, false, some, List, [], ◌∷◌, ◌++◌, length, lookup, ok, raised,
  key_error, arith, drop, replicate, ◌-◌, suc,
}
use sioworkers.Prelude.Inserted.{In}
use sioworkers.Ram.{Env, ends_with, get_required_ram_for_job}
use sioworkers.WorkerManager.{Manager, idle_worker, new_manager, refuses}
use sioworkers.WorkerProtocol.{
  Node, runs_task, is_cpu_exec, node_run, cmd_run, cpu_exec_alone, interactive_not_guarded, rejects,
}
use sioworkers.WorkerServer.{Factory, worker_connected, worker_disconnected, lost_before_answer}
use sioworkers.TaskManager.{
  AddGroup, gives_back, save_result, Group, empty_job, judged_job, Database, Sender, Resumed,
  judges, given_up, waiting, retry_delay, max_retries, came_back, add_task_group, start_service,
  restart, return_to_sio, sync_db,
}
use sioworkers.TaskManager.Retries.{Stored, Concludes, return_to_sio-gives_up}
use sioworkers.TaskManager.Admitting.{AllFit}
use sioworkers.TaskManager.Survival.{admitted-survives, invalid_group-blocks_start}
use sioworkers.TaskManager.Finished.{finished-survives}
use sioworkers.Tests.Workers.{checked_exec}
use sioworkers.Tests.Manager.{strong}

abbrev node : Node
node = record { running = []; can_run_cpu_exec = true }

cpu_exec_alone_example :
    (length (node_run (runs_task checked_exec ∷ []) node).running ≤ 1)
    × ((node_run (runs_task checked_exec ∷ []) node).can_run_cpu_exec ≡ true)
unfolding node_run cmd_run rejects is_cpu_exec
cpu_exec_alone_example = cpu_exec_alone (runs_task checked_exec ∷ []) node refl refl

abbrev interactive : Env
interactive = record checked_exec { task_id = 2; job_type = "cpu-interactive-exec" }

abbrev busy_node : Node
busy_node = record {
  running = (7, record checked_exec { task_id = 7; job_type = "ping" }) ∷ [];
  can_run_cpu_exec = false;
}

interactive_not_guarded_example :
    ((cmd_run interactive busy_node).0 ≡ ok tt)
    × (lookup 2 (cmd_run interactive busy_node).1.running ≡ some interactive)
    × (refuses (record (idle_worker strong) { can_run_cpu_exec = false }) interactive ≡ true)
unfolding is_cpu_exec
interactive_not_guarded_example =
    interactive_not_guarded interactive busy_node
      (record (idle_worker strong) { can_run_cpu_exec = false }) refl refl (inr refl)

abbrev manager_of_one : Manager
manager_of_one = record new_manager {
  workers = (5, 50) ∷ [];
  worker_data = (5, 0) ∷ [];
  objects = (0, idle_worker strong) ∷ [];
}

abbrev factory : Factory
factory = record { workers = (1, 50) ∷ []; ignore_set = []; manager = manager_of_one }

lost_before_answer_example :
    let g = worker_connected 3 6 52 factory in
    (g.0 ≡ ok tt) × ((worker_disconnected 3 6 g.1).0 ≡ raised key_error)
lost_before_answer_example = lost_before_answer 3 6 52 factory refl refl refl

abbrev group : Group
group = record {
  group_id = 4;
  return_url = some 80;
  workers_jobs = checked_exec ∷ [];
  error = false;
}

abbrev empty_db : Database
empty_db = record { db = []; on_disk = [] }

abbrev sender : Sender
sender = record {
  database = record { db = (4, some (judged_job group 100)) ∷ []; on_disk = [] };
  delays = [];
}

sender-Stored : Stored 4 sender
sender-Stored = ((tt, tt), judged_job group 100, refl)

return_to_sio-gives_up_example :
    Concludes 4 given_up
      (drop 4 retry_delay)
      sender
      (return_to_sio 4 (replicate (suc (max_retries - 4)) false ++ []) 4 sender)
return_to_sio-gives_up_example = return_to_sio-gives_up 4 4 [] sender sender-Stored (omega arith)

group_fits : AllFit 300 (checked_exec ∷ [])
unfolding get_required_ram_for_job ends_with
group_fits = (omega arith, tt)

group_too_large : ¬ AllFit 1 (checked_exec ∷ [])
unfolding get_required_ram_for_job ends_with
group_too_large h = absurd (omega (arith, h.0))

-- `_addGroup` where it does not raise.
abbrev takes_all : AddGroup
takes_all g = ok tt

admitted-survives_example :
    (rs : List Resumed) × ((start_service takes_all
        (restart (add_task_group 300 7 group empty_db).1)).0
      ≡ ok rs)
    × In (judges group) rs
admitted-survives_example =
    admitted-survives takes_all 300 7 80 group empty_job empty_db refl group_fits refl refl tt

invalid_group-blocks_start_example :
    let refused = add_task_group 1 7 group empty_db in
    let tried =
      return_to_sio 4 (false ∷ false ∷ []) 0 (record { database = refused.1; delays = [] }) in
    (refused.0 ≡ ok (came_back (record group { error = true })))
    × (tried.0 ≡ ok waiting)
    × ((start_service takes_all (restart (sync_db tried.1.database))).0 ≡ raised key_error)
invalid_group-blocks_start_example =
    invalid_group-blocks_start takes_all 1 7 group (record { database = empty_db; delays = [] })
      group_too_large refl

abbrev stored_db : Database
stored_db = record {
  db = (4, some (judged_job group 100)) ∷ [];
  on_disk = (4, some (judged_job group 100)) ∷ [];
}

finished-survives_example :
    let e = (save_result group stored_db).1 in
    ((rs : List Resumed) × ((start_service takes_all (restart (sync_db e))).0 ≡ ok rs)
      × In (gives_back group 0) rs)
    × ((rs : List Resumed) × ((start_service takes_all (restart e)).0 ≡ ok rs)
        × In (judges group) rs)
finished-survives_example =
    finished-survives takes_all 100 80 group group stored_db refl refl refl refl
      (((100, refl), (judges group, refl)), tt) (((100, refl), (judges group, refl)), tt)
