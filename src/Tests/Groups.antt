-- ===== src/Tests/Groups.antt =====
-- A group of one task that waits for a worker.
use sioworkers.Prelude.{
  not, ℕ, ◌<◌, ◌≡◌, refl, true, false, some, none, [], ◌∷◌, lookup, ltb, arith, Bool,
}
use sioworkers.Prelude.Int.{pos}
use sioworkers.Ram.{Env}
use sioworkers.Sorted.{plain_set, plain_list}
use sioworkers.WorkerManager.{new_manager}
use sioworkers.Scheduler.Task.{new_task, is_real_cpu, TaskInfo-discrete}
use native.Mathlib.Decide.{ℕ_discrete}
use sioworkers.Scheduler.Worker.{WorkerInfo}
use sioworkers.Scheduler.Queues
use sioworkers.Scheduler.Queues.{choose_task}
use sioworkers.Scheduler.Waiting
use sioworkers.Scheduler.Schedule.{schedule}
use sioworkers.Scheduler.Selection.{get_best_vcpu_only_worker_for_virtual_cpu_task}
use sioworkers.Scheduler.Blocking.{get_number_of_blocked_any_cpu_workers}
use sioworkers.WorkerManager.Data.{worker_stats}
use sioworkers.Scheduler.State.{update_contest, add_task, choose, Packages, new_state}
use sioworkers.TaskManager.{Group}
use sioworkers.Dispatch
use sioworkers.Dispatch.Returning.{Tallied, finish_task-returned}
use sioworkers.Dispatch.{finish_task, single, whole, Board, Collector, Event, adds}
use sioworkers.Dispatch.Counting.{count}
use sioworkers.Dispatch.Fair.{Fair}
use sioworkers.Dispatch.Waiting.{run-waits}

WorkerInfo-discrete : Discrete WorkerInfo
WorkerInfo-discrete = hlevel ℕ_discrete

abbrev packages : Packages
packages = record {
  task_set = plain_set TaskInfo-discrete;
  worker_set = plain_set WorkerInfo-discrete;
  ram_list = plain_list;
  randint = λ draw low high. low;
}

abbrev job : Env
job = record {
  task_id = 3;
  job_type = "compile";
  contest_uid = 0;
  task_priority = none;
  check_output = false;
  limits = [];
}

abbrev group : Group
group = record { group_id = 100; return_url = some 80; workers_jobs = job ∷ []; error = false }

abbrev board : Board
board = record {
  scheduler = new_state;
  manager = new_manager;
  database = record { db = []; on_disk = [] };
  in_progress = [];
  collectors = [];
  serial = 0;
  returned = [];
}

-- Groups have the ids from 100 on.
abbrev is_group : ℕ → Bool
is_group id = not (ltb id 100)

board-Fair : Fair is_group none board
board-Fair = record { apart = tt; counting = tt; unique = tt }

abbrev waiting_list : Collector
waiting_list = record {
  group = group;
  size = 1;
  finished = 0;
  has_failed = false;
  collecting = true;
}

one_waits :
    lookup 0 (Dispatch.run packages 9 9 (adds group 5 (pos 0) 1 ∷ []) board).collectors
    ≡ some waiting_list
unfolding Dispatch.run update_contest add_task new_task is_real_cpu Queues.add_task
    Dispatch.defer_task schedule choose choose_task get_best_vcpu_only_worker_for_virtual_cpu_task
    Waiting.left get_number_of_blocked_any_cpu_workers worker_stats new_manager
one_waits = refl

run-waits_example :
    0 < count 0 (Dispatch.run packages 9 9 (adds group 5 (pos 0) 1 ∷ []) board).in_progress
run-waits_example =
    run-waits is_group packages 9 9 (adds group 5 (pos 0) 1 ∷ []) board 0 waiting_list
      ((refl, (refl, tt)), tt) board-Fair one_waits (omega arith)

-- The task of the group has just ended with an error.
abbrev one_left : Board
one_left = record board {
  in_progress = (3, single job 0) ∷ (100, whole group) ∷ [];
  collectors = (0, waiting_list) ∷ [];
  serial = 1;
}

finish_task-returned_example :
    Tallied packages 9 9 waiting_list true [] (finish_task packages 9 9 3 0 true one_left).1
finish_task-returned_example =
    finish_task-returned packages 9 9 3 0 true one_left waiting_list refl refl
