-- ===== src/Tests/Samples.antt =====
-- Concrete workers, tasks and contests of sio/sioworkersd/scheduler/prioritizing.py.
use sioworkers.Prelude.{ℕ, ◌*◌, Bool, true, false, List, [], ◌∷◌, Dict}
use sioworkers.Prelude.Int.{ℤ, pos, negsuc}
use sioworkers.WorkerManager.Data.{Worker}
use sioworkers.Scheduler.Task.{TaskInfo, ContestInfo}
use sioworkers.Scheduler.Worker.{WorkerInfo}
use sioworkers.Scheduler.Waiting.{WaitingQueue}
use sioworkers.Scheduler.Queues.{Candidate, Queues}

abbrev pub machine : ℕ → Bool → Worker
machine ram cpu = record {
  tasks = [];
  is_running_cpu_exec = false;
  concurrency = 4;
  available_ram_mb = ram;
  can_run_cpu_exec = cpu;
}

-- Two any-cpu workers and a vcpu-only one.
abbrev pub machines : Dict Worker
machines = (1, machine 1024 true) ∷ (2, machine 256 true) ∷ (3, machine 4096 false) ∷ []

abbrev pub task : ℕ → Bool → ℕ → ℤ → ℕ → TaskInfo
task id real ram priority contest = record {
  id = id;
  real_cpu = real;
  required_ram_mb = ram * 1024;
  priority = priority;
  contest = contest;
  sequence_number = id;
}

abbrev pub big : TaskInfo
big = task 1 true 600 (pos 0) 7

abbrev pub small : TaskInfo
small = task 2 true 100 (pos 0) 7

abbrev pub waiting_two : WaitingQueue
waiting_two = record {
  tasks = big ∷ small ∷ [];
  tasks_required_ram = (100 * 1024) ∷ (600 * 1024) ∷ [];
}

abbrev pub waiting_huge : WaitingQueue
waiting_huge = record {
  tasks = task 3 true 2000 (pos 0) 7 ∷ [];
  tasks_required_ram = (2000 * 1024) ∷ [];
}

abbrev pub contest : ℕ → ℤ → ℕ → ContestInfo
contest uid priority weight = record { uid = uid; priority = priority; weight = weight }

abbrev pub urgent : TaskInfo
urgent = task 4 false 64 (pos 5) 8

abbrev pub later : TaskInfo
later = task 5 false 64 (pos 5) 8

-- Contests 7 and 8 share the greatest priority, with weights 1 and 3.
abbrev pub rivals : List Candidate
rivals =
    (contest 6 (negsuc 0) 9, small ∷ [])
    ∷ (contest 7 (pos 2) 1, big ∷ [])
    ∷ (contest 8 (pos 2) 3, later ∷ urgent ∷ [])
    ∷ []

abbrev pub queues : Queues
queues = (7, big ∷ []) ∷ []

abbrev pub worker : ℕ → ℕ → ℕ → ℕ → WorkerInfo
worker id total running used = record {
  id = id;
  concurrency = 4;
  total_ram_mb = total * 1024;
  cpu_enabled = true;
  is_running_real_cpu = false;
  running_tasks = running;
  used_ram_mb = used * 1024;
}
