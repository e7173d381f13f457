-- ===== src/Scheduler/State.antt =====
-- The state of PrioritizingScheduler in sio/sioworkersd/scheduler/prioritizing.py and its methods,
-- but for the scheduling itself. The table of workers holds the worker objects; a queue of workers
-- holds them as they were when they were put in, and the code takes a worker out of its queue
-- before it changes it. `assigned_worker` is the id of the worker.
use sioworkers.Prelude.{
  ℕ, suc, Option, none, some, List, [], leb, ◌==◌, if◌then◌else◌, Dict, lookup, insert, erase,
  Action, ok, raised, key_error, assertion_error, pure, raise, gets, modify, lift, or_raise,
  require, zoom, ◌>>=◌, ◌>>◌,
}
use sioworkers.Prelude.Int.{ℤ}
use sioworkers.Ram.{Env}
use sioworkers.Sorted.{SortedSet, SortedList}
use sioworkers.WorkerManager.Data.{Worker}
use sioworkers.Scheduler.Task.{TaskInfo, ContestInfo, new_task}
use sioworkers.Scheduler.Worker.{
  WorkerInfo, any_cpu, vcpu_only, new_worker, get_queue_name, attach_task, detach_task,
}
use sioworkers.Scheduler.Waiting.{WaitingQueue, empty_queue}
use sioworkers.Scheduler.Waiting
use sioworkers.Scheduler.Queues.{Queues, choose_task}
use sioworkers.Scheduler.Queues
use sioworkers.Scheduler.Selection.{any_cpu_lt, worker_lt}

-- What the scheduler takes from elsewhere: the sorted containers, and the numbers that
-- `random.randint` draws, the first argument counting the draws.
pub record Packages : Type 0 where
  pub task_set : SortedSet TaskInfo
  pub worker_set : SortedSet WorkerInfo
  pub ram_list : SortedList
  pub randint : ℕ → ℕ → ℕ → ℕ

-- A task and its `assigned_worker`.
pub record Entry : Type 0 where
  pub task : TaskInfo
  pub assigned_worker : Option ℕ

pub record State : Type 0 where
  pub workers : Dict WorkerInfo
  pub vcpu_only_workers : List WorkerInfo
  pub any_cpu_workers : List WorkerInfo
  pub contests : Dict ContestInfo
  pub tasks : Dict Entry
  pub virtual_cpu : Queues
  pub both : Queues
  pub waiting_real_cpu_tasks : WaitingQueue
  pub sequence_counter : ℕ
  pub draws : ℕ

-- The constructor.
abbrev pub new_state : State
new_state = record {
  workers = [];
  vcpu_only_workers = [];
  any_cpu_workers = [];
  contests = [];
  tasks = [];
  virtual_cpu = [];
  both = [];
  waiting_real_cpu_tasks = empty_queue;
  sequence_counter = 0;
  draws = 0;
}

abbrev pub on_virtual_cpu : {A : Type 0} → Action Queues A → Action State A
on_virtual_cpu = zoom (λ s. s.virtual_cpu) (λ q s. record s { virtual_cpu = q })

abbrev pub on_both : {A : Type 0} → Action Queues A → Action State A
on_both = zoom (λ s. s.both) (λ q s. record s { both = q })

abbrev pub on_waiting : {A : Type 0} → Action WaitingQueue A → Action State A
on_waiting = zoom (λ s. s.waiting_real_cpu_tasks) (λ q s. record s { waiting_real_cpu_tasks = q })

-- A step on the worker object `w`, which the table holds.
abbrev pub on_worker : {A : Type 0} → WorkerInfo → Action WorkerInfo A → Action State A
on_worker w = zoom (λ s. w) (λ w' s. record s { workers = insert w'.id w' s.workers })

unfoldable pub update_contest : ℕ → ℤ → ℕ → Action State (Unit {0})
update_contest contest_uid priority weight = do
  require (leb 1 weight) assertion_error
  modify (λ s. record s {
    contests =
        insert contest_uid (record { uid = contest_uid; priority = priority; weight = weight })
          s.contests;
  })

module _ (packages : Packages) where
  open packages use {task_set, worker_set, ram_list, randint}

  unfoldable pub insert_worker_to_queue : WorkerInfo → Action State (Unit {0})
  insert_worker_to_queue w s = elim (get_queue_name w) [
    | none ↦ (ok tt, s)
    | some name ↦ elim name [
      | any_cpu ↦
          (ok tt, record s { any_cpu_workers = worker_set.add any_cpu_lt w s.any_cpu_workers })
      | vcpu_only ↦
          (ok tt, record s { vcpu_only_workers = worker_set.add worker_lt w s.vcpu_only_workers })
    ]
  ]

  unfoldable pub remove_worker_from_queue : WorkerInfo → Action State (Unit {0})
  remove_worker_from_queue w s = elim (get_queue_name w) [
    | none ↦ (ok tt, s)
    | some name ↦ elim name [
      | any_cpu ↦ elim (worker_set.remove any_cpu_lt w s.any_cpu_workers) [
        | none ↦ (raised key_error, s)
        | some l ↦ (ok tt, record s { any_cpu_workers = l })
      ]
      | vcpu_only ↦ elim (worker_set.remove worker_lt w s.vcpu_only_workers) [
        | none ↦ (raised key_error, s)
        | some l ↦ (ok tt, record s { vcpu_only_workers = l })
      ]
    ]
  ]

  unfoldable pub add_worker : Dict Worker → ℕ → Action State (Unit {0})
  unfolding insert_worker_to_queue new_worker
  add_worker manager_workers worker_id = do
    wdata ← or_raise (lookup worker_id manager_workers) key_error
    w ← lift (new_worker worker_id wdata)
    modify (λ s. record s { workers = insert worker_id w s.workers })
    insert_worker_to_queue w

  unfoldable pub del_worker : ℕ → Action State (Unit {0})
  unfolding remove_worker_from_queue
  del_worker worker_id = do
    s ← gets (λ s. s)
    w ← or_raise (lookup worker_id s.workers) key_error
    require (w.running_tasks == 0) assertion_error
    modify (λ s. record s { workers = erase worker_id s.workers })
    remove_worker_from_queue w

  unfoldable pub add_task_to_queues : TaskInfo → Action State (Unit {0})
  add_task_to_queues t = do
    if t.real_cpu then pure tt else on_virtual_cpu (Queues.add_task task_set t)
    on_both (Queues.add_task task_set t)

  unfoldable pub remove_task_from_queues : TaskInfo → Action State (Unit {0})
  remove_task_from_queues t = do
    if t.real_cpu then pure tt else on_virtual_cpu (Queues.del_task task_set t)
    on_both (Queues.del_task task_set t)

  unfoldable pub attach_task_to_worker : TaskInfo → ℕ → Action State (Unit {0})
  unfolding insert_worker_to_queue remove_worker_from_queue
  attach_task_to_worker t worker_id = do
    s ← gets (λ s. s)
    entry ← or_raise (lookup t.id s.tasks) key_error
    elim entry.assigned_worker [ none ↦ pure tt | some other ↦ raise assertion_error ]
    modify (λ s. record s {
      tasks = insert t.id (record entry { assigned_worker = some worker_id }) s.tasks;
    })
    w ← or_raise (lookup worker_id s.workers) key_error
    remove_worker_from_queue w
    on_worker w (attach_task t)
    s' ← gets (λ s. s)
    w' ← or_raise (lookup worker_id s'.workers) key_error
    insert_worker_to_queue w'

  unfoldable pub add_task : Env → Action State (Unit {0})
  unfolding add_task_to_queues
  add_task env = do
    s ← gets (λ s. s)
    _ ← or_raise (lookup env.contest_uid s.contests) assertion_error
    modify (λ s. record s { sequence_counter = suc s.sequence_counter })
    let t = new_task env (suc s.sequence_counter)
    elim (lookup t.id s.tasks) [ none ↦ pure tt | some other ↦ raise assertion_error ]
    modify (λ s. record s {
      tasks = insert t.id (record { task = t; assigned_worker = none }) s.tasks;
    })
    add_task_to_queues t

  -- A task that was assigned goes from its worker, one that waits from the waiting queue, and any
  -- other from the queues of tasks.
  detach_from : ℕ → TaskInfo → Action State (Unit {0})
  unfolding insert_worker_to_queue remove_worker_from_queue
  detach_from worker_id t = do
    s ← gets (λ s. s)
    w ← or_raise (lookup worker_id s.workers) key_error
    remove_worker_from_queue w
    on_worker w (detach_task t)
    s' ← gets (λ s. s)
    w' ← or_raise (lookup worker_id s'.workers) key_error
    insert_worker_to_queue w'

  unfoldable pub del_task : ℕ → Action State (Unit {0})
  unfolding detach_from remove_task_from_queues
  del_task task_id = do
    s ← gets (λ s. s)
    entry ← or_raise (lookup task_id s.tasks) assertion_error
    modify (λ s. record s { tasks = erase task_id s.tasks })
    elim entry.assigned_worker [
      | some worker_id ↦ detach_from worker_id entry.task
      | none ↦
          if Waiting.contains entry.task s.waiting_real_cpu_tasks
          then on_waiting (Waiting.remove ram_list entry.task)
          else remove_task_from_queues entry.task
    ]

  -- `chooseTask` on one of the two collections of queues.
  unfoldable pub choose : Queues → Action State TaskInfo
  choose qs s = (choose_task (randint s.draws) s.contests qs, record s { draws = suc s.draws })
