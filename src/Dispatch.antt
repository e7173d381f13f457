-- ===== src/Dispatch.antt =====
-- How sio/sioworkersd/taskmanager.py carries out groups of tasks: _addGroup, _deferTask, _taskDone,
-- _tryExecute, _newWorker and _lostWorker, over the scheduler, the worker manager and the database.
-- A DeferredList counts the tasks of its group that have ended. What a callback raises makes its
-- deferred fail. A job of a group is taken to have no `return_url` of its own.
pub mod Counting
pub mod Frames
pub mod Fair
pub mod Ending
pub mod Answering
pub mod Adding
pub mod Returning
pub mod Waiting
use sioworkers.Prelude.{
  ◌&&◌, ℕ, suc, Bool, true, false, not, ◌||◌, Option, none, some, List, [], ◌∷◌, ◌++◌, ◌==◌,
  if◌then◌else◌, length, Dict, lookup, insert, erase, Action, Result, ok, raised, Exception,
  key_error, runtime_error, worker_gone, pure, raise, gets, modify, or_raise, zoom, ◌>>=◌, ◌>>◌,
  try_except,
}
use sioworkers.Prelude.Int.{ℤ}
use sioworkers.Ram.{Env}
use sioworkers.WorkerManager.{
  Manager, Outcome, success, failed, Info, get_workers, complete, run_on_worker, worker_lost,
  finish_new_worker, new_manager,
}
use sioworkers.WorkerManager.Data.{Worker}
use sioworkers.Scheduler.State.{
  Packages, State, new_state, update_contest, add_worker, del_worker, add_task, del_task,
}
use sioworkers.Scheduler.Schedule.{Association, schedule}
use sioworkers.TaskManager.{Group, Database, save_result}

-- An entry of `inProgress`: a task with the DeferredList that counts it, or a group.
pub data Item : Type 0 where
  single : Env → ℕ → Item
  whole : Group → Item

-- A DeferredList; `collecting` is whether its callbacks have been added.
pub record Collector : Type 0 where
  pub group : Group
  pub size : ℕ
  pub finished : ℕ
  pub has_failed : Bool
  pub collecting : Bool

-- The process; `returned` has the groups that go to returnToSio, and whether they ended well.
pub record Board : Type 0 where
  pub scheduler : State
  pub manager : Manager
  pub database : Database
  pub in_progress : Dict Item
  pub collectors : Dict Collector
  pub serial : ℕ
  pub returned : List (ℕ × Bool)

abbrev pub on_scheduler : {A : Type 0} → Action State A → Action Board A
on_scheduler m = zoom (λ b. b.scheduler) (λ s b. record b { scheduler = s }) m

abbrev pub on_manager : {A : Type 0} → Action Manager A → Action Board A
on_manager m = zoom (λ b. b.manager) (λ s b. record b { manager = s }) m

abbrev pub on_database : {A : Type 0} → Action Database A → Action Board A
on_database m = zoom (λ b. b.database) (λ s b. record b { database = s }) m

-- Whether a callback ended without an exception.
abbrev pub ended : Action Board (Unit {0}) → Action Board Bool
ended m = try_except (m >> pure true) (λ e. pure false)

abbrev pub find_item : ℕ → Action Board Item
find_item tid = gets (λ b. lookup tid b.in_progress) >>= λ item. or_raise item key_error

abbrev pub run_item : ℕ → Item → Action Board (Unit {0})
run_item worker (single env owner) = on_manager (run_on_worker worker env)
run_item worker (whole g) = raise key_error

abbrev pub run_all : List Association → Action Board (Unit {0})
run_all [] = pure tt
run_all (a ∷ jobs) = find_item a.0 >>= run_item a.1 >> run_all jobs

-- What `_taskDone` stores: of a group with an address to return to.
abbrev pub save_group : Option ℕ → Group → Action Board (Unit {0})
save_group none g = pure tt
save_group (some url) g = on_database (save_result g)

abbrev pub with_error : Bool → Group → Group
with_error false g = g
with_error true g = record g { error = true }

-- `_deferTask`
abbrev pub put_item : ℕ → Item → Action Board (Unit {0})
put_item tid item = modify (λ b. record b { in_progress = insert tid item b.in_progress })

abbrev pub take_out : ℕ → Action Board (Unit {0})
take_out tid = modify (λ b. record b { in_progress = erase tid b.in_progress })

abbrev pub defer : Env → ℕ → Option Item → Action Board (Unit {0})
defer env owner none = put_item env.task_id (single env owner)
defer env owner (some item) = raise runtime_error

unfoldable pub defer_task : Env → ℕ → Action Board (Unit {0})
defer_task env owner b = defer env owner (lookup env.task_id b.in_progress) b

abbrev pub put_collector : ℕ → Collector → Action Board (Unit {0})
put_collector owner c = modify (λ b. record b { collectors = insert owner c b.collectors })

-- What may happen to the process.
pub data Event : Type 0 where
  adds : Group → ℕ → ℤ → ℕ → Event
  answers : ℕ → Outcome → Event
  loses : ℕ → Event
  joins : ℕ → ℕ → List ℕ → Option Info → Event

-- The fuel of the scheduler is that of `schedule`.
module _ (packages : Packages) (fuel depth : ℕ) where
  unfoldable pub try_execute : Action Board (Unit {0})
  try_execute = gets (λ b. get_workers b.manager.worker_data b.manager.objects) >>= λ workers.
      on_scheduler (schedule packages fuel depth workers) >>= run_all

  -- What `_taskDone` does for a task, and for a group.
  abbrev pub let_go : ℕ → Bool → Item → Action Board (Unit {0})
  let_go tid fail (single env owner) = on_scheduler (del_task packages tid)
  let_go tid fail (whole g) = save_group g.return_url (with_error fail g)

  unfoldable pub task_done : Bool → ℕ → Action Board (Unit {0})
  unfolding try_execute
  task_done fail tid = find_item tid >>= let_go tid fail >> take_out tid >> try_execute

  -- `_collect` and `_taskDone` of a group, once all of its tasks have ended.
  unfoldable pub end_group : Collector → Action Board (Unit {0})
  unfolding task_done
  end_group c = ended (task_done c.has_failed c.group.group_id) >>= λ fine.
      modify (λ b. record b {
        returned = b.returned ++ (c.group.group_id, fine && not c.has_failed) ∷ [];
      })

  abbrev pub fire : Collector → Action Board (Unit {0})
  fire c = if c.collecting && (c.finished == c.size) then end_group c else pure tt

  -- A task of a DeferredList has ended.
  abbrev pub count_task : ℕ → Bool → Option Collector → Action Board (Unit {0})
  count_task owner fail none = pure tt
  count_task owner fail (some c) =
      let c' = record c { finished = suc c.finished; has_failed = c.has_failed || fail } in
      put_collector owner c' >> fire c'

  -- The deferred of a task fires: `_taskDone`, and then the DeferredList.
  abbrev pub tally : ℕ → Bool → Bool → Action Board (Unit {0})
  tally owner fail fine b = count_task owner (fail || not fine) (lookup owner b.collectors) b

  unfoldable pub finish_task : ℕ → ℕ → Bool → Action Board (Unit {0})
  unfolding end_group task_done
  finish_task tid owner fail = ended (task_done fail tid) >>= tally owner fail

  -- `_retry_on_disconnect`, or the result of the task.
  unfoldable pub respond : ℕ → Outcome → Item → Action Board (Unit {0})
  unfolding finish_task
  respond tid outcome (whole g) = raise key_error
  respond tid success (single env owner) = finish_task tid owner false
  respond tid (failed worker_gone) (single env owner) =
      on_scheduler (del_task packages tid) >> on_scheduler (add_task packages env)
  respond tid (failed e) (single env owner) = finish_task tid owner true

  abbrev pub hand_over : ℕ → Outcome → Action Board (Unit {0})
  hand_over tid outcome = find_item tid >>= respond tid outcome

  -- A worker answers, or its call fails.
  unfoldable pub answered : ℕ → Outcome → Action Board (Unit {0})
  unfolding respond
  answered tid outcome = on_manager (complete tid outcome) >> hand_over tid outcome

  abbrev pub in_contest : ℕ → Env → Env
  in_contest contest env = record env { contest_uid = contest }

  abbrev pub add_job : Env → ℕ → Action Board (Unit {0})
  add_job env owner = on_scheduler (add_task packages env) >> defer_task env owner

  abbrev pub add_jobs : ℕ → ℕ → List Env → Action Board (Unit {0})
  add_jobs owner contest [] = pure tt
  add_jobs owner contest (env ∷ envs) =
      add_job (in_contest contest env) owner >> add_jobs owner contest envs

  abbrev pub new_collector : Group → Collector
  new_collector g = record {
    group = g;
    size = length g.workers_jobs;
    finished = 0;
    has_failed = false;
    collecting = false;
  }

  abbrev pub start_collecting : ℕ → Option Collector → Action Board (Unit {0})
  start_collecting owner none = pure tt
  start_collecting owner (some c) =
      let c' = record c { collecting = true } in put_collector owner c' >> fire c'

  abbrev pub collect : ℕ → Action Board (Unit {0})
  collect owner b = start_collecting owner (lookup owner b.collectors) b

  abbrev pub put_group : ℕ → Group → Action Board (Unit {0})
  put_group owner g b = (put_item g.group_id (whole g) >> put_collector owner (new_collector g)) b

  abbrev pub fill_group : ℕ → Group → ℕ → ℤ → ℕ → Action Board (Unit {0})
  fill_group owner g contest priority weight =
      on_scheduler (update_contest contest priority weight)
      >> add_jobs owner contest g.workers_jobs
      >> put_group owner g
      >> try_execute
      >> collect owner

  -- `_addGroup`, with the parameters of the contest that the group brings or their defaults.
  unfoldable pub add_group : Group → ℕ → ℤ → ℕ → Action Board (Unit {0})
  unfolding try_execute end_group
  add_group g contest priority weight b =
      fill_group b.serial g contest priority weight (record b { serial = suc b.serial })

  -- The tasks of a worker that is lost, each in the errback of its own deferred.
  abbrev pub retry : ℕ → Option Item → Action Board (Unit {0})
  retry tid none = pure tt
  retry tid (some item) = ended (respond tid (failed worker_gone) item) >> pure tt

  abbrev pub retry_all : List ℕ → Action Board (Unit {0})
  retry_all [] = pure tt
  retry_all (tid ∷ tids) = (λ b. retry tid (lookup tid b.in_progress) b) >> retry_all tids

  abbrev pub tasks_of : Option Worker → List ℕ
  tasks_of none = []
  tasks_of (some w) = w.tasks

  -- workerLost with `_lostWorker`; what the retries do and what is left of workerLost are apart.
  abbrev pub lose_tasks : ℕ → List ℕ → Action Board (Unit {0})
  lose_tasks name tids =
      on_manager (worker_lost name)
      >> retry_all tids
      >> on_scheduler (del_worker packages name)
      >> try_execute

  unfoldable pub lose_worker : ℕ → Action Board (Unit {0})
  unfolding try_execute respond
  lose_worker name b =
      lose_tasks name (tasks_of (lookup name (get_workers b.manager.worker_data b.manager.objects)))
        b

  -- The end of newWorker with `_newWorker`.
  abbrev pub enroll : ℕ → Action Board (Unit {0})
  enroll name b =
      on_scheduler (add_worker packages (get_workers b.manager.worker_data b.manager.objects) name)
        b

  unfoldable pub join_worker : ℕ → ℕ → List ℕ → Option Info → Action Board (Unit {0})
  unfolding try_execute
  join_worker name connection running info =
      on_manager (finish_new_worker name connection running info) >> enroll name >> try_execute

  unfoldable pub step : Event → Board → Board
  unfolding add_group answered lose_worker join_worker
  step (adds g contest priority weight) b = (add_group g contest priority weight b).1
  step (answers tid outcome) b = (answered tid outcome b).1
  step (loses name) b = (lose_worker name b).1
  step (joins name connection running info) b = (join_worker name connection running info b).1

  unfoldable pub run : List Event → Board → Board
  unfolding step
  run [] b = b
  run (e ∷ es) b = run es (step e b)
