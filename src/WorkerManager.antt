-- ===== src/WorkerManager.antt =====
-- WorkerManager of sio/sioworkersd/workermanager.py. Worker objects stand on a heap, since a running
-- call keeps hold of its worker's object after the worker is gone. The code waits for an answer in
-- the middle of newWorker, so that method is two steps.
pub mod Data
pub mod Objects
pub mod Steps
pub mod Invariant
pub mod Reconnect
use sioworkers.Prelude.{
  zero, ℕ, suc, ◌≡◌, Bool, true, false, not, ◌&&◌, Option, none, some, List, [], ◌∷◌, ◌++◌, ltb,
  ◌==◌, if◌then◌else◌, length, Dict, lookup, insert, erase, Action, Result, ok, raised, Exception,
  key_error, runtime_error, timeout_error, worker_gone, duplicate_worker, worker_rejected, pure,
  raise, gets, modify, or_raise, require, ◌>>=◌, ◌>>◌,
}
use sioworkers.Ram.{Env}
use sioworkers.Scheduler.Task.{is_real_cpu}
use Data.{Worker, Stats, worker_stats}

-- A call of `run` that has not been answered: what the closures `_free` and `_trap_timeout` hold.
pub record Call : Type 0 where
  pub worker : ℕ
  pub connection : ℕ
  pub object : ℕ

-- How a call ends.
pub data Outcome : Type 0 where
  success : Outcome
  failed : Exception → Outcome

-- What the manager tells its owner: the two callbacks, and the end of a task's deferred.
pub data Notice : Type 0 where
  new_worker lost_worker : ℕ → Notice
  finished : ℕ → Outcome → Notice

-- `older` has the calls that have not been answered and whose entry in `deferreds` another call for the
-- same task has taken, or deleted.
pub record Manager : Type 0 where
  pub workers : Dict ℕ
  pub worker_data : Dict ℕ
  pub objects : Dict Worker
  pub next_object : ℕ
  pub deferreds : Dict Call
  pub older : List (ℕ × Call)
  pub stats : Stats
  pub dropped : List ℕ
  pub crashed : Bool
  pub notices : List Notice

-- The workers by name, with their objects.
abbrev pub get_workers : Dict ℕ → Dict Worker → Dict Worker
get_workers [] objects = []
get_workers ((name, r) ∷ d) objects = elim (lookup r objects) [
  | none ↦ get_workers d objects
  | some w ↦ (name, w) ∷ get_workers d objects
]

unfoldable pub new_manager : Manager
new_manager = record {
  workers = [];
  worker_data = [];
  objects = [];
  next_object = 0;
  deferreds = [];
  older = [];
  stats = worker_stats [];
  dropped = [];
  crashed = false;
  notices = [];
}

unfoldable pub update_stats : Manager → Manager
update_stats m = record m { stats = worker_stats (get_workers m.worker_data m.objects) }

unfoldable pub notify : Notice → Manager → Manager
notify n m = record m { notices = m.notices ++ n ∷ [] }

-- `transport.loseConnection()`
unfoldable pub drop : ℕ → Manager → Manager
drop connection m = record m { dropped = m.dropped ++ connection ∷ [] }

-- newWorker up to the call of `get_running`.
unfoldable pub begin_new_worker : ℕ → ℕ → Action Manager (Unit {0})
unfolding drop
begin_new_worker name connection m = elim (lookup name m.workers) [
  | none ↦ (ok tt, m)
  | some other ↦ (raised duplicate_worker, drop connection m)
]

-- A worker is built from valid client information.
pub record Info : Type 0 where
  pub concurrency : ℕ
  pub available_ram_mb : ℕ
  pub can_run_cpu_exec : Bool

abbrev pub idle_worker : Info → Worker
idle_worker i = record {
  tasks = [];
  is_running_cpu_exec = false;
  concurrency = i.concurrency;
  available_ram_mb = i.available_ram_mb;
  can_run_cpu_exec = i.can_run_cpu_exec;
}

-- The rest of newWorker: `running` is the answer to `get_running`, `info` is `none` where the
-- constructor of Worker raises.
unfoldable pub finish_new_worker : ℕ → ℕ → List ℕ → Option Info → Action Manager (Unit {0})
unfolding update_stats notify
finish_new_worker name connection (t ∷ running) info = raise worker_rejected
finish_new_worker name connection [] none = raise worker_rejected
finish_new_worker name connection [] (some info) = modify λ m. notify (new_worker name) (
    update_stats (record m {
      workers = insert name connection m.workers;
      worker_data = insert name m.next_object m.worker_data;
      objects = insert m.next_object (idle_worker info) m.objects;
      next_object = suc m.next_object;
    }))

-- `set.add` and `set.discard`
abbrev pub add_to_set : ℕ → List ℕ → List ℕ
add_to_set x [] = x ∷ []
add_to_set x (y ∷ l) = if x == y then y ∷ l else y ∷ add_to_set x l

abbrev pub discard : ℕ → List ℕ → List ℕ
discard x [] = []
discard x (y ∷ l) = if x == y then l else y ∷ discard x l

abbrev pub is_nonempty : List ℕ → Bool
is_nonempty [] = false
is_nonempty (x ∷ l) = true

-- The calls without an entry, after the entry of this task is taken or deleted.
abbrev pub set_aside : ℕ → Option Call → List (ℕ × Call) → List (ℕ × Call)
set_aside tid none older = older
set_aside tid (some c) older = (tid, c) ∷ older

-- `_free` of a call, on its own object: it deletes the entry that its task has in `deferreds`, and
-- raises KeyError where there is none. `crashed` is `reactor.crash()`.
unfoldable pub free : ℕ → Call → Action Manager (Unit {0})
free tid call m = elim (lookup call.object m.objects) [
  | none ↦ (raised key_error, m)
  | some w ↦ elim (lookup tid m.deferreds) [
    | none ↦ (
      raised key_error,
      record m {
        objects = insert call.object (record w { tasks = discard tid w.tasks }) m.objects;
      },
    )
    | some c ↦ (
      ok tt,
      record m {
        objects =
            insert call.object
              (record w { tasks = discard tid w.tasks; is_running_cpu_exec = false }) m.objects;
        deferreds = erase tid m.deferreds;
        crashed =
            if w.is_running_cpu_exec && is_nonempty (discard tid w.tasks) then true else m.crashed;
      },
    )
  ]
]

abbrev pub is_timeout : Outcome → Bool
is_timeout (failed timeout_error) = true
is_timeout outcome = false

-- `_trap_timeout`: the connection of a worker that does not answer is closed.
unfoldable pub trap_timeout : Call → Outcome → Manager → Manager
trap_timeout call outcome m = record m {
  dropped = if is_timeout outcome then m.dropped ++ call.connection ∷ [] else m.dropped;
}

-- The deferred of the latest call for a task fires: `_free`, then `_trap_timeout`, then what the owner
-- added.
unfoldable pub complete : ℕ → Outcome → Action Manager (Unit {0})
unfolding free trap_timeout notify
complete tid outcome = do
  m ← gets (λ m. m)
  call ← or_raise (lookup tid m.deferreds) key_error
  free tid call
  modify (λ m. notify (finished tid outcome) (trap_timeout call outcome m))

-- An older call for a task: the call, and those that are left.
abbrev pub pick_call : ℕ → List (ℕ × Call) → Option ((ℕ × Call) × List (ℕ × Call))
pick_call n [] = none
pick_call zero (x ∷ l) = some (x, l)
pick_call (suc n) (x ∷ l) = elim (pick_call n l) [
  | none ↦ none
  | some found ↦ some (found.0, x ∷ found.1)
]

-- What follows `_free`: an error in it is what the owner gets.
abbrev pub end_call : ℕ → Call → Outcome → Result (Unit {0}) × Manager → Result (Unit {0}) × Manager
end_call tid call outcome (ok a, m) =
    (ok tt, notify (finished tid outcome) (trap_timeout call outcome m))
end_call tid call outcome (raised e, m) = (ok tt, notify (finished tid (failed e)) m)

-- The deferred of an older call fires: its `_free` deletes the entry of the latest call for the task.
unfoldable pub complete_picked :
    Outcome → Option ((ℕ × Call) × List (ℕ × Call)) → Action Manager (Unit {0})
unfolding free trap_timeout notify
complete_picked outcome none m = (raised key_error, m)
complete_picked outcome (some ((tid, call), left)) m =
    end_call tid call outcome
      (free tid call (record m { older = set_aside tid (lookup tid m.deferreds) left }))

unfoldable pub complete_older : ℕ → Outcome → Action Manager (Unit {0})
unfolding complete_picked
complete_older n outcome m = complete_picked outcome (pick_call n m.older) m

-- The loop of workerLost over a copy of the worker's tasks.
unfoldable pub fail_all : List ℕ → Action Manager (Unit {0})
unfolding complete
fail_all [] = pure tt
fail_all (tid ∷ tids) = complete tid (failed worker_gone) >> fail_all tids

unfoldable pub worker_lost : ℕ → Action Manager (Unit {0})
unfolding fail_all update_stats notify
worker_lost name = do
  m ← gets (λ m. m)
  r ← or_raise (lookup name m.worker_data) key_error
  w ← or_raise (lookup r m.objects) key_error
  _ ← or_raise (lookup name m.workers) key_error
  modify (λ m. record m { workers = erase name m.workers; worker_data = erase name m.worker_data })
  fail_all w.tasks
  modify (λ m. notify (lost_worker name) (update_stats m))

-- What runOnWorker refuses, in its order.
unfoldable pub refuses : Worker → Env → Bool
refuses w task =
    if w.is_running_cpu_exec
    then true
    else if not (ltb (length w.tasks) w.concurrency)
    then true
    else if is_real_cpu task.job_type
    then (if is_nonempty w.tasks then true else not w.can_run_cpu_exec)
    else false

unfoldable pub run_on_worker : ℕ → Env → Action Manager (Unit {0})
unfolding refuses
run_on_worker name task = do
  m ← gets (λ m. m)
  connection ← or_raise (lookup name m.workers) key_error
  r ← or_raise (lookup name m.worker_data) key_error
  w ← or_raise (lookup r m.objects) key_error
  require (not (refuses w task)) runtime_error
  modify (λ m. record m {
    objects =
        insert r
          (record w {
            tasks = add_to_set task.task_id w.tasks;
            is_running_cpu_exec = if is_real_cpu task.job_type then true else w.is_running_cpu_exec;
          })
          m.objects;
    older = set_aside task.task_id (lookup task.task_id m.deferreds) m.older;
    deferreds =
        insert task.task_id (record { worker = name; connection = connection; object = r })
          m.deferreds;
  })

-- What may happen to the manager.
pub data Event : Type 0 where
  begins : ℕ → ℕ → Event
  finishes : ℕ → ℕ → List ℕ → Option Info → Event
  loses : ℕ → Event
  runs : ℕ → Env → Event
  completes : ℕ → Outcome → Event
  completes_older : ℕ → Outcome → Event

unfoldable pub step : Event → Manager → Manager
step (begins name connection) m = (begin_new_worker name connection m).1
step (finishes name connection running info) m =
    (finish_new_worker name connection running info m).1
step (loses name) m = (worker_lost name m).1
step (runs name task) m = (run_on_worker name task m).1
step (completes tid outcome) m = (complete tid outcome m).1
step (completes_older n outcome) m = (complete_older n outcome m).1

unfoldable pub run : List Event → Manager → Manager
unfolding step
run [] m = m
run (e ∷ es) m = run es (step e m)
