-- ===== src/Scheduler/Waiting.antt =====
-- _WaitingTasksQueue of sio/sioworkersd/scheduler/prioritizing.py. Two tasks are one object just if
-- they have one sequence number.
pub mod Fifo
use sioworkers.Prelude.{
  ℕ, Bool, true, false, Option, none, some, List, [], ◌∷◌, ◌++◌, ◌==◌, if◌then◌else◌, length,
  Action, Result, key_error, pure, raise, gets, modify, or_raise, require, ◌>>=◌, ◌>>◌,
}
use sioworkers.Sorted.{SortedList}
use sioworkers.Scheduler.Task.{TaskInfo}

-- `tasks` is the OrderedDict's keys, oldest first.
pub record WaitingQueue : Type 0 where
  pub tasks : List TaskInfo
  pub tasks_required_ram : List ℕ

abbrev pub empty_queue : WaitingQueue
empty_queue = record { tasks = []; tasks_required_ram = [] }

abbrev pub same_task : TaskInfo → TaskInfo → Bool
same_task a b = a.sequence_number == b.sequence_number

abbrev pub has_task : TaskInfo → List TaskInfo → Bool
has_task t [] = false
has_task t (u ∷ l) = if same_task t u then true else has_task t l

-- `d[task] = True`: a key that is there keeps its place.
abbrev pub put_task : TaskInfo → List TaskInfo → List TaskInfo
put_task t l = if has_task t l then l else l ++ t ∷ []

-- `del d[task]`
abbrev pub del_task : TaskInfo → List TaskInfo → List TaskInfo
del_task t [] = []
del_task t (u ∷ l) = if same_task t u then l else u ∷ del_task t l

unfoldable pub contains : TaskInfo → WaitingQueue → Bool
contains t q = has_task t q.tasks

unfoldable pub left : WaitingQueue → Option TaskInfo
left q = elim q.tasks [ [] ↦ none | t ∷ l ↦ some t ]

module _ (sorted : SortedList) where
  unfoldable pub add : TaskInfo → Action WaitingQueue (Unit {0})
  add t = modify λ q. record {
    tasks = put_task t q.tasks;
    tasks_required_ram = sorted.add t.required_ram_mb q.tasks_required_ram;
  }

  unfoldable pub remove : TaskInfo → Action WaitingQueue (Unit {0})
  remove t = do
    q ← gets (λ q. q)
    require (has_task t q.tasks) key_error
    modify (λ q. record {
      tasks = del_task t q.tasks;
      tasks_required_ram = sorted.discard t.required_ram_mb q.tasks_required_ram;
    })

  take_left : List TaskInfo → Action WaitingQueue TaskInfo
  take_left [] = raise key_error
  take_left (t ∷ l) = do
    modify (λ q. record {
      tasks = l;
      tasks_required_ram = sorted.discard t.required_ram_mb q.tasks_required_ram;
    })
    pure t

  unfoldable pub popleft : Action WaitingQueue TaskInfo
  unfolding take_left
  popleft = do q ← gets (λ q. q); take_left q.tasks
