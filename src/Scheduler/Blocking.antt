-- ===== src/Scheduler/Blocking.antt =====
-- `_getNumberOfBlockedAnyCpuWorkers` of sio/sioworkersd/scheduler/prioritizing.py: how many any-cpu
-- workers are kept free for the waiting real-cpu tasks. The RAM of a worker is a whole number of
-- MiB; a task's RAM is in 1024ths of a MiB (see Ram).
pub mod Matching
pub mod Minimal
pub mod Choice
pub mod Suffices
use sioworkers.Prelude.{
  ℕ, zero, suc, ◌+◌, ◌*◌, Bool, true, false, Option, none, some, List, [], ◌∷◌, map, ltb, leb,
  if◌then◌else◌, length, Dict, Result, ok, raised, index_error,
}
use sioworkers.WorkerManager.Data.{Worker, Stats, rams}
use sioworkers.Sorted.{insert_sorted}
use sioworkers.Scheduler.Waiting.{WaitingQueue}

-- `workers_ram.sort()`
abbrev pub sort : List ℕ → List ℕ
sort [] = []
sort (x ∷ l) = insert_sorted ltb x (sort l)

-- The `while` loop: `rest` is `workers_ram[next_worker_index:]`.
unfoldable pub skip_small : ℕ → List ℕ → ℕ → List ℕ × ℕ
skip_small task_ram [] index = ([], index)
skip_small task_ram (w ∷ rest) index =
    let next = skip_small task_ram rest (suc index) in
    if ltb w task_ram then next else (w ∷ rest, index)

-- The `for` loop over the waiting tasks' RAM; `total` is `len(workers_ram)`.
unfoldable pub count_blocked : ℕ → List ℕ → List ℕ → ℕ → ℕ
unfolding skip_small
count_blocked total [] rest index = index
count_blocked total (task_ram ∷ tasks) rest index =
    let (rest', index') = skip_small task_ram rest index in
    elim rest' [ [] ↦ total | w ∷ rest'' ↦ count_blocked total tasks rest'' (suc index') ]

-- `l[-1]`
abbrev pub last : List ℕ → Option ℕ
last [] = none
last (x ∷ l) = elim (last l) [ none ↦ some x | some y ↦ some y ]

abbrev pub mb : ℕ → ℕ
mb n = n * 1024

-- The sorted RAM of all any-cpu workers.
unfoldable pub any_cpu_rams : Dict Worker → List ℕ
any_cpu_rams workers = sort (map mb (rams true workers))

-- With no any-cpu worker or no waiting task nothing is blocked. Otherwise, if the smallest worker
-- fits the largest task, as many as there are tasks.
unfoldable pub get_number_of_blocked_any_cpu_workers :
    Dict Worker → Option ℕ → WaitingQueue → Result ℕ
unfolding count_blocked any_cpu_rams
get_number_of_blocked_any_cpu_workers workers none q = ok 0
get_number_of_blocked_any_cpu_workers workers (some least) q = elim q.tasks [
  | [] ↦ ok 0
  | t ∷ l ↦ elim (last q.tasks_required_ram) [
    | none ↦ raised index_error
    | some largest ↦ ok (
        if leb largest (mb least)
        then length q.tasks
        else let workers_ram = any_cpu_rams workers in
          count_blocked (length workers_ram) q.tasks_required_ram workers_ram 0)
  ]
]
