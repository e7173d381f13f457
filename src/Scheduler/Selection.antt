-- ===== src/Scheduler/Selection.antt =====
-- The choice of a worker for a task, in sio/sioworkersd/scheduler/prioritizing.py. The suitability
-- of a worker is a float division in the code; here it is the exact fraction, and two fractions are
-- compared by cross multiplication. A queue of workers is the list that the code iterates over.
pub mod Best
use sioworkers.Prelude.{
  ℕ, ◌+◌, ◌-◌, ◌*◌, Bool, true, false, ◌&&◌, Option, none, some, List, [], ◌∷◌, ltb, leb, ◌==◌,
  if◌then◌else◌,
}
use sioworkers.Scheduler.Worker.{WorkerInfo, get_available_ram, get_available_vcpu_slots}

-- `abs(a - b)`
abbrev pub distance : ℕ → ℕ → ℕ
distance a b = (a - b) + (b - a)

-- The numerator of `abs(available_ram / slots - task_ram)`; the denominator is the slots.
unfoldable pub misfit : ℕ → WorkerInfo → ℕ
misfit task_ram w = distance (get_available_ram w) (task_ram * get_available_vcpu_slots w)

-- `difference(a) < difference(b)`
unfoldable pub fits_better : ℕ → WorkerInfo → WorkerInfo → Bool
unfolding misfit
fits_better task_ram a b =
    ltb (misfit task_ram a * get_available_vcpu_slots b)
      (misfit task_ram b * get_available_vcpu_slots a)

unfoldable pub is_busy : WorkerInfo → Bool
is_busy w = ltb 0 w.running_tasks

-- `suitability(a) > suitability(b)`, a comparison of pairs if busy workers are preferred.
unfoldable pub is_more_suitable : Bool → ℕ → WorkerInfo → WorkerInfo → Bool
unfolding fits_better is_busy
is_more_suitable prefer_busy task_ram a b =
    if prefer_busy
    then (if is_busy a
        then (if is_busy b then fits_better task_ram a b else true)
        else if is_busy b
        then false
        else fits_better task_ram a b)
    else fits_better task_ram a b

unfoldable pub is_viable : ℕ → WorkerInfo → Bool
is_viable task_ram w = leb task_ram (get_available_ram w) && ltb 0 (get_available_vcpu_slots w)

-- One turn of the loop over the queue.
unfoldable pub consider : Bool → ℕ → Option WorkerInfo → WorkerInfo → Option WorkerInfo
unfolding is_more_suitable is_viable
consider prefer_busy task_ram assigned w =
    if is_viable task_ram w
    then elim assigned [
      | none ↦ some w
      | some a ↦ if is_more_suitable prefer_busy task_ram w a then some w else some a
    ]
    else assigned

unfoldable pub consider_all : Bool → ℕ → Option WorkerInfo → List WorkerInfo → Option WorkerInfo
unfolding consider
consider_all prefer_busy task_ram assigned [] = assigned
consider_all prefer_busy task_ram assigned (w ∷ queue) =
    consider_all prefer_busy task_ram (consider prefer_busy task_ram assigned w) queue

unfoldable pub get_best_worker_for_virtual_cpu_task : List WorkerInfo → ℕ → Bool → Option WorkerInfo
unfolding consider_all
get_best_worker_for_virtual_cpu_task queue task_ram prefer_busy =
    consider_all prefer_busy task_ram none queue

unfoldable pub get_best_vcpu_only_worker_for_virtual_cpu_task :
    List WorkerInfo → ℕ → Option WorkerInfo
unfolding get_best_worker_for_virtual_cpu_task
get_best_vcpu_only_worker_for_virtual_cpu_task vcpu_only task_ram =
    get_best_worker_for_virtual_cpu_task vcpu_only task_ram false

unfoldable pub get_best_any_cpu_worker_for_virtual_cpu_task :
    List WorkerInfo → ℕ → Option WorkerInfo
unfolding get_best_worker_for_virtual_cpu_task
get_best_any_cpu_worker_for_virtual_cpu_task any_cpu task_ram =
    get_best_worker_for_virtual_cpu_task any_cpu task_ram true

-- The first busy worker ends the search.
unfoldable pub get_best_any_cpu_worker_for_real_cpu_task : List WorkerInfo → ℕ → Option WorkerInfo
unfolding is_busy
get_best_any_cpu_worker_for_real_cpu_task [] task_ram = none
get_best_any_cpu_worker_for_real_cpu_task (w ∷ queue) task_ram =
    let rest = get_best_any_cpu_worker_for_real_cpu_task queue task_ram in
    if is_busy w then none else if leb task_ram (get_available_ram w) then some w else rest

-- The order of the key `(w.running_tasks > 0, w.getAvailableRam(), w.id)` of the any-cpu queue.
unfoldable pub any_cpu_lt : WorkerInfo → WorkerInfo → Bool
unfolding is_busy
any_cpu_lt a b =
    if is_busy a then (if is_busy b then by_ram else false) else if is_busy b then true else by_ram
  where
    by_ram : Bool
    by_ram =
        if ltb (get_available_ram a) (get_available_ram b)
        then true
        else if ltb (get_available_ram b) (get_available_ram a)
        then false
        else ltb a.id b.id

-- The order of the vcpu-only queue, `WorkerInfo.__lt__`.
unfoldable pub worker_lt : WorkerInfo → WorkerInfo → Bool
worker_lt a b = ltb a.id b.id
