-- ===== src/WorkerManager/Data.antt =====
-- Worker of sio/sioworkersd/workermanager.py and the statistics over all workers. The RAM of a
-- worker is a whole number of MiB.
use sioworkers.Prelude.{
  ℕ, Bool, true, false, Option, none, some, List, [], ◌∷◌, leb, if◌then◌else◌, Dict, not,
}

pub record Worker : Type 0 where
  pub tasks : List ℕ
  pub is_running_cpu_exec : Bool
  pub concurrency : ℕ
  pub available_ram_mb : ℕ
  pub can_run_cpu_exec : Bool

-- `[w.available_ram_mb for _, w in workers.items() if w.can_run_cpu_exec]`, or with `not`.
abbrev pub rams : Bool → Dict Worker → List ℕ
rams cpu [] = []
rams cpu ((name, w) ∷ d) =
    if (if cpu then w.can_run_cpu_exec else not w.can_run_cpu_exec)
    then w.available_ram_mb ∷ rams cpu d
    else rams cpu d

-- `min(l) if l else None`
abbrev pub min_or_none : List ℕ → Option ℕ
min_or_none [] = none
min_or_none (x ∷ l) = elim (min_or_none l) [
  | none ↦ some x
  | some y ↦ some (if leb x y then x else y)
]

abbrev pub max_or_none : List ℕ → Option ℕ
max_or_none [] = none
max_or_none (x ∷ l) = elim (max_or_none l) [
  | none ↦ some x
  | some y ↦ some (if leb y x then x else y)
]

pub record Stats : Type 0 where
  pub min_any_cpu_worker_ram : Option ℕ
  pub max_any_cpu_worker_ram : Option ℕ
  pub min_vcpu_only_worker_ram : Option ℕ
  pub max_vcpu_only_worker_ram : Option ℕ

-- `_updateWorkerStats`
unfoldable pub worker_stats : Dict Worker → Stats
worker_stats d = record {
  min_any_cpu_worker_ram = min_or_none (rams true d);
  max_any_cpu_worker_ram = max_or_none (rams true d);
  min_vcpu_only_worker_ram = min_or_none (rams false d);
  max_vcpu_only_worker_ram = max_or_none (rams false d);
}
