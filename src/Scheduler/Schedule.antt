-- ===== src/Scheduler/Schedule.antt =====
-- `_scheduleOnce` and `schedule` of sio/sioworkersd/scheduler/prioritizing.py. The recursion of the
-- first and the loop of the second are on fuel; with none left they raise `recursion_error`, which
-- the code does not.
use sioworkers.Prelude.{
  ℕ, zero, suc, Bool, true, false, Option, none, some, List, [], ◌∷◌, ◌++◌, ltb, if◌then◌else◌,
  length, Dict, Action, recursion_error, pure, raise, gets, lift, ◌>>=◌, ◌>>◌,
}
use sioworkers.WorkerManager.Data.{Worker, worker_stats}
use sioworkers.Scheduler.Task.{TaskInfo}
use sioworkers.Scheduler.Worker.{WorkerInfo}
use sioworkers.Scheduler.Waiting
use sioworkers.Scheduler.Queues.{Queues}
use sioworkers.Scheduler.Blocking.{get_number_of_blocked_any_cpu_workers}
use sioworkers.Scheduler.Selection.{
  get_best_vcpu_only_worker_for_virtual_cpu_task, get_best_any_cpu_worker_for_virtual_cpu_task,
  get_best_any_cpu_worker_for_real_cpu_task,
}
use sioworkers.Scheduler.State.{
  Packages, State, on_waiting, remove_task_from_queues, attach_task_to_worker, choose,
}

-- A task and the worker that is to run it.
abbrev pub Association : Type 0
Association = ℕ × ℕ

-- `bool(tasks_queues)`
abbrev pub has_tasks : Queues → Bool
has_tasks [] = false
has_tasks (e ∷ qs) = true

module _ (packages : Packages) where
  open packages use {ram_list}

  -- Takes a task from the queues and gives it to a worker.
  assign_queued : TaskInfo → WorkerInfo → Action State (Option Association)
  assign_queued t w = do
    remove_task_from_queues packages t
    attach_task_to_worker packages t w.id
    pure (some (t.id, w.id))

  -- A virtual-cpu task for a vcpu-only worker.
  try_vcpu_only : Action State (Option Association)
  unfolding assign_queued
  try_vcpu_only = do
    s ← gets (λ s. s)
    if has_tasks s.virtual_cpu
        then (choose packages s.virtual_cpu >>= λ t.
            gets (λ s.
              get_best_vcpu_only_worker_for_virtual_cpu_task s.vcpu_only_workers t.required_ram_mb)
            >>= λ best. elim best [ none ↦ pure none | some w ↦ assign_queued t w ])
        else pure none

  -- The task that has waited longest for an any-cpu worker.
  try_waiting : Action State (Option Association)
  try_waiting = do
    s ← gets (λ s. s)
    elim (Waiting.left s.waiting_real_cpu_tasks) [
      | none ↦ pure none
      | some t ↦
          elim (get_best_any_cpu_worker_for_real_cpu_task s.any_cpu_workers t.required_ram_mb) [
            | none ↦ pure none
            | some w ↦
                on_waiting (Waiting.popleft ram_list)
                >> (attach_task_to_worker packages t w.id >> pure (some (t.id, w.id)))
          ]
    ]

  -- A real-cpu task that finds no worker is moved to the waiting tasks.
  reserve : TaskInfo → Action State (Unit {0})
  reserve t = do remove_task_from_queues packages t; on_waiting (Waiting.add ram_list t)

  -- What the last part of `_scheduleOnce` does with the task chosen; `again` is the recursive call.
  place : Action State (Option Association) → TaskInfo → Action State (Option Association)
  unfolding assign_queued reserve
  place again t = do
    s ← gets (λ s. s)
    if t.real_cpu
        then elim (get_best_any_cpu_worker_for_real_cpu_task s.any_cpu_workers t.required_ram_mb) [
          | some w ↦ assign_queued t w
          | none ↦ reserve t >> again
        ]
        else elim (get_best_any_cpu_worker_for_virtual_cpu_task s.any_cpu_workers
            t.required_ram_mb) [ some w ↦ assign_queued t w | none ↦ pure none ]

  try_both : Dict Worker → Action State (Option Association) → Action State (Option Association)
  unfolding place
  try_both workers again = do
    s ← gets (λ s. s)
    blocked ← lift (
        get_number_of_blocked_any_cpu_workers workers (worker_stats workers).min_any_cpu_worker_ram
          s.waiting_real_cpu_tasks)
    if ltb blocked (length s.any_cpu_workers)
        then (if has_tasks s.both then choose packages s.both >>= place again else pure none)
        else pure none

  unfoldable pub schedule_once : ℕ → Dict Worker → Action State (Option Association)
  unfolding try_vcpu_only try_waiting try_both
  schedule_once zero workers = raise recursion_error
  schedule_once (suc fuel) workers =
      let again = schedule_once fuel workers in
      try_vcpu_only >>= λ first. elim first [
        | some a ↦ pure (some a)
        | none ↦ try_waiting >>= λ second. elim second [
          | some a ↦ pure (some a)
          | none ↦ try_both workers again
        ]
      ]

  -- The `while True` loop; `depth` is the fuel of each turn.
  schedule_loop : ℕ → ℕ → Dict Worker → List Association → Action State (List Association)
  unfolding schedule_once
  schedule_loop zero depth workers result = raise recursion_error
  schedule_loop (suc fuel) depth workers result = schedule_once depth workers >>= λ association.
      elim association [
        | none ↦ pure result
        | some a ↦ schedule_loop fuel depth workers (result ++ a ∷ [])
      ]

  unfoldable pub schedule : ℕ → ℕ → Dict Worker → Action State (List Association)
  unfolding schedule_loop
  schedule fuel depth workers = schedule_loop fuel depth workers []
