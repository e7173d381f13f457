-- ===== src/Dispatch/Waiting.antt =====
-- No group waits for nothing: while its DeferredList has not counted all of its tasks, one of them is
-- in progress.
use sioworkers.Prelude.{
  ℕ, ◌<◌, ◌≡◌, Bool, true, none, some, List, [], ◌∷◌, lookup, arith, Result, ok, raised,
}
use sioworkers.Scheduler.State.{Packages}
use sioworkers.Dispatch
use sioworkers.Dispatch.{
  collect, in_contest, update_contest, new_collector, add_job, put_group, start_collecting,
  fill_group, add_group, Event, adds, answers, loses, joins, get_workers, tasks_of, add_worker,
  enroll, del_worker, finish_new_worker, worker_lost, Info, lose_tasks, complete, lose_worker,
  add_jobs, join_worker, hand_over, answered, retry_all, retry, tally, take_out, save_result, Board,
  Item, single, whole, Collector, on_scheduler, on_manager, on_database, find_item, put_item,
  put_collector, defer, defer_task, save_group, with_error, ended, let_go, task_done, end_group,
  fire, count_task, finish_task, respond, try_execute,
}
use sioworkers.Dispatch.Counting.{count, Counted-lookup}
use sioworkers.Dispatch.Fair.{Fair, Fine}
use sioworkers.Dispatch.Answering.{answered-Fine, lose_worker-Fine, join_worker-Fine}
use sioworkers.Dispatch.Adding.{add_group-Fine, AllTasks}

module _ (is_group : ℕ → Bool) where
  module _ (packages : Packages) (fuel depth : ℕ) where
    left_Fair :
        {A : Type 0} (end : Result A × Board) → Fine is_group none end → Fair is_group none end.1
    left_Fair (ok a, b) h = h
    left_Fair (raised e, b) h = h

    -- The ids that SIORPC gives: a group is told from a task by its id.
    abbrev pub Proper : Event → Type 0
    Proper (adds g contest priority weight) =
        (is_group g.group_id ≡ true) × AllTasks is_group packages fuel depth g.workers_jobs
    Proper e = Unit {0}

    abbrev pub AllProper : List Event → Type 0
    AllProper [] = Unit {0}
    AllProper (e ∷ es) = Proper e × AllProper es

    step-Fair :
        (e : Event) (b : Board)
        → Proper e
        → Fair is_group none b
        → Fair is_group none (Dispatch.step packages fuel depth e b)
    unfolding Dispatch.step
    step-Fair (adds g contest priority weight) b p f =
        left_Fair (add_group packages fuel depth g contest priority weight b)
          (add_group-Fine is_group packages fuel depth g contest priority weight b p.0 p.1 f)
    step-Fair (answers tid outcome) b p f =
        left_Fair (answered packages fuel depth tid outcome b)
          (answered-Fine is_group packages fuel depth tid outcome b f)
    step-Fair (loses name) b p f =
        left_Fair (lose_worker packages fuel depth name b)
          (lose_worker-Fine is_group packages fuel depth name b f)
    step-Fair (joins name connection running info) b p f =
        left_Fair (join_worker packages fuel depth name connection running info b)
          (join_worker-Fine is_group packages fuel depth name connection running info b f)

    pub run-Fair :
        (es : List Event) (b : Board)
        → AllProper es
        → Fair is_group none b
        → Fair is_group none (Dispatch.run packages fuel depth es b)
    unfolding Dispatch.run
    run-Fair [] b p f = f
    run-Fair (e ∷ es) b p f =
        run-Fair es (Dispatch.step packages fuel depth e b) p.1 (step-Fair e b p.0 f)

-- Whatever groups are added, whatever workers come, are lost and answer, and whatever is raised: a
-- group whose DeferredList has not counted all of its tasks has a task in progress, if groups and
-- tasks have different ids.
pub run-waits :
    (is_group : ℕ → Bool) (packages : Packages) (fuel depth : ℕ) (es : List Event) (b : Board)
    (owner : ℕ) (c : Collector)
    → AllProper is_group packages fuel depth es
    → Fair is_group none b
    → lookup owner (Dispatch.run packages fuel depth es b).collectors ≡ some c
    → c.finished < c.size
    → 0 < count owner (Dispatch.run packages fuel depth es b).in_progress
run-waits is_group packages fuel depth es b owner c p f e h =
    let q = run-Fair is_group packages fuel depth es b p f in
    let k =
      Counted-lookup is_group none (Dispatch.run packages fuel depth es b).in_progress owner c
        (Dispatch.run packages fuel depth es b).collectors e q.counting in
    omega (arith, k.1, h)
