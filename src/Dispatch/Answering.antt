-- ===== src/Dispatch/Answering.antt =====
-- What the answers of workers leave, and their coming and going.
use sioworkers.Prelude.{
  or_raise, key_error, ℕ, ◌≡◌, refl, Bool, Option, none, some, List, [], ◌∷◌, lookup, pure, ◌>>=◌,
  ◌>>◌, worker_gone,
}
use sioworkers.Scheduler.State.{Packages}
use sioworkers.WorkerManager.{Outcome, failed}
use sioworkers.Dispatch.{
  get_workers, tasks_of, add_worker, enroll, del_worker, finish_new_worker, worker_lost, Info,
  lose_tasks, complete, lose_worker, join_worker, hand_over, answered, retry_all, retry, Board,
  Item, on_scheduler, on_manager, respond, try_execute,
}
use sioworkers.Dispatch.Frames.{on_scheduler-Quiet, on_manager-Quiet, try_execute-Quiet, Quiet-then}
use sioworkers.Dispatch.Fair.{Fair, Fine, quiet_Fine, fine_then, ended_then}
use sioworkers.Dispatch.Ending.{respond-Fine}

module _ (is_group : ℕ → Bool) where
  module _ (packages : Packages) (fuel depth : ℕ) where
    pub found :
        (tid : ℕ) (outcome : Outcome) (o : Option Item) (b : Board)
        → lookup tid b.in_progress ≡ o
        → Fair is_group none b
        → Fine is_group none
            (((λ c. or_raise o key_error b) >>= respond packages fuel depth tid outcome) b)
    found tid outcome none b e f = f
    found tid outcome (some item) b e f =
        respond-Fine is_group packages fuel depth tid outcome item b e f

    pub answered-Fine :
        (tid : ℕ) (outcome : Outcome) (b : Board)
        → Fair is_group none b
        → Fine is_group none (answered packages fuel depth tid outcome b)
    unfolding answered
    answered-Fine tid outcome b f =
        fine_then is_group none none (on_manager (complete tid outcome) b)
          (λ u. hand_over packages fuel depth tid outcome)
          (quiet_Fine is_group none b _ (on_manager-Quiet (complete tid outcome) b) f)
          (λ u c h. found tid outcome (lookup tid c.in_progress) c refl h) (λ c h. h)

    pub retry_all-Fine :
        (tids : List ℕ) (b : Board)
        → Fair is_group none b
        → Fine is_group none (retry_all packages fuel depth tids b)
    retry_all-Fine [] b f = f
    retry_all-Fine (tid ∷ tids) b f =
        fine_then is_group none none (retry packages fuel depth tid (lookup tid b.in_progress) b)
          (λ u. retry_all packages fuel depth tids)
          (retry-Fine tid (lookup tid b.in_progress) b refl f) (λ u. retry_all-Fine tids) (λ c h. h)
      where
        retry-Fine :
            (tid : ℕ) (o : Option Item) (b : Board)
            → lookup tid b.in_progress ≡ o
            → Fair is_group none b
            → Fine is_group none (retry packages fuel depth tid o b)
        retry-Fine tid none b e f = f
        retry-Fine tid (some item) b e f =
            ended_then is_group none none
              (respond packages fuel depth tid (failed worker_gone) item b) (λ u. pure tt)
              (respond-Fine is_group packages fuel depth tid (failed worker_gone) item b e f)
              (λ u c h. h)

    pub lose_worker-Fine :
        (name : ℕ) (b : Board)
        → Fair is_group none b
        → Fine is_group none (lose_worker packages fuel depth name b)
    unfolding lose_worker
    lose_worker-Fine name b f = lose_tasks-Fine (
        tasks_of packages fuel depth
          (lookup name (get_workers b.manager.worker_data b.manager.objects)))
      where
        lose_tasks-Fine :
            (tids : List ℕ) → Fine is_group none (lose_tasks packages fuel depth name tids b)
        lose_tasks-Fine tids =
            fine_then is_group none none
              ((on_manager (worker_lost name)
                  >> retry_all packages fuel depth tids
                  >> on_scheduler (del_worker packages name))
                b)
              (λ u. try_execute packages fuel depth)
              (fine_then is_group none none
                ((on_manager (worker_lost name) >> retry_all packages fuel depth tids) b)
                (λ u. on_scheduler (del_worker packages name))
                (fine_then is_group none none (on_manager (worker_lost name) b)
                  (λ u. retry_all packages fuel depth tids)
                  (quiet_Fine is_group none b _ (on_manager-Quiet (worker_lost name) b) f)
                  (λ u c h. retry_all-Fine tids c h) (λ c h. h))
                (λ u c h.
                  quiet_Fine is_group none c _ (on_scheduler-Quiet (del_worker packages name) c) h)
                (λ c h. h))
              (λ u c h. quiet_Fine is_group none c _ (try_execute-Quiet packages fuel depth c) h)
              (λ c h. h)

    pub join_worker-Fine :
        (name connection : ℕ) (running : List ℕ) (info : Option Info) (b : Board)
        → Fair is_group none b
        → Fine is_group none (join_worker packages fuel depth name connection running info b)
    unfolding join_worker
    join_worker-Fine name connection running info b f =
        quiet_Fine is_group none b _
          (Quiet-then b
            ((on_manager (finish_new_worker name connection running info)
                >> enroll packages fuel depth name)
              b)
            (λ u. try_execute packages fuel depth)
            (Quiet-then b (on_manager (finish_new_worker name connection running info) b)
              (λ u. enroll packages fuel depth name)
              (on_manager-Quiet (finish_new_worker name connection running info) b)
              (λ u c.
                on_scheduler-Quiet
                  (add_worker packages (get_workers c.manager.worker_data c.manager.objects) name)
                  c))
            (λ u. try_execute-Quiet packages fuel depth))
          f
