-- ===== src/Dispatch/Adding.antt =====
-- What the adding of a group leaves.
use sioworkers.Prelude.{
  Ends-bind, ℕ, suc, ◌+◌, ◌≤◌, ◌≡◌, refl, subst, Bool, true, false, Option, none, some, List, [],
  ◌∷◌, lookup, insert, insert-IsDict, arith, length, Result, ok, raised, Ends, Ends-weaken, ◌>>=◌,
  ◌>>◌,
}
use sioworkers.Prelude.Int.{ℤ}
use sioworkers.Ram.{Env}
use sioworkers.Scheduler.State.{Packages, add_task}
use sioworkers.TaskManager.{Group}
use sioworkers.Dispatch.{
  collect, in_contest, update_contest, new_collector, add_job, put_group, start_collecting,
  fill_group, add_group, add_jobs, Board, Item, single, whole, Collector, on_scheduler, defer,
  defer_task, try_execute,
}
use sioworkers.Dispatch.Counting.{
  count, Apart-insert, count-insert_group, count-insert_new, Counting-mono, Counting-insert,
  Counted-lookup,
}
use sioworkers.Dispatch.Frames.{Quiet, on_scheduler-Quiet, try_execute-Quiet}
use sioworkers.Dispatch.Fair.{Fair, Fine, Fair-Same, quiet_Fine, fine_then}
use sioworkers.Dispatch.Ending.{fire-Fine}

module _ (is_group : ℕ → Bool) where
  module _ (packages : Packages) (fuel depth : ℕ) where
    -- The jobs of a new group.
    abbrev pub AllTasks : List Env → Type 0
    AllTasks [] = Unit {0}
    AllTasks (env ∷ envs) = (is_group env.task_id ≡ false) × AllTasks envs

    pub defer-Fine :
        (env : Env) (owner : ℕ) (o : Option Item) (b : Board)
        → lookup env.task_id b.in_progress ≡ o
        → is_group env.task_id ≡ false
        → Fair is_group none b
        → Ends
            (λ a c.
              Fair is_group none c × (count owner c.in_progress ≡ suc (count owner b.in_progress)))
            (Fair is_group none)
            (defer env owner o b)
    defer-Fine env owner (some item) b e g f = f
    defer-Fine env owner none b e g f = (
      record {
        apart = Apart-insert is_group env.task_id (single env owner) b.in_progress g f.apart;
        counting =
            Counting-mono is_group none none b.in_progress
              (insert env.task_id (single env owner) b.in_progress) b.collectors
              (λ k.
                omega (arith, count-insert_new k env.task_id (single env owner) b.in_progress e))
              f.counting;
        unique = f.unique;
      },
      ground (arith, count-insert_new owner env.task_id (single env owner) b.in_progress e),
    )

    pub add_job-Fine :
        (env : Env) (owner : ℕ) (b : Board)
        → is_group env.task_id ≡ false
        → Fair is_group none b
        → Ends
            (λ a c.
              Fair is_group none c × (count owner c.in_progress ≡ suc (count owner b.in_progress)))
            (Fair is_group none)
            (add_job packages fuel depth env owner b)
    unfolding defer_task
    add_job-Fine env owner b g f =
        deferred (on_scheduler (add_task packages env) b)
          (on_scheduler-Quiet (add_task packages env) b)
      where
        deferred :
            (first : Result (Unit {0}) × Board)
            → Quiet b first
            → Ends
                (λ a c.
                  Fair is_group none c
                  × (count owner c.in_progress ≡ suc (count owner b.in_progress)))
                (Fair is_group none)
                (((λ c. first) >>= λ u. defer_task env owner) first.1)
        deferred (ok a, c) s =
            subst
              (λ d.
                Ends
                  (λ a c. Fair is_group none c × (count owner c.in_progress ≡ suc (count owner d)))
                  (Fair is_group none) (defer_task env owner c))
              s.in_progress
              (defer-Fine env owner (lookup env.task_id c.in_progress) c refl g
                (Fair-Same is_group b c s f))
        deferred (raised e, c) s = Fair-Same is_group b c s f

    pub add_jobs-Fine :
        (owner contest : ℕ) (envs : List Env) (b : Board)
        → AllTasks envs
        → Fair is_group none b
        → Ends
            (λ a c.
              Fair is_group none c
              × (length envs + count owner b.in_progress ≤ count owner c.in_progress))
            (Fair is_group none)
            (add_jobs packages fuel depth owner contest envs b)
    add_jobs-Fine owner contest [] b h f = (f, omega arith)
    add_jobs-Fine owner contest (env ∷ envs) b h f =
        Ends-bind
          (λ a c.
            Fair is_group none c × (count owner c.in_progress ≡ suc (count owner b.in_progress)))
          (Fair is_group none)
          (λ a c.
            Fair is_group none c
            × (suc (length envs) + count owner b.in_progress ≤ count owner c.in_progress))
          (Fair is_group none)
          (add_job packages fuel depth (in_contest packages fuel depth contest env) owner b)
          (λ u. add_jobs packages fuel depth owner contest envs)
          (add_job-Fine (in_contest packages fuel depth contest env) owner b h.0 f)
          (λ u c k.
            Ends-weaken
              (λ a d.
                Fair is_group none d
                × (length envs + count owner c.in_progress ≤ count owner d.in_progress))
              (Fair is_group none)
              (λ a d.
                Fair is_group none d
                × (suc (length envs) + count owner b.in_progress ≤ count owner d.in_progress))
              (Fair is_group none) (add_jobs packages fuel depth owner contest envs c)
              (add_jobs-Fine owner contest envs c h.1 k.0) (λ a d z. (z.0, omega (arith, z.1, k.1)))
              (λ d z. z))
          (λ c k. k)

    -- The group itself, and its DeferredList.
    pub put_group-Fair :
        (owner : ℕ) (g : Group) (b : Board)
        → is_group g.group_id ≡ true
        → length g.workers_jobs ≤ count owner b.in_progress
        → Fair is_group none b
        → Fair is_group none (put_group packages fuel depth owner g b).1
    put_group-Fair owner g b h n f =
        let d = insert g.group_id (whole g) b.in_progress in
        record {
          apart = Apart-insert is_group g.group_id (whole g) b.in_progress tt f.apart;
          counting =
              Counting-insert is_group none d owner (new_collector packages fuel depth g)
                b.collectors
                (
                  h,
                  omega (
                    arith,
                    n,
                    count-insert_group is_group owner g.group_id g b.in_progress f.apart h,
                  ),
                )
                (Counting-mono is_group none none b.in_progress d b.collectors
                  (λ k.
                    omega
                      (arith, count-insert_group is_group k g.group_id g b.in_progress f.apart h))
                  f.counting);
          unique = insert-IsDict owner (new_collector packages fuel depth g) b.collectors f.unique;
        }

    pub start_collecting-Fine :
        (owner : ℕ) (o : Option Collector) (b : Board)
        → lookup owner b.collectors ≡ o
        → Fair is_group none b
        → Fine is_group none (start_collecting packages fuel depth owner o b)
    start_collecting-Fine owner none b e f = f
    start_collecting-Fine owner (some c) b e f =
        let k = Counted-lookup is_group none b.in_progress owner c b.collectors e f.counting in
        fire-Fine is_group packages fuel depth (record c { collecting = true })
          (record b { collectors = insert owner (record c { collecting = true }) b.collectors }) k.0
          (record {
            apart = f.apart;
            counting =
                Counting-insert is_group none b.in_progress owner (record c { collecting = true })
                  b.collectors k f.counting;
            unique = insert-IsDict owner (record c { collecting = true }) b.collectors f.unique;
          })

    pub fill_group-Fine :
        (owner : ℕ) (g : Group) (contest : ℕ) (priority : ℤ) (weight : ℕ) (b : Board)
        → is_group g.group_id ≡ true
        → AllTasks g.workers_jobs
        → Fair is_group none b
        → Fine is_group none (fill_group packages fuel depth owner g contest priority weight b)
    fill_group-Fine owner g contest priority weight b h tasks f =
        fine_then is_group none none
          ((on_scheduler (update_contest contest priority weight)
              >> add_jobs packages fuel depth owner contest g.workers_jobs
              >> put_group packages fuel depth owner g
              >> try_execute packages fuel depth)
            b)
          (λ u. collect packages fuel depth owner)
          (fine_then is_group none none
            ((on_scheduler (update_contest contest priority weight)
                >> add_jobs packages fuel depth owner contest g.workers_jobs
                >> put_group packages fuel depth owner g)
              b)
            (λ u. try_execute packages fuel depth)
            (Ends-bind
              (λ a c. Fair is_group none c × (length g.workers_jobs ≤ count owner c.in_progress))
              (Fair is_group none) (λ a. Fair is_group none) (Fair is_group none)
              ((on_scheduler (update_contest contest priority weight)
                  >> add_jobs packages fuel depth owner contest g.workers_jobs)
                b)
              (λ u. put_group packages fuel depth owner g)
              (Ends-bind (λ a. Fair is_group none) (Fair is_group none)
                (λ a c. Fair is_group none c × (length g.workers_jobs ≤ count owner c.in_progress))
                (Fair is_group none) (on_scheduler (update_contest contest priority weight) b)
                (λ u. add_jobs packages fuel depth owner contest g.workers_jobs)
                (quiet_Fine is_group none b _
                  (on_scheduler-Quiet (update_contest contest priority weight) b) f)
                (λ u c k.
                  Ends-weaken
                    (λ a d.
                      Fair is_group none d
                      × (length g.workers_jobs + count owner c.in_progress
                          ≤ count owner d.in_progress))
                    (Fair is_group none)
                    (λ a c.
                      Fair is_group none c × (length g.workers_jobs ≤ count owner c.in_progress))
                    (Fair is_group none)
                    (add_jobs packages fuel depth owner contest g.workers_jobs c)
                    (add_jobs-Fine owner contest g.workers_jobs c tasks k)
                    (λ a d z. (z.0, omega (arith, z.1))) (λ d z. z))
                (λ c k. k))
              (λ u c k. put_group-Fair owner g c h k.1 k.0) (λ c k. k))
            (λ u c k. quiet_Fine is_group none c _ (try_execute-Quiet packages fuel depth c) k)
            (λ c k. k))
          (λ u c k. start_collecting-Fine owner (lookup owner c.collectors) c refl k) (λ c k. k)

    pub add_group-Fine :
        (g : Group) (contest : ℕ) (priority : ℤ) (weight : ℕ) (b : Board)
        → is_group g.group_id ≡ true
        → AllTasks g.workers_jobs
        → Fair is_group none b
        → Fine is_group none (add_group packages fuel depth g contest priority weight b)
    unfolding add_group
    add_group-Fine g contest priority weight b h tasks f =
        fill_group-Fine b.serial g contest priority weight (record b { serial = suc b.serial }) h
          tasks (record { apart = f.apart; counting = f.counting; unique = f.unique })
