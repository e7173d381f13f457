-- ===== src/Dispatch/Ending.antt =====
-- What the end of a task or of a group leaves.
use sioworkers.Prelude.{
  ◌==◌, if◌then◌else◌, ◌&&◌, ◌||◌, not, ℕ, suc, ◌≡◌, refl, sym, subst, Bool, true, false, Option,
  none, some, [], ◌∷◌, ◌++◌, lookup, insert, erase, insert-IsDict, arith, Result, ok, raised, pure,
  modify, ◌>>=◌, ◌>>◌, worker_gone,
}
use sioworkers.Ram.{Env}
use sioworkers.Scheduler.State.{Packages, del_task, add_task}
use sioworkers.WorkerManager.{Outcome, success, failed}
use sioworkers.Dispatch.{
  tally, take_out, Board, Item, single, whole, Collector, on_scheduler, find_item, let_go,
  task_done, end_group, fire, count_task, finish_task, respond, try_execute,
}
use sioworkers.Dispatch.Counting.{
  Apart-erase, count-erase_group, count-erase, Counting-mono, Counted-lookup, Counting-no_list,
  Counting-settle,
}
use sioworkers.Dispatch.Frames.{
  let_go-Quiet, find_item-Quiet, Same, Quiet, on_scheduler-Quiet, try_execute-Quiet, Quiet-then,
}
use sioworkers.Dispatch.Fair.{Fair, Fine, Fair-Same, quiet_Fine, fine_then, ended_then, owing}

module _ (is_group : ℕ → Bool) where
  -- `_taskDone` of a group: the same tasks are in progress.
  module _ (packages : Packages) (fuel depth : ℕ) where
    pub erase_group :
        (gid : ℕ) (b : Board)
        → is_group gid ≡ true
        → Fair is_group none b
        → Fair is_group none (record b { in_progress = erase gid b.in_progress })
    erase_group gid b g f = record {
      apart = Apart-erase is_group gid b.in_progress f.apart;
      counting =
          Counting-mono is_group none none b.in_progress (erase gid b.in_progress) b.collectors
            (λ k. omega (arith, count-erase_group is_group k gid b.in_progress f.apart g))
            f.counting;
      unique = f.unique;
    }

    pub group_done-Fine :
        (fail : Bool) (gid : ℕ) (b : Board)
        → is_group gid ≡ true
        → Fair is_group none b
        → Fine is_group none (task_done packages fuel depth fail gid b)
    unfolding task_done
    group_done-Fine fail gid b g f =
        fine_then is_group none none
          ((find_item gid >>= let_go packages fuel depth gid fail >> take_out gid) b)
          (λ u. try_execute packages fuel depth)
          (fine_then is_group none none ((find_item gid >>= let_go packages fuel depth gid fail) b)
            (λ u. take_out gid)
            (quiet_Fine is_group none b _
              (Quiet-then b (find_item gid b) (let_go packages fuel depth gid fail)
                (find_item-Quiet gid b) (let_go-Quiet packages fuel depth gid fail))
              f)
            (λ u c h. erase_group gid c g h) (λ c h. h))
          (λ u c h. quiet_Fine is_group none c _ (try_execute-Quiet packages fuel depth c) h)
          (λ c h. h)

    pub end_group-Fine :
        (c : Collector) (b : Board)
        → is_group c.group.group_id ≡ true
        → Fair is_group none b
        → Fine is_group none (end_group packages fuel depth c b)
    unfolding end_group
    end_group-Fine c b g f =
        ended_then is_group none none
          (task_done packages fuel depth c.has_failed c.group.group_id b)
          (λ fine. modify (λ b. record b {
            returned = b.returned ++ (c.group.group_id, fine && not c.has_failed) ∷ [];
          }))
          (group_done-Fine c.has_failed c.group.group_id b g f)
          (λ fine d h. record { apart = h.apart; counting = h.counting; unique = h.unique })

    pub fire-Fine :
        (c : Collector) (b : Board)
        → is_group c.group.group_id ≡ true
        → Fair is_group none b
        → Fine is_group none (fire packages fuel depth c b)
    fire-Fine c b g f = when (c.collecting && (c.finished == c.size))
      where
        when :
            (fires : Bool)
            → Fine is_group none ((if fires then end_group packages fuel depth c else pure tt) b)
        when true = end_group-Fine c b g f
        when false = f

    -- `_taskDone` of a task: its DeferredList has one task less in progress.
    pub erase_task :
        (tid o : ℕ) (env : Env) (b c : Board)
        → lookup tid b.in_progress ≡ some (single env o)
        → Fair is_group none b
        → Same b c
        → Fair is_group (some o) (record c { in_progress = erase tid c.in_progress })
    erase_task tid o env b c e f s = record {
      apart = Apart-erase is_group tid c.in_progress (Fair-Same is_group b c s f).apart;
      counting =
          Counting-mono is_group none (some o) c.in_progress (erase tid c.in_progress) c.collectors
            (λ k. omega (
              arith,
              count-erase k tid (single env o) c.in_progress
                  (subst (λ d. lookup tid d ≡ some (single env o)) (sym s.in_progress) e),
            ))
            (Fair-Same is_group b c s f).counting;
      unique = (Fair-Same is_group b c s f).unique;
    }

    pub task_done-Fine :
        (fail : Bool) (tid o : ℕ) (env : Env) (b : Board)
        → lookup tid b.in_progress ≡ some (single env o)
        → Fair is_group none b
        → Fine is_group (some o) (task_done packages fuel depth fail tid b)
    unfolding task_done
    task_done-Fine fail tid o env b e f =
        fine_then is_group (some o) (some o)
          ((find_item tid >>= let_go packages fuel depth tid fail >> take_out tid) b)
          (λ u. try_execute packages fuel depth)
          (taken ((find_item tid >>= let_go packages fuel depth tid fail) b) (
            Quiet-then b (find_item tid b) (let_go packages fuel depth tid fail)
              (find_item-Quiet tid b) (let_go-Quiet packages fuel depth tid fail)))
          (λ u c h. quiet_Fine is_group (some o) c _ (try_execute-Quiet packages fuel depth c) h)
          (λ c h. h)
      where
        taken :
            (first : Result (Unit {0}) × Board)
            → Quiet b first
            → Fine is_group (some o) (((λ c. first) >> take_out tid) first.1)
        taken (ok a, c) s = erase_task tid o env b c e f s
        taken (raised x, c) s = owing is_group o c (Fair-Same is_group b c s f)

    pub count_task-Fine :
        (o : ℕ) (fail : Bool) (c : Option Collector) (b : Board)
        → lookup o b.collectors ≡ c
        → Fair is_group (some o) b
        → Fine is_group none (count_task packages fuel depth o fail c b)
    count_task-Fine o fail none b e f = record {
      apart = f.apart;
      counting = Counting-no_list is_group o b.in_progress b.collectors e f.counting;
      unique = f.unique;
    }
    count_task-Fine o fail (some c) b e f =
        let c' : Collector = record c {
          finished = suc c.finished;
          has_failed = c.has_failed || fail;
        } in
        fire-Fine c' (record b { collectors = insert o c' b.collectors })
          (Counted-lookup is_group (some o) b.in_progress o c b.collectors e f.counting).0
          (record {
            apart = f.apart;
            counting =
                Counting-settle is_group o b.in_progress c c' b.collectors f.unique e refl refl refl
                  f.counting;
            unique = insert-IsDict o c' b.collectors f.unique;
          })

    pub finish_task-Fine :
        (tid o : ℕ) (env : Env) (fail : Bool) (b : Board)
        → lookup tid b.in_progress ≡ some (single env o)
        → Fair is_group none b
        → Fine is_group none (finish_task packages fuel depth tid o fail b)
    unfolding finish_task
    finish_task-Fine tid o env fail b e f =
        ended_then is_group (some o) none (task_done packages fuel depth fail tid b)
          (tally packages fuel depth o fail) (task_done-Fine fail tid o env b e f)
          (λ fine c h. count_task-Fine o (fail || not fine) (lookup o c.collectors) c refl h)

    -- A task that is in progress is answered, or its worker is gone.
    pub respond-Fine :
        (tid : ℕ) (outcome : Outcome) (item : Item) (b : Board)
        → lookup tid b.in_progress ≡ some item
        → Fair is_group none b
        → Fine is_group none (respond packages fuel depth tid outcome item b)
    unfolding respond
    respond-Fine tid outcome (whole g) b e f = f
    respond-Fine tid success (single env o) b e f = finish_task-Fine tid o env false b e f
    respond-Fine tid (failed worker_gone) (single env o) b e f =
        quiet_Fine is_group none b _
          (Quiet-then b (on_scheduler (del_task packages tid) b)
            (λ u. on_scheduler (add_task packages env))
            (on_scheduler-Quiet (del_task packages tid) b)
            (λ u. on_scheduler-Quiet (add_task packages env)))
          f
    respond-Fine tid (failed x) (single env o) b e f = finish_task-Fine tid o env true b e f
