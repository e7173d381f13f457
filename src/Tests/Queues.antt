-- ===== src/Tests/Queues.antt =====
-- The queues of tasks on three contests, and the queue of waiting tasks.
use sioworkers.Prelude.{
  ok, lookup, IsDict, ℕ, ℕ, ◌≡◌, refl, inl, inr, false, none, some, [], ◌∷◌, ok, arith,
  if◌then◌else◌,
}
use sioworkers.Prelude.Int.{ℤ, pos}
use sioworkers.Prelude.Inserted.{All, In}
use sioworkers.Sorted.{SortedSet, plain_set}
use sioworkers.Scheduler.Task.{TaskInfo, TaskInfo-discrete, task_lt}
use sioworkers.Scheduler.Queues.{Candidate, eqb_ℤ, weigh_all, choose_from, add_task, del_task}
use sioworkers.Scheduler.Queues.Choice.{IsBest, choose_from-IsBest}
use sioworkers.Scheduler.Queues.Share.{count_range, picks, choice_is_proportional}
use sioworkers.Scheduler.Queues.Update.{IsQueues, del_task-add_task}
use sioworkers.Tests.Samples.{small, urgent, later, rivals, queues, contest}

abbrev first : ℕ → ℕ → ℕ
first lo hi = lo

choose_from-IsBest_example :
    (c : Candidate) × (t : TaskInfo) × (choose_from first rivals ≡ ok t)
    × In c rivals
    × IsBest c.0.priority rivals
    × In t c.1
    × All (λ u. task_lt t u ≡ false) c.1
choose_from-IsBest_example =
    choose_from-IsBest first rivals (λ lo hi h. (omega arith, h)) (λ e. cc) (omega arith)
      (((λ e. cc), (tt, tt)), (((λ e. cc), (tt, tt)), (((λ e. cc), ((refl, tt), (tt, tt))), tt)))

-- A draw of 2 goes to contest 8, whose oldest task of the greatest priority comes first.
choose_from_two : choose_from (λ lo hi. 2) rivals ≡ ok urgent
unfolding choose_from
choose_from_two = refl

choice_is_proportional_example :
    (best : ℤ) × (sum : ℕ) × (weigh_all none rivals ≡ some (best, sum))
    × IsBest best rivals
    × (count_range (picks best 8 0 rivals) 0 sum ≡ (if eqb_ℤ (pos 2) best then 3 else 0))
choice_is_proportional_example =
    choice_is_proportional rivals (contest 8 (pos 2) 3, later ∷ urgent ∷ []) (omega arith)
      (omega arith) (inr (inr (inl refl)))

abbrev tasks : SortedSet TaskInfo
tasks = plain_set TaskInfo-discrete

queues-IsQueues : IsQueues queues
queues-IsQueues = record { keys = (tt, tt); queued = λ j l e. ground arith }

del_task-add_task_example :
    let added = add_task tasks small queues in
    let deleted = del_task tasks small added.1 in
    (added.0 ≡ ok tt)
    × (deleted.0 ≡ ok tt)
    × IsDict deleted.1
    × ((j : ℕ) → lookup j deleted.1 ≡ lookup j queues)
del_task-add_task_example = del_task-add_task tasks small queues queues-IsQueues refl
