-- ===== src/Dispatch/Frames.antt =====
-- What the actions of a Board leave alone.
use sioworkers.Prelude.{
  ℕ, ◌≡◌, refl, ◌∙◌, Option, none, some, List, [], ◌∷◌, lookup, Action, Result, ok, raised, Ends,
  Ends-weaken, ◌>>=◌,
}
use sioworkers.Scheduler.State.{Packages, State}
use sioworkers.Scheduler.Schedule.{Association, schedule}
use sioworkers.WorkerManager.{Manager, run_on_worker}
use sioworkers.TaskManager.{Database}
use sioworkers.TaskManager.{save_result, Group}
use sioworkers.Scheduler.State.{del_task}
use sioworkers.Dispatch.{
  save_group, Bool, let_go, with_error, key_error, get_workers, or_raise, Board, Item, single,
  whole, on_scheduler, on_manager, on_database, find_item, run_item, run_all, try_execute,
}

-- The tables of the task manager stay as they are.
pub record Same (b c : Board) : Type 0 where
  pub in_progress : c.in_progress ≡ b.in_progress
  pub collectors : c.collectors ≡ b.collectors
  pub serial : c.serial ≡ b.serial
  pub returned : c.returned ≡ b.returned

pub same : (b : Board) → Same b b
same b = record { in_progress = refl; collectors = refl; serial = refl; returned = refl }

pub Same-trans : (b c d : Board) → Same b c → Same c d → Same b d
Same-trans b c d h k = record {
  in_progress = k.in_progress ∙ h.in_progress;
  collectors = k.collectors ∙ h.collectors;
  serial = k.serial ∙ h.serial;
  returned = k.returned ∙ h.returned;
}

-- An action that leaves them so, whether it raises or not.
abbrev pub Quiet : {A : Type 0} → Board → Result A × Board → Type 0
Quiet b end = Ends (λ a c. Same b c) (λ c. Same b c) end

module _ {A : Type 0} where
  pub on_scheduler-Quiet : (m : Action State A) (b : Board) → Quiet b (on_scheduler m b)
  on_scheduler-Quiet m b = with_end (m b.scheduler)
    where
      with_end : (end : Result A × State) → Quiet b (on_scheduler (λ s. end) b)
      with_end (ok a, s) = record {
        in_progress = refl;
        collectors = refl;
        serial = refl;
        returned = refl;
      }
      with_end (raised e, s) = record {
        in_progress = refl;
        collectors = refl;
        serial = refl;
        returned = refl;
      }

  pub on_manager-Quiet : (m : Action Manager A) (b : Board) → Quiet b (on_manager m b)
  on_manager-Quiet m b = with_end (m b.manager)
    where
      with_end : (end : Result A × Manager) → Quiet b (on_manager (λ s. end) b)
      with_end (ok a, s) = record {
        in_progress = refl;
        collectors = refl;
        serial = refl;
        returned = refl;
      }
      with_end (raised e, s) = record {
        in_progress = refl;
        collectors = refl;
        serial = refl;
        returned = refl;
      }

  pub on_database-Quiet : (m : Action Database A) (b : Board) → Quiet b (on_database m b)
  on_database-Quiet m b = with_end (m b.database)
    where
      with_end : (end : Result A × Database) → Quiet b (on_database (λ s. end) b)
      with_end (ok a, s) = record {
        in_progress = refl;
        collectors = refl;
        serial = refl;
        returned = refl;
      }
      with_end (raised e, s) = record {
        in_progress = refl;
        collectors = refl;
        serial = refl;
        returned = refl;
      }

-- A quiet action, and then one.
pub Quiet-then :
    {A B : Type 0} (b : Board) (first : Result A × Board) (rest : A → Action Board B)
    → Quiet b first
    → ((a : A) (c : Board) → Quiet c (rest a c))
    → Quiet b (((λ c. first) >>= rest) first.1)
Quiet-then b (ok a, c) rest h k =
    Ends-weaken (λ a d. Same c d) (Same c) (λ a d. Same b d) (Same b) (rest a c) (k a c)
      (λ a d. Same-trans b c d h) (λ d. Same-trans b c d h)
Quiet-then b (raised e, c) rest h k = h

pub find_item-Quiet : (tid : ℕ) (b : Board) → Quiet b (find_item tid b)
find_item-Quiet tid b = with_item (lookup tid b.in_progress)
  where
    with_item : (o : Option Item) → Quiet b (or_raise o key_error b)
    with_item none = same b
    with_item (some item) = same b

pub let_go-Quiet :
    (packages : Packages) (fuel depth tid : ℕ) (fail : Bool) (item : Item) (b : Board)
    → Quiet b (let_go packages fuel depth tid fail item b)
let_go-Quiet packages fuel depth tid fail (single env owner) b =
    on_scheduler-Quiet (del_task packages tid) b
let_go-Quiet packages fuel depth tid fail (whole g) b =
    save_group-Quiet g.return_url (with_error fail g) b
  where
    save_group-Quiet : (url : Option ℕ) (g : Group) (b : Board) → Quiet b (save_group url g b)
    save_group-Quiet none g b = same b
    save_group-Quiet (some url) g b = on_database-Quiet (save_result g) b

run_item-Quiet : (worker : ℕ) (item : Item) (b : Board) → Quiet b (run_item worker item b)
run_item-Quiet worker (single env owner) b = on_manager-Quiet (run_on_worker worker env) b
run_item-Quiet worker (whole g) b = same b

run_all-Quiet : (jobs : List Association) (b : Board) → Quiet b (run_all jobs b)
run_all-Quiet [] b = same b
run_all-Quiet (a ∷ jobs) b =
    Quiet-then b ((find_item a.0 >>= run_item a.1) b) (λ u. run_all jobs)
      (Quiet-then b (find_item a.0 b) (run_item a.1) (find_item-Quiet a.0 b) (run_item-Quiet a.1))
      (λ u. run_all-Quiet jobs)

pub try_execute-Quiet :
    (packages : Packages) (fuel depth : ℕ) (b : Board) → Quiet b (try_execute packages fuel depth b)
unfolding try_execute
try_execute-Quiet packages fuel depth b =
    Quiet-then b
      (on_scheduler
        (schedule packages fuel depth (get_workers b.manager.worker_data b.manager.objects)) b)
      run_all
      (on_scheduler-Quiet
        (schedule packages fuel depth (get_workers b.manager.worker_data b.manager.objects)) b)
      run_all-Quiet
