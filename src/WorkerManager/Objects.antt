-- ===== src/WorkerManager/Objects.antt =====
-- The worker objects and the unanswered calls of workermanager.py: what is kept true of them, and
-- what a write to an object does to it.
use sioworkers.Prelude.{
  ℕ, suc, ◌≡◌, refl, ◌≢◌, ◌≤◌, inl, inr, Bool, true, false, Option, none, some, List, [], ◌∷◌,
  arith, if◌then◌else◌, length, Dict, lookup, insert, erase, IsDict, lookup-insert, lookup-erase,
  ◌==◌, Bool-cases, ◌&&◌, ap,
}
use sioworkers.Ram.{Env}
use sioworkers.Scheduler.Task.{is_real_cpu}
use sioworkers.WorkerManager.{Call, Manager, add_to_set, discard, is_nonempty, refuses}
use sioworkers.WorkerManager.Data.{Worker}

abbrev pub contains : ℕ → List ℕ → Bool
contains x [] = false
contains x (y ∷ l) = if x == y then true else contains x l

-- A worker runs no more tasks than it has places, and an exclusive one alone, where it may.
pub record WorkerOk (w : Worker) : Type 0 where
  pub places : length w.tasks ≤ w.concurrency
  pub alone : w.is_running_cpu_exec ≡ true → (length w.tasks ≤ 1) × (w.can_run_cpu_exec ≡ true)

abbrev pub AllOk : Option Worker → Type 0
AllOk none = Unit {0}
AllOk (some w) = WorkerOk w

abbrev pub holds : ℕ → Option Worker → Bool
holds tid none = false
holds tid (some w) = contains tid w.tasks

abbrev pub Held : ℕ → Option Call → Dict Worker → Type 0
Held tid none objects = Unit {0}
Held tid (some c) objects = holds tid (lookup c.object objects) ≡ true

-- Each object is in order, each unanswered call has its task on its object, no task
-- has two calls, and the process has not been crashed.
pub record Inv (m : Manager) : Type 0 where
  pub objects_ok : (r : ℕ) → AllOk (lookup r m.objects)
  pub calls_held : (tid : ℕ) → Held tid (lookup tid m.deferreds) m.objects
  pub fresh : (r : ℕ) → m.next_object ≤ r → lookup r m.objects ≡ none
  pub deferreds_dict : IsDict m.deferreds
  pub running : m.crashed ≡ false
  pub single : m.older ≡ []

pub contains-discard :
    (x y : ℕ) (l : List ℕ) → contains x l ≡ true → x ≢ y → contains x (discard y l) ≡ true
contains-discard x y [] c n = cc
contains-discard x y (z ∷ l) c n = ground (arith, contains-discard x y l)

pub contains-add_to_set :
    (x y : ℕ) (l : List ℕ) → contains x (add_to_set y l) ≡ (if x == y then true else contains x l)
contains-add_to_set x y [] = ground arith
contains-add_to_set x y (z ∷ l) = ground (arith, contains-add_to_set x y l)

pub length-discard : (x : ℕ) (l : List ℕ) → length (discard x l) ≤ length l
length-discard x [] = omega arith
length-discard x (z ∷ l) = ground (arith, length-discard x l)

pub length-add_to_set : (x : ℕ) (l : List ℕ) → length (add_to_set x l) ≤ suc (length l)
length-add_to_set x [] = omega arith
length-add_to_set x (z ∷ l) = ground (arith, length-add_to_set x l)

pub discard-only :
    (x : ℕ) (l : List ℕ) → contains x l ≡ true → length l ≤ 1 → is_nonempty (discard x l) ≡ false
discard-only x [] c n = refl
discard-only x (y ∷ []) c n = ground arith
discard-only x (y ∷ z ∷ l) c n = absurd (omega arith)

pub free-WorkerOk :
    (tid : ℕ) (w : Worker)
    → WorkerOk w
    → WorkerOk (record w { tasks = discard tid w.tasks; is_running_cpu_exec = false })
free-WorkerOk tid w h = ground (arith, length-discard tid w.tasks)

pub run-WorkerOk :
    (task : Env) (w : Worker)
    → WorkerOk w
    → refuses w task ≡ false
    → WorkerOk (record w {
      tasks = add_to_set task.task_id w.tasks;
      is_running_cpu_exec = if is_real_cpu task.job_type then true else w.is_running_cpu_exec;
    })
unfolding refuses
run-WorkerOk task w h e = ground (arith, length-add_to_set task.task_id w.tasks)

-- Writing an object back.
pub AllOk-insert :
    (objects : Dict Worker) (r : ℕ) (w : Worker) (s : ℕ)
    → AllOk (lookup s objects)
    → WorkerOk w
    → AllOk (lookup s (insert r w objects))
AllOk-insert objects r w s h k = rw (lookup-insert s r w objects) (ground arith)

-- A call keeps its task when the object that is written back still has it.
pub Held-insert :
    (objects : Dict Worker) (r tid : ℕ) (w : Worker) (o : Option Call)
    → Held tid o objects
    → (holds tid (lookup r objects) ≡ true → contains tid w.tasks ≡ true)
    → Held tid o (insert r w objects)
Held-insert objects r tid w none h k = tt
Held-insert objects r tid w (some c) h k =
    rw (lookup-insert c.object r w objects)
      (ground (arith, ap (λ (n : ℕ). holds tid (lookup n objects))))

pub fresh-insert :
    (objects : Dict Worker) (r s next : ℕ) (w : Worker)
    → (next ≤ s → lookup s objects ≡ none)
    → ¬ (lookup r objects ≡ none)
    → next ≤ s
    → lookup s (insert r w objects) ≡ none
fresh-insert objects r s next w h k l =
    rw (lookup-insert s r w objects) (ground (arith, ap (λ (n : ℕ). lookup n objects)))

-- The calls that are left keep their tasks when the task of one goes from its object.
pub Held-erase :
    (d : Dict Call) (objects : Dict Worker) (r tid other : ℕ) (w v : Worker)
    → IsDict d
    → lookup r objects ≡ some w
    → v.tasks ≡ discard tid w.tasks
    → Held other (lookup other d) objects
    → Held other (lookup other (erase tid d)) (insert r v objects)
Held-erase d objects r tid other w v dict f t h =
    rw (lookup-erase other tid d dict) (elim (Bool-cases (other == tid)) [
      | inl e ↦ rw e tt
      | inr e ↦ rw e (
          Held-insert objects r other v (lookup other d) h
            (rw (f, t) (λ c. contains-discard other tid w.tasks c (ground (arith, e)))))
    ])

pub stays_running :
    (tid : ℕ) (w : Worker)
    → WorkerOk w
    → contains tid w.tasks ≡ true
    → (w.is_running_cpu_exec && is_nonempty (discard tid w.tasks)) ≡ false
stays_running tid w ok_w has = ground (arith, discard-only tid w.tasks has)
